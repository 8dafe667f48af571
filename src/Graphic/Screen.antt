-- ===== src/Graphic/Screen.antt =====
-- kernel/src/graphic/frame_buffer.rs: the functions of the module, which lock the static frame
-- buffer for one call.
use maizono_os.Base.{ℕ, Bool, if◌then◌else◌}
use maizono_os.Base.Exec.{Exec, done, fail, panic, M}
use maizono_os.Error.{Error, frame_buffer_error}
use maizono_os.Graphic.Pixel.{GraphicInfo}
use maizono_os.Graphic.FrameBuffer
use maizono_os.Graphic.FrameBuffer.{
  FrameBuf, Memory, Draw, FrameBufferError, frame_buffer_lock_error, from_info,
}

-- `FRAME_BUF` with its lock, and the memory.
pub record Screen : Type 0 where
  pub buf : FrameBuf
  pub locked : Bool
  pub memory : Memory

abbrev with_memory : {A : Type 0} → Screen → Exec Memory FrameBufferError A → Exec Screen Error A
with_memory s (done a m) = done a (record s { memory = m })
with_memory s (fail e m) = fail (frame_buffer_error e) (record s { memory = m })
with_memory s panic = panic

-- `frame_buf()?.method(..)?`: the lock is taken if it is free and given back at the end of the call.
abbrev pub with_frame_buf : {A : Type 0} → (FrameBuf → Draw A) → M Screen Error A
with_frame_buf method s =
    if s.locked
    then fail (frame_buffer_error frame_buffer_lock_error) s
    else with_memory s (method s.buf s.memory)

unfoldable pub write_pixel : ℕ → ℕ → ℕ → M Screen Error (Unit {0})
write_pixel x y pixel = with_frame_buf (λ buf. FrameBuffer.write_pixel buf x y pixel)

unfoldable pub write_char : ℕ → ℕ → ℕ → ℕ → M Screen Error (Unit {0})
write_char x y c fg = with_frame_buf (λ buf. FrameBuffer.write_char buf x y c fg)

pub fill : ℕ → M Screen Error (Unit {0})
fill color = with_frame_buf (λ buf. FrameBuffer.fill buf color)

unfoldable pub fill_rect : ℕ → ℕ → ℕ → ℕ → ℕ → M Screen Error (Unit {0})
fill_rect x y width height color =
    with_frame_buf (λ buf. FrameBuffer.fill_rect buf x y width height color)

pub draw_rect : ℕ → ℕ → ℕ → ℕ → ℕ → M Screen Error (Unit {0})
draw_rect x y width height color =
    with_frame_buf (λ buf. FrameBuffer.draw_rect buf x y width height color)

pub width : M Screen Error ℕ
width = with_frame_buf (λ buf m. done (FrameBuffer.get_width buf) m)

pub height : M Screen Error ℕ
height = with_frame_buf (λ buf m. done (FrameBuffer.get_height buf) m)

-- `frame_buf().unwrap().init(..)`: the new frame buffer is stored before it is filled.
unfoldable pub init : GraphicInfo → ℕ → M Screen Error (Unit {0})
init graphic_info bg_color s =
    with_frame_buf (λ buf. FrameBuffer.fill buf bg_color)
      (if s.locked then s else record s { buf = from_info graphic_info })
