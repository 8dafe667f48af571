-- ===== src/Graphic/FrameBuffer.antt =====
-- kernel/src/graphic/frame_buffer.rs: drawing into the linear frame buffer. The memory is a function
-- from addresses to bytes, and a method reads its frame buffer and changes the memory.
pub mod Pixels
pub mod Drawn
pub mod Shapes
pub mod Glyphs
use maizono_os.Base.{
  ℕ, zero, suc, ◌+◌, ◌-◌, ◌*◌, ◌/◌, ◌%◌, ◌^◌, Bool, true, false, not, ◌&&◌, ◌||◌, Option, none,
  some, List, [], ◌∷◌, bit_and, ltb, leb, ◌==◌, if◌then◌else◌, get_elem?, length,
}
use maizono_os.Base.Checked
use maizono_os.Base.Checked.{add_usize, mul_usize, sub_usize}
use maizono_os.Base.Exec.{
  Exec, done, fail, panic, M, pure, throw, lift, bind, ◌>>=◌, ◌>>◌, for_range,
}
use maizono_os.Word.{◌>>>◌}
use maizono_os.Graphic.Pixel.{PixelFormat, rgb, bgr, GraphicInfo, to_bgr, le, from_color}
use maizono_os.Graphic.Font.{u8_font, character_width}

pub data FrameBufferError : Type 0 where
  unsupported_pixel_format_error not_initialized_error outside_buffer_error : FrameBufferError
  frame_buffer_lock_error unsupported_character_error : FrameBufferError

-- The function that the field `write_pixel` points at.
pub data Writer : Type 0 where
  write_pixel_rgb write_pixel_bgr : Writer

pub record FrameBuf : Type 0 where
  pub width : ℕ
  pub height : ℕ
  pub bytes_per_pixel : ℕ
  pub stride : ℕ
  pub pixel_format : PixelFormat
  pub framebuf_addr : ℕ
  pub framebuf_size : ℕ
  pub writer : Writer

abbrev pub Memory : Type 0
Memory = ℕ → ℕ

abbrev pub Draw : Type 0 → Type 0
Draw A = M Memory FrameBufferError A

unfoldable pub new : FrameBuf
new = record {
  width = 0;
  height = 0;
  bytes_per_pixel = 0;
  stride = 0;
  pixel_format = bgr;
  framebuf_addr = 0;
  framebuf_size = 0;
  writer = write_pixel_bgr;
}

-- A store of a `u32` at an address, in little-endian order.
abbrev pub store_u32 : Memory → ℕ → ℕ → Memory
store_u32 memory addr v a =
    if a == addr
    then v % 2 ^ 8
    else if a == addr + 1
    then v / 2 ^ 8 % 2 ^ 8
    else if a == addr + 2
    then v / 2 ^ 16 % 2 ^ 8
    else if a == addr + 3
    then v / 2 ^ 24 % 2 ^ 8
    else memory a

-- The glyph of a character; the garbled one stands for those past the table.
pub glyph_of : ℕ → Option (List ℕ)
glyph_of glyph_index =
    if leb (length u8_font) glyph_index then get_elem? u8_font 0 else get_elem? u8_font glyph_index

-- `as_ascii` succeeds.
unfoldable pub all_ascii : List ℕ → Bool
all_ascii [] = true
all_ascii (c ∷ rest) = ltb c 128 && all_ascii rest

-- `(row >> 7 - dx) & 1 == 1`
pub is_inked : ℕ → ℕ → Bool
is_inked row dx = bit_and (row >>> (7 - dx)) 1 == 1

module _ (buf : FrameBuf) where
  open buf use {width, height, bytes_per_pixel, framebuf_addr, writer}

  pub is_inside_buffer : ℕ → ℕ → Bool
  is_inside_buffer x y = not (leb width x || leb height y)

  abbrev pub get_width : ℕ
  get_width = width

  abbrev pub get_height : ℕ
  get_height = height

  -- `(self_.framebuf_addr + offset as u64) as *mut u32`
  pub pixel_ref : ℕ → ℕ → Option ℕ
  pixel_ref x y = Checked.◌>>=◌ (mul_usize y width) λ rows.
      Checked.◌>>=◌ (add_usize rows x) λ index.
        Checked.◌>>=◌ (mul_usize index bytes_per_pixel) λ offset. add_usize framebuf_addr offset

  -- `*pixel_ref = value`, behind the guard that both writers share.
  pub store_pixel : ℕ → ℕ → ℕ → Draw (Unit {0})
  unfolding is_inside_buffer pixel_ref
  store_pixel x y value memory =
      if not (is_inside_buffer x y)
      then fail outside_buffer_error memory
      else bind (lift (pixel_ref x y) memory) (λ addr m. done tt (store_u32 m addr value))

  -- `write_pixel_rgb`, `write_pixel_bgr`, and the method that calls the one that is set.
  pub write_pixel : ℕ → ℕ → ℕ → Draw (Unit {0})
  unfolding store_pixel
  write_pixel x y pixel = elim writer [
    | write_pixel_rgb ↦ store_pixel x y (le pixel)
    | write_pixel_bgr ↦ store_pixel x y (le (to_bgr pixel))
  ]

  pub fill : ℕ → Draw (Unit {0})
  fill color = for_range 0 width λ x. for_range 0 height λ y. write_pixel x y (from_color color)

  -- The end of each range is computed before its first round.
  pub fill_rect : ℕ → ℕ → ℕ → ℕ → ℕ → Draw (Unit {0})
  fill_rect x y width height color = do
    end_x ← lift (add_usize x width)
    for_range x (end_x - x) λ x_inner. do
      end_y ← lift (add_usize y height)
      for_range y (end_y - y) λ y_inner. write_pixel x_inner y_inner (from_color color)

  pub draw_rect : ℕ → ℕ → ℕ → ℕ → ℕ → Draw (Unit {0})
  draw_rect x y width height color = do
    end_x ← lift (add_usize x width)
    for_range x (end_x - x) λ x_inner. do
      write_pixel x_inner y (from_color color)
      end_y ← lift (add_usize y height)
      last_y ← lift (sub_usize end_y 1)
      write_pixel x_inner last_y (from_color color)
    end_y ← lift (add_usize y height)
    for_range y (end_y - y) λ y_inner. do
      write_pixel x y_inner (from_color color)
      end_x ← lift (add_usize x width)
      last_x ← lift (sub_usize end_x 1)
      write_pixel last_x y_inner (from_color color)

  -- The inner loop of `write_char` over one row.
  pub write_row : ℕ → ℕ → ℕ → ℕ → ℕ → Draw (Unit {0})
  unfolding is_inked
  write_row x y dy row fg = for_range 0 character_width λ dx.
      if is_inked row dx
      then (do
        px ← lift (add_usize x dx)
        py ← lift (add_usize y dy)
        write_pixel px py (from_color fg))
      else pure tt

  -- `for (dy, row) in glyph.iter().enumerate()`, from row `dy` on.
  pub write_rows : ℕ → ℕ → ℕ → List ℕ → ℕ → Draw (Unit {0})
  unfolding write_row
  write_rows x y dy [] fg = pure tt
  write_rows x y dy (row ∷ rest) fg = do write_row x y dy row fg; write_rows x y (dy + 1) rest fg

  pub write_char : ℕ → ℕ → ℕ → ℕ → Draw (Unit {0})
  unfolding write_rows
  write_char x y ascii fg = do glyph ← lift (glyph_of ascii); write_rows x y 0 glyph fg

  -- The characters from index `i` on.
  write_chars : ℕ → ℕ → ℕ → List ℕ → ℕ → Draw (Unit {0})
  write_chars x y i [] fg = pure tt
  write_chars x y i (c ∷ rest) fg = do
    step ← lift (mul_usize i character_width)
    step ← lift (mul_usize step 2)
    char_x ← lift (add_usize x step)
    write_char char_x y c fg
    write_chars x y (i + 1) rest fg

  pub write_string : ℕ → ℕ → List ℕ → ℕ → Draw (Unit {0})
  unfolding write_chars
  write_string x y text fg = if all_ascii text then write_chars x y 0 text fg else lift none

-- The frame buffer that `init` stores before it fills it.
unfoldable pub from_info : GraphicInfo → FrameBuf
from_info graphic_info = record {
  width = graphic_info.width;
  height = graphic_info.height;
  bytes_per_pixel = graphic_info.bytes_per_pixel;
  stride = graphic_info.stride;
  pixel_format = graphic_info.pixel_format;
  framebuf_addr = graphic_info.frame_buffer_addr;
  framebuf_size = graphic_info.size;
  writer = elim graphic_info.pixel_format [ rgb ↦ write_pixel_rgb | bgr ↦ write_pixel_bgr ];
}
