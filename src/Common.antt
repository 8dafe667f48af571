-- ===== src/Common.antt =====
-- common/src/address.rs, common/src/array.rs, common/src/error.rs, and the records of
-- common/src/boot.rs with their methods; kernel/src/graphic/char.rs and the conversions of
-- kernel/src/error.rs. A pointer is its address.
use maizono_os.Base.{ℕ, Bool, List, ◌==◌}
use maizono_os.Error.{ConsoleError, Error, frame_buffer_error, console_error}
use maizono_os.Graphic.FrameBuffer.{FrameBufferError}
use maizono_os.Graphic.Pixel.{GraphicError}
use maizono_os.Graphic.Pixel.Color

record PhysPtr : Type 0 where
  ptr : ℕ

abbrev null : PhysPtr
null = record { ptr = 0 }

abbrev from_ptr : ℕ → PhysPtr
from_ptr ptr = record { ptr = ptr }

abbrev is_null : PhysPtr → Bool
is_null p = p.ptr == 0

abbrev get : PhysPtr → ℕ
get p = p.ptr

abbrev set : PhysPtr → ℕ → PhysPtr
set p ptr = record p { ptr = ptr }

record AlignedArray64 (T : Type 0) : Type 0 where
  array : List T

abbrev from_array : {T : Type 0} → List T → AlignedArray64 T
from_array array = record { array = array }

-- `common::error::Error`, its message, and its conversion.
data CommonError : Type 0 where
  graphic_error : GraphicError → CommonError

abbrev msg : CommonError → List ℕ
msg (graphic_error graphic_err) = Color.msg graphic_err

abbrev from_graphic_error : GraphicError → CommonError
from_graphic_error err = graphic_error err

abbrev from_frame_buffer_error : FrameBufferError → Error
from_frame_buffer_error err = frame_buffer_error err

abbrev from_console_error : ConsoleError → Error
from_console_error err = console_error err

record AsciiChar : Type 0 where
  code : ℕ

abbrev new_ascii_char : ℕ → AsciiChar
new_ascii_char code = record { code = code }
