-- ===== src/Graphic/Pixel/Color.antt =====
-- common/src/graphic.rs: `RgbColor`, its word and its conversions, and the message of the error.
use maizono_os.Base.{codes, ℕ, ◌<◌, ◌≡◌, refl, ◌^◌, bit_and, List, arith}
use maizono_os.Word.{u8, ◌>>>◌}
use maizono_os.Word.Masks.{and_field}
use maizono_os.Graphic.Pixel
use maizono_os.Graphic.Pixel.{GraphicError, unsupported_pixel_format, from_be_bytes, pixel_rgb}

abbrev pub msg : GraphicError → List ℕ
msg unsupported_pixel_format = codes "Unsupported pixel format."

record RgbColor : Type 0 where
  value : ℕ

abbrev new : RgbColor
new = record { value = 0x00000000 }

rgb : ℕ → ℕ → ℕ → RgbColor
rgb r g b = record { value = from_be_bytes r g b 0x00 }

abbrev get : RgbColor → ℕ
get color = color.value

to_bgr : RgbColor → RgbColor
to_bgr color =
    let r = u8 (bit_and color.value 0xff000000 >>> 0x18) in
    let g = u8 (bit_and color.value 0xff0000 >>> 0x10) in
    let b = u8 (bit_and color.value 0xff00 >>> 0x8) in record { value = from_be_bytes b g r 0 }

abbrev from_u32 : ℕ → RgbColor
from_u32 value = record { value = value }

-- `RgbColor::from` of the word of a pixel.
from_pixel : ℕ → RgbColor
from_pixel pixel = record { value = bit_and pixel 0xFFFFFF00 }

-- A colour and a pixel of the same channels have the same word, also after the exchange of red and
-- blue, and the conversions between them keep it.
color-pixel :
    (r g b : ℕ)
    → r < 2 ^ 8
    → g < 2 ^ 8
    → b < 2 ^ 8
    → (get (rgb r g b) ≡ pixel_rgb r g b)
      × (get (to_bgr (rgb r g b)) ≡ Pixel.to_bgr (pixel_rgb r g b))
      × (Pixel.from_color (get (rgb r g b)) ≡ pixel_rgb r g b)
      × (get (from_pixel (pixel_rgb r g b)) ≡ get (rgb r g b))
unfolding rgb to_bgr from_pixel pixel_rgb Pixel.to_bgr Pixel.from_color
color-pixel r g b hr hg hb = (refl, refl, kept, kept)
  where
    kept : bit_and (from_be_bytes r g b 0) 0xFFFFFF00 ≡ from_be_bytes r g b 0
    kept = omega (arith, and_field 8 24 (from_be_bytes r g b 0))
