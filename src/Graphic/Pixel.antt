-- ===== src/Graphic/Pixel.antt =====
-- common/src/graphic.rs: pixels, colours and the graphics information of the bootloader. A `Pixel`
-- and an `RgbColor` are their 32-bit word.
pub mod Channels
pub mod Color
use maizono_os.Base.{
  ℕ, ◌+◌, ◌*◌, ◌/◌, ◌%◌, ◌^◌, ◌<◌, ◌≡◌, refl, Bool, true, false, Option, none, some, bit_and, arith,
  if◌then◌else◌,
}
use maizono_os.Word.{u8, u32, ◌>>>◌}
use maizono_os.Word.Masks.{and_mask}

pub data GraphicError : Type 0 where
  unsupported_pixel_format : GraphicError

pub data PixelFormat : Type 0 where
  rgb bgr : PixelFormat

pub data FormatResult : Type 0 where
  ok : PixelFormat → FormatResult
  err : GraphicError → FormatResult

-- The pixel formats of the `uefi` crate.
pub record GopFormats : Type 1 where
  pub Format : Type 0
  pub is_bgr : Format → Bool
  pub is_rgb : Format → Bool

unfoldable pub from_gop_pixel_format_type : (g : GopFormats) → g.Format → FormatResult
from_gop_pixel_format_type g pixel_format =
    if g.is_bgr pixel_format
    then ok bgr
    else if g.is_rgb pixel_format
    then ok rgb
    else err unsupported_pixel_format

pub record GraphicInfo : Type 0 where
  pub width : ℕ
  pub height : ℕ
  pub stride : ℕ
  pub bytes_per_pixel : ℕ
  pub pixel_format : PixelFormat
  pub frame_buffer_addr : ℕ
  pub size : ℕ

-- What `from_gop` reads from the `GraphicsOutput` protocol of the `uefi` crate.
pub record Gop (g : GopFormats) : Type 0 where
  pub resolution : ℕ × ℕ
  pub stride : ℕ
  pub pixel_format : g.Format
  pub frame_buffer_addr : ℕ
  pub frame_buffer_size : ℕ

pub data InfoResult : Type 0 where
  ok : GraphicInfo → InfoResult
  err : GraphicError → InfoResult

unfoldable pub from_gop : (g : GopFormats) → Gop g → InfoResult
unfolding from_gop_pixel_format_type
from_gop g gop = elim (from_gop_pixel_format_type g gop.pixel_format) [
  | ok pixel_format ↦ InfoResult.ok (record {
    width = gop.resolution.0;
    height = gop.resolution.1;
    stride = gop.stride;
    bytes_per_pixel = 4;
    pixel_format = pixel_format;
    frame_buffer_addr = gop.frame_buffer_addr;
    size = gop.frame_buffer_size;
  })
  | err e ↦ InfoResult.err e
]

-- `u32::from_be_bytes` and `u32::swap_bytes`; the target is little-endian, so `u32::from_be` swaps.
abbrev pub from_be_bytes : ℕ → ℕ → ℕ → ℕ → ℕ
from_be_bytes a b c d = a * 2 ^ 24 + b * 2 ^ 16 + c * 2 ^ 8 + d

abbrev pub swap_bytes : ℕ → ℕ
swap_bytes x =
    from_be_bytes (x % 2 ^ 8) (x / 2 ^ 8 % 2 ^ 8) (x / 2 ^ 16 % 2 ^ 8) (x / 2 ^ 24 % 2 ^ 8)

-- `Pixel::rgb` and `RgbColor::rgb`
unfoldable pub pixel_rgb : ℕ → ℕ → ℕ → ℕ
pixel_rgb r g b = from_be_bytes r g b 0

unfoldable pub to_bgr : ℕ → ℕ
to_bgr pixel =
    let r = u8 (bit_and pixel 0xff000000 >>> 0x18) in
    let g = u8 (bit_and pixel 0xff0000 >>> 0x10) in
    let b = u8 (bit_and pixel 0xff00 >>> 0x8) in from_be_bytes b g r 0

unfoldable pub le : ℕ → ℕ
le pixel = swap_bytes pixel

-- `Pixel::from` of a colour, and `RgbColor::from` of a pixel
unfoldable pub from_color : ℕ → ℕ
from_color value = bit_and value 0xFFFFFF00
