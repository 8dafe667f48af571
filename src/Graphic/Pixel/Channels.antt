-- ===== src/Graphic/Pixel/Channels.antt =====
-- The channels of a pixel: red in the top byte, then green and blue; the low byte is unused.
use maizono_os.Base.{ℕ, ◌/◌, ◌%◌, ◌^◌, ◌<◌, ◌≡◌, ap, ◌∙◌, arith}
use maizono_os.Word.Masks.{and_field}
use maizono_os.Graphic.Pixel.{from_be_bytes, pixel_rgb, to_bgr, from_color}

abbrev pub red : ℕ → ℕ
red p = p / 2 ^ 24 % 2 ^ 8

abbrev pub green : ℕ → ℕ
green p = p / 2 ^ 16 % 2 ^ 8

abbrev pub blue : ℕ → ℕ
blue p = p / 2 ^ 8 % 2 ^ 8

pub to_bgr-eq : (p : ℕ) → to_bgr p ≡ pixel_rgb (blue p) (green p) (red p)
unfolding to_bgr pixel_rgb
to_bgr-eq p = omega (arith, and_field 24 8 p, and_field 16 8 p, and_field 8 8 p)

pub from_color-eq : (c : ℕ) → c < 2 ^ 32 → from_color c ≡ pixel_rgb (red c) (green c) (blue c)
unfolding from_color pixel_rgb
from_color-eq c h = omega (arith, and_field 8 24 c)

pub to_bgr-pixel_rgb :
    (r g b : ℕ) → r < 2 ^ 8 → g < 2 ^ 8 → b < 2 ^ 8 → to_bgr (pixel_rgb r g b) ≡ pixel_rgb b g r
unfolding pixel_rgb
to_bgr-pixel_rgb r g b hr hg hb =
    unfold pixel_rgb in omega (arith, to_bgr-eq (from_be_bytes r g b 0))

-- `Pixel::bgr` exchanges the red and the blue of a pixel made by `Pixel::rgb`, so that twice gives
-- the pixel back.
pub to_bgr-to_bgr :
    (r g b : ℕ)
    → r < 2 ^ 8
    → g < 2 ^ 8
    → b < 2 ^ 8
    → (to_bgr (pixel_rgb r g b) ≡ pixel_rgb b g r)
      × (to_bgr (to_bgr (pixel_rgb r g b)) ≡ pixel_rgb r g b)
to_bgr-to_bgr r g b hr hg hb = (
  to_bgr-pixel_rgb r g b hr hg hb,
  ap to_bgr (to_bgr-pixel_rgb r g b hr hg hb) ∙ to_bgr-pixel_rgb b g r hb hg hr,
)
