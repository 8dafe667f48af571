-- ===== src/Graphic/Sample.antt =====
-- A screen of 1200 by 400 pixels with an empty console, for the tests.
use maizono_os.Base.{
  ℕ, ◌+◌, ◌*◌, ◌%◌, ◌≡◌, refl, Bool, false, arith, ◌==◌, if◌then◌else◌, Bool-cases, inl, inr,
}
use maizono_os.Graphic.Pixel.{rgb, le, from_color, pixel_rgb}
use maizono_os.Graphic.FrameBuffer.{FrameBuf, write_pixel_rgb}
use maizono_os.Graphic.FrameBuffer.Pixels.{IsValid, word_at, load_u32}
use maizono_os.Graphic.FrameBuffer.Drawn.{stored}
use maizono_os.Graphic.Console.Picture.{IsPicture, lines_ink}
use maizono_os.Graphic.Screen.{Screen}
use maizono_os.Graphic.Console.{Terminal, new_empty, null}
use maizono_os.Graphic.Console.Text.{prefix}
use maizono_os.Graphic.Console.Drawing.{IsReady}
use maizono_os.Graphic.Console.Safety.{Shows}
use maizono_os.Graphic.Console.Start.{empty_page}
use maizono_os.Graphic.Static.{Static}
use maizono_os.Graphic.Static.Reach.{IsUsable}

abbrev pub small : FrameBuf
small = record {
  width = 1200;
  height = 400;
  bytes_per_pixel = 4;
  stride = 1200;
  pixel_format = rgb;
  framebuf_addr = 0x80000000;
  framebuf_size = 1920000;
  writer = write_pixel_rgb;
}

pub small-IsValid : IsValid small
small-IsValid = record { no_gap = refl; four_bytes = refl; fits = omega arith }

abbrev pub black : ℕ → ℕ
black = λ a. 0

-- Every word is that of the grey 0x282828, in which the empty console is.
abbrev grey : ℕ → ℕ
grey a = if a % 4 == 3 then 0 else 0x28

grey_byte :
    (n : ℕ)
    → ((0x80000000 + n * 4) % 4 ≡ 0)
      × ((0x80000000 + n * 4 + 1) % 4 ≡ 1)
      × ((0x80000000 + n * 4 + 2) % 4 ≡ 2)
      × ((0x80000000 + n * 4 + 3) % 4 ≡ 3)
grey_byte n = (omega arith, omega arith, omega arith, omega arith)

grey_word : (x y : ℕ) → word_at small grey x y ≡ 0x282828
unfolding word_at load_u32
grey_word x y =
    let (zeroth, first, second, third) = grey_byte (y * 1200 + x) in
    rw (zeroth, first, second, third) refl

abbrev pub screen : Screen
screen = record { buf = small; locked = false; memory = grey }

pub screen-IsReady : IsReady screen
screen-IsReady = record {
  unlocked = refl;
  valid = small-IsValid;
  wide = omega arith;
  high = omega arith;
}

abbrev pub terminal : Terminal
terminal = record { console = new_empty; screen = screen }

grey-IsPicture : (ink : ℕ → ℕ → Bool) → IsPicture terminal ink
unfolding new_empty stored le from_color pixel_rgb
grey-IsPicture ink a b p q = elim (Bool-cases (ink a b)) [
  | inl inked ↦ rw inked (grey_word a b)
  | inr blank ↦ rw blank (grey_word a b)
]

pub terminal-Shows : Shows terminal empty_page
unfolding new_empty null prefix
terminal-Shows = record {
  ready = screen-IsReady;
  row_in = omega arith;
  column_in = omega arith;
  current = refl;
  below = λ i h k. refl;
  short = λ i h. omega arith;
  same_row = refl;
  same_lines = λ i h. refl;
  picture = grey-IsPicture (lines_ink terminal.console.buffer 0 25);
}

abbrev pub static_console : Static
static_console = record { terminal = terminal; locked = false }

pub static_console-IsUsable : IsUsable empty_page static_console
static_console-IsUsable = record { unlocked = refl; shows = terminal-Shows }
