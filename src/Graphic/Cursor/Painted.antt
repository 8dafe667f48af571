-- ===== src/Graphic/Cursor/Painted.antt =====
-- Drawing pixels of several colours: a rule for each way to combine it.
use maizono_os.Base.{
  ℕ, ◌<◌, ◌≡◌, refl, ◌∙◌, ◌&&◌, Option, none, some, List, ◌==◌, if◌then◌else◌, arith, get_elem?,
}
use maizono_os.Base.Checked.{◌>>=◌}
use maizono_os.Graphic.Pixel.{from_color}
use maizono_os.Graphic.FrameBuffer.{FrameBuf, Memory}
use maizono_os.Graphic.FrameBuffer.Pixels.{word_at}
use maizono_os.Graphic.FrameBuffer.Drawn.{stored, write_pixel-Drawn}
use maizono_os.Graphic.Screen
use maizono_os.Graphic.Screen.{Screen}
use maizono_os.Graphic.Console.Drawing.{IsReady}
use maizono_os.Graphic.Static.{Static}
use maizono_os.Graphic.Cursor.{with_screen, plot, cursor_shape}

-- The colour that each pixel gets, if any.
abbrev pub Paint : Type 0
Paint = ℕ → ℕ → Option ℕ

abbrev pub with_memory : Static → Memory → Static
with_memory s memory = with_screen s (record s.terminal.screen { memory = memory })

abbrev pub painted : FrameBuf → Option ℕ → ℕ → ℕ
painted buf none before = before
painted buf (some color) before = stored buf (from_color color)

-- `result` is the console with the memory changed so that each pixel has its colour, and the pixels
-- without one are as before.
pub record IsPainted (paint : Paint) (s : Static) (result : Option Static) : Type 0 where
  pub memory : Memory
  pub returns : result ≡ some (with_memory s memory)
  pub pixels :
      (a b : ℕ)
      → a < s.terminal.screen.buf.width
      → b < s.terminal.screen.buf.height
      → word_at s.terminal.screen.buf memory a b
        ≡ painted s.terminal.screen.buf
            (paint a b)
            (word_at s.terminal.screen.buf s.terminal.screen.memory a b)

-- The colour of a character, and of pixel (a, b) of the picture.
abbrev pub color_of : ℕ → Option ℕ
color_of c = if c == b'.' then some 0x689d6a00 else if c == b'@' then some 0xfbf1c700 else none

abbrev pub pixel_of : List (List ℕ) → Paint
pixel_of rows a b = get_elem? rows b >>= λ row. get_elem? row a >>= color_of

abbrev pub picture : Paint
picture = pixel_of cursor_shape

abbrev pub over : Option ℕ → Option ℕ → Option ℕ
over (some later) earlier = some later
over none earlier = earlier

painted-over :
    (buf : FrameBuf) (later earlier : Option ℕ) (before : ℕ)
    → painted buf later (painted buf earlier before) ≡ painted buf (over later earlier) before
painted-over buf (some later) earlier before = refl
painted-over buf none earlier before = refl

pub nothing-IsPainted : (s : Static) → IsPainted (λ a b. none) s (some s)
nothing-IsPainted s = record {
  memory = s.terminal.screen.memory;
  returns = refl;
  pixels = λ a b p q. refl;
}

pub then-IsPainted :
    {first second : Paint} {s : Static} {result : Option Static} (rest : Static → Option Static)
    → IsPainted first s result
    → ((m : Memory) → IsPainted second (with_memory s m) (rest (with_memory s m)))
    → IsPainted (λ a b. over (second a b) (first a b)) s (result >>= rest)
then-IsPainted {first = first} {second = second} {s = s} rest d e =
    let after = e d.memory in
    let buf = s.terminal.screen.buf in
    record {
      memory = after.memory;
      returns = rw d.returns after.returns;
      pixels = λ a b p q.
          after.pixels a b p q
          ∙ rw (d.pixels a b p q) (
              painted-over buf (second a b) (first a b) (word_at buf s.terminal.screen.memory a b));
    }

pub IsPainted-ext :
    {first second : Paint} {s : Static} {result : Option Static}
    → IsPainted first s result
    → ((a b : ℕ) → first a b ≡ second a b)
    → IsPainted second s result
IsPainted-ext d e = record {
  memory = d.memory;
  returns = d.returns;
  pixels = λ a b p q. d.pixels a b p q ∙ rw (e a b) refl;
}

pub plot-IsPainted :
    (x y color : ℕ) (s : Static)
    → IsReady s.terminal.screen
    → x < 15
    → y < 15
    → IsPainted (λ a b. (if x == a && y == b then some color else none)) s (plot x y color s)
unfolding plot Screen.write_pixel
plot-IsPainted x y color s ready p q =
    let drawn =
      write_pixel-Drawn s.terminal.screen.buf x y (from_color color) s.terminal.screen.memory
        ready.valid (omega (arith, ready.wide)) (omega (arith, ready.high)) in
    record {
      memory = drawn.out;
      returns = rw (ready.unlocked, drawn.returns);
      pixels = λ a b r t. ground (arith, drawn.pixels a b r t);
    }
