-- ===== src/Graphic/Console/Scroll.antt =====
-- Scrolling: every line moves up by one and the last becomes empty.
use maizono_os.Base.{
  ℕ, zero, suc, ◌+◌, ◌≤◌, ◌<◌, ◌≡◌, refl, ◌∙◌, Bool, ◌&&◌, Option, some, arith, ltb, leb, ◌==◌,
  if◌then◌else◌, update, le→ltb,
}
use maizono_os.Graphic.FrameBuffer.{Memory}
use maizono_os.Graphic.Screen.{Screen}
use maizono_os.Graphic.Console.{Line, null, Terminal, scroll_row, scroll_rows, scroll}
use maizono_os.Graphic.FrameBuffer.Pixels.{word_at}
use maizono_os.Graphic.Console.Picture.{
  shade, line_ink, lines_ink, lines_ink-ext, lines_ink-last, IsPicture,
}
use maizono_os.Graphic.Console.Drawing.{IsReady, clear_area-OnlyDraws, draw_chars-OnlyDraws}

-- A screen with another memory is as ready.
pub IsReady-memory : (s : Screen) (m : Memory) → IsReady s → IsReady (record s { memory = m })
IsReady-memory s m r = record {
  unlocked = r.unlocked;
  valid = r.valid;
  wide = r.wide;
  high = r.high;
}

-- The terminal with other lines and another memory.
abbrev redrawn : Terminal → (ℕ → Line) → Memory → Terminal
redrawn t buffer memory = record {
  console = record t.console { buffer = buffer };
  screen = record t.screen { memory = memory };
}

-- In the console's area `memory` has the foreground colour where `ink` holds, and is else kept.
abbrev IsInked : Terminal → (ℕ → ℕ → Bool) → Memory → Type 0
IsInked t ink memory =
    (a b : ℕ)
    → a < 1200
    → b < 400
    → word_at t.screen.buf memory a b ≡ (
        if ink a b
        then shade t.screen.buf t.console.fg_color
        else word_at t.screen.buf t.screen.memory a b)

-- `result` is a normal return in which line `row + 1` has been copied to `row` and drawn there.
record RowScrolled (t : Terminal) (row : ℕ) (result : Option Terminal) : Type 0 where
  memory : Memory
  returns :
      result ≡ some (redrawn t (update t.console.buffer row (t.console.buffer (row + 1))) memory)
  pixels : IsInked t (line_ink (t.console.buffer (row + 1)) row) memory

scroll_row-RowScrolled :
    (t : Terminal) (row : ℕ)
    → IsReady t.screen
    → row < 24
    → (t.console.buffer (row + 1)).length ≤ 149
    → RowScrolled t row (scroll_row row t)
unfolding scroll_row
scroll_row-RowScrolled t row ready h short =
    let line = t.console.buffer (row + 1) in
    let t' = record t {
      console = record t.console { buffer = update t.console.buffer row line };
    } in
    let drawn =
      draw_chars-OnlyDraws line row 0 line.length t' ready (omega arith) (omega (arith, short)) in
    record {
      memory = drawn.memory;
      returns = rw (le→ltb 150 line.length (omega arith)) drawn.returns;
      pixels = drawn.pixels;
    }

-- `result` is a normal return in which the lines below the rows `row .. row + left` moved up, and
-- were drawn there.
record Scrolled (t : Terminal) (row left : ℕ) (result : Option Terminal) : Type 0 where
  buffer : ℕ → Line
  memory : Memory
  returns : result ≡ some (redrawn t buffer memory)
  moved :
      (i : ℕ)
      → buffer i
        ≡ (if leb row i && ltb i (row + left) then t.console.buffer (i + 1) else t.console.buffer i)
  pixels : IsInked t (lines_ink (λ i. t.console.buffer (i + 1)) row left) memory

scroll_rows-Scrolled :
    (row left : ℕ) (t : Terminal)
    → IsReady t.screen
    → row + left ≤ 24
    → ((i : ℕ) → i < 25 → (t.console.buffer i).length ≤ 149)
    → Scrolled t row left (scroll_rows row left t)
unfolding scroll_rows lines_ink
scroll_rows-Scrolled row zero t ready h short = record {
  buffer = t.console.buffer;
  memory = t.screen.memory;
  returns = refl;
  moved = λ i. ground arith;
  pixels = λ a b p q. refl;
}
scroll_rows-Scrolled row (suc left) t ready h short =
    let moved = scroll_row-RowScrolled t row ready (omega arith) (short (row + 1) (omega arith)) in
    let buffer = update t.console.buffer row (t.console.buffer (row + 1)) in
    let rest =
      scroll_rows-Scrolled (row + 1) left (redrawn t buffer moved.memory)
        (IsReady-memory t.screen moved.memory ready) (omega arith)
        (λ i a. ground (arith, short i a, short (row + 1))) in
    record {
      buffer = rest.buffer;
      memory = rest.memory;
      returns = rw moved.returns rest.returns;
      moved = λ i. ground (arith, rest.moved i);
      pixels = λ a b p q. ground (
        arith,
        rest.pixels a b p q,
        moved.pixels a b p q,
        lines_ink-ext a b (λ i. buffer (i + 1)) (λ i. t.console.buffer (i + 1)) (row + 1) left
            (λ i u v. ground arith),
      );
    }

-- `result` is a normal return of `scroll`.
pub record IsScrolled (t : Terminal) (result : Option Terminal) : Type 0 where
  pub out : Terminal
  pub returns : result ≡ some out
  pub ready : IsReady out.screen
  pub same_row : out.console.cursor_row ≡ t.console.cursor_row
  pub same_column : out.console.cursor_column ≡ t.console.cursor_column
  pub moved :
      (i : ℕ)
      → out.console.buffer i ≡ (
          if i == 24
          then null
          else if ltb i 24
          then t.console.buffer (i + 1)
          else t.console.buffer i)
  pub picture : IsPicture out (lines_ink out.console.buffer 0 25)

abbrev shifted : (ℕ → Line) → ℕ → Line
shifted buffer i = buffer (i + 1)

-- The last line is empty, and the others are those that have been drawn.
scrolled_ink :
    (buffer drawn : ℕ → Line) (a b : ℕ)
    → ((i : ℕ) → i < 24 → drawn i ≡ buffer (i + 1))
    → lines_ink (update drawn 24 null) 0 25 a b ≡ lines_ink (shifted buffer) 0 24 a b
unfolding null
scrolled_ink buffer drawn a b moved =
    lines_ink-last a b (update drawn 24 null) 0 24 refl
    ∙ lines_ink-ext a b (update drawn 24 null) (shifted buffer) 0 24
        (λ i u v. ground (arith, moved i v))

pub scroll-IsScrolled :
    (t : Terminal)
    → IsReady t.screen
    → ((i : ℕ) → i < 25 → (t.console.buffer i).length ≤ 149)
    → IsScrolled t (scroll t)
unfolding scroll
scroll-IsScrolled t ready short =
    let cleared = clear_area-OnlyDraws t t.console.bg_color ready in
    let t' = record t { screen = record t.screen { memory = cleared.memory } } in
    let rest =
      scroll_rows-Scrolled 0 24 t' (IsReady-memory t.screen cleared.memory ready) (omega arith)
        short in
    record {
      out = redrawn t (update rest.buffer 24 null) rest.memory;
      returns = rw (cleared.returns, rest.returns);
      ready = IsReady-memory t.screen rest.memory ready;
      same_row = refl;
      same_column = refl;
      moved = λ i. ground (arith, rest.moved i);
      picture = λ a b p q.
          rw (scrolled_ink t.console.buffer rest.buffer a b (λ i u. ground (arith, rest.moved i)))
            (rw (← cleared.pixels a b p q) (rest.pixels a b p q));
    }
