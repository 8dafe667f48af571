-- ===== src/Graphic/Console/Picture.antt =====
-- The pixels of the console: which of them the characters of its lines ink.
use native.Mathlib.Decide.{ℕ_discrete}
use maizono_os.Base.{
  ℕ, zero, suc, ◌+◌, ◌*◌, ◌≤◌, ◌<◌, ◌≡◌, refl, Bool, false, ◌||◌, Option, none, some, List, arith,
  update, if◌then◌else◌,
}
use maizono_os.Graphic.Pixel.{from_color}
use maizono_os.Graphic.FrameBuffer.{FrameBuf, glyph_of}
use maizono_os.Graphic.FrameBuffer.Pixels.{word_at}
use maizono_os.Graphic.FrameBuffer.Drawn.{stored}
use maizono_os.Graphic.FrameBuffer.Shapes.{glyph_ink}
use maizono_os.Graphic.Console.{Line, Terminal}

-- The word in memory for a colour.
abbrev pub shade : FrameBuf → ℕ → ℕ
shade buf color = stored buf (from_color color)

abbrev pub glyph_at : Option (List ℕ) → ℕ → ℕ → ℕ → ℕ → Bool
glyph_at none column row a b = false
glyph_at (some glyph) column row a b = glyph_ink glyph (8 * column) (16 * row) a b

-- Pixel (a, b) is inked by the character in a cell of 8 by 16 pixels.
unfoldable pub char_ink : ℕ → ℕ → ℕ → ℕ → ℕ → Bool
char_ink c column row a b = glyph_at (glyph_of c) column row a b

-- The characters `i .. i + left` of a line, each in its column.
unfoldable pub chars_ink : (ℕ → ℕ) → ℕ → ℕ → ℕ → ℕ → ℕ → Bool
chars_ink chars row i zero a b = false
chars_ink chars row i (suc left) a b =
    char_ink (chars i) i row a b || chars_ink chars row (i + 1) left a b

abbrev pub line_ink : Line → ℕ → ℕ → ℕ → Bool
line_ink line row a b = chars_ink line.chars row 0 line.length a b

-- The lines `row .. row + left`, each in its row.
unfoldable pub lines_ink : (ℕ → Line) → ℕ → ℕ → ℕ → ℕ → Bool
lines_ink buffer row zero a b = false
lines_ink buffer row (suc left) a b =
    line_ink (buffer row) row a b || lines_ink buffer (row + 1) left a b

-- The console's area is in the foreground colour where `ink` holds, and else in the background's.
abbrev pub IsPicture : Terminal → (ℕ → ℕ → Bool) → Type 0
IsPicture t ink =
    (a b : ℕ)
    → a < 1200
    → b < 400
    → word_at t.screen.buf t.screen.memory a b ≡ (
        if ink a b
        then shade t.screen.buf t.console.fg_color
        else shade t.screen.buf t.console.bg_color)

module _ (a b : ℕ) where
  pub chars_ink-push :
      (chars : ℕ → ℕ) (row n c i left : ℕ)
      → i + left ≡ n
      → chars_ink (update chars n c) row i (suc left) a b
        ≡ (chars_ink chars row i left a b || char_ink c n row a b)
  unfolding chars_ink
  chars_ink-push chars row n c i zero e = ground arith
  chars_ink-push chars row n c i (suc left) e =
      ground (arith, chars_ink-push chars row n c (i + 1) left (omega arith))

  pub lines_ink-ext :
      (first second : ℕ → Line) (row left : ℕ)
      → ((i : ℕ) → row ≤ i → i < row + left → first i ≡ second i)
      → lines_ink first row left a b ≡ lines_ink second row left a b
  unfolding lines_ink
  lines_ink-ext first second row zero same = refl
  lines_ink-ext first second row (suc left) same =
      rw
        (
          same row (omega arith) (omega arith),
          lines_ink-ext first second (row + 1) left (λ i p q. same i (omega arith) (omega arith)),
        )
        refl

  pub lines_ink-last :
      (buffer : ℕ → Line) (row left : ℕ)
      → (buffer (row + left)).length ≡ 0
      → lines_ink buffer row (suc left) a b ≡ lines_ink buffer row left a b
  unfolding lines_ink chars_ink
  lines_ink-last buffer row zero e = ground arith
  lines_ink-last buffer row (suc left) e =
      ground (arith, lines_ink-last buffer (row + 1) left (ground arith))

  -- More ink in one line.
  pub lines_ink-put :
      (buffer : ℕ → Line) (line : Line) (more : Bool) (at row left : ℕ)
      → row ≤ at
      → at < row + left
      → line_ink line at a b ≡ (line_ink (buffer at) at a b || more)
      → lines_ink (update buffer at line) row left a b ≡ (lines_ink buffer row left a b || more)
  unfolding lines_ink
  lines_ink-put buffer line more at row zero p q e = absurd (omega arith)
  lines_ink-put buffer line more at row (suc left) p q e = elim (ℕ_discrete at row) [
    | yes here ↦
        ground (
          arith,
          lines_ink-ext (update buffer at line) buffer (row + 1) left (λ i u v. ground arith),
        )
    | no elsewhere ↦
        ground
          (arith, lines_ink-put buffer line more at (row + 1) left (omega arith) (omega arith) e)
  ]
