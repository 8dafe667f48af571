-- ===== src/Graphic/Console/Drawing.antt =====
-- The console's cells lie on the screen, so that drawing them never fails.
use maizono_os.Base.{
  Bool, true, if◌then◌else◌, ℕ, zero, suc, ◌+◌, ◌*◌, ◌≤◌, ◌<◌, ◌≡◌, refl, false, Option, some,
  arith,
}
use maizono_os.Graphic.FrameBuffer.{Memory}
use maizono_os.Graphic.FrameBuffer.Pixels.{IsValid, word_at}
use maizono_os.Graphic.FrameBuffer.Shapes.{fill_rect-Drawn, write_char-Drawn}
use maizono_os.Graphic.FrameBuffer.Glyphs.{glyph_of_lem}
use maizono_os.Graphic.Screen
use maizono_os.Graphic.Screen.{Screen}
use maizono_os.Graphic.Console.Picture.{shade, char_ink, chars_ink}
use maizono_os.Graphic.Console.{Line, Terminal, unwrap_draw, clear_area, draw_chars}

-- The frame buffer is free, valid, and large enough for 25 lines of 150 characters.
pub record IsReady (s : Screen) : Type 0 where
  pub unlocked : s.locked ≡ false
  pub valid : IsValid s.buf
  pub wide : 1200 ≤ s.buf.width
  pub high : 400 ≤ s.buf.height

-- `result` is the terminal with another content of the memory, in which the pixels of `ink` in the
-- console's area have the colour, and its others are kept.
pub record OnlyDraws (t : Terminal) (ink : ℕ → ℕ → Bool) (color : ℕ) (result : Option Terminal)
    : Type 0 where
  pub memory : Memory
  pub returns : result ≡ some (record t { screen = record t.screen { memory = memory } })
  pub pixels :
      (a b : ℕ)
      → a < 1200
      → b < 400
      → word_at t.screen.buf memory a b
        ≡ (if ink a b then shade t.screen.buf color else word_at t.screen.buf t.screen.memory a b)

pub write_cell-OnlyDraws :
    (t : Terminal) (column row c fg : ℕ)
    → IsReady t.screen
    → column < 150
    → row < 25
    → OnlyDraws t
        (char_ink c column row)
        fg
        (unwrap_draw t (Screen.write_char (8 * column) (16 * row) c fg t.screen))
unfolding unwrap_draw Screen.write_char char_ink
write_cell-OnlyDraws t column row c fg ready p q =
    let (glyph, found, sixteen) = glyph_of_lem c in
    let drawn =
      write_char-Drawn t.screen.buf ready.valid (8 * column) (16 * row) fg
        (omega (arith, ready.wide)) (omega arith) c glyph t.screen.memory found
        (omega (arith, ready.high, sixteen)) (omega (arith, sixteen)) in
    record {
      memory = drawn.out;
      returns = rw (ready.unlocked, drawn.returns);
      pixels = λ a b p q.
          rw found (drawn.pixels a b (omega (arith, ready.wide)) (omega (arith, ready.high)));
    }

pub clear_area-OnlyDraws :
    (t : Terminal) (color : ℕ)
    → IsReady t.screen
    → OnlyDraws t (λ a b. true) color (clear_area t color)
unfolding clear_area Screen.fill_rect
clear_area-OnlyDraws t color ready =
    let drawn =
      fill_rect-Drawn t.screen.buf ready.valid color 0 0 1200 400 t.screen.memory
        (omega (arith, ready.wide)) (omega (arith, ready.high)) (omega arith) (omega arith) in
    record {
      memory = drawn.out;
      returns = rw (ready.unlocked, drawn.returns);
      pixels = λ a b p q.
          ground (arith, drawn.pixels a b (omega (arith, ready.wide)) (omega (arith, ready.high)));
    }

pub draw_chars-OnlyDraws :
    (line : Line) (row i left : ℕ) (t : Terminal)
    → IsReady t.screen
    → row < 25
    → i + left ≤ 150
    → OnlyDraws t
        (chars_ink line.chars row i left)
        t.console.fg_color
        (draw_chars line row i left t)
unfolding draw_chars chars_ink
draw_chars-OnlyDraws line row i zero t ready p q = record {
  memory = t.screen.memory;
  returns = refl;
  pixels = λ a b p q. refl;
}
draw_chars-OnlyDraws line row i (suc left) t ready p q =
    let cell =
      write_cell-OnlyDraws t i row (line.chars i) t.console.fg_color ready (omega arith) p in
    let t' = record t { screen = record t.screen { memory = cell.memory } } in
    let rest =
      draw_chars-OnlyDraws line row (i + 1) left t'
        (record {
          unlocked = ready.unlocked;
          valid = ready.valid;
          wide = ready.wide;
          high = ready.high;
        })
        p (omega arith) in
    record {
      memory = rest.memory;
      returns = rw cell.returns rest.returns;
      pixels = λ a b p q. ground (arith, rest.pixels a b p q, cell.pixels a b p q);
    }
