-- ===== src/Graphic/Console/Start.antt =====
-- `Console::init` starts on an empty page.
use maizono_os.Base.{ℕ, ◌<◌, ◌≡◌, refl, [], arith}
use maizono_os.Base.Exec.{Exec, done}
use maizono_os.Error.{Error}
use maizono_os.Graphic.FrameBuffer.Shapes.{fill_rect-Drawn}
use maizono_os.Graphic.Screen
use maizono_os.Graphic.Console.{Terminal, null, init}
use maizono_os.Graphic.Console.Text.{Page, prefix}
use maizono_os.Graphic.FrameBuffer.Pixels.{word_at}
use maizono_os.Graphic.Console.Picture.{shade, lines_ink, chars_ink}
use maizono_os.Graphic.Console.Drawing.{IsReady}
use maizono_os.Graphic.Console.Scroll.{IsReady-memory}
use maizono_os.Graphic.Console.Safety.{Shows}

abbrev pub empty_page : Page
empty_page = record { lines = λ i. []; row = 0 }

-- `result` is a normal return of a console on an empty page, in the given colours, and every pixel
-- of its area has the background's.
pub record IsStarted (bg_color fg_color : ℕ) (result : Exec Terminal Error (Unit {0}))
    : Type 0 where
  pub out : Terminal
  pub returns : result ≡ done tt out
  pub shows : Shows out empty_page
  pub background : out.console.bg_color ≡ bg_color
  pub foreground : out.console.fg_color ≡ fg_color
  pub blank :
      (a b : ℕ)
      → a < 1200
      → b < 400
      → word_at out.screen.buf out.screen.memory a b ≡ shade out.screen.buf bg_color

-- On a free screen of at least 1200 by 400 pixels whose lines have no gap, `init` returns, the
-- console shows an empty page in the given colours, and every pixel of its 1200 by 400 has the
-- background colour, whatever it held before.
pub init-IsStarted :
    (bg_color fg_color : ℕ) (t : Terminal)
    → IsReady t.screen
    → IsStarted bg_color fg_color (init bg_color fg_color t)
unfolding init null Screen.fill_rect prefix lines_ink chars_ink
init-IsStarted bg_color fg_color t ready =
    let drawn =
      fill_rect-Drawn t.screen.buf ready.valid bg_color 0 0 1200 400 t.screen.memory
        (omega (arith, ready.wide)) (omega (arith, ready.high)) (omega arith) (omega arith) in
    let blank : (a b : ℕ)
        → a < 1200
        → b < 400
        → word_at t.screen.buf drawn.out a b ≡ shade t.screen.buf bg_color =
      λ a b p q.
        ground (arith, drawn.pixels a b (omega (arith, ready.wide)) (omega (arith, ready.high))) in
    record {
      out = record {
        console = record {
          buffer = λ i. record { chars = λ j. 0; length = 0 };
          bg_color = bg_color;
          fg_color = fg_color;
          cursor_row = 0;
          cursor_column = 0;
        };
        screen = record t.screen { memory = drawn.out };
      };
      returns = ground (arith, ready.unlocked, drawn.returns);
      shows = record {
        ready = IsReady-memory t.screen drawn.out ready;
        row_in = omega arith;
        column_in = omega arith;
        current = refl;
        below = λ i a b. refl;
        short = λ i a. omega arith;
        same_row = refl;
        same_lines = λ i a. refl;
        picture = blank;
      };
      background = refl;
      foreground = refl;
      blank = blank;
    }
