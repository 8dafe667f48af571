-- ===== src/Graphic/Cursor.antt =====
-- kernel/src/graphic/mouse.rs: the cursor of the mouse. The texts that it prints are what `core::fmt`
-- makes of its arguments.
pub mod Painted
pub mod Picture
use maizono_os.Base.{codes, ℕ, ◌+◌, Option, none, some, List, [], ◌∷◌, leb, ◌==◌, if◌then◌else◌}
use maizono_os.Base.Checked.{◌>>=◌}
use maizono_os.Base.Exec.{Exec, done, fail, panic}
use maizono_os.Error.{Error}
use maizono_os.Graphic.Pixel.{from_color}
use maizono_os.Graphic.Screen
use maizono_os.Graphic.Screen.{Screen}
use maizono_os.Graphic.Static.{Static, kprintln}

abbrev pub cursor_width : ℕ
cursor_width = 15

abbrev pub cursor_height : ℕ
cursor_height = 15

unfoldable pub cursor_shape : List (List ℕ)
cursor_shape =
    codes "      @@@      "
    ∷ codes "    @@...@@    "
    ∷ codes "   @.......@   "
    ∷ codes "  @...@@@...@  "
    ∷ codes " @...@   @...@ "
    ∷ codes " @..@     @..@ "
    ∷ codes "@..@       @..@"
    ∷ codes "@..@       @..@"
    ∷ codes "@..@       @..@"
    ∷ codes " @..@     @..@ "
    ∷ codes " @...@   @...@ "
    ∷ codes "  @...@@@...@  "
    ∷ codes "   @.......@   "
    ∷ codes "    @@...@@    "
    ∷ codes "      @@@      "
    ∷ []

-- The pieces that the three warnings print, from the height, the width and the character.
pub record Messages : Type 0 where
  pub too_high : ℕ → List (List ℕ)
  pub too_wide : ℕ → List (List ℕ)
  pub unexpected : ℕ → List (List ℕ)

abbrev pub with_screen : Static → Screen → Static
with_screen s screen = record s { terminal = record s.terminal { screen = screen } }

-- A result that is not looked at.
abbrev pub dropped : Static → Exec Screen Error (Unit {0}) → Option Static
dropped s (done u screen) = some (with_screen s screen)
dropped s (fail e screen) = some (with_screen s screen)
dropped s panic = none

unfoldable pub plot : ℕ → ℕ → ℕ → Static → Option Static
plot x y color s = dropped s (Screen.write_pixel x y (from_color color) s.terminal.screen)

module _ (messages : Messages) where
  -- The `match` on the character.
  unfoldable pub draw_dot : ℕ → ℕ → ℕ → Static → Option Static
  unfolding plot
  draw_dot x y c s =
      if c == b' '
      then some s
      else if c == b'.'
      then plot x y 0x689d6a00 s
      else if c == b'@'
      then plot x y 0xfbf1c700 s
      else kprintln (messages.unexpected c) s

  -- `for (x, c) in row.chars().enumerate()`, from column `x` on.
  unfoldable pub draw_row : ℕ → ℕ → List ℕ → Static → Option Static
  unfolding draw_dot
  draw_row y x [] s = some s
  draw_row y x (c ∷ rest) s =
      (if leb cursor_width x then kprintln (messages.too_wide (x + 1)) s else some s)
      >>= draw_dot x y c
      >>= draw_row y (x + 1) rest

  -- `for (y, row) in CURSOR_SHAPE_STR.into_iter().enumerate()`, from row `y` on.
  unfoldable pub draw_rows : ℕ → List (List ℕ) → Static → Option Static
  unfolding draw_row
  draw_rows y [] s = some s
  draw_rows y (row ∷ rest) s =
      (if leb cursor_height y then kprintln (messages.too_high (y + 1)) s else some s)
      >>= draw_row y 0 row
      >>= draw_rows (y + 1) rest

  unfoldable pub draw_cursor : Static → Option Static
  unfolding draw_rows cursor_shape
  draw_cursor = draw_rows 0 cursor_shape
