-- ===== src/Graphic/Console.antt =====
-- kernel/src/graphic/console.rs: the text console. `none` is a panic of an `unwrap` or an `expect`.
pub mod Text
pub mod Picture
pub mod Drawing
pub mod Scroll
pub mod Safety
pub mod Start
use maizono_os.Base.{
  ℕ, zero, suc, ◌+◌, ◌-◌, ◌*◌, Bool, true, false, Option, none, some, List, [], ◌∷◌, ltb, leb, ◌==◌,
  if◌then◌else◌, update,
}
use maizono_os.Base.Checked.{◌>>=◌}
use maizono_os.Base.Exec.{Exec, done, fail, panic}
use maizono_os.Error.{Error, console_error, ConsoleError, line_length_overflow, console_lock_error}
use maizono_os.Graphic.Font.{character_width, character_height}
use maizono_os.Graphic.FrameBuffer.{all_ascii}
use maizono_os.Graphic.Pixel.{pixel_rgb}
use maizono_os.Graphic.Screen
use maizono_os.Graphic.Screen.{Screen}

abbrev pub rows : ℕ
rows = 25

abbrev pub columns : ℕ
columns = 150

-- `Line<COLUMNS>`, its array of characters as a function.
pub record Line : Type 0 where
  pub chars : ℕ → ℕ
  pub length : ℕ

pub data LineResult : Type 0 where
  ok : Line → LineResult
  err : Error → LineResult

pub line_new : (ℕ → ℕ) → ℕ → LineResult
line_new chars length =
    if ltb columns length
    then err (console_error line_length_overflow)
    else ok (record { chars = chars; length = length })

unfoldable pub null : Line
null = record { chars = λ i. 0; length = 0 }

unfoldable pub push : Line → ℕ → LineResult
push line char =
    if line.length == columns
    then err (console_error line_length_overflow)
    else ok (record { chars = update line.chars line.length char; length = line.length + 1 })

pub record Console : Type 0 where
  pub buffer : ℕ → Line
  pub bg_color : ℕ
  pub fg_color : ℕ
  pub cursor_row : ℕ
  pub cursor_column : ℕ

unfoldable pub new_empty : Console
unfolding null pixel_rgb
new_empty = record {
  buffer = λ i. null;
  bg_color = pixel_rgb 0x28 0x28 0x28;
  fg_color = pixel_rgb 0x28 0x28 0x28;
  cursor_row = 0;
  cursor_column = 0;
}

-- The console and the screen that its methods draw on.
pub record Terminal : Type 0 where
  pub console : Console
  pub screen : Screen

-- `result.unwrap()` on a call that draws.
pub unwrap_draw : Terminal → Exec Screen Error (Unit {0}) → Option Terminal
unwrap_draw t (done u s) = some (record t { screen = s })
unwrap_draw t (fail e s) = none
unwrap_draw t panic = none

unwrap_line : LineResult → Option Line
unwrap_line (ok line) = some line
unwrap_line (err e) = none

pub clear_area : Terminal → ℕ → Option Terminal
unfolding unwrap_draw
clear_area t color =
    unwrap_draw t
      (Screen.fill_rect 0 0 (columns * character_width) (rows * character_height) color t.screen)

-- `for (i, c) in line.chars[i..i + left].iter().enumerate()`
pub draw_chars : Line → ℕ → ℕ → ℕ → Terminal → Option Terminal
draw_chars line row i zero t = some t
draw_chars line row i (suc left) t =
    unwrap_draw t (
      Screen.write_char (character_width * i) (character_height * row) (line.chars i)
        t.console.fg_color t.screen)
    >>= λ t'. draw_chars line row (i + 1) left t'

-- The body of the loop of `new_line`; slicing past the array panics.
pub scroll_row : ℕ → Terminal → Option Terminal
unfolding draw_chars unwrap_draw
scroll_row row t =
    let line = t.console.buffer (row + 1) in
    let t' = record t {
      console = record t.console { buffer = update t.console.buffer row line };
    } in
    if ltb columns line.length then none else draw_chars line row 0 line.length t'

-- `for row in row..row + left`
pub scroll_rows : ℕ → ℕ → Terminal → Option Terminal
scroll_rows row zero t = some t
scroll_rows row (suc left) t = scroll_row row t >>= λ t'. scroll_rows (row + 1) left t'

pub scroll : Terminal → Option Terminal
scroll t = clear_area t t.console.bg_color >>= λ t. scroll_rows 0 (rows - 1) t >>= λ t.
    some
      (record t { console = record t.console { buffer = update t.console.buffer (rows - 1) null } })

pub new_line : Terminal → Option Terminal
new_line t =
    let t = record t { console = record t.console { cursor_column = 0 } } in
    if ltb t.console.cursor_row (rows - 1)
    then some (record t { console = record t.console { cursor_row = t.console.cursor_row + 1 } })
    else scroll t

-- The branch of `print` that draws a character and stores it.
pub put_char : ℕ → Terminal → Option Terminal
unfolding unwrap_draw unwrap_line
put_char c t =
    let row = t.console.cursor_row in
    unwrap_draw t (
      Screen.write_char (character_width * t.console.cursor_column) (character_height * row) c
        t.console.fg_color t.screen)
    >>= λ t. unwrap_line (push (t.console.buffer row) c) >>= λ line. some (record t {
      console = record t.console {
        buffer = update t.console.buffer row line;
        cursor_column = t.console.cursor_column + 1;
      };
    })

print_char : ℕ → Terminal → Option Terminal
print_char c t =
    if c == 10
    then new_line t
    else if ltb t.console.cursor_column (columns - 1)
    then put_char c t
    else some t

print_chars : List ℕ → Terminal → Option Terminal
print_chars [] t = some t
print_chars (c ∷ rest) t = print_char c t >>= λ t'. print_chars rest t'

-- A text that is not ASCII panics before anything is drawn.
pub print : List ℕ → Terminal → Option Terminal
unfolding print_chars
print s t = if all_ascii s then print_chars s t else none

pub println : List ℕ → Terminal → Option Terminal
println s t = print s t >>= new_line

-- `fmt::Write`
unfoldable pub write_str : List ℕ → Terminal → Option Terminal
write_str s t = print s t

-- `init` returns the error of `fill_rect`, so a failure leaves the console as it was.
pub init : ℕ → ℕ → Terminal → Exec Terminal Error (Unit {0})
unfolding null
init bg_color fg_color t =
    elim (Screen.fill_rect 0 0 (columns * character_width) (rows * character_height) bg_color
      t.screen) [
        | done u s ↦ done tt (record {
          console = record {
            buffer = λ i. null;
            bg_color = bg_color;
            fg_color = fg_color;
            cursor_row = 0;
            cursor_column = 0;
          };
          screen = s;
        })
        | fail e s ↦ fail e (record t { screen = s })
        | panic ↦ panic
      ]
