-- ===== src/Graphic/Console/Safety.antt =====
-- The console never panics, and its lines are those of the page.
use native.Mathlib.Decide.{ℕ_discrete, dec_lt}
use native.Mathlib.Numerals.{add-one}
use maizono_os.Base.{
  ℕ, ◌+◌, ◌≤◌, ◌<◌, ◌≡◌, refl, sym, ◌∙◌, ap, true, Option, some, List, [], ◌∷◌, ◌++◌, ◌||◌, arith,
  ltb, ◌==◌, if◌then◌else◌, update, length, Bool-cases, inl, inr, lt→ltb, le→ltb,
}
use maizono_os.Graphic.FrameBuffer.{all_ascii}
use maizono_os.Graphic.Console.{
  Line, ok, null, push, Terminal, unwrap_line, new_line, put_char, print_char, print_chars, print,
  println,
}
use maizono_os.Graphic.Console.Text.{
  Page, feed, type_char, page_char, page_print, prefix, length-prefix, prefix-push,
}
use maizono_os.Graphic.Console.Picture.{
  IsPicture, lines_ink, char_ink, lines_ink-put, chars_ink-push,
}
use maizono_os.Graphic.Console.Drawing.{IsReady, write_cell-OnlyDraws}
use maizono_os.Graphic.Console.Scroll.{IsReady-memory, scroll-IsScrolled}

abbrev pub text : Line → List ℕ
text line = prefix line.chars line.length

-- The console is on a screen that can be drawn on, its cursor is at the end of the current line,
-- the lines below are empty, its lines are those of the page, and its area of the screen has the
-- foreground colour in the ink of the lines' characters, each in its cell, and the background's
-- elsewhere.
pub record Shows (t : Terminal) (p : Page) : Type 0 where
  pub ready : IsReady t.screen
  pub row_in : t.console.cursor_row < 25
  pub column_in : t.console.cursor_column ≤ 149
  pub current : (t.console.buffer t.console.cursor_row).length ≡ t.console.cursor_column
  pub below : (i : ℕ) → t.console.cursor_row < i → i < 25 → (t.console.buffer i).length ≡ 0
  pub short : (i : ℕ) → i < 25 → (t.console.buffer i).length ≤ 149
  pub same_row : t.console.cursor_row ≡ p.row
  pub same_lines : (i : ℕ) → i < 25 → text (t.console.buffer i) ≡ p.lines i
  pub picture : IsPicture t (lines_ink t.console.buffer 0 25)

-- `result` is a normal return of a terminal that shows `p`.
pub record Succeeds (p : Page) (result : Option Terminal) : Type 0 where
  pub out : Terminal
  pub returns : result ≡ some out
  pub shows : Shows out p

push-ok :
    (line : Line) (c : ℕ)
    → line.length < 150
    → push line c
      ≡ ok (record { chars = update line.chars line.length c; length = line.length + 1 })
unfolding push
push-ok line c h = ground arith

text-push :
    (line : Line) (c : ℕ)
    → text (record { chars = update line.chars line.length c; length = line.length + 1 })
      ≡ text line ++ (c ∷ [])
text-push line c = rw add-one (prefix-push line.chars line.length c)

put_lines :
    (buffer : ℕ → Line) (lines : ℕ → List ℕ) (row row' c i : ℕ) (line : Line)
    → row ≡ row'
    → text line ≡ text (buffer row) ++ (c ∷ [])
    → text (buffer row) ≡ lines row
    → text (buffer i) ≡ lines i
    → text (update buffer row line i) ≡ update lines row' (lines row' ++ (c ∷ [])) i
put_lines buffer lines row row' c i line e pushed here there = elim (ℕ_discrete row i) [
  | yes same ↦ ground arith
  | no other ↦ ground arith
]

put_picture :
    (t : Terminal) (c a b : ℕ)
    → t.console.cursor_row < 25
    → (t.console.buffer t.console.cursor_row).length ≡ t.console.cursor_column
    → lines_ink
        (update t.console.buffer t.console.cursor_row (record {
          chars =
              update
                (t.console.buffer t.console.cursor_row).chars
                (t.console.buffer t.console.cursor_row).length
                c;
          length = (t.console.buffer t.console.cursor_row).length + 1;
        }))
        0
        25
        a
        b
      ≡ (lines_ink t.console.buffer 0 25 a b
          || char_ink c t.console.cursor_column t.console.cursor_row a b)
put_picture t c a b below at_end =
    let row = t.console.cursor_row in
    let line = t.console.buffer row in
    lines_ink-put a b t.console.buffer
      (record { chars = update line.chars line.length c; length = line.length + 1 })
      (char_ink c t.console.cursor_column row a b) row 0 25 (omega arith) (omega arith)
      (rw add-one (
        rw (← at_end)
          (chars_ink-push a b line.chars row line.length c 0 line.length (omega arith))))

put_char-Succeeds :
    (c : ℕ) (t : Terminal) (p : Page)
    → Shows t p
    → t.console.cursor_column < 149
    → Succeeds
        (record p { lines = update p.lines p.row (p.lines p.row ++ (c ∷ [])) })
        (put_char c t)
unfolding put_char push unwrap_line
put_char-Succeeds c t p s h =
    let row = t.console.cursor_row in
    let column = t.console.cursor_column in
    let line = t.console.buffer row in
    let drawn =
      write_cell-OnlyDraws t column row c t.console.fg_color s.ready (omega arith) s.row_in in
    let line' : Line = record {
      chars = update line.chars line.length c;
      length = line.length + 1;
    } in
    record {
      out = record {
        console = record t.console {
          buffer = update t.console.buffer row line';
          cursor_column = column + 1;
        };
        screen = record t.screen { memory = drawn.memory };
      };
      returns = rw (drawn.returns, push-ok line c (omega (arith, s.current)));
      shows = record {
        ready = IsReady-memory t.screen drawn.memory s.ready;
        row_in = s.row_in;
        column_in = omega arith;
        current = ground (arith, s.current);
        below = λ i a b. ground (arith, s.below i a b);
        short = λ i a. ground (arith, s.short i a, s.current);
        same_row = s.same_row;
        same_lines = λ i a.
            put_lines t.console.buffer p.lines row p.row c i line' s.same_row (text-push line c)
              (s.same_lines row s.row_in) (s.same_lines i a);
        picture = λ a b q r. ground (
          arith,
          put_picture t c a b s.row_in s.current,
          drawn.pixels a b q r,
          s.picture a b q r,
        );
      };
    }

new_line_down :
    (t : Terminal) (p : Page)
    → Shows t p
    → t.console.cursor_row < 24
    → Succeeds (feed p) (new_line t)
unfolding new_line
new_line_down t p s h = record {
  out = record t {
    console = record t.console { cursor_row = t.console.cursor_row + 1; cursor_column = 0 };
  };
  returns = ground arith;
  shows = record {
    ready = s.ready;
    row_in = omega arith;
    column_in = omega arith;
    current = s.below (t.console.cursor_row + 1) (omega arith) (omega arith);
    below = λ i a b. s.below i (omega arith) b;
    short = s.short;
    same_row = ground (arith, s.same_row);
    same_lines = λ i a. ground (arith, s.same_lines i a, s.same_row);
    picture = s.picture;
  };
}

scrolled_line :
    (buffer out : ℕ → Line) (lines : ℕ → List ℕ) (i : ℕ)
    → i < 25
    → out i ≡ (if i == 24 then null else if ltb i 24 then buffer (i + 1) else buffer i)
    → (i < 24 → text (buffer (i + 1)) ≡ lines (i + 1))
    → text (out i) ≡ (if i == 24 then [] else lines (i + 1))
unfolding null prefix
scrolled_line buffer out lines i h e above = elim (ℕ_discrete i 24) [
  | yes last ↦ ground arith
  | no other ↦ ground (arith, above (omega arith))
]

scrolled_length :
    (buffer out : ℕ → Line) (i : ℕ)
    → i < 25
    → out i ≡ (if i == 24 then null else if ltb i 24 then buffer (i + 1) else buffer i)
    → ((j : ℕ) → j < 25 → (buffer j).length ≤ 149)
    → ((out i).length ≤ 149) × (i ≡ 24 → (out i).length ≡ 0)
unfolding null
scrolled_length buffer out i h e short = (ground (arith, short (i + 1)), λ last. ground arith)

new_line_scroll :
    (t : Terminal) (p : Page)
    → Shows t p
    → t.console.cursor_row ≡ 24
    → Succeeds (feed p) (new_line t)
unfolding new_line
new_line_scroll t p s h =
    let t' = record t { console = record t.console { cursor_column = 0 } } in
    let done = scroll-IsScrolled t' s.ready s.short in
    let buffer = t.console.buffer in
    let out = done.out.console.buffer in
    let length_of = λ (i : ℕ) (a : i < 25). scrolled_length buffer out i a (done.moved i) s.short in
    let bottom : done.out.console.cursor_row ≡ 24 = done.same_row ∙ h in
    record {
      out = done.out;
      returns = ground (arith, done.returns);
      shows = record {
        ready = done.ready;
        row_in = omega (arith, bottom);
        column_in = omega (arith, done.same_column);
        current = rw bottom ((length_of 24 (omega arith)).1 refl ∙ sym done.same_column);
        below = λ i a b. absurd (omega (arith, bottom));
        short = λ i a. (length_of i a).0;
        same_row = ground (arith, bottom, s.same_row);
        same_lines = λ i a. ground (
          arith,
          s.same_row,
          scrolled_line buffer out p.lines i a (done.moved i)
              (λ b. s.same_lines (i + 1) (omega arith)),
        );
        picture = done.picture;
      };
    }

pub new_line-Succeeds : (t : Terminal) (p : Page) → Shows t p → Succeeds (feed p) (new_line t)
new_line-Succeeds t p s = elim (dec_lt t.console.cursor_row 24) [
  | yes above ↦ new_line_down t p s above
  | no bottom ↦ new_line_scroll t p s (omega (arith, s.row_in))
]

-- The page's current line is as long as the cursor is far.
line_length :
    (t : Terminal) (p : Page) → Shows t p → length (p.lines p.row) ≡ t.console.cursor_column
line_length t p s =
    let line = t.console.buffer t.console.cursor_row in
    let e : p.lines p.row ≡ text line =
      ap p.lines (sym s.same_row) ∙ sym (s.same_lines t.console.cursor_row s.row_in) in
    ap length e ∙ length-prefix line.chars line.length ∙ s.current

type_char-Succeeds :
    (c : ℕ) (t : Terminal) (p : Page)
    → Shows t p
    → Succeeds (type_char c p) (if ltb t.console.cursor_column 149 then put_char c t else some t)
type_char-Succeeds c t p s = elim (dec_lt t.console.cursor_column 149) [
  | yes room ↦
      rw (lt→ltb _ _ room, line_length t p s, lt→ltb _ _ room) (put_char-Succeeds c t p s room)
  | no full ↦
      rw
        (
          le→ltb t.console.cursor_column 149 (omega arith),
          line_length t p s,
          le→ltb t.console.cursor_column 149 (omega arith),
        )
        (record { out = t; returns = refl; shows = s })
]

print_char-Succeeds :
    (c : ℕ) (t : Terminal) (p : Page) → Shows t p → Succeeds (page_char c p) (print_char c t)
unfolding print_char page_char
print_char-Succeeds c t p s = elim (Bool-cases (c == 10)) [
  | inl feeds ↦ rw feeds (new_line-Succeeds t p s)
  | inr types ↦ rw types (type_char-Succeeds c t p s)
]

print_chars-Succeeds :
    (chars : List ℕ) (t : Terminal) (p : Page)
    → Shows t p
    → Succeeds (page_print chars p) (print_chars chars t)
unfolding print_chars page_print
print_chars-Succeeds [] t p s = record { out = t; returns = refl; shows = s }
print_chars-Succeeds (c ∷ rest) t p s =
    let first = print_char-Succeeds c t p s in
    let others = print_chars-Succeeds rest first.out (page_char c p) first.shows in
    record { out = others.out; returns = rw first.returns others.returns; shows = others.shows }

-- On a free screen of at least 1200 by 400 pixels whose lines have no gap, printing an ASCII text to
-- a console that shows a page never panics, and the console then shows the page with that text typed
-- on it, in its lines and in the pixels of its area.
pub print-Succeeds :
    (chars : List ℕ) (t : Terminal) (p : Page)
    → all_ascii chars ≡ true
    → Shows t p
    → Succeeds (page_print chars p) (print chars t)
unfolding print
print-Succeeds chars t p ascii s = rw ascii (print_chars-Succeeds chars t p s)

-- On a terminal that shows a page, `println` of an ASCII text returns, and the terminal shows the
-- page that the text and then a line feed make of it.
pub println-Succeeds :
    (chars : List ℕ) (t : Terminal) (p : Page)
    → all_ascii chars ≡ true
    → Shows t p
    → Succeeds (feed (page_print chars p)) (println chars t)
unfolding println
println-Succeeds chars t p ascii s =
    let printed = print-Succeeds chars t p ascii s in
    rw printed.returns (new_line-Succeeds printed.out (page_print chars p) printed.shows)
