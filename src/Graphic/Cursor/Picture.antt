-- ===== src/Graphic/Cursor/Picture.antt =====
-- The cursor is drawn on every screen that holds the console, and nothing is printed.
use native.Mathlib.Decide.{ℕ_discrete, dec_lt}
use maizono_os.Base.{
  ℕ, Bool-cases, inl, inr, suc, ◌+◌, ◌-◌, ◌≤◌, ◌<◌, ◌≡◌, refl, Bool, true, false, ◌&&◌, ◌||◌,
  Option, none, some, List, [], ◌∷◌, leb, ◌==◌, if◌then◌else◌, arith, get_elem?, length,
}
use maizono_os.Base.Checked.{◌>>=◌}
use maizono_os.Graphic.Console.Drawing.{IsReady}
use maizono_os.Graphic.Console.Scroll.{IsReady-memory}
use maizono_os.Graphic.Static.{Static}
use maizono_os.Graphic.Cursor.{Messages, draw_dot, draw_row, draw_rows, draw_cursor, cursor_shape}
use maizono_os.Graphic.Cursor.Painted.{
  Paint, with_memory, IsPainted, color_of, pixel_of, picture, over, nothing-IsPainted,
  then-IsPainted, IsPainted-ext, plot-IsPainted,
}

-- A character for which nothing is printed.
abbrev is_known : ℕ → Bool
is_known c = c == b' ' || (c == b'.' || c == b'@')

all_known : List ℕ → Bool
all_known [] = true
all_known (c ∷ rest) = is_known c && all_known rest

-- The rows are known, and no longer than the cursor is wide.
all_fit : List (List ℕ) → Bool
all_fit [] = true
all_fit (row ∷ rest) = (all_known row && leb (length row) 15) && all_fit rest

abbrev row_paint : List ℕ → ℕ → ℕ → Paint
row_paint row x y a b = if leb x a && y == b then get_elem? row (a - x) >>= color_of else none

over-none : (o : Option ℕ) → over o none ≡ o
over-none none = refl
over-none (some c) = refl

row_step :
    (x y c : ℕ) (rest : List ℕ) (a b : ℕ)
    → over (row_paint rest (x + 1) y a b) (if x == a && y == b then color_of c else none)
      ≡ row_paint (c ∷ rest) x y a b
row_step x y c rest a b = elim (dec_lt x a) [
  | yes later ↦
      let e : a - x ≡ suc (a - (x + 1)) = omega arith in
      let away : (x == a) ≡ false = ground arith in
      let next : leb (x + 1) a ≡ true = ground arith in
      let past : leb x a ≡ true = ground arith in rw (e, away, next, past) (over-none _)
  | no not_later ↦ elim (ℕ_discrete x a) [
    | yes here ↦
        let e : a - x ≡ 0 = omega arith in
        let same : (x == a) ≡ true = ground arith in
        let next : leb (x + 1) a ≡ false = ground arith in
        let past : leb x a ≡ true = ground arith in rw (e, same, next, past) refl
    | no before ↦
        let same : (x == a) ≡ false = ground arith in
        let next : leb (x + 1) a ≡ false = ground arith in
        let past : leb x a ≡ false = ground arith in rw (same, next, past) refl
  ]
]

abbrev rows_paint : List (List ℕ) → ℕ → Paint
rows_paint rows y a b = if leb y b then pixel_of rows a (b - y) else none

rows_step :
    (y : ℕ) (row : List ℕ) (rest : List (List ℕ)) (a b : ℕ)
    → over (rows_paint rest (y + 1) a b) (row_paint row 0 y a b) ≡ rows_paint (row ∷ rest) y a b
rows_step y row rest a b = elim (dec_lt y b) [
  | yes later ↦
      let e : b - y ≡ suc (b - (y + 1)) = omega arith in
      let away : (y == b) ≡ false = ground arith in
      let next : leb (y + 1) b ≡ true = ground arith in
      let past : leb y b ≡ true = ground arith in
      let first : leb 0 a ≡ true = ground arith in rw (e, away, next, past, first) (over-none _)
  | no not_later ↦ elim (ℕ_discrete y b) [
    | yes here ↦
        let e : b - y ≡ 0 = omega arith in
        let same : (y == b) ≡ true = ground arith in
        let next : leb (y + 1) b ≡ false = ground arith in
        let past : leb y b ≡ true = ground arith in
        let first : leb 0 a ≡ true = ground arith in
        let column : a - 0 ≡ a = omega arith in rw (e, same, next, past, first, column) refl
    | no before ↦
        let same : (y == b) ≡ false = ground arith in
        let next : leb (y + 1) b ≡ false = ground arith in
        let past : leb y b ≡ false = ground arith in
        let first : leb 0 a ≡ true = ground arith in rw (same, next, past, first) refl
  ]
]

first_row : (rows : List (List ℕ)) (a b : ℕ) → rows_paint rows 0 a b ≡ pixel_of rows a b
first_row rows a b =
    let first : leb 0 b ≡ true = ground arith in
    let row : b - 0 ≡ b = omega arith in rw (first, row) refl

module _ (messages : Messages) where
  draw_dot-IsPainted :
      (x y c : ℕ) (s : Static)
      → IsReady s.terminal.screen
      → x < 15
      → y < 15
      → is_known c ≡ true
      → IsPainted
          (λ a b. (if x == a && y == b then color_of c else none))
          s
          (draw_dot messages x y c s)
  unfolding draw_dot
  draw_dot-IsPainted x y c s ready p q known = elim (Bool-cases (c == b' ')) [
    | inl blank ↦ rw blank (IsPainted-ext (nothing-IsPainted s) (λ a b. ground arith))
    | inr inked ↦ elim (Bool-cases (c == b'.')) [
      | inl dot ↦ rw (inked, dot) (plot-IsPainted x y 0x689d6a00 s ready p q)
      | inr other ↦
          let at : (c == b'@') ≡ true = ground arith in
          rw (inked, other, at) (plot-IsPainted x y 0xfbf1c700 s ready p q)
    ]
  ]

  draw_row-IsPainted :
      (y x : ℕ) (row : List ℕ) (s : Static)
      → IsReady s.terminal.screen
      → y < 15
      → x + length row ≤ 15
      → all_known row ≡ true
      → IsPainted (row_paint row x y) s (draw_row messages y x row s)
  unfolding draw_row all_known
  draw_row-IsPainted y x [] s ready p q known =
      IsPainted-ext (nothing-IsPainted s) (λ a b. ground arith)
  draw_row-IsPainted y x (c ∷ rest) s ready p q known =
      let inside : leb 15 x ≡ false = ground arith in
      rw inside (
        IsPainted-ext
          (then-IsPainted (draw_row messages y (x + 1) rest)
            (draw_dot-IsPainted x y c s ready (omega arith) p (ground arith))
            (λ m.
              draw_row-IsPainted y (x + 1) rest (with_memory s m)
                (IsReady-memory s.terminal.screen m ready) p (omega arith) (ground arith)))
          (row_step x y c rest))

  draw_rows-IsPainted :
      (y : ℕ) (rows : List (List ℕ)) (s : Static)
      → IsReady s.terminal.screen
      → y + length rows ≤ 15
      → all_fit rows ≡ true
      → IsPainted (rows_paint rows y) s (draw_rows messages y rows s)
  unfolding draw_rows all_fit
  draw_rows-IsPainted y [] s ready p fit = IsPainted-ext (nothing-IsPainted s) (λ a b. ground arith)
  draw_rows-IsPainted y (row ∷ rest) s ready p fit =
      let inside : leb 15 y ≡ false = ground arith in
      rw inside (
        IsPainted-ext
          (then-IsPainted (draw_rows messages (y + 1) rest)
            (draw_row-IsPainted y 0 row s ready (omega arith) (ground arith) (ground arith))
            (λ m.
              draw_rows-IsPainted (y + 1) rest (with_memory s m)
                (IsReady-memory s.terminal.screen m ready) (omega arith) (ground arith)))
          (rows_step y row rest))

  -- On a free screen that holds the console and whose lines have no gap, `draw_cursor` returns without a warning, gives each pixel
  -- of the picture its colour in the upper left corner of the screen, and changes nothing else.
  pub draw_cursor-IsPainted :
      (s : Static) → IsReady s.terminal.screen → IsPainted picture s (draw_cursor messages s)
  unfolding draw_cursor cursor_shape all_known all_fit
  draw_cursor-IsPainted s ready =
      IsPainted-ext (draw_rows-IsPainted 0 cursor_shape s ready (omega arith) refl)
        (first_row cursor_shape)
