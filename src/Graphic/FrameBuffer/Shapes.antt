-- ===== src/Graphic/FrameBuffer/Shapes.antt =====
-- What filling, rectangles and characters set in memory.
use native.Mathlib.Nat.{add-zero, add-sub_cancel_left}
use native.Mathlib.Decide.{ℕ_discrete}
use maizono_os.Base.{
  ℕ, zero, suc, ◌+◌, ◌-◌, ◌≤◌, ◌<◌, ◌≡◌, ◌∙◌, ap, Bool, true, false, ◌&&◌, ◌||◌, arith, ltb, leb,
  ◌==◌, if◌then◌else◌, List, [], ◌∷◌, some, length, Bool-cases, inl, inr,
}
use maizono_os.Base.Checked.{add_usize, add_usize_fits, word_limit}
use maizono_os.Base.Exec.{pure, ◌>>=◌, lift, for_range}
use maizono_os.Graphic.Pixel.{from_color}
use maizono_os.Graphic.FrameBuffer.{
  FrameBuf, Memory, write_pixel, fill, fill_rect, is_inked, write_row, write_rows, write_char,
  glyph_of,
}
use maizono_os.Graphic.FrameBuffer.Pixels.{IsValid}
use maizono_os.Graphic.FrameBuffer.Drawn.{
  stored, Drawn, write_pixel-Drawn, skip-Drawn, bind-Drawn, Drawn-ext, any_in, for_range-Drawn,
  any_in-column, any_in-row,
}

module _ (buf : FrameBuf) (valid : IsValid buf) (color : ℕ) where
  -- A column of pixels, as the inner loop of `fill` and `fill_rect` writes it.
  column-Drawn :
      (x y height : ℕ) (memory : Memory)
      → x < buf.width
      → y + height ≤ buf.height
      → Drawn buf
          (λ a b. x == a && (leb y b && ltb b (y + height)))
          (stored buf (from_color color))
          memory
          (for_range y height (λ y_inner. write_pixel buf x y_inner (from_color color)) memory)
  column-Drawn x y height memory p q =
      Drawn-ext buf
        (for_range-Drawn buf (λ j a b. x == a && j == b) (stored buf (from_color color))
          (λ y_inner. write_pixel buf x y_inner (from_color color)) y height memory
          (λ j m lo hi. write_pixel-Drawn buf x j (from_color color) m valid p (omega arith)))
        (λ a b r t. any_in-row y height b (x == a))

  -- On a valid buffer, whose lines have no gap, `fill` returns, and sets every pixel to the colour.
  pub fill-Drawn :
      (memory : Memory)
      → Drawn buf (λ a b. true) (stored buf (from_color color)) memory (fill buf color memory)
  unfolding fill
  fill-Drawn memory =
      Drawn-ext buf
        (for_range-Drawn buf (λ i a b. i == a && (leb 0 b && ltb b (0 + buf.height)))
          (stored buf (from_color color)) _ 0 buf.width memory
          (λ i m lo hi. column-Drawn i 0 buf.height m (omega arith) (omega arith)))
        (λ a b r t. ground (arith, any_in-column 0 buf.width a (leb 0 b && ltb b (0 + buf.height))))

  -- If the rectangle lies inside a valid buffer and its ends are 64-bit numbers, `fill_rect` returns,
  -- sets every pixel of the rectangle to the colour, and changes no other pixel.
  pub fill_rect-Drawn :
      (x y width height : ℕ) (memory : Memory)
      → x + width ≤ buf.width
      → y + height ≤ buf.height
      → x + width < word_limit
      → y + height < word_limit
      → Drawn buf
          (λ a b. (leb x a && ltb a (x + width)) && (leb y b && ltb b (y + height)))
          (stored buf (from_color color))
          memory
          (fill_rect buf x y width height color memory)
  unfolding fill_rect
  fill_rect-Drawn x y width height memory p q u v =
      rw (add_usize_fits x width u, add_usize_fits y height v, add-sub_cancel_left x width)
        (Drawn-ext buf
          (for_range-Drawn buf (λ i a b. i == a && (leb y b && ltb b (y + height)))
            (stored buf (from_color color)) _ x width memory
            (λ i m lo hi.
              rw (add-sub_cancel_left y height)
                (column-Drawn i y height m (omega arith) (omega arith))))
          (λ a b r t. any_in-column x width a (leb y b && ltb b (y + height))))

-- Pixel (a, b) is inked when the glyph is drawn with its corner at (x, y).
abbrev pub glyph_ink : List ℕ → ℕ → ℕ → ℕ → ℕ → Bool
glyph_ink [] x y a b = false
glyph_ink (row ∷ rest) x y a b =
    ((leb x a && ltb a (x + 8)) && (is_inked row (a - x) && y == b)) || glyph_ink rest x (y + 1) a b

any_in-bits :
    (x lo n a : ℕ) (p : ℕ → Bool) (q : Bool)
    → any_in lo n (λ i. p i && (x + i == a && q))
      ≡ ((leb (x + lo) a && ltb a (x + lo + n)) && (p (a - x) && q))
any_in-bits x lo zero a p q = ground arith
any_in-bits x lo (suc n) a p q = elim (ℕ_discrete (x + lo) a) [
  | yes here ↦
      let e : a - x ≡ lo = omega arith in rw e (ground (arith, any_in-bits x (lo + 1) n a p q))
  | no elsewhere ↦ ground (arith, any_in-bits x (lo + 1) n a p q)
]

any_in-bits_from_zero :
    (x n a : ℕ) (p : ℕ → Bool) (q : Bool)
    → any_in 0 n (λ i. p i && (x + i == a && q)) ≡ ((leb x a && ltb a (x + n)) && (p (a - x) && q))
any_in-bits_from_zero x n a p q =
    any_in-bits x 0 n a p q
    ∙ ap (λ (t : ℕ). (leb t a && ltb a (t + n)) && (p (a - x) && q)) (add-zero x)

module _ (buf : FrameBuf) (valid : IsValid buf) (x y fg : ℕ) (fits : x + 8 ≤ buf.width)
    (x_word : x + 8 < word_limit) where
  abbrev row_ink : ℕ → ℕ → ℕ → ℕ → Bool
  row_ink row dy a b = (leb x a && ltb a (x + 8)) && (is_inked row (a - x) && y + dy == b)

  dot-Drawn :
      (row dx dy : ℕ) (memory : Memory)
      → dx < 8
      → y + dy < buf.height
      → y + dy < word_limit
      → Drawn buf
          (λ a b. is_inked row dx && (x + dx == a && y + dy == b))
          (stored buf (from_color fg))
          memory
          ((if is_inked row dx
              then (do
                px ← lift (add_usize x dx)
                py ← lift (add_usize y dy)
                write_pixel buf px py (from_color fg))
              else pure tt)
            memory)
  dot-Drawn row dx dy memory p q r = elim (Bool-cases (is_inked row dx)) [
    | inl inked ↦
        rw (inked, add_usize_fits x dx (omega arith), add_usize_fits y dy r)
          (write_pixel-Drawn buf (x + dx) (y + dy) (from_color fg) memory valid (omega arith) q)
    | inr blank ↦ rw blank (skip-Drawn buf (stored buf (from_color fg)) memory)
  ]

  write_row-Drawn :
      (row dy : ℕ) (memory : Memory)
      → y + dy < buf.height
      → y + dy < word_limit
      → Drawn buf
          (row_ink row dy)
          (stored buf (from_color fg))
          memory
          (write_row buf x y dy row fg memory)
  unfolding write_row
  write_row-Drawn row dy memory q r =
      Drawn-ext buf
        (for_range-Drawn buf (λ dx a b. is_inked row dx && (x + dx == a && y + dy == b))
          (stored buf (from_color fg)) _ 0 8 memory
          (λ dx m lo hi. dot-Drawn row dx dy m (omega arith) q r))
        (λ a b s t. any_in-bits_from_zero x 8 a (is_inked row) (y + dy == b))

  write_rows-Drawn :
      (dy : ℕ) (glyph : List ℕ) (memory : Memory)
      → y + dy + length glyph ≤ buf.height
      → y + dy + length glyph < word_limit
      → Drawn buf
          (glyph_ink glyph x (y + dy))
          (stored buf (from_color fg))
          memory
          (write_rows buf x y dy glyph fg memory)
  unfolding write_rows
  write_rows-Drawn dy [] memory p q = skip-Drawn buf (stored buf (from_color fg)) memory
  write_rows-Drawn dy (row ∷ rest) memory p q =
      let e : y + (dy + 1) ≡ y + dy + 1 = omega arith in
      bind-Drawn buf (write_rows buf x y (dy + 1) rest fg)
        (write_row-Drawn row dy memory (omega arith) (omega arith))
        (λ m. rw (← e) (write_rows-Drawn (dy + 1) rest m (omega arith) (omega arith)))

  -- If the character has a glyph, its cell, 8 wide and as high as the glyph, lies inside a valid
  -- buffer, and the ends of the cell are 64-bit numbers, `write_char` returns, sets the pixels of the
  -- glyph's one bits to the colour, and changes no other pixel.
  pub write_char-Drawn :
      (ascii : ℕ) (glyph : List ℕ) (memory : Memory)
      → glyph_of ascii ≡ some glyph
      → y + length glyph ≤ buf.height
      → y + length glyph < word_limit
      → Drawn buf
          (glyph_ink glyph x y)
          (stored buf (from_color fg))
          memory
          (write_char buf x y ascii fg memory)
  unfolding write_char
  write_char-Drawn ascii glyph memory g p q =
      rw g (rw add-zero at (write_rows-Drawn 0 glyph memory (omega arith) (omega arith)))
