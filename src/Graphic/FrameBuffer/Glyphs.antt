-- ===== src/Graphic/FrameBuffer/Glyphs.antt =====
-- Every character has a glyph of 16 rows.
use maizono_os.Base.{
  ℕ, zero, suc, ◌<◌, ◌≡◌, refl, Bool, true, ◌&&◌, some, List, [], ◌∷◌, get_elem?, length, arith,
  leb, ◌==◌, Bool-cases, inl, inr,
}
use maizono_os.Graphic.Font.{u8_font}
use maizono_os.Graphic.FrameBuffer.{glyph_of}

all_sixteen : List (List ℕ) → Bool
all_sixteen [] = true
all_sixteen (g ∷ rest) = length g == 16 && all_sixteen rest

font_sixteen : all_sixteen u8_font ≡ true
unfolding all_sixteen u8_font
font_sixteen = refl

length-u8_font : length u8_font ≡ 256
unfolding u8_font
length-u8_font = refl

sixteen_rows :
    (font : List (List ℕ)) (i : ℕ)
    → all_sixteen font ≡ true
    → i < length font
    → (g : List ℕ) × (get_elem? font i ≡ some g) × (length g ≡ 16)
unfolding all_sixteen
sixteen_rows [] i h k = absurd (omega arith)
sixteen_rows (g ∷ rest) zero h k = (g, refl, ground arith)
sixteen_rows (g ∷ rest) (suc i) h k = sixteen_rows rest i (ground arith) (omega arith)

-- For every index, also past the table, a glyph of 16 rows is drawn.
pub glyph_of_lem : (i : ℕ) → (g : List ℕ) × (glyph_of i ≡ some g) × (length g ≡ 16)
unfolding glyph_of
glyph_of_lem i = elim (Bool-cases (leb (length u8_font) i)) [
  | inl past ↦ rw past (sixteen_rows u8_font 0 font_sixteen (omega (arith, length-u8_font)))
  | inr inside ↦ rw inside (sixteen_rows u8_font i font_sixteen (ground (arith, length-u8_font)))
]
