-- ===== src/Graphic/Font.antt =====
-- kernel/src/graphic/font.rs: the bitmap font. A glyph is a list of 16 rows of 8 bits.
mod Low
mod High
use maizono_os.Base.{
  ℕ, List, [], ◌∷◌, ◌++◌, Option, none, some, length, get_elem?, leb, if◌then◌else◌,
}
use Low.{glyphs_low}
use High.{glyphs_high}

abbrev pub character_width : ℕ
character_width = 8

abbrev pub character_height : ℕ
character_height = 16

unfoldable pub u8_font : List (List ℕ)
unfolding glyphs_low glyphs_high
u8_font = glyphs_low ++ glyphs_high
