-- ===== src/Graphic/Font/High.antt =====
-- kernel/src/graphic/font.rs: rows of the glyphs 128 to 255.
use maizono_os.Base.{ℕ, List, [], ◌∷◌}

unfoldable pub glyphs_high : List (List ℕ)
glyphs_high =
    (0 ∷ 0 ∷ 0 ∷ 0 ∷ 0 ∷ 28 ∷ 34 ∷ 120 ∷ 32 ∷ 120 ∷ 34 ∷ 28 ∷ 0 ∷ 0 ∷ 0 ∷ 0 ∷ [])
    ∷ (0 ∷ 0 ∷ 0 ∷ 0 ∷ 0 ∷ 0 ∷ 0 ∷ 0 ∷ 0 ∷ 0 ∷ 0 ∷ 0 ∷ 0 ∷ 0 ∷ 0 ∷ 0 ∷ [])
    ∷ (0 ∷ 0 ∷ 0 ∷ 0 ∷ 0 ∷ 0 ∷ 0 ∷ 0 ∷ 0 ∷ 0 ∷ 24 ∷ 8 ∷ 8 ∷ 16 ∷ 0 ∷ 0 ∷ [])
    ∷ (0 ∷ 12 ∷ 16 ∷ 16 ∷ 16 ∷ 60 ∷ 16 ∷ 16 ∷ 16 ∷ 16 ∷ 16 ∷ 16 ∷ 16 ∷ 96 ∷ 0 ∷ 0 ∷ [])
    ∷ (0 ∷ 0 ∷ 0 ∷ 0 ∷ 0 ∷ 0 ∷ 0 ∷ 0 ∷ 0 ∷ 0 ∷ 108 ∷ 36 ∷ 36 ∷ 72 ∷ 0 ∷ 0 ∷ [])
    ∷ (0 ∷ 0 ∷ 0 ∷ 0 ∷ 0 ∷ 0 ∷ 0 ∷ 0 ∷ 0 ∷ 0 ∷ 0 ∷ 84 ∷ 0 ∷ 0 ∷ 0 ∷ 0 ∷ [])
    ∷ (0 ∷ 16 ∷ 16 ∷ 16 ∷ 124 ∷ 16 ∷ 16 ∷ 16 ∷ 16 ∷ 16 ∷ 16 ∷ 16 ∷ 0 ∷ 0 ∷ 0 ∷ 0 ∷ [])
    ∷ (0 ∷ 16 ∷ 16 ∷ 16 ∷ 124 ∷ 16 ∷ 16 ∷ 16 ∷ 124 ∷ 16 ∷ 16 ∷ 16 ∷ 0 ∷ 0 ∷ 0 ∷ 0 ∷ [])
    ∷ (0 ∷ 16 ∷ 40 ∷ 68 ∷ 0 ∷ 0 ∷ 0 ∷ 0 ∷ 0 ∷ 0 ∷ 0 ∷ 0 ∷ 0 ∷ 0 ∷ 0 ∷ 0 ∷ [])
    ∷ (0 ∷ 0 ∷ 0 ∷ 0 ∷ 72 ∷ 72 ∷ 16 ∷ 16 ∷ 32 ∷ 32 ∷ 84 ∷ 84 ∷ 0 ∷ 0 ∷ 0 ∷ 0 ∷ [])
    ∷ (0 ∷ 36 ∷ 24 ∷ 60 ∷ 66 ∷ 64 ∷ 64 ∷ 60 ∷ 2 ∷ 2 ∷ 66 ∷ 60 ∷ 0 ∷ 0 ∷ 0 ∷ 0 ∷ [])
    ∷ (0 ∷ 0 ∷ 0 ∷ 0 ∷ 0 ∷ 0 ∷ 16 ∷ 32 ∷ 64 ∷ 32 ∷ 16 ∷ 0 ∷ 0 ∷ 0 ∷ 0 ∷ 0 ∷ [])
    ∷ (0 ∷ 0 ∷ 0 ∷ 62 ∷ 72 ∷ 72 ∷ 72 ∷ 76 ∷ 72 ∷ 72 ∷ 72 ∷ 62 ∷ 0 ∷ 0 ∷ 0 ∷ 0 ∷ [])
    ∷ (0 ∷ 0 ∷ 0 ∷ 0 ∷ 0 ∷ 0 ∷ 0 ∷ 0 ∷ 0 ∷ 0 ∷ 0 ∷ 0 ∷ 0 ∷ 0 ∷ 0 ∷ 0 ∷ [])
    ∷ (0 ∷ 36 ∷ 24 ∷ 126 ∷ 4 ∷ 8 ∷ 16 ∷ 16 ∷ 32 ∷ 32 ∷ 64 ∷ 126 ∷ 0 ∷ 0 ∷ 0 ∷ 0 ∷ [])
    ∷ (0 ∷ 0 ∷ 0 ∷ 0 ∷ 0 ∷ 0 ∷ 0 ∷ 0 ∷ 0 ∷ 0 ∷ 0 ∷ 0 ∷ 0 ∷ 0 ∷ 0 ∷ 0 ∷ [])
    ∷ (0 ∷ 0 ∷ 0 ∷ 0 ∷ 0 ∷ 0 ∷ 0 ∷ 0 ∷ 0 ∷ 0 ∷ 0 ∷ 0 ∷ 0 ∷ 0 ∷ 0 ∷ 0 ∷ [])
    ∷ (0 ∷ 8 ∷ 16 ∷ 16 ∷ 24 ∷ 0 ∷ 0 ∷ 0 ∷ 0 ∷ 0 ∷ 0 ∷ 0 ∷ 0 ∷ 0 ∷ 0 ∷ 0 ∷ [])
    ∷ (0 ∷ 24 ∷ 8 ∷ 8 ∷ 16 ∷ 0 ∷ 0 ∷ 0 ∷ 0 ∷ 0 ∷ 0 ∷ 0 ∷ 0 ∷ 0 ∷ 0 ∷ 0 ∷ [])
    ∷ (0 ∷ 18 ∷ 36 ∷ 36 ∷ 54 ∷ 0 ∷ 0 ∷ 0 ∷ 0 ∷ 0 ∷ 0 ∷ 0 ∷ 0 ∷ 0 ∷ 0 ∷ 0 ∷ [])
    ∷ (0 ∷ 108 ∷ 36 ∷ 36 ∷ 72 ∷ 0 ∷ 0 ∷ 0 ∷ 0 ∷ 0 ∷ 0 ∷ 0 ∷ 0 ∷ 0 ∷ 0 ∷ 0 ∷ [])
    ∷ (0 ∷ 0 ∷ 0 ∷ 0 ∷ 0 ∷ 0 ∷ 16 ∷ 56 ∷ 124 ∷ 56 ∷ 16 ∷ 0 ∷ 0 ∷ 0 ∷ 0 ∷ 0 ∷ [])
    ∷ (0 ∷ 0 ∷ 0 ∷ 0 ∷ 0 ∷ 0 ∷ 0 ∷ 0 ∷ 126 ∷ 0 ∷ 0 ∷ 0 ∷ 0 ∷ 0 ∷ 0 ∷ 0 ∷ [])
    ∷ (0 ∷ 0 ∷ 0 ∷ 0 ∷ 0 ∷ 0 ∷ 0 ∷ 0 ∷ 255 ∷ 0 ∷ 0 ∷ 0 ∷ 0 ∷ 0 ∷ 0 ∷ 0 ∷ [])
    ∷ (0 ∷ 0 ∷ 0 ∷ 52 ∷ 88 ∷ 0 ∷ 0 ∷ 0 ∷ 0 ∷ 0 ∷ 0 ∷ 0 ∷ 0 ∷ 0 ∷ 0 ∷ 0 ∷ [])
    ∷ (0 ∷ 0 ∷ 0 ∷ 122 ∷ 46 ∷ 42 ∷ 42 ∷ 0 ∷ 0 ∷ 0 ∷ 0 ∷ 0 ∷ 0 ∷ 0 ∷ 0 ∷ 0 ∷ [])
    ∷ (0 ∷ 0 ∷ 36 ∷ 24 ∷ 0 ∷ 60 ∷ 66 ∷ 64 ∷ 60 ∷ 2 ∷ 66 ∷ 60 ∷ 0 ∷ 0 ∷ 0 ∷ 0 ∷ [])
    ∷ (0 ∷ 0 ∷ 0 ∷ 0 ∷ 0 ∷ 0 ∷ 64 ∷ 32 ∷ 16 ∷ 32 ∷ 64 ∷ 0 ∷ 0 ∷ 0 ∷ 0 ∷ 0 ∷ [])
    ∷ (0 ∷ 0 ∷ 0 ∷ 0 ∷ 0 ∷ 108 ∷ 146 ∷ 146 ∷ 158 ∷ 144 ∷ 146 ∷ 108 ∷ 0 ∷ 0 ∷ 0 ∷ 0 ∷ [])
    ∷ (0 ∷ 0 ∷ 0 ∷ 0 ∷ 0 ∷ 0 ∷ 0 ∷ 0 ∷ 0 ∷ 0 ∷ 0 ∷ 0 ∷ 0 ∷ 0 ∷ 0 ∷ 0 ∷ [])
    ∷ (0 ∷ 0 ∷ 36 ∷ 24 ∷ 0 ∷ 126 ∷ 4 ∷ 8 ∷ 16 ∷ 32 ∷ 64 ∷ 126 ∷ 0 ∷ 0 ∷ 0 ∷ 0 ∷ [])
    ∷ (0 ∷ 40 ∷ 40 ∷ 130 ∷ 130 ∷ 130 ∷ 68 ∷ 40 ∷ 16 ∷ 16 ∷ 16 ∷ 16 ∷ 0 ∷ 0 ∷ 0 ∷ 0 ∷ [])
    ∷ (0 ∷ 0 ∷ 0 ∷ 0 ∷ 0 ∷ 0 ∷ 0 ∷ 0 ∷ 0 ∷ 0 ∷ 0 ∷ 0 ∷ 0 ∷ 0 ∷ 0 ∷ 0 ∷ [])
    ∷ (0 ∷ 0 ∷ 0 ∷ 0 ∷ 16 ∷ 16 ∷ 0 ∷ 0 ∷ 16 ∷ 16 ∷ 16 ∷ 16 ∷ 16 ∷ 16 ∷ 0 ∷ 0 ∷ [])
    ∷ (0 ∷ 0 ∷ 0 ∷ 0 ∷ 16 ∷ 56 ∷ 84 ∷ 80 ∷ 80 ∷ 80 ∷ 84 ∷ 56 ∷ 16 ∷ 0 ∷ 0 ∷ 0 ∷ [])
    ∷ (0 ∷ 0 ∷ 0 ∷ 24 ∷ 36 ∷ 32 ∷ 32 ∷ 120 ∷ 32 ∷ 32 ∷ 32 ∷ 94 ∷ 0 ∷ 0 ∷ 0 ∷ 0 ∷ [])
    ∷ (0 ∷ 0 ∷ 0 ∷ 0 ∷ 0 ∷ 66 ∷ 60 ∷ 36 ∷ 36 ∷ 60 ∷ 66 ∷ 0 ∷ 0 ∷ 0 ∷ 0 ∷ 0 ∷ [])
    ∷ (0 ∷ 0 ∷ 130 ∷ 130 ∷ 130 ∷ 68 ∷ 40 ∷ 16 ∷ 124 ∷ 16 ∷ 124 ∷ 16 ∷ 0 ∷ 0 ∷ 0 ∷ 0 ∷ [])
    ∷ (0 ∷ 16 ∷ 16 ∷ 16 ∷ 16 ∷ 16 ∷ 0 ∷ 0 ∷ 0 ∷ 0 ∷ 16 ∷ 16 ∷ 16 ∷ 16 ∷ 16 ∷ 0 ∷ [])
    ∷ (0 ∷ 0 ∷ 60 ∷ 66 ∷ 32 ∷ 88 ∷ 68 ∷ 66 ∷ 34 ∷ 26 ∷ 4 ∷ 66 ∷ 60 ∷ 0 ∷ 0 ∷ 0 ∷ [])
    ∷ (0 ∷ 102 ∷ 102 ∷ 0 ∷ 0 ∷ 0 ∷ 0 ∷ 0 ∷ 0 ∷ 0 ∷ 0 ∷ 0 ∷ 0 ∷ 0 ∷ 0 ∷ 0 ∷ [])
    ∷ (0 ∷ 0 ∷ 0 ∷ 60 ∷ 66 ∷ 74 ∷ 82 ∷ 82 ∷ 82 ∷ 74 ∷ 66 ∷ 60 ∷ 0 ∷ 0 ∷ 0 ∷ 0 ∷ [])
    ∷ (0 ∷ 0 ∷ 0 ∷ 48 ∷ 8 ∷ 56 ∷ 72 ∷ 72 ∷ 56 ∷ 0 ∷ 0 ∷ 0 ∷ 0 ∷ 0 ∷ 0 ∷ 0 ∷ [])
    ∷ (0 ∷ 0 ∷ 0 ∷ 0 ∷ 0 ∷ 0 ∷ 18 ∷ 36 ∷ 72 ∷ 36 ∷ 18 ∷ 0 ∷ 0 ∷ 0 ∷ 0 ∷ 0 ∷ [])
    ∷ (0 ∷ 0 ∷ 0 ∷ 0 ∷ 0 ∷ 0 ∷ 0 ∷ 60 ∷ 4 ∷ 4 ∷ 4 ∷ 0 ∷ 0 ∷ 0 ∷ 0 ∷ 0 ∷ [])
    ∷ (0 ∷ 0 ∷ 0 ∷ 0 ∷ 0 ∷ 0 ∷ 0 ∷ 0 ∷ 0 ∷ 0 ∷ 0 ∷ 0 ∷ 0 ∷ 0 ∷ 0 ∷ 0 ∷ [])
    ∷ (0 ∷ 0 ∷ 0 ∷ 60 ∷ 66 ∷ 90 ∷ 86 ∷ 90 ∷ 86 ∷ 86 ∷ 66 ∷ 60 ∷ 0 ∷ 0 ∷ 0 ∷ 0 ∷ [])
    ∷ (255 ∷ 0 ∷ 0 ∷ 0 ∷ 0 ∷ 0 ∷ 0 ∷ 0 ∷ 0 ∷ 0 ∷ 0 ∷ 0 ∷ 0 ∷ 0 ∷ 0 ∷ 0 ∷ [])
    ∷ (0 ∷ 0 ∷ 0 ∷ 56 ∷ 68 ∷ 68 ∷ 68 ∷ 56 ∷ 0 ∷ 0 ∷ 0 ∷ 0 ∷ 0 ∷ 0 ∷ 0 ∷ 0 ∷ [])
    ∷ (0 ∷ 0 ∷ 0 ∷ 0 ∷ 16 ∷ 16 ∷ 124 ∷ 16 ∷ 16 ∷ 0 ∷ 124 ∷ 0 ∷ 0 ∷ 0 ∷ 0 ∷ 0 ∷ [])
    ∷ (0 ∷ 0 ∷ 112 ∷ 8 ∷ 16 ∷ 32 ∷ 64 ∷ 120 ∷ 0 ∷ 0 ∷ 0 ∷ 0 ∷ 0 ∷ 0 ∷ 0 ∷ 0 ∷ [])
    ∷ (0 ∷ 0 ∷ 112 ∷ 8 ∷ 48 ∷ 8 ∷ 8 ∷ 112 ∷ 0 ∷ 0 ∷ 0 ∷ 0 ∷ 0 ∷ 0 ∷ 0 ∷ 0 ∷ [])
    ∷ (0 ∷ 24 ∷ 16 ∷ 32 ∷ 0 ∷ 0 ∷ 0 ∷ 0 ∷ 0 ∷ 0 ∷ 0 ∷ 0 ∷ 0 ∷ 0 ∷ 0 ∷ 0 ∷ [])
    ∷ (0 ∷ 0 ∷ 0 ∷ 0 ∷ 0 ∷ 36 ∷ 36 ∷ 36 ∷ 36 ∷ 36 ∷ 52 ∷ 40 ∷ 32 ∷ 32 ∷ 64 ∷ 0 ∷ [])
    ∷ (0 ∷ 0 ∷ 0 ∷ 62 ∷ 116 ∷ 116 ∷ 116 ∷ 52 ∷ 20 ∷ 20 ∷ 20 ∷ 20 ∷ 20 ∷ 20 ∷ 0 ∷ 0 ∷ [])
    ∷ (0 ∷ 0 ∷ 0 ∷ 0 ∷ 0 ∷ 0 ∷ 16 ∷ 56 ∷ 16 ∷ 0 ∷ 0 ∷ 0 ∷ 0 ∷ 0 ∷ 0 ∷ 0 ∷ [])
    ∷ (0 ∷ 0 ∷ 0 ∷ 0 ∷ 0 ∷ 0 ∷ 0 ∷ 0 ∷ 0 ∷ 0 ∷ 0 ∷ 8 ∷ 4 ∷ 56 ∷ 0 ∷ 0 ∷ [])
    ∷ (0 ∷ 0 ∷ 32 ∷ 96 ∷ 32 ∷ 32 ∷ 32 ∷ 112 ∷ 0 ∷ 0 ∷ 0 ∷ 0 ∷ 0 ∷ 0 ∷ 0 ∷ 0 ∷ [])
    ∷ (0 ∷ 0 ∷ 0 ∷ 48 ∷ 72 ∷ 72 ∷ 72 ∷ 72 ∷ 48 ∷ 0 ∷ 0 ∷ 0 ∷ 0 ∷ 0 ∷ 0 ∷ 0 ∷ [])
    ∷ (0 ∷ 0 ∷ 0 ∷ 0 ∷ 0 ∷ 0 ∷ 72 ∷ 36 ∷ 18 ∷ 36 ∷ 72 ∷ 0 ∷ 0 ∷ 0 ∷ 0 ∷ 0 ∷ [])
    ∷ (0 ∷ 2 ∷ 34 ∷ 100 ∷ 36 ∷ 40 ∷ 8 ∷ 16 ∷ 18 ∷ 38 ∷ 46 ∷ 66 ∷ 66 ∷ 0 ∷ 0 ∷ 0 ∷ [])
    ∷ (0 ∷ 2 ∷ 34 ∷ 100 ∷ 36 ∷ 40 ∷ 8 ∷ 16 ∷ 20 ∷ 42 ∷ 34 ∷ 68 ∷ 78 ∷ 0 ∷ 0 ∷ 0 ∷ [])
    ∷ (0 ∷ 2 ∷ 98 ∷ 36 ∷ 68 ∷ 40 ∷ 104 ∷ 16 ∷ 18 ∷ 38 ∷ 46 ∷ 66 ∷ 66 ∷ 0 ∷ 0 ∷ 0 ∷ [])
    ∷ (0 ∷ 0 ∷ 0 ∷ 0 ∷ 8 ∷ 8 ∷ 0 ∷ 8 ∷ 8 ∷ 48 ∷ 64 ∷ 64 ∷ 66 ∷ 60 ∷ 0 ∷ 0 ∷ [])
    ∷ (0 ∷ 16 ∷ 8 ∷ 0 ∷ 24 ∷ 36 ∷ 36 ∷ 36 ∷ 60 ∷ 66 ∷ 66 ∷ 66 ∷ 0 ∷ 0 ∷ 0 ∷ 0 ∷ [])
    ∷ (0 ∷ 8 ∷ 16 ∷ 0 ∷ 24 ∷ 36 ∷ 36 ∷ 36 ∷ 60 ∷ 66 ∷ 66 ∷ 66 ∷ 0 ∷ 0 ∷ 0 ∷ 0 ∷ [])
    ∷ (0 ∷ 24 ∷ 36 ∷ 0 ∷ 24 ∷ 36 ∷ 36 ∷ 36 ∷ 60 ∷ 66 ∷ 66 ∷ 66 ∷ 0 ∷ 0 ∷ 0 ∷ 0 ∷ [])
    ∷ (0 ∷ 26 ∷ 44 ∷ 0 ∷ 24 ∷ 36 ∷ 36 ∷ 36 ∷ 60 ∷ 66 ∷ 66 ∷ 66 ∷ 0 ∷ 0 ∷ 0 ∷ 0 ∷ [])
    ∷ (0 ∷ 36 ∷ 36 ∷ 0 ∷ 24 ∷ 36 ∷ 36 ∷ 36 ∷ 60 ∷ 66 ∷ 66 ∷ 66 ∷ 0 ∷ 0 ∷ 0 ∷ 0 ∷ [])
    ∷ (0 ∷ 24 ∷ 36 ∷ 24 ∷ 24 ∷ 36 ∷ 36 ∷ 60 ∷ 66 ∷ 66 ∷ 66 ∷ 66 ∷ 0 ∷ 0 ∷ 0 ∷ 0 ∷ [])
    ∷ (0 ∷ 0 ∷ 0 ∷ 14 ∷ 24 ∷ 40 ∷ 40 ∷ 78 ∷ 120 ∷ 72 ∷ 72 ∷ 78 ∷ 0 ∷ 0 ∷ 0 ∷ 0 ∷ [])
    ∷ (0 ∷ 0 ∷ 0 ∷ 60 ∷ 66 ∷ 64 ∷ 64 ∷ 64 ∷ 64 ∷ 64 ∷ 66 ∷ 60 ∷ 16 ∷ 16 ∷ 32 ∷ 0 ∷ [])
    ∷ (0 ∷ 16 ∷ 8 ∷ 0 ∷ 126 ∷ 64 ∷ 64 ∷ 124 ∷ 64 ∷ 64 ∷ 64 ∷ 126 ∷ 0 ∷ 0 ∷ 0 ∷ 0 ∷ [])
    ∷ (0 ∷ 8 ∷ 16 ∷ 0 ∷ 126 ∷ 64 ∷ 64 ∷ 124 ∷ 64 ∷ 64 ∷ 64 ∷ 126 ∷ 0 ∷ 0 ∷ 0 ∷ 0 ∷ [])
    ∷ (0 ∷ 24 ∷ 36 ∷ 0 ∷ 126 ∷ 64 ∷ 64 ∷ 124 ∷ 64 ∷ 64 ∷ 64 ∷ 126 ∷ 0 ∷ 0 ∷ 0 ∷ 0 ∷ [])
    ∷ (0 ∷ 36 ∷ 36 ∷ 0 ∷ 126 ∷ 64 ∷ 64 ∷ 124 ∷ 64 ∷ 64 ∷ 64 ∷ 126 ∷ 0 ∷ 0 ∷ 0 ∷ 0 ∷ [])
    ∷ (0 ∷ 16 ∷ 8 ∷ 0 ∷ 124 ∷ 16 ∷ 16 ∷ 16 ∷ 16 ∷ 16 ∷ 16 ∷ 124 ∷ 0 ∷ 0 ∷ 0 ∷ 0 ∷ [])
    ∷ (0 ∷ 8 ∷ 16 ∷ 0 ∷ 124 ∷ 16 ∷ 16 ∷ 16 ∷ 16 ∷ 16 ∷ 16 ∷ 124 ∷ 0 ∷ 0 ∷ 0 ∷ 0 ∷ [])
    ∷ (0 ∷ 16 ∷ 40 ∷ 0 ∷ 124 ∷ 16 ∷ 16 ∷ 16 ∷ 16 ∷ 16 ∷ 16 ∷ 124 ∷ 0 ∷ 0 ∷ 0 ∷ 0 ∷ [])
    ∷ (0 ∷ 36 ∷ 36 ∷ 0 ∷ 124 ∷ 16 ∷ 16 ∷ 16 ∷ 16 ∷ 16 ∷ 16 ∷ 124 ∷ 0 ∷ 0 ∷ 0 ∷ 0 ∷ [])
    ∷ (0 ∷ 0 ∷ 0 ∷ 0 ∷ 60 ∷ 34 ∷ 34 ∷ 114 ∷ 34 ∷ 34 ∷ 34 ∷ 60 ∷ 0 ∷ 0 ∷ 0 ∷ 0 ∷ [])
    ∷ (0 ∷ 26 ∷ 44 ∷ 0 ∷ 66 ∷ 98 ∷ 82 ∷ 74 ∷ 70 ∷ 66 ∷ 66 ∷ 66 ∷ 0 ∷ 0 ∷ 0 ∷ 0 ∷ [])
    ∷ (0 ∷ 16 ∷ 8 ∷ 0 ∷ 60 ∷ 66 ∷ 66 ∷ 66 ∷ 66 ∷ 66 ∷ 66 ∷ 60 ∷ 0 ∷ 0 ∷ 0 ∷ 0 ∷ [])
    ∷ (0 ∷ 8 ∷ 16 ∷ 0 ∷ 60 ∷ 66 ∷ 66 ∷ 66 ∷ 66 ∷ 66 ∷ 66 ∷ 60 ∷ 0 ∷ 0 ∷ 0 ∷ 0 ∷ [])
    ∷ (0 ∷ 24 ∷ 36 ∷ 0 ∷ 60 ∷ 66 ∷ 66 ∷ 66 ∷ 66 ∷ 66 ∷ 66 ∷ 60 ∷ 0 ∷ 0 ∷ 0 ∷ 0 ∷ [])
    ∷ (0 ∷ 26 ∷ 44 ∷ 0 ∷ 60 ∷ 66 ∷ 66 ∷ 66 ∷ 66 ∷ 66 ∷ 66 ∷ 60 ∷ 0 ∷ 0 ∷ 0 ∷ 0 ∷ [])
    ∷ (0 ∷ 36 ∷ 36 ∷ 0 ∷ 60 ∷ 66 ∷ 66 ∷ 66 ∷ 66 ∷ 66 ∷ 66 ∷ 60 ∷ 0 ∷ 0 ∷ 0 ∷ 0 ∷ [])
    ∷ (0 ∷ 0 ∷ 0 ∷ 0 ∷ 0 ∷ 0 ∷ 66 ∷ 36 ∷ 24 ∷ 36 ∷ 66 ∷ 0 ∷ 0 ∷ 0 ∷ 0 ∷ 0 ∷ [])
    ∷ (0 ∷ 0 ∷ 2 ∷ 60 ∷ 70 ∷ 74 ∷ 74 ∷ 82 ∷ 82 ∷ 82 ∷ 98 ∷ 60 ∷ 64 ∷ 0 ∷ 0 ∷ 0 ∷ [])
    ∷ (0 ∷ 16 ∷ 8 ∷ 0 ∷ 66 ∷ 66 ∷ 66 ∷ 66 ∷ 66 ∷ 66 ∷ 66 ∷ 60 ∷ 0 ∷ 0 ∷ 0 ∷ 0 ∷ [])
    ∷ (0 ∷ 8 ∷ 16 ∷ 0 ∷ 66 ∷ 66 ∷ 66 ∷ 66 ∷ 66 ∷ 66 ∷ 66 ∷ 60 ∷ 0 ∷ 0 ∷ 0 ∷ 0 ∷ [])
    ∷ (0 ∷ 24 ∷ 36 ∷ 0 ∷ 66 ∷ 66 ∷ 66 ∷ 66 ∷ 66 ∷ 66 ∷ 66 ∷ 60 ∷ 0 ∷ 0 ∷ 0 ∷ 0 ∷ [])
    ∷ (0 ∷ 36 ∷ 36 ∷ 0 ∷ 66 ∷ 66 ∷ 66 ∷ 66 ∷ 66 ∷ 66 ∷ 66 ∷ 60 ∷ 0 ∷ 0 ∷ 0 ∷ 0 ∷ [])
    ∷ (0 ∷ 8 ∷ 16 ∷ 130 ∷ 130 ∷ 130 ∷ 68 ∷ 40 ∷ 16 ∷ 16 ∷ 16 ∷ 16 ∷ 0 ∷ 0 ∷ 0 ∷ 0 ∷ [])
    ∷ (0 ∷ 0 ∷ 0 ∷ 0 ∷ 64 ∷ 64 ∷ 120 ∷ 68 ∷ 68 ∷ 120 ∷ 64 ∷ 64 ∷ 0 ∷ 0 ∷ 0 ∷ 0 ∷ [])
    ∷ (0 ∷ 0 ∷ 0 ∷ 56 ∷ 68 ∷ 68 ∷ 88 ∷ 70 ∷ 66 ∷ 66 ∷ 66 ∷ 92 ∷ 0 ∷ 0 ∷ 0 ∷ 0 ∷ [])
    ∷ (0 ∷ 24 ∷ 8 ∷ 4 ∷ 0 ∷ 60 ∷ 2 ∷ 2 ∷ 62 ∷ 66 ∷ 66 ∷ 62 ∷ 0 ∷ 0 ∷ 0 ∷ 0 ∷ [])
    ∷ (0 ∷ 12 ∷ 8 ∷ 16 ∷ 0 ∷ 60 ∷ 2 ∷ 2 ∷ 62 ∷ 66 ∷ 66 ∷ 62 ∷ 0 ∷ 0 ∷ 0 ∷ 0 ∷ [])
    ∷ (0 ∷ 8 ∷ 20 ∷ 34 ∷ 0 ∷ 60 ∷ 2 ∷ 2 ∷ 62 ∷ 66 ∷ 66 ∷ 62 ∷ 0 ∷ 0 ∷ 0 ∷ 0 ∷ [])
    ∷ (0 ∷ 26 ∷ 44 ∷ 0 ∷ 0 ∷ 60 ∷ 2 ∷ 2 ∷ 62 ∷ 66 ∷ 66 ∷ 62 ∷ 0 ∷ 0 ∷ 0 ∷ 0 ∷ [])
    ∷ (0 ∷ 36 ∷ 36 ∷ 0 ∷ 0 ∷ 60 ∷ 2 ∷ 2 ∷ 62 ∷ 66 ∷ 66 ∷ 62 ∷ 0 ∷ 0 ∷ 0 ∷ 0 ∷ [])
    ∷ (0 ∷ 8 ∷ 20 ∷ 8 ∷ 0 ∷ 60 ∷ 2 ∷ 2 ∷ 62 ∷ 66 ∷ 66 ∷ 62 ∷ 0 ∷ 0 ∷ 0 ∷ 0 ∷ [])
    ∷ (0 ∷ 0 ∷ 0 ∷ 0 ∷ 0 ∷ 124 ∷ 18 ∷ 18 ∷ 126 ∷ 80 ∷ 82 ∷ 44 ∷ 0 ∷ 0 ∷ 0 ∷ 0 ∷ [])
    ∷ (0 ∷ 0 ∷ 0 ∷ 0 ∷ 0 ∷ 60 ∷ 66 ∷ 64 ∷ 64 ∷ 64 ∷ 66 ∷ 60 ∷ 8 ∷ 8 ∷ 8 ∷ 16 ∷ [])
    ∷ (0 ∷ 24 ∷ 8 ∷ 4 ∷ 0 ∷ 60 ∷ 66 ∷ 66 ∷ 126 ∷ 64 ∷ 66 ∷ 60 ∷ 0 ∷ 0 ∷ 0 ∷ 0 ∷ [])
    ∷ (0 ∷ 12 ∷ 8 ∷ 16 ∷ 0 ∷ 60 ∷ 66 ∷ 66 ∷ 126 ∷ 64 ∷ 66 ∷ 60 ∷ 0 ∷ 0 ∷ 0 ∷ 0 ∷ [])
    ∷ (0 ∷ 8 ∷ 20 ∷ 34 ∷ 0 ∷ 60 ∷ 66 ∷ 66 ∷ 126 ∷ 64 ∷ 66 ∷ 60 ∷ 0 ∷ 0 ∷ 0 ∷ 0 ∷ [])
    ∷ (0 ∷ 36 ∷ 36 ∷ 0 ∷ 0 ∷ 60 ∷ 66 ∷ 66 ∷ 126 ∷ 64 ∷ 66 ∷ 60 ∷ 0 ∷ 0 ∷ 0 ∷ 0 ∷ [])
    ∷ (0 ∷ 24 ∷ 8 ∷ 4 ∷ 0 ∷ 24 ∷ 8 ∷ 8 ∷ 8 ∷ 8 ∷ 8 ∷ 28 ∷ 0 ∷ 0 ∷ 0 ∷ 0 ∷ [])
    ∷ (0 ∷ 12 ∷ 8 ∷ 16 ∷ 0 ∷ 24 ∷ 8 ∷ 8 ∷ 8 ∷ 8 ∷ 8 ∷ 28 ∷ 0 ∷ 0 ∷ 0 ∷ 0 ∷ [])
    ∷ (0 ∷ 8 ∷ 20 ∷ 34 ∷ 0 ∷ 24 ∷ 8 ∷ 8 ∷ 8 ∷ 8 ∷ 8 ∷ 28 ∷ 0 ∷ 0 ∷ 0 ∷ 0 ∷ [])
    ∷ (0 ∷ 36 ∷ 36 ∷ 0 ∷ 0 ∷ 24 ∷ 8 ∷ 8 ∷ 8 ∷ 8 ∷ 8 ∷ 28 ∷ 0 ∷ 0 ∷ 0 ∷ 0 ∷ [])
    ∷ (0 ∷ 52 ∷ 8 ∷ 20 ∷ 2 ∷ 2 ∷ 62 ∷ 66 ∷ 66 ∷ 66 ∷ 66 ∷ 60 ∷ 0 ∷ 0 ∷ 0 ∷ 0 ∷ [])
    ∷ (0 ∷ 26 ∷ 44 ∷ 0 ∷ 0 ∷ 124 ∷ 66 ∷ 66 ∷ 66 ∷ 66 ∷ 66 ∷ 66 ∷ 0 ∷ 0 ∷ 0 ∷ 0 ∷ [])
    ∷ (0 ∷ 24 ∷ 8 ∷ 4 ∷ 0 ∷ 60 ∷ 66 ∷ 66 ∷ 66 ∷ 66 ∷ 66 ∷ 60 ∷ 0 ∷ 0 ∷ 0 ∷ 0 ∷ [])
    ∷ (0 ∷ 12 ∷ 8 ∷ 16 ∷ 0 ∷ 60 ∷ 66 ∷ 66 ∷ 66 ∷ 66 ∷ 66 ∷ 60 ∷ 0 ∷ 0 ∷ 0 ∷ 0 ∷ [])
    ∷ (0 ∷ 8 ∷ 20 ∷ 34 ∷ 0 ∷ 60 ∷ 66 ∷ 66 ∷ 66 ∷ 66 ∷ 66 ∷ 60 ∷ 0 ∷ 0 ∷ 0 ∷ 0 ∷ [])
    ∷ (0 ∷ 26 ∷ 44 ∷ 0 ∷ 0 ∷ 60 ∷ 66 ∷ 66 ∷ 66 ∷ 66 ∷ 66 ∷ 60 ∷ 0 ∷ 0 ∷ 0 ∷ 0 ∷ [])
    ∷ (0 ∷ 36 ∷ 36 ∷ 0 ∷ 0 ∷ 60 ∷ 66 ∷ 66 ∷ 66 ∷ 66 ∷ 66 ∷ 60 ∷ 0 ∷ 0 ∷ 0 ∷ 0 ∷ [])
    ∷ (0 ∷ 0 ∷ 0 ∷ 0 ∷ 0 ∷ 16 ∷ 0 ∷ 124 ∷ 0 ∷ 16 ∷ 0 ∷ 0 ∷ 0 ∷ 0 ∷ 0 ∷ 0 ∷ [])
    ∷ (0 ∷ 0 ∷ 0 ∷ 0 ∷ 2 ∷ 60 ∷ 70 ∷ 74 ∷ 82 ∷ 82 ∷ 98 ∷ 60 ∷ 64 ∷ 0 ∷ 0 ∷ 0 ∷ [])
    ∷ (0 ∷ 24 ∷ 8 ∷ 4 ∷ 0 ∷ 66 ∷ 66 ∷ 66 ∷ 66 ∷ 66 ∷ 66 ∷ 62 ∷ 0 ∷ 0 ∷ 0 ∷ 0 ∷ [])
    ∷ (0 ∷ 12 ∷ 8 ∷ 16 ∷ 0 ∷ 66 ∷ 66 ∷ 66 ∷ 66 ∷ 66 ∷ 66 ∷ 62 ∷ 0 ∷ 0 ∷ 0 ∷ 0 ∷ [])
    ∷ (0 ∷ 8 ∷ 20 ∷ 34 ∷ 0 ∷ 66 ∷ 66 ∷ 66 ∷ 66 ∷ 66 ∷ 66 ∷ 62 ∷ 0 ∷ 0 ∷ 0 ∷ 0 ∷ [])
    ∷ (0 ∷ 36 ∷ 36 ∷ 0 ∷ 0 ∷ 66 ∷ 66 ∷ 66 ∷ 66 ∷ 66 ∷ 66 ∷ 62 ∷ 0 ∷ 0 ∷ 0 ∷ 0 ∷ [])
    ∷ (0 ∷ 12 ∷ 8 ∷ 16 ∷ 0 ∷ 66 ∷ 66 ∷ 66 ∷ 66 ∷ 66 ∷ 66 ∷ 62 ∷ 2 ∷ 2 ∷ 2 ∷ 60 ∷ [])
    ∷ (0 ∷ 0 ∷ 64 ∷ 64 ∷ 64 ∷ 120 ∷ 68 ∷ 68 ∷ 68 ∷ 68 ∷ 68 ∷ 120 ∷ 64 ∷ 64 ∷ 64 ∷ 0 ∷ [])
    ∷ (0 ∷ 0 ∷ 36 ∷ 36 ∷ 0 ∷ 66 ∷ 66 ∷ 66 ∷ 66 ∷ 66 ∷ 66 ∷ 62 ∷ 2 ∷ 2 ∷ 2 ∷ 60 ∷ [])
    ∷ []
