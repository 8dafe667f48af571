-- ===== src/Graphic/Console/Text.antt =====
-- What a console is for: a page of 25 lines, on which a long text scrolls up.
use maizono_os.Base.{
  ℕ, zero, suc, ◌+◌, ◌≤◌, ◌≡◌, refl, ◌∙◌, List, [], ◌∷◌, ◌++◌, arith, ltb, ◌==◌, if◌then◌else◌,
  update, length, length-append,
}

-- The lines of the page, and the one that is written.
pub record Page : Type 0 where
  pub lines : ℕ → List ℕ
  pub row : ℕ

-- A line feed moves down, and at the bottom drops the first line and opens an empty one.
abbrev pub feed : Page → Page
feed p =
    if ltb p.row 24
    then record p { row = p.row + 1 }
    else record p { lines = λ i. if i == 24 then [] else p.lines (i + 1) }

-- A character is added to a line of fewer than 149, and dropped at the end of a longer one.
abbrev pub type_char : ℕ → Page → Page
type_char c p =
    if ltb (length (p.lines p.row)) 149
    then record p { lines = update p.lines p.row (p.lines p.row ++ (c ∷ [])) }
    else p

unfoldable pub page_char : ℕ → Page → Page
page_char c p = if c == 10 then feed p else type_char c p

unfoldable pub page_print : List ℕ → Page → Page
page_print [] p = p
page_print (c ∷ rest) p = page_print rest (page_char c p)

-- The first `n` characters of an array.
unfoldable pub prefix : (ℕ → ℕ) → ℕ → List ℕ
prefix chars zero = []
prefix chars (suc n) = prefix chars n ++ (chars n ∷ [])

pub length-prefix : (chars : ℕ → ℕ) (n : ℕ) → length (prefix chars n) ≡ n
unfolding prefix
length-prefix chars zero = refl
length-prefix chars (suc n) =
    length-append (prefix chars n) (chars n ∷ []) ∙ omega (arith, length-prefix chars n)

pub prefix-update_above :
    (chars : ℕ → ℕ) (n k c : ℕ) → k ≤ n → prefix (update chars n c) k ≡ prefix chars k
unfolding prefix
prefix-update_above chars n zero c h = refl
prefix-update_above chars n (suc k) c h =
    ground (arith, prefix-update_above chars n k c (omega arith))

-- Writing just past the prefix extends it.
pub prefix-push :
    (chars : ℕ → ℕ) (n c : ℕ) → prefix (update chars n c) (suc n) ≡ prefix chars n ++ (c ∷ [])
unfolding prefix
prefix-push chars n c = ground (arith, prefix-update_above chars n n c (omega arith))
