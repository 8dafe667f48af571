-- ===== src/Word/Laws.antt =====
-- `&` and `|` on numbers cut in two at a bit position, as arithmetic, at every width.
use native.Mathlib.Nat.{pow-suc}
use maizono_os.Base.{ℕ, zero, suc, ◌+◌, ◌*◌, ◌/◌, ◌^◌, ◌<◌, bit_and, bit_or}
use maizono_os.Base.{◌≡◌, ap, arith}
use maizono_os.Word.Step.{bit_or_half, bit_and_half}

shift_by_suc : (x width : ℕ) → x * 2 ^ suc width ≡ x * 2 ^ width * 2
shift_by_suc x width = let e = pow-suc 2 width in omega (arith, ap (λ (power : ℕ). x * power) e)

-- `|` works above and below position `k` on its own.
pub bit_or_split :
    (k a b c d : ℕ)
    → b < 2 ^ k
    → d < 2 ^ k
    → bit_or (a * 2 ^ k + b) (c * 2 ^ k + d) ≡ bit_or a c * 2 ^ k + bit_or b d
bit_or_split zero a zero c zero p q = ground arith
bit_or_split zero a (suc b) c d p q = absurd (omega arith)
bit_or_split zero a zero c (suc d) p q = absurd (omega arith)
bit_or_split (suc k) a b c d p q = ground (
  arith,
  bit_or_half (a * 2 ^ suc k + b) (c * 2 ^ suc k + d),
  bit_or_half b d,
  shift_by_suc a k,
  shift_by_suc c k,
  shift_by_suc (bit_or a c) k,
  pow-suc 2 k,
  bit_or_split k a (b / 2) c (d / 2) (omega (arith, pow-suc 2 k)) (omega (arith, pow-suc 2 k)),
)

-- `&` works above and below position `k` on its own.
pub bit_and_split :
    (k a b c d : ℕ)
    → b < 2 ^ k
    → d < 2 ^ k
    → bit_and (a * 2 ^ k + b) (c * 2 ^ k + d) ≡ bit_and a c * 2 ^ k + bit_and b d
bit_and_split zero a zero c zero p q = ground arith
bit_and_split zero a (suc b) c d p q = absurd (omega arith)
bit_and_split zero a zero c (suc d) p q = absurd (omega arith)
bit_and_split (suc k) a b c d p q = ground (
  arith,
  bit_and_half (a * 2 ^ suc k + b) (c * 2 ^ suc k + d),
  bit_and_half b d,
  shift_by_suc a k,
  shift_by_suc c k,
  shift_by_suc (bit_and a c) k,
  pow-suc 2 k,
  bit_and_split k a (b / 2) c (d / 2) (omega (arith, pow-suc 2 k)) (omega (arith, pow-suc 2 k)),
)
