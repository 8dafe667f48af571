-- ===== src/Word/Bit.antt =====
-- The bits of a number one by one.
use Prim.Native.Nat.{min, max}
use native.Mathlib.Nat.{pow-suc, one-le-pow}
use maizono_os.Base.{ℕ, zero, suc, ◌-◌, ◌*◌, ◌/◌, ◌%◌, ◌^◌, ◌<◌, bit_and, bit_or}
use maizono_os.Base.{◌≡◌, refl, ap, arith, ◌==◌, if◌then◌else◌}
use maizono_os.Word.Step.{bit_or_half, bit_and_half}
use maizono_os.Word.Masks.{and_mask}

-- Bit `j` of `x`, as 0 or 1.
unfoldable pub bit_at : ℕ → ℕ → ℕ
bit_at x zero = x % 2
bit_at x (suc j) = bit_at (x / 2) j

pub bit_at-lt : (x j : ℕ) → bit_at x j < 2
unfolding bit_at
bit_at-lt x zero = omega arith
bit_at-lt x (suc j) = bit_at-lt (x / 2) j

pub bit_at-zero : (j : ℕ) → bit_at 0 j ≡ 0
unfolding bit_at
bit_at-zero zero = refl
bit_at-zero (suc j) = bit_at-zero j

pub bit_at-or : (x y j : ℕ) → bit_at (bit_or x y) j ≡ max (bit_at x j) (bit_at y j)
unfolding bit_at
bit_at-or x y zero = omega (arith, bit_or_half x y)
bit_at-or x y (suc j) =
    let half : bit_or x y / 2 ≡ bit_or (x / 2) (y / 2) = omega (arith, bit_or_half x y) in
    rw half (bit_at-or (x / 2) (y / 2) j)

pub bit_at-and : (x y j : ℕ) → bit_at (bit_and x y) j ≡ min (bit_at x j) (bit_at y j)
unfolding bit_at
bit_at-and x y zero = omega (arith, bit_and_half x y)
bit_at-and x y (suc j) =
    let half : bit_and x y / 2 ≡ bit_and (x / 2) (y / 2) = omega (arith, bit_and_half x y) in
    rw half (bit_at-and (x / 2) (y / 2) j)

pub bit_at-pow : (b j : ℕ) → bit_at (2 ^ b) j ≡ (if b == j then 1 else 0)
unfolding bit_at
bit_at-pow zero zero = refl
bit_at-pow zero (suc j) = ground (arith, bit_at-zero j)
bit_at-pow (suc b) zero = ground (arith, pow-suc 2 b)
bit_at-pow (suc b) (suc j) =
    let half : 2 ^ suc b / 2 ≡ 2 ^ b = omega (arith, pow-suc 2 b) in
    rw half (ground (arith, bit_at-pow b j))

-- Below the width the complement turns every bit over.
pub bit_at-complement : (w x j : ℕ) → x < 2 ^ w → j < w → bit_at (2 ^ w - 1 - x) j ≡ 1 - bit_at x j
unfolding bit_at
bit_at-complement zero x j p q = absurd (omega arith)
bit_at-complement (suc w) x zero p q = omega (arith, pow-suc 2 w, one-le-pow w 2)
bit_at-complement (suc w) x (suc j) p q =
    let half : (2 ^ suc w - 1 - x) / 2 ≡ 2 ^ w - 1 - x / 2 =
      omega (arith, pow-suc 2 w, one-le-pow w 2) in
    rw half (bit_at-complement w (x / 2) j (omega (arith, pow-suc 2 w)) (omega arith))

-- `x & (1 << b)` is 0 exactly when bit `b` of `x` is 0.
pub and-pow : (x b : ℕ) → bit_and x (2 ^ b) ≡ bit_at x b * 2 ^ b
unfolding bit_at
and-pow x zero = omega (arith, and_mask 1 x)
and-pow x (suc b) =
    let half : 2 ^ suc b / 2 ≡ 2 ^ b = omega (arith, pow-suc 2 b) in
    let step : bit_and x (2 ^ suc b) ≡ bit_and (x / 2) (2 ^ b) * 2 =
      rw (← half) (omega (arith, bit_and_half x (2 ^ suc b), pow-suc 2 b)) in
    omega (
      arith,
      step,
      pow-suc 2 b,
      and-pow (x / 2) b,
      ap (λ (t : ℕ). bit_at (x / 2) b * t) (pow-suc 2 b),
    )
