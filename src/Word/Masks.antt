-- ===== src/Word/Masks.antt =====
-- `&` and `|` with zero, with a low mask and with one bit, and the ranges of their results.
use native.Mathlib.Nat.{pow-suc, one-le-pow}
use maizono_os.Base.{ℕ, zero, suc, ◌+◌, ◌-◌, ◌*◌, ◌/◌, ◌%◌, ◌^◌, ◌≤◌, ◌<◌, bit_and, bit_or}
use maizono_os.Base.{◌≡◌, refl, arith}
use maizono_os.Word.Step.{bit_or_half, bit_and_half}
use maizono_os.Word.Laws.{bit_or_split, bit_and_split}

-- The recursion goes from `a / 2` to `a`, so it takes a bound.
or-zero_fuel : (n a : ℕ) → a ≤ n → bit_or a 0 ≡ a
or-zero_fuel n zero h = refl
or-zero_fuel zero (suc a) h = absurd (omega arith)
or-zero_fuel (suc n) (suc a) h =
    omega (arith, bit_or_half (suc a) 0, or-zero_fuel n (suc a / 2) (omega arith))

pub or-zero : (a : ℕ) → bit_or a 0 ≡ a
or-zero a = or-zero_fuel a a (omega arith)

zero-or_fuel : (n a : ℕ) → a ≤ n → bit_or 0 a ≡ a
zero-or_fuel n zero h = refl
zero-or_fuel zero (suc a) h = absurd (omega arith)
zero-or_fuel (suc n) (suc a) h =
    omega (arith, bit_or_half 0 (suc a), zero-or_fuel n (suc a / 2) (omega arith))

pub zero-or : (a : ℕ) → bit_or 0 a ≡ a
zero-or a = zero-or_fuel a a (omega arith)

and-zero_fuel : (n a : ℕ) → a ≤ n → bit_and a 0 ≡ 0
and-zero_fuel n zero h = refl
and-zero_fuel zero (suc a) h = absurd (omega arith)
and-zero_fuel (suc n) (suc a) h =
    omega (arith, bit_and_half (suc a) 0, and-zero_fuel n (suc a / 2) (omega arith))

pub and-zero : (a : ℕ) → bit_and a 0 ≡ 0
and-zero a = and-zero_fuel a a (omega arith)

zero-and_fuel : (n a : ℕ) → a ≤ n → bit_and 0 a ≡ 0
zero-and_fuel n zero h = refl
zero-and_fuel zero (suc a) h = absurd (omega arith)
zero-and_fuel (suc n) (suc a) h =
    omega (arith, bit_and_half 0 (suc a), zero-and_fuel n (suc a / 2) (omega arith))

pub zero-and : (a : ℕ) → bit_and 0 a ≡ 0
zero-and a = zero-and_fuel a a (omega arith)

-- A mask of `k` low ones keeps what fits `k` bits.
pub and_low_mask : (k b : ℕ) → b < 2 ^ k → bit_and b (2 ^ k - 1) ≡ b
and_low_mask zero zero h = refl
and_low_mask zero (suc b) h = absurd (omega arith)
and_low_mask (suc k) b h = ground (
  arith,
  pow-suc 2 k,
  one-le-pow k 2,
  bit_and_half b (2 ^ suc k - 1),
  and_low_mask k (b / 2) (omega (arith, pow-suc 2 k)),
)

-- A mask of `k` low ones is the remainder by `2 ^ k`.
pub and_mask : (k a : ℕ) → bit_and a (2 ^ k - 1) ≡ a % 2 ^ k
and_mask k a = ground (
  arith,
  one-le-pow k 2,
  bit_and_split k (a / 2 ^ k) (a % 2 ^ k) 0 (2 ^ k - 1),
  and-zero (a / 2 ^ k),
  and_low_mask k (a % 2 ^ k),
)

-- `|` of a value above position `k` and one below it is their sum.
pub or_fields : (k q r : ℕ) → r < 2 ^ k → bit_or (q * 2 ^ k) r ≡ q * 2 ^ k + r
or_fields k q r h = ground (arith, one-le-pow k 2, bit_or_split k q 0 0 r, or-zero q, zero-or r)

pub or_fields_below : (k q r : ℕ) → r < 2 ^ k → bit_or r (q * 2 ^ k) ≡ q * 2 ^ k + r
or_fields_below k q r h =
    ground (arith, one-le-pow k 2, bit_or_split k 0 r q 0, zero-or q, or-zero r)

pub or-lt : (k a b : ℕ) → a < 2 ^ k → b < 2 ^ k → bit_or a b < 2 ^ k
or-lt zero zero zero p q = omega arith
or-lt zero zero (suc b) p q = absurd (omega arith)
or-lt zero (suc a) b p q = absurd (omega arith)
or-lt (suc k) a b p q = ground (
  arith,
  pow-suc 2 k,
  bit_or_half a b,
  or-lt k (a / 2) (b / 2) (omega (arith, pow-suc 2 k)) (omega (arith, pow-suc 2 k)),
)

and-le_fuel : (n a b : ℕ) → a ≤ n → bit_and a b ≤ a
and-le_fuel n zero b h = omega (arith, zero-and b)
and-le_fuel zero (suc a) b h = absurd (omega arith)
and-le_fuel (suc n) (suc a) b h =
    omega (arith, bit_and_half (suc a) b, and-le_fuel n (suc a / 2) (b / 2) (omega arith))

pub and-le : (a b : ℕ) → bit_and a b ≤ a
and-le a b = and-le_fuel a a b (omega arith)

-- A mask of `w` ones from position `k` on.
pub and_field : (k w a : ℕ) → bit_and a ((2 ^ w - 1) * 2 ^ k) ≡ a / 2 ^ k % 2 ^ w * 2 ^ k
and_field k w a = ground (
  arith,
  one-le-pow k 2,
  bit_and_split k (a / 2 ^ k) (a % 2 ^ k) (2 ^ w - 1) 0,
  and_mask w (a / 2 ^ k),
  and-zero (a % 2 ^ k),
)
