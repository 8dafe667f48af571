-- ===== src/PhysMem/Bitmap.antt =====
-- The bitmap as a set of frames: what each operation does to every frame.
use native.Mathlib.Nat.{one-le-pow, one-mul, pow-le-pow_right}
use maizono_os.Base.{
  ℕ, ◌-◌, ◌*◌, ◌/◌, ◌%◌, ◌^◌, ◌<◌, ◌≡◌, Bool, true, false, none, some, arith, ltb, ◌==◌,
  if◌then◌else◌, update,
}
use maizono_os.Word.Bit.{
  bit_at, bit_at-lt, bit_at-or, bit_at-and, bit_at-pow, bit_at-complement, and-pow,
}
use maizono_os.Word.Masks.{or-lt, and-le}
use maizono_os.PhysMem.{BitmapMemoryManager, frame_count, set_line, set_bit, get_bit}

-- Frame `id` is marked in the bitmap.
unfoldable pub allocated : BitmapMemoryManager → ℕ → Bool
allocated m id = bit_at (m.alloc_map (id / 64)) (id % 64) == 1

-- Every line is a 64-bit word.
abbrev pub AreWords : BitmapMemoryManager → Type 0
AreWords m = (line : ℕ) → m.alloc_map line < 2 ^ 64

pow-lt_word : (b : ℕ) → b < 64 → 2 ^ b < 2 ^ 64
pow-lt_word b h =
    omega (arith, pow-le-pow_right {n = 2} (omega arith) {i = b} {j = 63} (omega arith))

set_line-lt : (x b : ℕ) (v : Bool) → x < 2 ^ 64 → b < 64 → set_line x b v < 2 ^ 64
unfolding set_line
set_line-lt x b true h k = or-lt 64 x (1 * 2 ^ b) h (rw one-mul (pow-lt_word b k))
set_line-lt x b false h k = omega (arith, and-le x (2 ^ 64 - 1 - 1 * 2 ^ b))

bit_at-set_line :
    (x b j : ℕ) (v : Bool)
    → x < 2 ^ 64
    → b < 64
    → j < 64
    → bit_at (set_line x b v) j ≡ (if b == j then (if v then 1 else 0) else bit_at x j)
unfolding set_line
bit_at-set_line x b j true h k l =
    rw one-mul (ground (arith, bit_at-or x (2 ^ b) j, bit_at-pow b j, bit_at-lt x j))
bit_at-set_line x b j false h k l = rw one-mul (
    ground (
      arith,
      bit_at-and x (2 ^ 64 - 1 - 2 ^ b) j,
      bit_at-complement 64 (2 ^ b) j,
      pow-lt_word b,
      bit_at-pow b j,
      bit_at-lt x j,
    ))

-- Below `frame_count` `get_bit` answers, and above it panics.
pub get_bit_lem :
    (m : BitmapMemoryManager) (id : ℕ)
    → get_bit m id ≡ (if ltb id frame_count then some (allocated m id) else none)
unfolding get_bit allocated
get_bit_lem m id =
    rw (one-mul, and-pow)
      (ground (arith, bit_at-lt (m.alloc_map (id / 64)) (id % 64), one-le-pow (id % 64) 2))

-- The bitmap after a write of the bit of `id`.
unfoldable pub with_bit : BitmapMemoryManager → ℕ → Bool → BitmapMemoryManager
unfolding set_line
with_bit m id v = record m {
  alloc_map = update m.alloc_map (id / 64) (set_line (m.alloc_map (id / 64)) (id % 64) v);
}

pub set_bit-eq :
    (m : BitmapMemoryManager) (id : ℕ) (v : Bool)
    → id < frame_count
    → set_bit m id v ≡ some (with_bit m id v)
unfolding set_bit with_bit
set_bit-eq m id v h = ground arith

pub with_bit-AreWords :
    (m : BitmapMemoryManager) (id : ℕ) (v : Bool) → AreWords m → AreWords (with_bit m id v)
unfolding with_bit
with_bit-AreWords m id v w line =
    ground (arith, w line, set_line-lt (m.alloc_map (id / 64)) (id % 64) v (w (id / 64)))

pub allocated-with_bit :
    (m : BitmapMemoryManager) (id : ℕ) (v : Bool) (j : ℕ)
    → AreWords m
    → allocated (with_bit m id v) j ≡ (if id == j then v else allocated m j)
unfolding with_bit allocated
allocated-with_bit m id v j w =
    ground (arith, bit_at-set_line (m.alloc_map (id / 64)) (id % 64) (j % 64) v (w (id / 64)))
