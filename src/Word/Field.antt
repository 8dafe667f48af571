-- ===== src/Word/Field.antt =====
-- A bit field of a word: `(x & !(mask << k)) | (v << k)` replaces the `w` bits from position `k`.
use native.Mathlib.Nat.{one-le-pow}
use maizono_os.Base.{ℕ, ◌+◌, ◌-◌, ◌*◌, ◌^◌, ◌<◌, bit_and, bit_or, ◌≡◌, arith}
use maizono_os.Word.Laws.{bit_or_split, bit_and_split}
use maizono_os.Word.Masks.{or-zero, zero-or, and-zero, and_low_mask}

-- `n` bits stand above the field, `w` bits in it, and `k` below it.
module _ (k w n : ℕ) (hi mid lo : ℕ) (p : hi < 2 ^ n) (q : mid < 2 ^ w) (r : lo < 2 ^ k) where
  pub clear_field :
      bit_and ((hi * 2 ^ w + mid) * 2 ^ k + lo) ((2 ^ n - 1) * 2 ^ w * 2 ^ k + (2 ^ k - 1))
      ≡ hi * 2 ^ w * 2 ^ k + lo
  clear_field = ground (
    arith,
    one-le-pow k 2,
    one-le-pow w 2,
    bit_and_split k (hi * 2 ^ w + mid) lo ((2 ^ n - 1) * 2 ^ w) (2 ^ k - 1),
    bit_and_split w hi mid (2 ^ n - 1) 0,
    and_low_mask n hi,
    and_low_mask k lo,
    and-zero mid,
  )

  pub put_field :
      (v : ℕ)
      → v < 2 ^ w
      → bit_or (hi * 2 ^ w * 2 ^ k + lo) (v * 2 ^ k) ≡ (hi * 2 ^ w + v) * 2 ^ k + lo
  put_field v s = ground (
    arith,
    one-le-pow k 2,
    one-le-pow w 2,
    bit_or_split k (hi * 2 ^ w) lo v 0,
    bit_or_split w hi 0 0 v,
    or-zero hi,
    zero-or v,
    or-zero lo,
  )
