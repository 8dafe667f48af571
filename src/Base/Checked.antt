-- ===== src/Base/Checked.antt =====
-- Arithmetic of `usize` and `u64` as the debug build compiles it: an overflow panics. `none` is the
-- panic, and the monad carries it on.
use Prim.Native.Nat.{ℕ, ◌+◌, ◌-◌, ◌*◌, ◌^◌, ◌≤◌, ◌<◌}
use mathlib.Core.Path.{◌≡◌}
use mathlib.Core.Option.{Option, none, some}
use native.Mathlib.Omega.{arith}
use maizono_os.Base.Tests.{ltb, if◌then◌else◌}
use maizono_os.Base.Store.{update}

infixl 5 ◌>>=◌
abbrev pub ◌>>=◌ {ℓ κ} : {A : Type ℓ} {B : Type κ} → Option A → (A → Option B) → Option B
none >>= f = none
some a >>= f = f a

abbrev pub word_limit : ℕ
word_limit = 2 ^ 64

pub checked : ℕ → Option ℕ
checked n = if ltb n word_limit then some n else none

unfoldable pub add_usize : ℕ → ℕ → Option ℕ
unfolding checked
add_usize a b = checked (a + b)

unfoldable pub mul_usize : ℕ → ℕ → Option ℕ
unfolding checked
mul_usize a b = checked (a * b)

unfoldable pub sub_usize : ℕ → ℕ → Option ℕ
sub_usize a b = if ltb a b then none else some (a - b)

pub add_usize_fits : (a b : ℕ) → a + b < word_limit → add_usize a b ≡ some (a + b)
unfolding add_usize
add_usize_fits a b h = ground arith

pub add_usize_overflows : (a b : ℕ) → word_limit ≤ a + b → add_usize a b ≡ none
unfolding add_usize
add_usize_overflows a b h = ground arith

pub mul_usize_fits : (a b : ℕ) → a * b < word_limit → mul_usize a b ≡ some (a * b)
unfolding mul_usize
mul_usize_fits a b h = ground arith

pub sub_usize_fits : (a b : ℕ) → b ≤ a → sub_usize a b ≡ some (a - b)
unfolding sub_usize
sub_usize_fits a b h = ground arith

module _ {ℓ} {A : Type ℓ} where
  -- `array[i] = v` on an array of `size` elements; an index out of range panics.
  unfoldable pub store_at : ℕ → (ℕ → A) → ℕ → A → Option (ℕ → A)
  store_at size array i v = if ltb i size then some (update array i v) else none

  pub store_at_fits :
      (size : ℕ) (array : ℕ → A) (i : ℕ) (v : A)
      → i < size
      → store_at size array i v ≡ some (update array i v)
  unfolding store_at
  store_at_fits size array i v h = ground arith

-- The same of `u32`.
unfoldable pub add_u32 : ℕ → ℕ → Option ℕ
add_u32 a b = if ltb (a + b) (2 ^ 32) then some (a + b) else none

unfoldable pub mul_u32 : ℕ → ℕ → Option ℕ
mul_u32 a b = if ltb (a * b) (2 ^ 32) then some (a * b) else none

pub add_u32_fits : (a b : ℕ) → a + b < 2 ^ 32 → add_u32 a b ≡ some (a + b)
unfolding add_u32
add_u32_fits a b h = ground arith

pub mul_u32_fits : (a b : ℕ) → a * b < 2 ^ 32 → mul_u32 a b ≡ some (a * b)
unfolding mul_u32
mul_u32_fits a b h = ground arith
