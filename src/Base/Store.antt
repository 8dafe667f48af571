-- ===== src/Base/Store.antt =====
-- Arrays of a fixed length and memory, as functions of the index, and the counted loop.
use Prim.Native.Nat.{ℕ}
use maizono_os.Base.Tests.{◌==◌, if◌then◌else◌}

module _ {ℓ} {A : Type ℓ} where
  -- The array `f` after a write of `v` at index `i`.
  abbrev pub update : (ℕ → A) → ℕ → A → ℕ → A
  update f i v j = if i == j then v else f j
