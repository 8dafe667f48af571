-- ===== src/Base/Exec.antt =====
-- Code that changes a state `S` and may return an error `E` or panic. An error keeps the state that
-- was reached; a panic ends the kernel, so no state is left.

use Prim.Native.Nat.{ℕ, zero, suc, ◌+◌}
use mathlib.Core.Option.{Option, none, some}
use mathlib.Core.Path.{◌≡◌, refl}
use native.Mathlib.Omega.{arith}

pub data Exec (S E A : Type 0) : Type 0 where
  done : A → S → Exec S E A
  fail : E → S → Exec S E A
  panic : Exec S E A

abbrev pub M : Type 0 → Type 0 → Type 0 → Type 0
M S E A = S → Exec S E A

module _ {S E : Type 0} where
  abbrev pub pure : {A : Type 0} → A → M S E A
  pure a s = done a s

  abbrev pub throw : {A : Type 0} → E → M S E A
  throw e s = fail e s

  abbrev pub bind : {A B : Type 0} → Exec S E A → (A → M S E B) → Exec S E B
  bind (done a s) f = f a s
  bind (fail e s) f = fail e s
  bind panic f = panic

  infixl 5 ◌>>=◌ ◌>>◌
  abbrev pub ◌>>=◌ : {A B : Type 0} → M S E A → (A → M S E B) → M S E B
  ◌>>=◌ m f s = bind (m s) f

  abbrev pub ◌>>◌ : {A B : Type 0} → M S E A → M S E B → M S E B
  ◌>>◌ m k = m >>= λ _. k

  -- A checked computation: its `none` is a panic.
  abbrev pub lift : {A : Type 0} → Option A → M S E A
  lift none s = panic
  lift (some a) s = done a s

  -- `for i in lo..lo + rounds { body(i)?; }`
  unfoldable pub for_range : ℕ → ℕ → (ℕ → M S E (Unit {0})) → M S E (Unit {0})
  for_range lo zero body s = done tt s
  for_range lo (suc rounds) body s = bind (body lo s) (λ _. for_range (lo + 1) rounds body)

-- `?` on an error of another type.
abbrev pub map_err : {S E F A : Type 0} → (E → F) → Exec S E A → Exec S F A
map_err f (done a s) = done a s
map_err f (fail e s) = fail (f e) s
map_err f panic = panic

-- Inversion of a normal return, for proofs where the parts stay shut.
pub bind-eq-done :
    {S E A B : Type 0} (r : Exec S E A) (f : A → M S E B) {b : B} {s' : S}
    → bind r f ≡ done b s'
    → (a : A) × (s : S) × (r ≡ done a s) × (f a s ≡ done b s')
bind-eq-done (done a s) f h = (a, s, refl, h)
bind-eq-done (fail e s) f h = absurd (cc)
bind-eq-done panic f h = absurd (cc)

pub map_err-eq-done :
    {S E F A : Type 0} (g : E → F) (r : Exec S E A) {a : A} {s : S}
    → map_err g r ≡ done a s
    → r ≡ done a s
map_err-eq-done g (done a s) h = ground arith
map_err-eq-done g (fail e s) h = cc
map_err-eq-done g panic h = cc

pub lift-eq-done :
    {S E A : Type 0} (o : Option A) {a : A} {s s' : S}
    → lift {E = E} o s ≡ done a s'
    → (o ≡ some a) × (s ≡ s')
lift-eq-done none h = absurd (cc)
lift-eq-done (some a) h = (cc, cc)
