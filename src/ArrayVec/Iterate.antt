-- ===== src/ArrayVec/Iterate.antt =====
-- common/src/arrayvec.rs: a whole iteration, which calls `next` until it gives no element.
use maizono_os.Base.{
  ℕ, zero, suc, ◌+◌, ◌≤◌, ◌<◌, ◌≡◌, refl, sym, subst, ◌∙◌, ap, true, false, none, some, List, [],
  ◌∷◌, ◌++◌, arith, ltb, if◌then◌else◌, get_elem?, length, length-append, inl, inr,
}
use mathlib.Core.List.{append_assoc, append-nil}
use native.Mathlib.Numerals.{add-one}
use native.Mathlib.Decide.{dec_lt}
use maizono_os.ArrayVec.{
  ArrayVec, PushResult, ok, capacity_error, NextResult, panicked, next_is, new, push, next,
}
use maizono_os.ArrayVec.Laws.{Holds, push_lem, get_elem-past}

-- The elements in their order, and how the iteration stops.
pub data Iteration (A : Type 0) : Type 0 where
  ended stopped_by_panic out_of_fuel : List A → Iteration A

module _ {A : Type 0} where
  abbrev pub first : A → Iteration A → Iteration A
  first a (ended rest) = ended (a ∷ rest)
  first a (stopped_by_panic rest) = stopped_by_panic (a ∷ rest)
  first a (out_of_fuel rest) = out_of_fuel (a ∷ rest)

  -- One round, from what `next` gave; `later` iterates on.
  abbrev round : NextResult A → (ArrayVec A → Iteration A) → Iteration A
  round panicked later = stopped_by_panic []
  round (next_is (some current) v) later = first current (later v)
  round (next_is none v) later = ended []

  pub iterate : ℕ → ℕ → ArrayVec A → Iteration A
  iterate capacity zero v = out_of_fuel []
  iterate capacity (suc fuel) v = round (next capacity v) (λ v. iterate capacity fuel v)

  abbrev pushed_then : PushResult A → (ArrayVec A → PushResult A) → PushResult A
  pushed_then (ok v) later = later v
  pushed_then capacity_error later = capacity_error

  pub push_all : ℕ → List A → ArrayVec A → PushResult A
  push_all capacity [] v = ok v
  push_all capacity (x ∷ xs) v = pushed_then (push capacity v x) (λ v. push_all capacity xs v)

  drop : ℕ → List A → List A
  drop zero xs = xs
  drop (suc i) [] = []
  drop (suc i) (x ∷ xs) = drop i xs

  drop-next :
      (xs : List A) (i : ℕ)
      → i < length xs
      → (a : A) × (get_elem? xs i ≡ some a) × (drop i xs ≡ a ∷ drop (suc i) xs)
  unfolding drop
  drop-next [] i h = absurd (omega arith)
  drop-next (x ∷ xs) zero h = (x, refl, refl)
  drop-next (x ∷ xs) (suc i) h = drop-next xs i (omega arith)

  drop-all : (xs : List A) (i : ℕ) → length xs ≤ i → drop i xs ≡ []
  unfolding drop
  drop-all [] zero h = refl
  drop-all [] (suc i) h = refl
  drop-all (x ∷ xs) zero h = absurd (omega arith)
  drop-all (x ∷ xs) (suc i) h = drop-all xs i (omega arith)

  -- How an iteration over `length` elements stops.
  abbrev pub stops : ℕ → ℕ → List A → Iteration A
  stops capacity length xs = if ltb length capacity then ended xs else stopped_by_panic xs

  first-stops :
      (capacity n : ℕ) (a : A) (xs : List A)
      → first a (stops capacity n xs) ≡ stops capacity n (a ∷ xs)
  first-stops capacity n a xs = elim (dec_lt n capacity) [
    | yes room ↦ let e : ltb n capacity ≡ true = ground arith in rw e refl
    | no full ↦ let e : ltb n capacity ≡ false = ground arith in rw e refl
  ]

  next-some :
      (capacity : ℕ) (v : ArrayVec A) (a : A)
      → v.index < capacity
      → v.array v.index ≡ some a
      → next capacity v ≡ next_is (some a) (record v { index = v.index + 1 })
  unfolding next
  next-some capacity v a h e =
      let inside : ltb v.index capacity ≡ true = ground arith in rw inside (rw e refl)

  next-none :
      (capacity : ℕ) (v : ArrayVec A)
      → v.index < capacity
      → v.array v.index ≡ none
      → next capacity v ≡ next_is none v
  unfolding next
  next-none capacity v h e =
      let inside : ltb v.index capacity ≡ true = ground arith in rw inside (rw e refl)

  next-panics : (capacity : ℕ) (v : ArrayVec A) → capacity ≤ v.index → next capacity v ≡ panicked
  unfolding next
  next-panics capacity v h =
      let outside : ltb v.index capacity ≡ false = ground arith in rw outside refl

  iterate_lem :
      (capacity left : ℕ) (xs : List A) (v : ArrayVec A)
      → Holds capacity xs v
      → v.index + left ≡ length xs
      → iterate capacity (suc left) v ≡ stops capacity (length xs) (drop v.index xs)
  unfolding iterate
  iterate_lem capacity zero xs v h e = elim (dec_lt (length xs) capacity) [
    | yes room ↦
        let none_left = h.places v.index (omega arith) ∙ get_elem-past xs v.index (omega arith) in
        let inside : ltb (length xs) capacity ≡ true = ground arith in
        rw (next-none capacity v (omega arith) none_left, inside, drop-all xs v.index (omega arith))
          refl
    | no full ↦
        let outside : ltb (length xs) capacity ≡ false = ground arith in
        rw (next-panics capacity v (omega arith), outside, drop-all xs v.index (omega arith)) refl
  ]
  iterate_lem capacity (suc left) xs v h e =
      let (a, here, tail) = drop-next xs v.index (omega arith) in
      let rest = tail ∙ ap (λ k. a ∷ drop k xs) (sym (add-one v.index)) in
      let inside : v.index < capacity = omega (arith, h.fits) in
      let v' : ArrayVec A = record v { index = v.index + 1 } in
      let later =
        iterate_lem capacity left xs v' (record { fits = h.fits; places = h.places })
          (omega arith) in
      rw (next-some capacity v a inside (h.places v.index inside ∙ here)) (
        rw (later) (
          first-stops capacity (length xs) a (drop (v.index + 1) xs)
          ∙ ap (stops capacity (length xs)) (sym rest)))

  -- `result` is the vector that holds the list, to be read from its start.
  record Filled (capacity : ℕ) (xs : List A) (result : PushResult A) : Type 0 where
    out : ArrayVec A
    returns : result ≡ ok out
    holds : Holds capacity xs out
    from_start : out.index ≡ 0

  push_all-Filled :
      (capacity : ℕ) (before xs : List A) (v : ArrayVec A)
      → Holds capacity before v
      → v.index ≡ 0
      → length before + length xs ≤ capacity
      → Filled capacity (before ++ xs) (push_all capacity xs v)
  unfolding push_all
  push_all-Filled capacity before [] v h e fits = record {
    out = v;
    returns = refl;
    holds = subst (λ l. Holds capacity l v) (sym (append-nil before)) h;
    from_start = e;
  }
  push_all-Filled capacity before (x ∷ xs) v h e fits = elim (push_lem capacity before v x h) [
    | inl (room, pushed) ↦
        let later =
          push_all-Filled capacity (before ++ (x ∷ [])) xs pushed.out pushed.holds
            (pushed.same_index ∙ e) (omega (arith, length-append before (x ∷ []))) in
        record {
          out = later.out;
          returns = rw pushed.returns later.returns;
          holds =
              subst (λ l. Holds capacity l later.out) (append_assoc before (x ∷ []) xs) later.holds;
          from_start = later.from_start;
        }
    | inr (full, error) ↦ absurd (omega arith)
  ]

  new-Holds : (capacity : ℕ) → Holds {A = A} capacity [] new
  unfolding new
  new-Holds capacity = record { fits = omega arith; places = λ i h. refl }

  -- A list that fits is pushed on a new vector without an error. An iteration then gives its elements
  -- in their order; it ends after the last one if there is a free place, and panics if there is none.
  pub push_all-iterate :
      (capacity : ℕ) (xs : List A)
      → length xs ≤ capacity
      → (v : ArrayVec A) × (push_all capacity xs new ≡ ok v)
        × (iterate capacity (suc (length xs)) v ≡ stops capacity (length xs) xs)
  unfolding drop new
  push_all-iterate capacity xs fits =
      let filled = push_all-Filled capacity [] xs new (new-Holds capacity) refl (omega arith) in
      let e =
        iterate_lem capacity (length xs) xs filled.out filled.holds
          (omega (arith, filled.from_start)) in
      (
        filled.out,
        filled.returns,
        e ∙ ap (λ k. stops capacity (length xs) (drop k xs)) filled.from_start,
      )
