-- ===== src/ArrayVec/Laws.antt =====
-- A vector holds a list, to which `push` appends.
use maizono_os.Base.{
  ℕ, zero, suc, ◌+◌, ◌≤◌, ◌<◌, ◌≡◌, refl, ◌∙◌, Option, none, some, List, [], ◌∷◌, ◌++◌, arith, ltb,
  ◌==◌, if◌then◌else◌, update, get_elem?, length, length-append, inl, inr, ◌⊎◌,
}
use native.Mathlib.Decide.{dec_lt}
use maizono_os.ArrayVec.{ArrayVec, PushResult, ok, capacity_error, find_free, push}

module _ {A : Type 0} where
  get_elem-inside : (xs : List A) (i : ℕ) → i < length xs → (a : A) × (get_elem? xs i ≡ some a)
  get_elem-inside [] i h = absurd (omega arith)
  get_elem-inside (x ∷ xs) zero h = (x, refl)
  get_elem-inside (x ∷ xs) (suc i) h = get_elem-inside xs i (omega arith)

  pub get_elem-past : (xs : List A) (i : ℕ) → length xs ≤ i → get_elem? xs i ≡ none
  get_elem-past [] i h = refl
  get_elem-past (x ∷ xs) zero h = absurd (omega arith)
  get_elem-past (x ∷ xs) (suc i) h = get_elem-past xs i (omega arith)

  get_elem-snoc :
      (xs : List A) (x : A) (i : ℕ)
      → get_elem? (xs ++ (x ∷ [])) i ≡ (if length xs == i then some x else get_elem? xs i)
  get_elem-snoc [] x zero = refl
  get_elem-snoc [] x (suc i) = ground arith
  get_elem-snoc (y ∷ xs) x zero = ground arith
  get_elem-snoc (y ∷ xs) x (suc i) = ground (arith, get_elem-snoc xs x i)

  -- The first places of the array hold the list, the others nothing.
  pub record Holds (capacity : ℕ) (xs : List A) (v : ArrayVec A) : Type 0 where
    pub fits : length xs ≤ capacity
    pub places : (i : ℕ) → i < capacity → v.array i ≡ get_elem? xs i

  find_free-taken :
      (array : ℕ → Option A) (i left : ℕ) (a : A)
      → array i ≡ some a
      → find_free array i (suc left) ≡ find_free array (i + 1) left
  unfolding find_free
  find_free-taken array i left a e = rw e refl

  find_free-free :
      (array : ℕ → Option A) (i left : ℕ) → array i ≡ none → find_free array i (suc left) ≡ some i
  unfolding find_free
  find_free-free array i left e = rw e refl

  find_free_lem :
      (array : ℕ → Option A) (xs : List A) (i left : ℕ)
      → ((j : ℕ) → j < i + left → array j ≡ get_elem? xs j)
      → i ≤ length xs
      → length xs ≤ i + left
      → find_free array i left ≡ (if ltb (length xs) (i + left) then some (length xs) else none)
  unfolding find_free
  find_free_lem array xs i zero places lo hi = ground arith
  find_free_lem array xs i (suc left) places lo hi = elim (dec_lt i (length xs)) [
    | yes taken ↦
        let (a, e) = get_elem-inside xs i taken in
        rw (find_free-taken array i left a (places i (omega arith) ∙ e)) (
          ground (
            arith,
            find_free_lem array xs (i + 1) left (λ j h. places j (omega arith)) (omega arith)
                (omega arith),
          ))
    | no free ↦
        let e : i ≡ length xs = omega arith in
        rw (find_free-free array i left (places i (omega arith) ∙ get_elem-past xs i (omega arith)))
          (ground arith)
  ]

  push-ok :
      (capacity : ℕ) (v : ArrayVec A) (x : A) (i : ℕ)
      → find_free v.array 0 capacity ≡ some i
      → push capacity v x ≡ ok (record v { array = update v.array i (some x) })
  unfolding push
  push-ok capacity v x i e = rw e refl

  push-full :
      (capacity : ℕ) (v : ArrayVec A) (x : A)
      → find_free v.array 0 capacity ≡ none
      → push capacity v x ≡ capacity_error
  unfolding push
  push-full capacity v x e = rw e refl

  -- `result` is the vector with `x` at the end of its list, read as far as before.
  pub record Pushed (capacity : ℕ) (xs : List A) (v : ArrayVec A) (x : A) (result : PushResult A)
      : Type 0 where
    pub out : ArrayVec A
    pub returns : result ≡ ok out
    pub holds : Holds capacity (xs ++ (x ∷ [])) out
    pub same_index : out.index ≡ v.index

  -- `push` on a vector that holds a list appends the element if the list is shorter than the array,
  -- and keeps the place that is read next; on a full vector it is a capacity error.
  pub push_lem :
      (capacity : ℕ) (xs : List A) (v : ArrayVec A) (x : A)
      → Holds capacity xs v
      → ((length xs < capacity) × Pushed capacity xs v x (push capacity v x))
        ⊎ ((length xs ≡ capacity) × (push capacity v x ≡ capacity_error))
  push_lem capacity xs v x h =
      let found =
        find_free_lem v.array xs 0 capacity (λ j k. h.places j (omega arith)) (omega arith)
          (omega (arith, h.fits)) in
      elim (dec_lt (length xs) capacity) [
        | yes room ↦ inl (
          room,
          record {
            out = record v { array = update v.array (length xs) (some x) };
            returns = push-ok capacity v x (length xs) (ground (arith, found));
            holds = record {
              fits = omega (arith, length-append xs (x ∷ []));
              places = λ i k. ground (arith, h.places i k, get_elem-snoc xs x i);
            };
            same_index = refl;
          },
        )
        | no full ↦
            inr (omega (arith, h.fits), push-full capacity v x (ground (arith, found, h.fits)))
      ]
