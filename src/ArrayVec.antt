-- ===== src/ArrayVec.antt =====
-- common/src/arrayvec.rs: a vector in an array of `capacity` places, as a function of the index.
pub mod Laws
pub mod Iterate
mod Examples
use maizono_os.Base.{
  ℕ, zero, suc, ◌+◌, Bool, true, false, Option, none, some, ltb, if◌then◌else◌, update,
}

pub record ArrayVec (A : Type 0) : Type 0 where
  pub array : ℕ → Option A
  pub index : ℕ

-- What `push` returns: the changed vector, or a `CapacityError`.
pub data PushResult (A : Type 0) : Type 0 where
  ok : ArrayVec A → PushResult A
  capacity_error : PushResult A

-- What `next` does. Past the array the index panics.
pub data NextResult (A : Type 0) : Type 0 where
  panicked : NextResult A
  next_is : Option A → ArrayVec A → NextResult A

module _ {A : Type 0} where
  pub new : ArrayVec A
  new = record { array = λ i. none; index = 0 }

  -- `e.is_none()` of the place at `i`; `rest` searches the places after it.
  abbrev if_free : Option A → ℕ → Option ℕ → Option ℕ
  if_free none i rest = some i
  if_free (some a) i rest = rest

  -- `self.array.iter_mut().find(|e| e.is_none())`, from place `i` on with `left` places left.
  pub find_free : (ℕ → Option A) → ℕ → ℕ → Option ℕ
  find_free array i zero = none
  find_free array i (suc left) = let rest = find_free array (i + 1) left in if_free (array i) i rest

  -- `.ok_or(CapacityError::new())? = Some(new_element)`
  abbrev store_free : ArrayVec A → A → Option ℕ → PushResult A
  store_free v new_element none = capacity_error
  store_free v new_element (some i) = ok (record v { array = update v.array i (some new_element) })

  pub push : ℕ → ArrayVec A → A → PushResult A
  unfolding find_free
  push capacity v new_element = store_free v new_element (find_free v.array 0 capacity)

  pub next : ℕ → ArrayVec A → NextResult A
  next capacity v =
      if ltb v.index capacity
      then elim (v.array v.index) [
        | some current ↦ next_is (some current) (record v { index = v.index + 1 })
        | none ↦ next_is none v
      ]
      else panicked
