-- ===== src/ArrayVec/Examples.antt =====
-- `push` on a vector of three places that holds two elements.
use maizono_os.Base.{ℕ, ◌<◌, ◌≡◌, refl, ◌⊎◌, List, [], ◌∷◌, arith, length, get_elem?}
use maizono_os.ArrayVec.{ArrayVec, new, ok, push, capacity_error}
use maizono_os.ArrayVec.Iterate.{push_all, iterate, stops, push_all-iterate}
use maizono_os.ArrayVec.Laws.{Holds, Pushed, push_lem}

abbrev two : List ℕ
two = 7 ∷ 9 ∷ []

abbrev vector : ArrayVec ℕ
vector = record { array = λ i. get_elem? two i; index = 1 }

vector-Holds : Holds 3 two vector
vector-Holds = record { fits = omega arith; places = λ i h. refl }

push_lem_example :
    ((length two < 3) × Pushed 3 two vector 11 (push 3 vector 11))
    ⊎ ((length two ≡ 3) × (push 3 vector 11 ≡ capacity_error))
push_lem_example = push_lem 3 two vector 11 vector-Holds

push_all-iterate_example :
    (v : ArrayVec ℕ) × (push_all 3 two new ≡ ok v) × (iterate 3 3 v ≡ stops 3 (length two) two)
push_all-iterate_example = push_all-iterate 3 two (omega arith)
