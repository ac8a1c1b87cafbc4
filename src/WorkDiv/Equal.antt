-- ===== src/WorkDiv/Equal.antt =====
-- The common divisor of the branch for equal extents of `subDivideGridElems`, in
-- include/alpaka/workdiv/WorkDivHelpers.hpp.
pub mod Laws
use alpaka.Base.{
  ℕ, ◌+◌, ◌%◌, true, false, List, [], ◌∷◌, Option, none, some, length, ltb, ◌==◌, if◌then◌else◌,
}

-- std::set_intersection of ascending ranges.
unfoldable pub set_intersection : List ℕ → List ℕ → List ℕ
set_intersection [] ys = []
set_intersection (x ∷ xs) [] = []
set_intersection (x ∷ xs) (y ∷ ys) = elim (ltb x y) [
  | true ↦ set_intersection xs (y ∷ ys)
  | false ↦ elim (ltb y x) [
    | true ↦ set_intersection (x ∷ xs) ys
    | false ↦ x ∷ set_intersection xs ys
  ]
]

-- `*(--std::end(s))`, undefined for the empty set.
unfoldable pub last_of : List ℕ → Option ℕ
last_of [] = none
last_of (x ∷ []) = some x
last_of (x ∷ y ∷ ys) = last_of (y ∷ ys)

-- The loop over the dimensions from `i` on, with the two sets of `intersects`: the one at `(i - 1) % 2`
-- becomes the divisors of dimension 0, the one at `i % 2` their intersection with those of dimension i.
unfoldable pub intersects_loop : List ℕ → ℕ → List (List ℕ) → List ℕ × List ℕ → List ℕ × List ℕ
unfolding set_intersection
intersects_loop d0 i [] s = s
intersects_loop d0 i (d ∷ ds) s =
    intersects_loop d0 (i + 1) ds
      (if i % 2 == 1 then (d0, set_intersection d0 d) else (set_intersection d0 d, d0))

-- `maxCommonDivisor`, from the divisors of each dimension.
unfoldable pub max_common_divisor : List (List ℕ) → Option ℕ
unfolding intersects_loop last_of
max_common_divisor [] = none
max_common_divisor (d0 ∷ ds) =
    let s = intersects_loop d0 1 ds ([], []) in last_of (if length ds % 2 == 0 then s.0 else s.1)
