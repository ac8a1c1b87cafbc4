-- ===== src/Vec/Select.antt =====
-- `minElem` and `maxElem` of include/alpaka/vec/Vec.hpp, on std::min_element and std::max_element.
pub mod Laws
use alpaka.Base.{ℕ, ◌+◌, Bool, List, [], ◌∷◌, ltb, if◌then◌else◌}
use alpaka.Vec.Fold.{Vec}

-- std::min_element and std::max_element: one pass that keeps the best element so far and its
-- index, and replaces it by an element that is `better`. The end of an empty range is index 0.
module _ (better : ℕ → ℕ → Bool) where
  unfoldable pub select_from : ℕ → ℕ → ℕ → Vec → ℕ
  select_from best idx i [] = idx
  select_from best idx i (x ∷ xs) =
      select_from (if better x best then x else best) (if better x best then i else idx) (i + 1) xs

  unfoldable pub select : Vec → ℕ
  unfolding select_from
  select [] = 0
  select (x ∷ xs) = select_from x 0 1 xs

unfoldable pub min_elem : Vec → ℕ
unfolding select
min_elem v = select ltb v

unfoldable pub max_elem : Vec → ℕ
unfolding select
max_elem v = select (λ x best. ltb best x) v
