-- ===== src/Tests/VecTests.antt =====
-- Runs of the vector operations.
use alpaka.Base.{◌≡◌, refl, [], ◌∷◌}
use alpaka.Vec.Fold.{Vec, prod}
use alpaka.Vec.Rearrange.{reverse_vec, concat_vec}

abbrev two_three : Vec
two_three = 2 ∷ 3 ∷ []

abbrev big : Vec
big = 20 ∷ 15 ∷ 1 ∷ []

prod-wraps : prod 8 big ≡ 44
unfolding prod
prod-wraps = refl

rearranged : reverse_vec (concat_vec two_three big) ≡ 1 ∷ 15 ∷ 20 ∷ 3 ∷ 2 ∷ []
unfolding reverse_vec concat_vec
rearranged = refl
