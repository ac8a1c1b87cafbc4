-- ===== src/Vec/Elementwise.antt =====
-- The element-wise operators of include/alpaka/vec/Vec.hpp. Both operands have one dimension.
pub mod Laws
use alpaka.Base.{
  ℕ, ◌+◌, ◌-◌, ◌*◌, ◌^◌, Bool, true, false, not, List, [], ◌∷◌, map, zip_with, ltb, leb, ◌==◌,
  if◌then◌else◌, wrap, foldr,
}
use alpaka.Vec.Fold.{Vec}

unfoldable pub add : ℕ → Vec → Vec → Vec
add w p q = zip_with (λ a b. wrap w (a + b)) p q

unfoldable pub sub : ℕ → Vec → Vec → Vec
sub w p q = zip_with (λ a b. wrap w (a + 2 ^ w - b)) p q

unfoldable pub mul : ℕ → Vec → Vec → Vec
mul w p q = zip_with (λ a b. wrap w (a * b)) p q

-- `operator==` leaves its loop at the first pair that differs.
unfoldable pub eq : Vec → Vec → Bool
eq [] q = true
eq (a ∷ p) [] = true
eq (a ∷ p) (b ∷ q) = if a == b then eq p q else false

unfoldable pub ne : Vec → Vec → Bool
unfolding eq
ne p q = not (eq p q)

unfoldable pub lt : Vec → Vec → List Bool
lt p q = zip_with ltb p q

unfoldable pub le : Vec → Vec → List Bool
le p q = zip_with leb p q

unfoldable pub gt : Vec → Vec → List Bool
gt p q = zip_with (λ a b. ltb b a) p q

unfoldable pub ge : Vec → Vec → List Bool
ge p q = zip_with (λ a b. leb b a) p q

-- std::min and std::max of an initializer list: the first of the extreme values.
unfoldable pub std_min : ℕ → ℕ → ℕ
std_min a b = if ltb b a then b else a

unfoldable pub std_max : ℕ → ℕ → ℕ
std_max a b = if ltb a b then b else a

unfoldable pub elementwise_min : Vec → List Vec → Vec
unfolding std_min
elementwise_min p [] = p
elementwise_min p (q ∷ qs) = elementwise_min (zip_with std_min p q) qs

unfoldable pub elementwise_max : Vec → List Vec → Vec
unfolding std_max
elementwise_max p [] = p
elementwise_max p (q ∷ qs) = elementwise_max (zip_with std_max p q) qs

-- `castVec` to a type of `w` bits.
unfoldable pub cast_vec : ℕ → Vec → Vec
cast_vec w v = map (λ a. wrap w a) v
