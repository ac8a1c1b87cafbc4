-- ===== src/WorkDiv/Clip.antt =====
-- The two clipping loops of `subDivideGridElems`, in include/alpaka/workdiv/WorkDivHelpers.hpp: they
-- halve one extent of the block after the other until the block has few enough threads. `none` means
-- that the fuel ran out.
pub mod Halving
pub mod Laws
use alpaka.Base.{
  ℕ, zero, suc, ◌/◌, Bool, false, true, [], ◌∷◌, Option, none, some, get_or, set, ltb, ◌==◌,
  if◌then◌else◌,
}
use alpaka.Vec.Fold.{Vec, prod}
use alpaka.Vec.Select.{select, max_elem}

-- The order of the minimum search: ones are larger than everything else.
unfoldable pub ones_last : ℕ → ℕ → Bool
ones_last a b = if a == 1 then false else if b == 1 then true else ltb a b

-- The range that ends before the last component.
unfoldable pub but_last : Vec → Vec
but_last [] = []
but_last (x ∷ []) = []
but_last (x ∷ y ∷ ys) = x ∷ but_last (y ∷ ys)

-- The index that std::min_element finds from `&v[0]` up to `&v[dim - 1]`, which is left out.
unfoldable pub min_elem_but_last : Vec → ℕ
unfolding select but_last ones_last
min_elem_but_last v = select ones_last (but_last v)

module _ (w count_max : ℕ) (pick : Vec → ℕ) where
  -- `while(v.prod() > countMax) { auto i = pick(v); v[i] = v[i] / 2; }`
  unfoldable pub halve_while : ℕ → Vec → Option Vec
  unfolding prod
  halve_while zero v = none
  halve_while (suc fuel) v =
      let rest = halve_while fuel (set v (pick v) (get_or v (pick v) 0 / 2)) in
      if ltb count_max (prod w v) then rest else some v

unfoldable pub clip_close_to_equal : ℕ → ℕ → ℕ → Vec → Option Vec
unfolding halve_while max_elem
clip_close_to_equal w count_max fuel v = halve_while w count_max max_elem fuel v

unfoldable pub clip_unrestricted : ℕ → ℕ → ℕ → Vec → Option Vec
unfolding halve_while min_elem_but_last
clip_unrestricted w count_max fuel v = halve_while w count_max min_elem_but_last fuel v
