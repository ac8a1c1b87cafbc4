-- ===== src/MapIdx/Dispatch/Laws.antt =====
-- `mapIdx` of include/alpaka/idx/MapIdx.hpp there and back, over the dimensions.
use alpaka.Base.{ℕ, ◌^◌, ◌<◌, ◌≡◌, refl, ap, [], ◌∷◌, some, arith, length}
use alpaka.Vec.Fold.{Vec}
use alpaka.Vec.Fold.Laws.{product}
use alpaka.MapIdx.Spec.{IsInside}
use alpaka.MapIdx.Extent.{map_idx_to_1d}
use alpaka.MapIdx.Extent.Laws.{map_idx_to_nd-map_idx_to_1d, map_idx_to_1d-lt}
use alpaka.MapIdx.Dispatch.{map_idx}

-- `mapIdx<1>` of an index inside the extent is a position below the size of the extent, and `mapIdx`
-- takes it back to the index.
pub map_idx_round_trip :
    (w : ℕ) (i : ℕ) (idx extent : Vec)
    → IsInside (i ∷ idx) extent
    → product extent < 2 ^ w
    → (j : ℕ) × (map_idx w 1 (length (i ∷ idx)) (i ∷ idx) extent ≡ some (j ∷ []))
      × (j < product extent)
      × (map_idx w (length (i ∷ idx)) 1 (j ∷ []) extent ≡ some (i ∷ idx))
unfolding map_idx
map_idx_round_trip w i idx [] h fits = absurd h
map_idx_round_trip w i [] (e ∷ []) h fits = (i, refl, omega (arith, h.0), refl)
map_idx_round_trip w i [] (e ∷ f ∷ es) h fits = absurd h.1
map_idx_round_trip w i (k ∷ idx) (e ∷ []) h fits = absurd h.1
map_idx_round_trip w i (k ∷ idx) (e ∷ f ∷ es) h fits = (
  map_idx_to_1d w (i ∷ k ∷ idx) (e ∷ f ∷ es),
  refl,
  map_idx_to_1d-lt w (i ∷ k ∷ idx) (e ∷ f ∷ es) h (omega arith),
  ap some (map_idx_to_nd-map_idx_to_1d w (i ∷ k ∷ idx) (e ∷ f ∷ es) h fits),
)
