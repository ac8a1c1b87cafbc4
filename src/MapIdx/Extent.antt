-- ===== src/MapIdx/Extent.antt =====
-- `detail::MapIdx` of include/alpaka/idx/MapIdx.hpp. A division by zero, which C++ leaves undefined,
-- gives 0 here; it is met only where an extent, or a product of extents modulo 2 ^ w, is 0.
pub mod Laws
use alpaka.Base.{ℕ, ◌+◌, ◌*◌, ◌/◌, ◌%◌, [], ◌∷◌, wrap}
use alpaka.Vec.Fold.{Vec}

module _ (w : ℕ) where
  -- The components of all but the slow dimension, from the last one on, with the product of the
  -- extents passed, `hyperPlanesBefore`.
  unfoldable pub planes : ℕ → Vec → ℕ × Vec
  planes idx [] = (1, [])
  planes idx (e ∷ []) = (e, wrap w (idx % e) ∷ [])
  planes idx (e ∷ f ∷ es) =
      let (before, done) = planes idx (f ∷ es) in
      (wrap w (before * e), wrap w (idx / before % e) ∷ done)

  -- From 1 dimension to several; the slow dimension is not reduced by its extent.
  unfoldable pub map_idx_to_nd : ℕ → Vec → Vec
  unfolding planes
  map_idx_to_nd idx [] = []
  map_idx_to_nd idx (e ∷ es) = let (before, done) = planes idx es in wrap w (idx / before) ∷ done

  unfoldable pub flatten : ℕ → Vec → Vec → ℕ
  flatten idx_1d [] extent = idx_1d
  flatten idx_1d (i ∷ idx) [] = idx_1d
  flatten idx_1d (i ∷ idx) (e ∷ extent) = flatten (wrap w (idx_1d * e + i)) idx extent

  -- From several dimensions to 1. The extent of the slow dimension is not read.
  unfoldable pub map_idx_to_1d : Vec → Vec → ℕ
  unfolding flatten
  map_idx_to_1d [] extent = 0
  map_idx_to_1d (i ∷ idx) [] = i
  map_idx_to_1d (i ∷ idx) (e ∷ extent) = flatten i idx extent
