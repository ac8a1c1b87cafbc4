-- ===== src/MapIdx/Dispatch.antt =====
-- `mapIdx` and `mapIdxPitchBytes` of include/alpaka/idx/MapIdx.hpp: the specialization that the two
-- dimensions select. `none` is a call that does not compile: no specialization fits, or, from
-- dimension 0 to dimension 0, three fit alike.
pub mod Laws
use alpaka.Base.{ℕ, zero, suc, [], ◌∷◌, Option, none, some, ◌==◌, if◌then◌else◌}
use alpaka.Vec.Fold.{Vec, zeros}
use alpaka.MapIdx.Extent.{map_idx_to_nd, map_idx_to_1d}
use alpaka.MapIdx.Pitch.{map_idx_pitch_bytes_to_nd, map_idx_pitch_bytes_to_1d}

-- `dim_out`, `dim_in`, the index with `dim_in` components, and the extent.
unfoldable pub map_idx : ℕ → ℕ → ℕ → Vec → Vec → Option Vec
unfolding zeros map_idx_to_nd map_idx_to_1d
map_idx w zero zero idx extent = none
map_idx w (suc m) zero idx extent = some (zeros (suc m))
map_idx w zero (suc n) idx extent = some []
map_idx w (suc zero) (suc zero) idx extent = some idx
map_idx w (suc (suc m)) (suc zero) [] extent = none
map_idx w (suc (suc m)) (suc zero) (i ∷ idx) extent = some (map_idx_to_nd w i extent)
map_idx w (suc zero) (suc (suc n)) idx extent = some (map_idx_to_1d w idx extent ∷ [])
map_idx w (suc (suc m)) (suc (suc n)) idx extent = if m == n then some idx else none

unfoldable pub map_idx_pitch_bytes : ℕ → ℕ → ℕ → Vec → Vec → Option Vec
unfolding zeros map_idx_pitch_bytes_to_nd map_idx_pitch_bytes_to_1d
map_idx_pitch_bytes w zero zero idx pitch = none
map_idx_pitch_bytes w (suc m) zero idx pitch = some (zeros (suc m))
map_idx_pitch_bytes w zero (suc n) idx pitch = some []
map_idx_pitch_bytes w (suc zero) (suc zero) idx pitch = some idx
map_idx_pitch_bytes w (suc (suc m)) (suc zero) [] pitch = none
map_idx_pitch_bytes w (suc (suc m)) (suc zero) (i ∷ idx) pitch =
    some (map_idx_pitch_bytes_to_nd w i pitch)
map_idx_pitch_bytes w (suc zero) (suc (suc n)) idx pitch =
    some (map_idx_pitch_bytes_to_1d w idx pitch ∷ [])
map_idx_pitch_bytes w (suc (suc m)) (suc (suc n)) idx pitch = if m == n then some idx else none
