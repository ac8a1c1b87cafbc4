-- ===== src/MapIdx/Pitch.antt =====
-- `detail::MapIdxPitchBytes` of include/alpaka/idx/MapIdx.hpp. `pitch[d]` is the distance between
-- two neighbours in dimension d - 1, so `pitch[0]` is not read. Division by zero as in Extent.antt.
pub mod Laws
use alpaka.Base.{ℕ, ◌+◌, ◌*◌, ◌/◌, ◌%◌, [], ◌∷◌, wrap}
use alpaka.Vec.Fold.{Vec}

module _ (w : ℕ) where
  -- `tmp` and the pitches of the dimensions that are left.
  unfoldable pub divide_by : ℕ → Vec → Vec
  divide_by tmp [] = tmp ∷ []
  divide_by tmp (p ∷ pitch) = wrap w (tmp / p) ∷ divide_by (tmp % p) pitch

  unfoldable pub map_idx_pitch_bytes_to_nd : ℕ → Vec → Vec
  unfolding divide_by
  map_idx_pitch_bytes_to_nd idx [] = []
  map_idx_pitch_bytes_to_nd idx (p0 ∷ pitch) = divide_by idx pitch

  -- `idx[lastDim]` of the vector `i, idx...`.
  unfoldable pub last : ℕ → Vec → ℕ
  last i [] = i
  last i (j ∷ idx) = last j idx

  -- The loop adds `pitch[d + 1] * idx[d]` for every dimension but the last.
  unfoldable pub add_steps : ℕ → Vec → Vec → ℕ
  add_steps idx_1d [] pitch = idx_1d
  add_steps idx_1d (i ∷ idx) [] = idx_1d
  add_steps idx_1d (i ∷ idx) (p ∷ pitch) = add_steps (wrap w (idx_1d + p * i)) idx pitch

  unfoldable pub map_idx_pitch_bytes_to_1d : Vec → Vec → ℕ
  unfolding last add_steps
  map_idx_pitch_bytes_to_1d [] pitch = 0
  map_idx_pitch_bytes_to_1d (i ∷ idx) [] = i
  map_idx_pitch_bytes_to_1d (i ∷ idx) (p0 ∷ pitch) = add_steps (last i idx) (i ∷ idx) pitch
