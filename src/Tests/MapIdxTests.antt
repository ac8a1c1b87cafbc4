-- ===== src/Tests/MapIdxTests.antt =====
-- Runs of the index maps.
use alpaka.Base.{ℕ, ◌<◌, ◌≡◌, refl, [], ◌∷◌, some, arith}
use alpaka.Vec.Fold.{Vec}
use alpaka.MapIdx.Spec.{IsInside}
use alpaka.MapIdx.Extent.{map_idx_to_nd, map_idx_to_1d}
use alpaka.MapIdx.Extent.Laws.{map_idx_to_1d-map_idx_to_nd}
use alpaka.MapIdx.Pitch.{map_idx_pitch_bytes_to_nd, map_idx_pitch_bytes_to_1d}
use alpaka.MapIdx.Pitch.Laws.{packed, map_idx_pitch_bytes_to_nd-to_1d, pitch_bytes-packed}
use alpaka.MapIdx.Dispatch.{map_idx}
use alpaka.MapIdx.Dispatch.Laws.{map_idx_round_trip}

abbrev ext : Vec
ext = 2 ∷ 3 ∷ 4 ∷ []

map_idx_round_trip_example :
    (j : ℕ) × (map_idx 8 1 3 (1 ∷ 2 ∷ 3 ∷ []) ext ≡ some (j ∷ []))
    × (j < 24)
    × (map_idx 8 3 1 (j ∷ []) ext ≡ some (1 ∷ 2 ∷ 3 ∷ []))
map_idx_round_trip_example = map_idx_round_trip 8 1 (2 ∷ 3 ∷ []) ext (omega arith) (omega arith)

to_1d : map_idx 8 1 3 (1 ∷ 2 ∷ 3 ∷ []) ext ≡ some (23 ∷ [])
unfolding map_idx
to_1d = refl

map_idx_to_1d-map_idx_to_nd_example :
    IsInside (map_idx_to_nd 8 17 ext) ext × (map_idx_to_1d 8 (map_idx_to_nd 8 17 ext) ext ≡ 17)
map_idx_to_1d-map_idx_to_nd_example =
    map_idx_to_1d-map_idx_to_nd 8 17 ext (omega arith) (omega arith) (omega arith)

map_idx_pitch_bytes_to_nd-to_1d_example :
    map_idx_pitch_bytes_to_nd 8
      (map_idx_pitch_bytes_to_1d 8 (1 ∷ 2 ∷ 3 ∷ []) (64 ∷ 32 ∷ 8 ∷ []))
      (64 ∷ 32 ∷ 8 ∷ [])
    ≡ 1 ∷ 2 ∷ 3 ∷ []
map_idx_pitch_bytes_to_nd-to_1d_example =
    map_idx_pitch_bytes_to_nd-to_1d 8 1 64 (2 ∷ 3 ∷ []) (32 ∷ 8 ∷ []) (omega arith) (omega arith)

pitch_bytes-packed_example :
    (map_idx_pitch_bytes_to_1d 8 (1 ∷ 2 ∷ 3 ∷ []) (packed ext)
      ≡ map_idx_to_1d 8 (1 ∷ 2 ∷ 3 ∷ []) ext)
    × (map_idx_pitch_bytes_to_nd 8 (map_idx_to_1d 8 (1 ∷ 2 ∷ 3 ∷ []) ext) (packed ext)
        ≡ map_idx_to_nd 8 (map_idx_to_1d 8 (1 ∷ 2 ∷ 3 ∷ []) ext) ext)
pitch_bytes-packed_example = pitch_bytes-packed 8 (1 ∷ 2 ∷ 3 ∷ []) ext (omega arith) (omega arith)
