-- ===== src/Tests/NdLoopTests.antt =====
-- Runs of the nested loops.
use alpaka.Base.{◌≡◌, refl, List, [], ◌∷◌, ◌++◌, some, arith}
use alpaka.Vec.Fold.{Vec}
use alpaka.MapIdx.Extent.{map_idx_to_nd}
use alpaka.NdLoop.{nd_loop, nd_loop_inc_idx}
use alpaka.NdLoop.Laws.{rounds}
use alpaka.NdLoop.Order.{nd_loop_inc_idx_lem}

-- The function that notes each index.
abbrev note : Vec → List Vec → List Vec
note v log = log ++ v ∷ []

nd_loop_inc_idx_lem_example :
    (idx : Vec) × (nd_loop_inc_idx 8 (2 ∷ 3 ∷ []) note []
      ≡ some (idx, rounds 6 0 (λ j. note (map_idx_to_nd 8 j (2 ∷ 3 ∷ []))) []))
nd_loop_inc_idx_lem_example = nd_loop_inc_idx_lem 8 (2 ∷ 3 ∷ []) note [] (omega arith) (omega arith)

-- The second dimension outermost.
swapped :
    nd_loop 8 (1 ∷ 0 ∷ []) (2 ∷ 2 ∷ []) note []
    ≡ some (2 ∷ 2 ∷ [], (0 ∷ 0 ∷ []) ∷ (1 ∷ 0 ∷ []) ∷ (0 ∷ 1 ∷ []) ∷ (1 ∷ 1 ∷ []) ∷ [])
unfolding nd_loop
swapped = refl
