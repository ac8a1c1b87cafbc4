-- ===== src/NdLoop.antt =====
-- include/alpaka/meta/NdLoop.hpp: nested loops over one index vector, which the loops change in place. The
-- function called is a step on a state `S`; `none` means that the fuel of a loop ran out.
pub mod Laws
pub mod Order
use alpaka.Base.{
  ℕ, zero, suc, ◌+◌, Bool, true, false, List, [], ◌∷◌, Option, none, some, length, get_or, set, ltb,
  wrap,
}
use alpaka.Vec.Fold.{Vec, zeros}
use alpaka.Vec.Rearrange.{index_sequence}

module _ (w : ℕ) {S : Type 0} where
  -- `for(; idx[d] < bound; ++idx[d]) body(idx);`
  unfoldable pub for_dim : ℕ → ℕ → (Vec → S → Option (Vec × S)) → ℕ → Vec → S → Option (Vec × S)
  for_dim d bound body zero idx s = none
  for_dim d bound body (suc fuel) idx s = elim (ltb (get_or idx d 0) bound) [
    | false ↦ some (idx, s)
    | true ↦ elim (body idx s) [
      | none ↦ none
      | some (after, t) ↦ for_dim d bound body fuel (set after d (wrap w (get_or after d 0 + 1))) t
    ]
  ]

  -- `detail::NdLoop` for the dimensions that are left. A loop has one round for each index below the extent.
  unfoldable pub nd_loop_detail : List ℕ → Vec → (Vec → S → S) → Vec → S → Option (Vec × S)
  unfolding for_dim
  nd_loop_detail [] extent f idx s = some (idx, f idx s)
  nd_loop_detail (d ∷ dims) extent f idx s =
      for_dim d (get_or extent d 0) (nd_loop_detail dims extent f) (suc (get_or extent d 0))
        (set idx d 0) s

  unfoldable pub nd_loop : List ℕ → Vec → (Vec → S → S) → S → Option (Vec × S)
  unfolding nd_loop_detail zeros
  nd_loop dims extent f s = nd_loop_detail dims extent f (zeros (length extent)) s

  unfoldable pub nd_loop_inc_idx : Vec → (Vec → S → S) → S → Option (Vec × S)
  unfolding nd_loop index_sequence
  nd_loop_inc_idx extent f s = nd_loop (index_sequence 0 (length extent)) extent f s
