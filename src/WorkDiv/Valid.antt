-- ===== src/WorkDiv/Valid.antt =====
-- `isValidAccDevProps` and `isValidWorkDiv` of include/alpaka/workdiv/WorkDivHelpers.hpp.
pub mod Laws
use alpaka.Base.{ℕ, Bool, true, false, [], ◌∷◌, ◌||◌, ltb, if◌then◌else◌}
use alpaka.Vec.Fold.{Vec, prod}
use alpaka.WorkDiv.Types.{AccDevProps, WorkDivMembers}

-- The loop over the dimensions: no maximum extent is below 1.
unfoldable pub extents_at_least_one : Vec → Vec → Vec → Bool
extents_at_least_one (g ∷ gs) (b ∷ bs) (t ∷ ts) =
    if ltb g 1 || ltb b 1 || ltb t 1 then false else extents_at_least_one gs bs ts
extents_at_least_one _ _ _ = true

unfoldable pub is_valid_acc_dev_props : AccDevProps → Bool
unfolding extents_at_least_one
is_valid_acc_dev_props p =
    if ltb p.grid_block_count_max 1
      || ltb p.block_thread_count_max 1
      || ltb p.thread_elem_count_max 1
    then false
    else extents_at_least_one p.grid_block_extent_max p.block_thread_extent_max
        p.thread_elem_extent_max

-- The loop over the dimensions: no extent is zero or greater than its maximum. First the three
-- extents, then the three maxima.
unfoldable pub extents_allowed : Vec → Vec → Vec → Vec → Vec → Vec → Bool
extents_allowed (g ∷ gs) (b ∷ bs) (t ∷ ts) (gm ∷ gms) (bm ∷ bms) (tm ∷ tms) =
    if ltb g 1 || ltb b 1 || ltb t 1 || ltb gm g || ltb bm b || ltb tm t
    then false
    else extents_allowed gs bs ts gms bms tms
extents_allowed _ _ _ _ _ _ = true

-- The code reads the block thread extent a second time where it names the thread element extent.
unfoldable pub is_valid_work_div : ℕ → AccDevProps → WorkDivMembers → Bool
unfolding extents_allowed prod
is_valid_work_div w p work_div =
    let grid_block_extent = work_div.grid_block_extent in
    let block_thread_extent = work_div.block_thread_extent in
    let thread_elem_extent = work_div.block_thread_extent in
    if ltb p.grid_block_count_max (prod w grid_block_extent)
    then false
    else if ltb p.block_thread_count_max (prod w block_thread_extent)
    then false
    else if ltb p.thread_elem_count_max (prod w thread_elem_extent)
    then false
    else extents_allowed grid_block_extent block_thread_extent thread_elem_extent
        p.grid_block_extent_max p.block_thread_extent_max p.thread_elem_extent_max
