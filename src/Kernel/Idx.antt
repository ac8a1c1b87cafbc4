-- ===== src/Kernel/Idx.antt =====
-- The extents and indices that a kernel asks for: include/alpaka/workdiv/Traits.hpp and
-- include/alpaka/idx/Accessors.hpp. The accelerator gives the index of the block in the grid and of the thread
-- in the block.
pub mod Laws
use alpaka.Base.{ℕ}
use alpaka.Vec.Fold.{Vec}
use alpaka.Vec.Elementwise.{add, mul}
use alpaka.WorkDiv.Types.{WorkDivMembers}

module _ (w : ℕ) (work_div : WorkDivMembers) where
  unfoldable pub grid_threads : Vec
  unfolding mul
  grid_threads = mul w work_div.grid_block_extent work_div.block_thread_extent

  unfoldable pub grid_elems : Vec
  unfolding mul grid_threads
  grid_elems = mul w grid_threads work_div.thread_elem_extent

  unfoldable pub block_elems : Vec
  unfolding mul
  block_elems = mul w work_div.block_thread_extent work_div.thread_elem_extent

  unfoldable pub grid_thread_idx : Vec → Vec → Vec
  unfolding add mul
  grid_thread_idx grid_block_idx block_thread_idx =
      add w (mul w grid_block_idx work_div.block_thread_extent) block_thread_idx

  unfoldable pub idx_thread_first_elem : Vec → Vec → Vec
  unfolding mul grid_thread_idx
  idx_thread_first_elem grid_block_idx block_thread_idx =
      mul w (grid_thread_idx grid_block_idx block_thread_idx) work_div.thread_elem_extent
