-- ===== src/WorkDiv/Types.antt =====
-- include/alpaka/acc/AccDevProps.hpp, workdiv/WorkDivMembers.hpp and the restrictions of
-- workdiv/WorkDivHelpers.hpp.
use alpaka.Base.{ℕ}
use alpaka.Vec.Fold.{Vec}

pub data Restrictions : Type 0 where
  equal_extent close_to_equal_extent unrestricted : Restrictions

pub record AccDevProps : Type 0 where
  pub grid_block_extent_max : Vec
  pub block_thread_extent_max : Vec
  pub thread_elem_extent_max : Vec
  pub grid_block_count_max : ℕ
  pub block_thread_count_max : ℕ
  pub thread_elem_count_max : ℕ
  pub multi_processor_count : ℕ
  pub shared_mem_size_bytes : ℕ

pub record WorkDivMembers : Type 0 where
  pub grid_block_extent : Vec
  pub block_thread_extent : Vec
  pub thread_elem_extent : Vec
