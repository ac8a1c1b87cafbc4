-- ===== src/Kernel.antt =====
-- The kernel tasks of the CPU whose blocks have one thread: include/alpaka/kernel/TaskKernelCpuSerial.hpp and
-- kernel/TaskKernelCpuTbbBlocks.hpp. A kernel is what it does for a block with a given index: the list of its
-- accesses, each to the shared variables of the block, of type `M`, and to everything else, of type `S`.
-- `freeSharedVars` does nothing in these accelerators (block/shared/st/BlockSharedMemStMember.hpp).
pub mod Interleaving
pub mod Ending
pub mod Laws
pub mod Idx
use alpaka.Base.{
  ℕ, zero, suc, Bool, true, false, List, [], ◌∷◌, Option, none, some, map, length, ◌==◌, ◌&&◌,
  if◌then◌else◌,
}
use alpaka.Vec.Fold.{Vec, prod, zeros}
use alpaka.Vec.Rearrange.{index_sequence}
use alpaka.MapIdx.Dispatch.{map_idx}
use alpaka.WorkDiv.Types.{WorkDivMembers}
use alpaka.NdLoop.{nd_loop_inc_idx}

-- How a task ends: with what the kernel has made; by the exception for a block of several threads; or not yet,
-- which is a loop without fuel, or iterations that have accesses left.
pub data Launch (S : Type 0) : Type 0 where
  returned : S → Launch S
  threw : Launch S
  unfinished : Launch S

-- The accelerator: `m_gridBlockIdx` and the shared variables.
pub record Acc (M : Type 0) : Type 0 where
  pub grid_block_idx : Vec
  pub shared : M

-- One call of the loop body by `parallel_for`: its own accelerator's shared variables and the accesses that are left.
pub record Iteration (M S : Type 0) : Type 0 where
  pub shared : M
  pub left : List (M × S → M × S)

module _ {M S : Type 0} where
  unfoldable pub run_accesses : List (M × S → M × S) → M × S → M × S
  run_accesses [] x = x
  run_accesses (f ∷ fs) x = run_accesses fs (f x)

  -- An access of the iteration with the given number.
  unfoldable pub turn : ℕ → List (Iteration M S) → S → List (Iteration M S) × S
  turn i [] s = ([], s)
  turn (suc i) (it ∷ its) s = let (after, t) = turn i its s in (it ∷ after, t)
  turn zero (it ∷ its) s = elim it.left [
    | [] ↦ (it ∷ its, s)
    | f ∷ fs ↦ let (m, t) = f (it.shared, s) in (record { shared = m; left = fs } ∷ its, t)
  ]

  unfoldable pub turns : List ℕ → List (Iteration M S) → S → List (Iteration M S) × S
  unfolding turn
  turns [] its s = (its, s)
  turns (i ∷ schedule) its s = let (after, t) = turn i its s in turns schedule after t

  unfoldable pub is_done : List (Iteration M S) → Bool
  is_done [] = true
  is_done (it ∷ its) = elim it.left [ [] ↦ is_done its | f ∷ fs ↦ false ]

-- `mapIdx<TDim::value>` of a linear index.
unfoldable pub block_idx : ℕ → ℕ → Vec → Vec
unfolding map_idx
block_idx w i extent = elim (map_idx w (length extent) 1 (i ∷ []) extent) [ none ↦ [] | some v ↦ v ]

module _ (w : ℕ) {M S : Type 0} (kernel : Vec → List (M × S → M × S)) where
  unfoldable pub serial_block : Vec → Acc M × S → Acc M × S
  unfolding run_accesses
  serial_block idx (acc, s) =
      let at_block : Acc M = record acc { grid_block_idx = idx } in
      let (m, t) = run_accesses (kernel at_block.grid_block_idx) (at_block.shared, s) in
      (record at_block { shared = m }, t)

  -- With the shared variables of a new accelerator.
  unfoldable pub task_kernel_cpu_serial : WorkDivMembers → M → S → Launch S
  unfolding prod nd_loop_inc_idx serial_block zeros
  task_kernel_cpu_serial work_div fresh s =
      let acc : Acc M = record {
        grid_block_idx = zeros (length work_div.grid_block_extent);
        shared = fresh;
      } in
      if prod w work_div.block_thread_extent == 1
      then elim (nd_loop_inc_idx w work_div.grid_block_extent serial_block (acc, s)) [
        | none ↦ unfinished
        | some (idx, end) ↦ returned end.1
      ]
      else threw

  unfoldable pub iterations : WorkDivMembers → M → List (Iteration M S)
  unfolding prod block_idx index_sequence
  iterations work_div fresh =
      map (λ i. record { shared = fresh; left = kernel (block_idx w i work_div.grid_block_extent) })
        (index_sequence 0 (prod w work_div.grid_block_extent))

  -- `parallel_for` calls the body for every number below the number of blocks, in any order and at the same time; the
  -- schedule says which call makes the next access.
  unfoldable pub task_kernel_cpu_tbb_blocks : WorkDivMembers → M → List ℕ → S → Launch S
  unfolding prod iterations turns is_done
  task_kernel_cpu_tbb_blocks work_div fresh schedule s =
      if prod w work_div.block_thread_extent == 1
      then (let (its, t) = turns schedule (iterations work_div fresh) s in
          if is_done its then returned t else unfinished)
      else threw
