-- ===== src/Tests/KernelTests.antt =====
-- Runs of the kernel tasks and of the index accessors.
use alpaka.Base.{ℕ, zero, suc, ◌+◌, ◌≡◌, refl, List, [], ◌∷◌, arith}
use alpaka.Vec.Fold.{Vec}
use alpaka.Vec.Elementwise.{add}
use alpaka.MapIdx.Spec.{IsInside}
use alpaka.WorkDiv.Types.{WorkDivMembers}
use alpaka.Kernel.{
  returned, threw, run_accesses, iterations, task_kernel_cpu_serial, task_kernel_cpu_tbb_blocks,
}
use alpaka.Kernel.Laws.{IgnoresShared, BlocksCommute, tbb_blocks-serial}
use alpaka.Kernel.Ending.{Bounded}
use alpaka.Kernel.Idx.{grid_threads, grid_elems, grid_thread_idx, idx_thread_first_elem}
use alpaka.Kernel.Idx.Laws.{quotients, remainders, grid_thread_idx_lem, idx_thread_first_elem_lem}

-- A block stores its first component in its shared variable and then adds it to a sum.
abbrev first : Vec → ℕ
first [] = 0
first (i ∷ idx) = i

abbrev summing : Vec → List (ℕ × ℕ → ℕ × ℕ)
summing idx = (λ x. (first idx, x.1)) ∷ (λ x. (x.0, x.1 + x.0)) ∷ []

abbrev two_by_two : WorkDivMembers
two_by_two = record {
  grid_block_extent = 2 ∷ 2 ∷ [];
  block_thread_extent = 1 ∷ 1 ∷ [];
  thread_elem_extent = 3 ∷ 3 ∷ [];
}

abbrev two_threads : WorkDivMembers
two_threads = record two_by_two { block_thread_extent = 2 ∷ 1 ∷ [] }

serial_two_by_two : task_kernel_cpu_serial 32 summing two_by_two 7 0 ≡ returned 2
unfolding task_kernel_cpu_serial
serial_two_by_two = refl

serial_two_threads : task_kernel_cpu_serial 32 summing two_threads 7 0 ≡ threw
unfolding task_kernel_cpu_serial
serial_two_threads = refl

tbb_two_by_two :
    task_kernel_cpu_tbb_blocks 32 summing two_by_two 7 (3 ∷ 1 ∷ 3 ∷ 0 ∷ 2 ∷ 1 ∷ 0 ∷ 2 ∷ []) 0
    ≡ returned 2
unfolding task_kernel_cpu_tbb_blocks
tbb_two_by_two = refl

abbrev some_schedule : List ℕ
some_schedule = 3 ∷ 1 ∷ 3 ∷ 0 ∷ 2 ∷ 1 ∷ 0 ∷ 2 ∷ []

summing-IgnoresShared : IgnoresShared 32 summing
unfolding run_accesses
summing-IgnoresShared idx m n s = refl

summing-BlocksCommute : (extent : Vec) → BlocksCommute 32 summing extent
summing-BlocksCommute extent i j h k = (
  ((λ m n s. (refl, refl, refl)), ((λ m n s. (refl, refl, refl)), tt)),
  (((λ m n s. (refl, refl, refl)), ((λ m n s. (refl, refl, omega arith)), tt)), tt),
)

enough_turns : Bounded (iterations 32 summing two_by_two 7) some_schedule
unfolding iterations
enough_turns zero = omega arith
enough_turns (suc zero) = omega arith
enough_turns (suc (suc zero)) = omega arith
enough_turns (suc (suc (suc zero))) = omega arith
enough_turns (suc (suc (suc (suc j)))) = omega arith

tbb_blocks-serial_example :
    task_kernel_cpu_tbb_blocks 32 summing two_by_two 7 some_schedule 0
    ≡ task_kernel_cpu_serial 32 summing two_by_two 7 0
tbb_blocks-serial_example =
    tbb_blocks-serial 32 summing two_by_two 7 some_schedule 0 (omega arith)
      (omega arith, (omega arith, tt)) (omega arith) summing-IgnoresShared
      (summing-BlocksCommute (2 ∷ 2 ∷ [])) enough_turns

abbrev two_blocks : WorkDivMembers
two_blocks = record {
  grid_block_extent = 2 ∷ 5 ∷ [];
  block_thread_extent = 3 ∷ 1 ∷ [];
  thread_elem_extent = 1 ∷ 4 ∷ [];
}

grid_thread_idx_lem_example :
    (IsInside (grid_thread_idx 32 two_blocks (1 ∷ 4 ∷ []) (2 ∷ 0 ∷ [])) (grid_threads 32 two_blocks)
      × (quotients (grid_thread_idx 32 two_blocks (1 ∷ 4 ∷ []) (2 ∷ 0 ∷ [])) (3 ∷ 1 ∷ [])
          ≡ 1 ∷ 4 ∷ [])
      × (remainders (grid_thread_idx 32 two_blocks (1 ∷ 4 ∷ []) (2 ∷ 0 ∷ [])) (3 ∷ 1 ∷ [])
          ≡ 2 ∷ 0 ∷ []))
    × (IsInside (1 ∷ 3 ∷ []) (2 ∷ 5 ∷ [])
        × IsInside (1 ∷ 0 ∷ []) (3 ∷ 1 ∷ [])
        × (grid_thread_idx 32 two_blocks (1 ∷ 3 ∷ []) (1 ∷ 0 ∷ []) ≡ 4 ∷ 3 ∷ []))
unfolding grid_threads
grid_thread_idx_lem_example =
    grid_thread_idx_lem 32 two_blocks (1 ∷ 4 ∷ []) (2 ∷ 0 ∷ []) (4 ∷ 3 ∷ [])
      (omega arith, (omega arith, tt)) (omega arith, (omega arith, tt))
      (omega arith, (omega arith, tt)) (omega arith, (omega arith, tt))

idx_thread_first_elem_lem_example :
    (let elem =
        add 32 (idx_thread_first_elem 32 two_blocks (1 ∷ 4 ∷ []) (2 ∷ 0 ∷ [])) (0 ∷ 3 ∷ []) in
      let thread = quotients elem (1 ∷ 4 ∷ []) in
      IsInside elem (grid_elems 32 two_blocks)
      × (quotients thread (3 ∷ 1 ∷ []) ≡ 1 ∷ 4 ∷ [])
      × (remainders thread (3 ∷ 1 ∷ []) ≡ 2 ∷ 0 ∷ [])
      × (remainders elem (1 ∷ 4 ∷ []) ≡ 0 ∷ 3 ∷ []))
    × (IsInside (1 ∷ 3 ∷ []) (2 ∷ 5 ∷ [])
        × IsInside (1 ∷ 0 ∷ []) (3 ∷ 1 ∷ [])
        × IsInside (0 ∷ 2 ∷ []) (1 ∷ 4 ∷ [])
        × (add 32 (idx_thread_first_elem 32 two_blocks (1 ∷ 3 ∷ []) (1 ∷ 0 ∷ [])) (0 ∷ 2 ∷ [])
            ≡ 4 ∷ 14 ∷ []))
unfolding grid_threads grid_elems
idx_thread_first_elem_lem_example =
    idx_thread_first_elem_lem 32 two_blocks (1 ∷ 4 ∷ []) (2 ∷ 0 ∷ []) (0 ∷ 3 ∷ []) (4 ∷ 14 ∷ [])
      (omega arith, (omega arith, tt)) (omega arith, (omega arith, tt))
      (omega arith, (omega arith, tt)) (omega arith, (omega arith, tt))
      (omega arith, (omega arith, tt)) (omega arith, (omega arith, tt))
