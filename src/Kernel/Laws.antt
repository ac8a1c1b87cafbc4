-- ===== src/Kernel/Laws.antt =====
-- The serial task and the task on TBB: one result.
use native.Mathlib.Nat.{div-one}
use alpaka.Base.{
  ℕ, zero, suc, ◌+◌, ◌≤◌, ◌^◌, ◌<◌, ◌≡◌, refl, sym, ap, ap₂, ◌∙◌, inl, inr, true, false, List, [],
  ◌∷◌, arith, length, All, ◌==◌, map, Bool-cases, wrap_of_lt,
}
use alpaka.Vec.Fold.{Vec, prod, zeros}
use alpaka.Vec.Fold.Laws.{product, prod_of_lt}
use alpaka.Vec.Rearrange.{index_sequence}
use alpaka.MapIdx.Extent.{map_idx_to_nd}
use alpaka.MapIdx.Dispatch.{map_idx}
use alpaka.WorkDiv.Types.{WorkDivMembers}
use alpaka.NdLoop.Laws.{rounds}
use alpaka.NdLoop.Order.{nd_loop_inc_idx_lem}
use alpaka.Kernel.{
  Acc, Iteration, returned, run_accesses, turns, is_done, block_idx, serial_block, iterations,
  task_kernel_cpu_serial, task_kernel_cpu_tbb_blocks,
}
use alpaka.Kernel.Interleaving.{Separate, Apart, in_turn, in_turn-turns}
use alpaka.Kernel.Ending.{Bounded, turns-is_done, in_turn-done}

module _ (w : ℕ) {M S : Type 0} (kernel : Vec → List (M × S → M × S)) where
  -- What a block makes does not depend on what its shared variables hold when it starts.
  abbrev pub IgnoresShared : Type 0
  IgnoresShared =
      (idx : Vec) (m n : M) (s : S)
      → (run_accesses (kernel idx) (m, s)).1 ≡ (run_accesses (kernel idx) (n, s)).1

  -- Accesses of different blocks do the same in both orders.
  abbrev pub BlocksCommute : Vec → Type 0
  BlocksCommute extent =
      (i j : ℕ)
      → i < j
      → j < product extent
      → Separate (kernel (block_idx w i extent)) (kernel (block_idx w j extent))

  abbrev iteration : Vec → M → ℕ → Iteration M S
  iteration extent fresh i = record { shared = fresh; left = kernel (block_idx w i extent) }

  block_idx-eq :
      (i : ℕ) (extent : Vec) → i < 2 ^ w → block_idx w i extent ≡ map_idx_to_nd w i extent
  unfolding block_idx map_idx map_idx_to_nd
  block_idx-eq i [] h = refl
  block_idx-eq i (e ∷ []) h =
      ap (λ n. let v : Vec = n ∷ [] in v)
        (sym (wrap_of_lt w (omega (arith, div-one i)) ∙ div-one i))
  block_idx-eq i (e ∷ f ∷ es) h = refl

  rounds-in_turn :
      (extent : Vec) (fresh : M) (n i : ℕ) (acc : Acc M) (s : S)
      → IgnoresShared
      → i + n ≤ 2 ^ w
      → (rounds n i (λ j. serial_block w kernel (map_idx_to_nd w j extent)) (acc, s)).1
        ≡ in_turn (map (iteration extent fresh) (index_sequence i n)) s
  unfolding index_sequence serial_block
  rounds-in_turn extent fresh zero i acc s ignores h = refl
  rounds-in_turn extent fresh (suc n) i acc s ignores h =
      let next : suc i ≡ i + 1 = omega arith in
      let idx : block_idx w i extent ≡ map_idx_to_nd w i extent =
        block_idx-eq i extent (omega arith) in
      let (acc', t) = serial_block w kernel (map_idx_to_nd w i extent) (acc, s) in
      let same : t ≡ (run_accesses (kernel (block_idx w i extent)) (fresh, s)).1 =
        ignores (map_idx_to_nd w i extent) acc.shared fresh s
        ∙ ap (λ v. (run_accesses (kernel v) (fresh, s)).1) (sym idx) in
      rounds-in_turn extent fresh n (suc i) acc' t ignores (omega arith)
      ∙ ap₂ (λ k u. in_turn (map (iteration extent fresh) (index_sequence k n)) u) next same

  serial-in_turn :
      (work_div : WorkDivMembers) (fresh : M) (s : S)
      → 0 < w
      → All (λ e. e < 2 ^ w) work_div.grid_block_extent
      → product work_div.grid_block_extent < 2 ^ w
      → IgnoresShared
      → (prod w work_div.block_thread_extent == 1) ≡ true
      → task_kernel_cpu_serial w kernel work_div fresh s
        ≡ returned (in_turn (iterations w kernel work_div fresh) s)
  unfolding task_kernel_cpu_serial iterations
  serial-in_turn work_div fresh s pos small fits ignores one =
      let extent = work_div.grid_block_extent in
      let acc : Acc M = record { grid_block_idx = zeros (length extent); shared = fresh } in
      let (idx, e) = nd_loop_inc_idx_lem w extent (serial_block w kernel) (acc, s) small fits in
      rw (one, e)
        (ap returned (
          rounds-in_turn extent fresh (product extent) 0 acc s ignores (omega arith)
          ∙ ap (λ n. in_turn (map (iteration extent fresh) (index_sequence 0 n)) s)
              (sym (prod_of_lt w extent pos fits))))

  Separate-later :
      (extent : Vec) (fresh : M) (i n k : ℕ)
      → BlocksCommute extent
      → i < k
      → k + n ≤ product extent
      → All
          (λ other. Separate (kernel (block_idx w i extent)) other.left)
          (map (iteration extent fresh) (index_sequence k n))
  unfolding index_sequence
  Separate-later extent fresh i zero k commute h fits = tt
  Separate-later extent fresh i (suc n) k commute h fits = (
    commute i k h (omega arith),
    Separate-later extent fresh i n (k + 1) commute (omega arith) (omega arith),
  )

  Apart-iterations :
      (extent : Vec) (fresh : M) (n i : ℕ)
      → BlocksCommute extent
      → i + n ≤ product extent
      → Apart (map (iteration extent fresh) (index_sequence i n))
  unfolding index_sequence
  Apart-iterations extent fresh zero i commute h = tt
  Apart-iterations extent fresh (suc n) i commute h = (
    Separate-later extent fresh i n (i + 1) commute (omega arith) (omega arith),
    Apart-iterations extent fresh n (i + 1) commute (omega arith),
  )

  tbb_blocks-in_turn :
      (work_div : WorkDivMembers) (fresh : M) (schedule : List ℕ) (s : S)
      → 0 < w
      → product work_div.grid_block_extent < 2 ^ w
      → BlocksCommute work_div.grid_block_extent
      → Bounded (iterations w kernel work_div fresh) schedule
      → (prod w work_div.block_thread_extent == 1) ≡ true
      → task_kernel_cpu_tbb_blocks w kernel work_div fresh schedule s
        ≡ returned (in_turn (iterations w kernel work_div fresh) s)
  unfolding task_kernel_cpu_tbb_blocks
  tbb_blocks-in_turn work_div fresh schedule s pos fits commute enough one =
      let its = iterations w kernel work_div fresh in
      let ends : is_done (turns schedule its s).0 ≡ true = turns-is_done schedule its s enough in
      let apart : Apart its =
        unfold iterations in
        rw (prod_of_lt w work_div.grid_block_extent pos fits) (
          Apart-iterations work_div.grid_block_extent fresh (product work_div.grid_block_extent) 0
            commute (omega arith)) in
      rw (one, ends)
        (ap returned (
          sym (in_turn-done (turns schedule its s).0 (turns schedule its s).1 ends)
          ∙ in_turn-turns schedule its s apart))

  refuses :
      (work_div : WorkDivMembers) (fresh : M) (schedule : List ℕ) (s : S)
      → (prod w work_div.block_thread_extent == 1) ≡ false
      → task_kernel_cpu_tbb_blocks w kernel work_div fresh schedule s
        ≡ task_kernel_cpu_serial w kernel work_div fresh s
  unfolding task_kernel_cpu_tbb_blocks task_kernel_cpu_serial
  refuses work_div fresh schedule s h = rw h refl

  -- For extents that fit the index type, and so does their product, and a kernel whose blocks commute and do
  -- not depend on what their shared variables hold at first, the task on TBB ends as the serial task does, by
  -- the exception where a block has several threads, whatever the order of the iterations and of their
  -- accesses, once the schedule has a turn for every access.
  pub tbb_blocks-serial :
      (work_div : WorkDivMembers) (fresh : M) (schedule : List ℕ) (s : S)
      → 0 < w
      → All (λ e. e < 2 ^ w) work_div.grid_block_extent
      → product work_div.grid_block_extent < 2 ^ w
      → IgnoresShared
      → BlocksCommute work_div.grid_block_extent
      → Bounded (iterations w kernel work_div fresh) schedule
      → task_kernel_cpu_tbb_blocks w kernel work_div fresh schedule s
        ≡ task_kernel_cpu_serial w kernel work_div fresh s
  tbb_blocks-serial work_div fresh schedule s pos small fits ignores commute enough =
      elim (Bool-cases (prod w work_div.block_thread_extent == 1)) [
        | inl one ↦
            tbb_blocks-in_turn work_div fresh schedule s pos fits commute enough one
            ∙ sym (serial-in_turn work_div fresh s pos small fits ignores one)
        | inr several ↦ refuses work_div fresh schedule s several
      ]
