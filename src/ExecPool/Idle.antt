-- ===== src/ExecPool/Idle.antt =====
-- `isIdle` of include/alpaka/core/ConcurrentExecPool.hpp.
use alpaka.Base.{
  ℕ, ◌+◌, ◌^◌, ◌<◌, ◌≡◌, ◌↔◌, refl, sym, ap, subst, true, List, [], ◌∷◌, some, arith, length, All,
}
use alpaka.Tally.{tally_zero, tally_vanishes}
use alpaka.ExecPool.{Pool, Event, is_idle, run, start}
use alpaka.ExecPool.Accounts.{AddsUp, run-AddsUp, start-fresh, fresh-AddsUp}
use alpaka.ExecPool.Weights.{busy, thrown, destroyed}

-- No task is on its way into the queue, in it, or with a worker that has not counted it down; and no task has
-- thrown or was taken from the queue by the destructor.
pub record IsQuiet (s : Pool) : Type 0 where
  pub none_pending : s.pending ≡ []
  pub none_queued : s.core.tasks ≡ []
  pub none_running : All (λ x. busy x ≡ 0) s.workers
  pub none_thrown : All (λ o. thrown o ≡ 0) s.core.outcomes
  pub none_destroyed : All (λ o. destroyed o ≡ 0) s.core.outcomes

length-nil : {A : Type 0} (xs : List A) → length xs ≡ 0 → xs ≡ []
length-nil [] h = refl
length-nil (x ∷ xs) h = absurd (omega arith)

started-AddsUp :
    (n : ℕ) (s : Pool) (events : List Event)
    → start n ≡ some s
    → length events < 2 ^ 32
    → AddsUp (length events + 0) (run events s)
started-AddsUp n s events e small =
    run-AddsUp events 0 s (omega arith)
      (subst (AddsUp 0) (sym (start-fresh n s e)) (fresh-AddsUp n))

-- For any number of workers, after any less than 2 ^ 32 steps in any order, `isIdle` holds exactly when no task is
-- pending, queued or running and none has thrown or was left to the destructor. So one task that throws keeps
-- the pool from ever being idle again.
pub is_idle_iff :
    (n : ℕ) (s : Pool) (events : List Event)
    → start n ≡ some s
    → length events < 2 ^ 32
    → (is_idle (run events s).core ≡ true) ↔ IsQuiet (run events s)
unfolding is_idle
is_idle_iff n s events e small =
    let t : Pool = run events s in
    let h = started-AddsUp n s events e small in
    (
      λ idle.
          let z : t.core.num_active_tasks ≡ 0 = ground arith in
          record {
            none_pending = length-nil t.pending (omega (arith, z, h.active));
            none_queued = length-nil t.core.tasks (omega (arith, z, h.active));
            none_running = tally_zero busy t.workers (omega (arith, z, h.active));
            none_thrown = tally_zero thrown t.core.outcomes (omega (arith, z, h.active));
            none_destroyed = tally_zero destroyed t.core.outcomes (omega (arith, z, h.active));
          },
      λ q.
          let p = ap length q.none_pending in
          let c = ap length q.none_queued in
          let b = tally_vanishes busy t.workers q.none_running in
          let x = tally_vanishes thrown t.core.outcomes q.none_thrown in
          let d = tally_vanishes destroyed t.core.outcomes q.none_destroyed in
          let z : t.core.num_active_tasks ≡ 0 = omega (arith, h.active, p, c, b, x, d) in
          ground (arith, z),
    )
