-- ===== src/ExecPool/Promises.antt =====
-- The promises of the tasks in include/alpaka/core/ConcurrentExecPool.hpp, counted with any weight.
use alpaka.Base.{
  ℕ, ◌+◌, ◌≡◌, refl, ap, subst, sym, inl, inr, true, false, Bool, Bool-cases, not, ◌||◌, List, [],
  ◌∷◌, Option, none, some, arith, get_elem?, replicate,
}
use alpaka.Tally.{tally, tally-set, tally-snoc, tally_vanishes, All-replicate}
use alpaka.ExecPool.{
  Task, Outcome, value, task_exception, pool_destroyed, Worker, checking, popping, executing,
  decrementing, promising, idling, waiting, notified, ended, Notice, to_one, to_all, Core, Pool,
  is_empty, with_tasks, with_active, with_flags, with_history, pop_task, popped, run_task,
  check_idle, advance, notify_first, wake_at, Event, enqueue, push, work, notify, spurious_wake_up,
  detach, shut_down, drain, all_ended, drained, drain_one, push_first, work_at, step, run, fresh,
  start,
}
use alpaka.ExecPool.Wake.{wake_one_lem, wake_all_lem, wake_at_lem}
use alpaka.ExecPool.Accounts.{start-fresh}

-- Each task counts for what its number weighs.
module _ (weight : ℕ → ℕ) where
  abbrev pub of_task : Task → ℕ
  of_task t = weight t.ident

  -- A promise that was kept, with the result or an exception.
  abbrev pub kept : Outcome → ℕ
  kept (value n) = weight n
  kept (task_exception n) = weight n
  kept (pool_destroyed n) = weight n

  -- A task that was popped and whose promise is still open.
  abbrev pub open_promise : Worker → ℕ
  open_promise checking = 0
  open_promise popping = 0
  open_promise (executing t) = weight t.ident
  open_promise (decrementing t) = weight t.ident
  open_promise (promising t) = weight t.ident
  open_promise idling = 0
  open_promise waiting = 0
  open_promise notified = 0
  open_promise ended = 0

  abbrev held : Core → ℕ
  held c = tally kept c.outcomes + tally of_task c.tasks

  abbrev Kept : Pool → Type 0
  Kept s = held s.core + tally open_promise s.workers ≡ tally of_task s.pushed

  pop_task-tally :
      (xs : List Task) (t : Task) (ts : List Task)
      → pop_task xs ≡ some (t, ts)
      → tally of_task xs ≡ weight t.ident + tally of_task ts
  unfolding pop_task
  pop_task-tally [] t ts e = absurd (cc)
  pop_task-tally (x ∷ xs) t ts e =
      let a : x ≡ t = cc in
      let b : xs ≡ ts = cc in omega (arith, ap of_task a, ap (tally of_task) b)

  popped-held :
      (c : Core) (o : Option (Task × List Task))
      → pop_task c.tasks ≡ o
      → held (popped c o).0 + open_promise (popped c o).1 ≡ held c
  unfolding popped with_tasks
  popped-held c none e = omega arith
  popped-held c (some (t, ts)) e = omega (arith, pop_task-tally c.tasks t ts e)

  run_task-held :
      (t : Task) (c : Core) (throws : Bool)
      → held (run_task throws t c).0 + open_promise (run_task throws t c).1
        ≡ held c + weight t.ident
  unfolding run_task with_history
  run_task-held t c true = omega (arith, tally-snoc kept c.outcomes (task_exception t.ident))
  run_task-held t c false = omega arith

  check_idle-held :
      (c : Core) (more detached shutdown : Bool)
      → held (check_idle more detached shutdown c).0
          + open_promise (check_idle more detached shutdown c).1
        ≡ held c
  unfolding check_idle with_flags
  check_idle-held c true detached shutdown = omega arith
  check_idle-held c false true shutdown = omega arith
  check_idle-held c false false true = omega arith
  check_idle-held c false false false = omega arith

  advance-held :
      (x : Worker) (c : Core)
      → held (advance x c).0 + open_promise (advance x c).1 ≡ held c + open_promise x
  unfolding advance with_active with_history
  advance-held checking c = elim (Bool-cases c.shutdown_flag) [
    | inl shut ↦ rw shut (omega arith)
    | inr runs ↦ rw runs (omega arith)
  ]
  advance-held popping c = omega (arith, popped-held c (pop_task c.tasks) refl)
  advance-held (executing t) c = run_task-held t c t.throws
  advance-held (decrementing t) c = omega arith
  advance-held (promising t) c = omega (arith, tally-snoc kept c.outcomes (value t.ident))
  advance-held idling c =
      omega (arith, check_idle-held c (not (is_empty c.tasks)) c.detached_flag c.shutdown_flag)
  advance-held waiting c = omega arith
  advance-held notified c =
      elim (Bool-cases (not (is_empty c.tasks) || c.shutdown_flag || c.detached_flag)) [
        | inl awake ↦ rw awake (omega arith)
        | inr asleep ↦ rw asleep (omega arith)
      ]
  advance-held ended c = omega arith

  drained-held :
      (c : Core) (o : Option (Task × List Task))
      → pop_task c.tasks ≡ o
      → held (drained c o) ≡ held c
  unfolding drained with_tasks with_history
  drained-held c none e = refl
  drained-held c (some (t, ts)) e =
      omega
        (arith, pop_task-tally c.tasks t ts e, tally-snoc kept c.outcomes (pool_destroyed t.ident))

  push_first-Kept : (s : Pool) (o : Option (Task × List Task)) → Kept s → Kept (push_first s o)
  unfolding push_first with_tasks
  push_first-Kept s none h = h
  push_first-Kept s (some (t, ts)) h =
      omega (arith, tally-snoc of_task s.core.tasks t, tally-snoc of_task s.pushed t, h)

  work_at-Kept :
      (i : ℕ) (s : Pool) (o : Option Worker)
      → get_elem? s.workers i ≡ o
      → Kept s
      → Kept (work_at s i o)
  unfolding work_at
  work_at-Kept i s none e h = h
  work_at-Kept i s (some x) e h =
      omega (
        arith,
        advance-held x s.core,
        tally-set open_promise s.workers i x (advance x s.core).1 e,
        h,
      )

  notify_first-Kept : (i : ℕ) (s : Pool) (ns : List Notice) → Kept s → Kept (notify_first i s ns)
  unfolding notify_first
  notify_first-Kept i s [] h = h
  notify_first-Kept i s (to_one ∷ ns) h =
      omega (arith, wake_one_lem open_promise refl i s.workers, h)
  notify_first-Kept i s (to_all ∷ ns) h = omega (arith, wake_all_lem open_promise refl s.workers, h)

  wake_at-Kept :
      (i : ℕ) (s : Pool) (o : Option Worker)
      → get_elem? s.workers i ≡ o
      → Kept s
      → Kept (wake_at i s o)
  unfolding wake_at
  wake_at-Kept i s none e h = h
  wake_at-Kept i s (some x) e h = omega (arith, wake_at_lem open_promise refl s.workers i x e, h)

  step-Kept : (e : Event) (s : Pool) → Kept s → Kept (step e s)
  unfolding step with_active with_flags drain_one
  step-Kept (enqueue t) s h = h
  step-Kept push s h = push_first-Kept s (pop_task s.pending) h
  step-Kept (work i) s h = work_at-Kept i s (get_elem? s.workers i) refl h
  step-Kept (notify i) s h = notify_first-Kept i s s.notices h
  step-Kept (spurious_wake_up i) s h = wake_at-Kept i s (get_elem? s.workers i) refl h
  step-Kept detach s h = h
  step-Kept shut_down s h = h
  step-Kept drain s h = elim (Bool-cases (all_ended s.workers)) [
    | inl over ↦ rw over (omega (arith, drained-held s.core (pop_task s.core.tasks) refl, h))
    | inr runs ↦ rw runs h
  ]

  run-Kept : (events : List Event) (s : Pool) → Kept s → Kept (run events s)
  unfolding run
  run-Kept [] s h = h
  run-Kept (e ∷ events) s h = run-Kept events (step e s) (step-Kept e s h)

  fresh-Kept : (n : ℕ) → Kept (fresh n)
  fresh-Kept n = omega (
    arith,
    tally_vanishes open_promise (replicate n checking)
        (All-replicate (λ x. open_promise x ≡ 0) n checking refl),
  )

  -- For any number of workers and after any steps: the tasks pushed are those whose promise has been kept,
  -- those a worker holds with the promise open, and those in the queue, each of them as often as it was pushed.
  -- It is stated by sums of any weight of the tasks' numbers, such as 1 for one number and 0 for all others.
  pub promises-kept :
      (n : ℕ) (s : Pool) (events : List Event)
      → start n ≡ some s
      → tally kept (run events s).core.outcomes
          + tally of_task (run events s).core.tasks
          + tally open_promise (run events s).workers
        ≡ tally of_task (run events s).pushed
  promises-kept n s events made =
      run-Kept events s (subst Kept (sym (start-fresh n s made)) (fresh-Kept n))
