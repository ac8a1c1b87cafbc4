-- ===== src/Tests/ExecPoolTests.antt =====
-- Runs of the thread pool.
use alpaka.Base.{
  ℕ, ◌+◌, ◌≡◌, ◌↔◌, refl, true, false, List, [], ◌∷◌, ◌++◌, some, arith, if◌then◌else◌, ◌==◌,
  length, replicate, ◌*◌,
}
use alpaka.Tally.{tally}
use alpaka.ExecPool.{
  Task, value, task_exception, waiting, Event, enqueue, push, work, notify, spurious_wake_up,
  is_idle, run, fresh, start,
}
use alpaka.ExecPool.Idle.{IsQuiet, is_idle_iff}
use alpaka.ExecPool.Promises.{of_task, kept, open_promise, promises-kept}
use alpaka.ExecPool.Order.{calls-in_order}
use alpaka.ExecPool.Sequence.{idents}
use alpaka.ExecPool.Progress.{work-runs_all}

abbrev good : Task
good = record { ident = 7; throws = false }

abbrev bad : Task
bad = record { ident = 8; throws = true }

-- The worker calls the first task, which throws, and is then at the second one.
abbrev events : List Event
events =
    enqueue bad
    ∷ push
    ∷ enqueue good
    ∷ push
    ∷ work 0
    ∷ work 0
    ∷ work 0
    ∷ work 0
    ∷ work 0
    ∷ work 0
    ∷ work 0
    ∷ work 0
    ∷ work 0
    ∷ []

fresh-start : start 1 ≡ some (fresh 1)
unfolding start
fresh-start = refl

is_idle_iff_example : (is_idle (run events (fresh 1)).core ≡ true) ↔ IsQuiet (run events (fresh 1))
is_idle_iff_example = is_idle_iff 1 (fresh 1) events fresh-start (omega arith)

-- Both tasks are done, and one is counted as active.
done_and_active : (run events (fresh 1)).core.num_active_tasks ≡ 1
unfolding run
done_and_active = refl

outcomes_of_events : (run events (fresh 1)).core.outcomes ≡ task_exception 8 ∷ value 7 ∷ []
unfolding run
outcomes_of_events = refl

-- The task 8 counts.
abbrev only_bad : ℕ → ℕ
only_bad n = if n == 8 then 1 else 0

promises-kept_example :
    tally (kept only_bad) (run events (fresh 1)).core.outcomes
      + tally (of_task only_bad) (run events (fresh 1)).core.tasks
      + tally (open_promise only_bad) (run events (fresh 1)).workers
    ≡ tally (of_task only_bad) (run events (fresh 1)).pushed
promises-kept_example = promises-kept only_bad 1 (fresh 1) events fresh-start

calls-in_order_example :
    (left : List ℕ) × ((run events (fresh 1)).core.calls ++ left
      ≡ idents (run events (fresh 1)).pushed)
calls-in_order_example = calls-in_order (fresh 1) events fresh-start

-- The worker falls asleep, wakes up without a reason and sleeps again; two tasks are pushed, the first
-- notification wakes it and it is at the first task when the second one is made.
abbrev asleep_then_pushed : List Event
asleep_then_pushed =
    work 0
    ∷ work 0
    ∷ work 0
    ∷ spurious_wake_up 0
    ∷ work 0
    ∷ enqueue bad
    ∷ push
    ∷ notify 0
    ∷ enqueue good
    ∷ push
    ∷ work 0
    ∷ notify 0
    ∷ []

work-runs_all_example :
    (let t = run asleep_then_pushed (fresh 1) in
      let u = run (replicate (7 * length t.core.tasks + 11) (work 0)) t in
      (u.core.calls ≡ idents t.pushed) × (u.core.tasks ≡ []) × (u.workers ≡ waiting ∷ []))
unfolding run
work-runs_all_example = work-runs_all (fresh 1) asleep_then_pushed fresh-start refl refl refl refl

-- Without the notification the worker sleeps on beside the tasks.
abbrev not_notified : List Event
not_notified = work 0 ∷ work 0 ∷ work 0 ∷ enqueue good ∷ push ∷ []

sleeps_until_notified :
    ((run (replicate 18 (work 0)) (run not_notified (fresh 1))).workers ≡ waiting ∷ [])
    × ((run (replicate 18 (work 0)) (run not_notified (fresh 1))).core.calls ≡ [])
    × ((run (notify 0 ∷ replicate 5 (work 0)) (run not_notified (fresh 1))).core.calls ≡ 7 ∷ [])
unfolding run
sleeps_until_notified = (refl, refl, refl)
