-- ===== src/Event/Deadlock.antt =====
-- An event that is enqueued again behind a wait for it in the same queue,
-- include/alpaka/event/EventGenericThreads.hpp.
use alpaka.Base.{
  ℕ, zero, suc, ◌+◌, ◌^◌, ◌≤◌, ◌<◌, ◌≡◌, refl, sym, ap, subst, Bool, true, false, not, List, [],
  ◌∷◌, ◌++◌, Option, none, some, arith, length, get_elem?, replicate, ◌==◌, if◌then◌else◌, wrap,
}
use alpaka.Event.{
  Task, client_task, signal, await, Future, EventImpl, idle, getting, promising, Queue, Waiter,
  outside, testing, blocked, System, is_ready, is_kept, run_signal, push, counted, wait_queue,
  call_wait, waiter_at, Event, task, record_event, wait_for, work, wait, advance, step, run, start,
}
use alpaka.Event.Laws.{last_ready}

-- Where the worker of the one queue stands: before the first task that marks, behind it, at the wait.
data Stage : Type 0 where
  before : Stage
  behind : Stage
  at_wait : Stage
  in_wait : Option Future → Stage

abbrev queue_of : Stage → List Task → Queue
queue_of before rest = record {
  blocking = false;
  finished = [];
  tasks = signal 0 1 ∷ await 0 1 ∷ rest;
  promised = 0;
  worker = idle;
}
queue_of behind rest = record {
  blocking = false;
  finished = signal 0 1 ∷ [];
  tasks = await 0 1 ∷ rest;
  promised = 0;
  worker = promising;
}
queue_of at_wait rest = record {
  blocking = false;
  finished = signal 0 1 ∷ [];
  tasks = await 0 1 ∷ rest;
  promised = 1;
  worker = idle;
}
queue_of (in_wait f) rest = record {
  blocking = false;
  finished = signal 0 1 ∷ [];
  tasks = await 0 1 ∷ rest;
  promised = 1;
  worker = getting f;
}

abbrev system_of : Stage → List Task → ℕ → Option Future → List Waiter → System
system_of x rest c f ws = record {
  queues = queue_of x rest ∷ [];
  events = (record { future = f; enqueue_count = c; last_ready_enqueue_count = 0 }) ∷ [];
  waiters = ws;
}

-- The event has been enqueued again, and the wait for its first enqueue is in the queue.
abbrev Stuck : ℕ → System → Type 0
Stuck n s =
    (x : Stage) × (rest : List Task) × (c : ℕ) × (f : Option Future) × (ws : List Waiter) × (s
      ≡ system_of x rest c f ws)
    × (2 ≤ c)
    × (c ≤ n)

if-Stuck : (n : ℕ) (b : Bool) (x y : System) → Stuck n x → Stuck n y → Stuck n (if b then x else y)
if-Stuck n true x y p q = p
if-Stuck n false x y p q = q

module _ (n : ℕ) (rest : List Task) (c : ℕ) (f : Option Future) (ws : List Waiter) (two : 2 ≤ c)
    (few : c ≤ n) where
  same : (x : Stage) → Stuck (suc n) (system_of x rest c f ws)
  same x = (x, rest, c, f, ws, refl, two, omega arith)

  task-Stuck : (x : Stage) (k : ℕ) → Stuck (suc n) (step (task 0 k) (system_of x rest c f ws))
  unfolding step push
  task-Stuck before k = (before, rest ++ client_task k ∷ [], c, f, ws, refl, two, omega arith)
  task-Stuck behind k = (behind, rest ++ client_task k ∷ [], c, f, ws, refl, two, omega arith)
  task-Stuck at_wait k = (at_wait, rest ++ client_task k ∷ [], c, f, ws, refl, two, omega arith)
  task-Stuck (in_wait g) k =
      (in_wait g, rest ++ client_task k ∷ [], c, f, ws, refl, two, omega arith)

  record-Stuck :
      (x : Stage)
      → suc n < 2 ^ 64
      → Stuck (suc n) (step (record_event 0 0) (system_of x rest c f ws))
  unfolding step push counted
  record-Stuck before l = (
    before,
    rest ++ signal 0 (wrap 64 (c + 1)) ∷ [],
    wrap 64 (c + 1),
    _,
    ws,
    refl,
    omega arith,
    omega arith,
  )
  record-Stuck behind l = (
    behind,
    rest ++ signal 0 (wrap 64 (c + 1)) ∷ [],
    wrap 64 (c + 1),
    _,
    ws,
    refl,
    omega arith,
    omega arith,
  )
  record-Stuck at_wait l = (
    at_wait,
    rest ++ signal 0 (wrap 64 (c + 1)) ∷ [],
    wrap 64 (c + 1),
    _,
    ws,
    refl,
    omega arith,
    omega arith,
  )
  record-Stuck (in_wait g) l = (
    in_wait g,
    rest ++ signal 0 (wrap 64 (c + 1)) ∷ [],
    wrap 64 (c + 1),
    _,
    ws,
    refl,
    omega arith,
    omega arith,
  )

  wait_for-Stuck : (x : Stage) → Stuck (suc n) (step (wait_for 0 0) (system_of x rest c f ws))
  unfolding step push wait_queue
  wait_for-Stuck before =
      if-Stuck (suc n) (not (0 == c)) _ _
        (before, rest ++ await 0 c ∷ [], c, f, ws, refl, two, omega arith) (same before)
  wait_for-Stuck behind =
      if-Stuck (suc n) (not (0 == c)) _ _
        (behind, rest ++ await 0 c ∷ [], c, f, ws, refl, two, omega arith) (same behind)
  wait_for-Stuck at_wait =
      if-Stuck (suc n) (not (0 == c)) _ _
        (at_wait, rest ++ await 0 c ∷ [], c, f, ws, refl, two, omega arith) (same at_wait)
  wait_for-Stuck (in_wait g) =
      if-Stuck (suc n) (not (0 == c)) _ _
        (in_wait g, rest ++ await 0 c ∷ [], c, f, ws, refl, two, omega arith) (same (in_wait g))

  work-Stuck : (x : Stage) → Stuck (suc n) (step (work 0) (system_of x rest c f ws))
  unfolding step run_signal
  work-Stuck before =
      let late : (1 == c) ≡ false = ground arith in
      rw late (behind, rest, c, f, ws, refl, two, omega arith)
  work-Stuck behind = (at_wait, rest, c, f, ws, refl, two, omega arith)
  work-Stuck at_wait = (in_wait f, rest, c, f, ws, refl, two, omega arith)
  work-Stuck (in_wait g) =
      if-Stuck (suc n) (is_kept (queue_of (in_wait g) rest ∷ []) g) _ _
        (at_wait, rest, c, f, ws, refl, two, omega arith) (same (in_wait g))

  waiters_only : (x : Stage) (us : List Waiter) → Stuck (suc n) (system_of x rest c f us)
  waiters_only x us = (x, rest, c, f, us, refl, two, omega arith)

  call-Stuck :
      (x : Stage) (i e : ℕ) (y : Option Waiter) (ev : Option EventImpl)
      → Stuck (suc n) (call_wait (system_of x rest c f ws) i e y ev)
  unfolding call_wait
  call-Stuck x i e none ev = same x
  call-Stuck x i e (some outside) none = same x
  call-Stuck x i e (some outside) (some ev) = waiters_only x _
  call-Stuck x i e (some (testing e' c')) ev = same x
  call-Stuck x i e (some (blocked e' c' g)) ev = same x

  waiter-Stuck :
      (x : Stage) (i : ℕ) (y : Option Waiter)
      → Stuck (suc n) (waiter_at (system_of x rest c f ws) i y)
  unfolding waiter_at
  waiter-Stuck x i none = same x
  waiter-Stuck x i (some outside) = same x
  waiter-Stuck x i (some (testing e' c')) = waiters_only x _
  waiter-Stuck x i (some (blocked e' c' g)) =
      if-Stuck (suc n) (is_kept (queue_of x rest ∷ []) g) _ _ (waiters_only x _) (same x)

  step-Stuck :
      (x : Stage) (a : Event) → suc n < 2 ^ 64 → Stuck (suc n) (step a (system_of x rest c f ws))
  unfolding step
  step-Stuck x (task zero k) l = task-Stuck x k
  step-Stuck x (task (suc q) k) l = same x
  step-Stuck x (record_event zero zero) l = record-Stuck x l
  step-Stuck x (record_event zero (suc e)) l = same x
  step-Stuck x (record_event (suc q) e) l = same x
  step-Stuck x (wait_for zero zero) l = wait_for-Stuck x
  step-Stuck x (wait_for zero (suc e)) l = same x
  step-Stuck x (wait_for (suc q) e) l = same x
  step-Stuck x (work zero) l = work-Stuck x
  step-Stuck x (work (suc q)) l = same x
  step-Stuck x (wait i e) l =
      call-Stuck x i e (get_elem? ws i) (get_elem? ((system_of x rest c f ws).events) e)
  step-Stuck x (advance i) l = waiter-Stuck x i _

run-Stuck :
    (n : ℕ) (events : List Event) (s : System)
    → n + length events < 2 ^ 64
    → Stuck n s
    → Stuck (n + length events) (run events s)
unfolding run
run-Stuck n [] s l h = subst (λ (k : ℕ). Stuck k s) (omega arith) h
run-Stuck n (a ∷ events) s l (x, rest, c, f, ws, eq, two, few) =
    let moved : Stuck (suc n) (step a s) =
      subst (λ t. Stuck (suc n) (step a t)) (sym eq)
        (step-Stuck n rest c f ws two few x a (omega arith)) in
    subst (λ (k : ℕ). Stuck k (run events (step a s))) (omega arith)
      (run-Stuck (suc n) events (step a s) (omega arith) moved)

-- One queue that does not block and one event: the event is enqueued, waited for and enqueued again, then `events`.
abbrev pub enqueued_again : ℕ → List Event → System
enqueued_again k events =
    run (record_event 0 0 ∷ wait_for 0 0 ∷ record_event 0 0 ∷ events) (start (false ∷ []) 1 k)

few_finished : (x : Stage) (rest : List Task) → length ((queue_of x rest).finished) ≤ 1
few_finished before rest = omega arith
few_finished behind rest = omega arith
few_finished at_wait rest = omega arith
few_finished (in_wait f) rest = omega arith

-- An event is enqueued on a queue that does not block, the queue is told to wait for it, and the event is enqueued
-- there again before the worker comes to the first task. The queue hangs: in any order of fewer than 2 ^ 64 - 2
-- further steps, of the worker, of threads in `wait` and of clients of this queue and event, it runs no task but the
-- first, and the event is never ready.
pub enqueue_again_hangs :
    (k : ℕ) (events : List Event)
    → 2 + length events < 2 ^ 64
    → (r : Queue) × ((enqueued_again k events).queues ≡ r ∷ [])
      × (length r.finished ≤ 1)
      × (last_ready (enqueued_again k events) 0 ≡ 0)
unfolding run step start push counted is_ready
enqueue_again_hangs k events l =
    let first : Stuck 2
        (run (record_event 0 0 ∷ wait_for 0 0 ∷ record_event 0 0 ∷ []) (start (false ∷ []) 1 k)) =
      (
        before,
        signal 0 2 ∷ [],
        2,
        some (record { queue = 0; place = 2 }),
        replicate k outside,
        refl,
        omega arith,
        omega arith,
      ) in
    let (x, rest, c, f, ws, eq, two, few) = run-Stuck 2 events _ l first in
    (
      queue_of x rest,
      ap (λ (s : System). s.queues) eq,
      few_finished x rest,
      ap (λ (s : System). last_ready s 0) eq,
    )
