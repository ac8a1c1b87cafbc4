-- ===== src/Event/Waiters.antt =====
-- The steps of include/alpaka/event/EventGenericThreads.hpp that leave the threads in `wait` as they are.
use alpaka.Base.{
  ℕ, ◌≡◌, refl, Bool, true, false, not, ◌&&◌, List, [], ◌∷◌, Option, none, some, if◌then◌else◌,
}
use alpaka.Event.{
  Task, client_task, signal, await, EventImpl, Worker, idle, getting, promising, Queue, Waiter,
  System, is_ready, enqueue_event, wait_queue, enqueue_task, is_kept, execute, work_idle, work_on,
  work_at,
}

if-waiters :
    (b : Bool) (x y : System) (l : List Waiter)
    → x.waiters ≡ l
    → y.waiters ≡ l
    → (if b then x else y).waiters ≡ l
if-waiters true x y l f g = f
if-waiters false x y l f g = g

module _ (s : System) where
  execute-waiters :
      (i : ℕ) (r : Queue) (t : Task) (ts : List Task) (ev : Option EventImpl)
      → (execute s i r t ts ev).waiters ≡ s.waiters
  unfolding execute
  execute-waiters i r (client_task k) ts ev = refl
  execute-waiters i r (signal e c) ts none = refl
  execute-waiters i r (signal e c) ts (some ev) = refl
  execute-waiters i r (await e c) ts none = refl
  execute-waiters i r (await e c) ts (some ev) = refl

  idle-waiters : (i : ℕ) (r : Queue) (ts : List Task) → (work_idle s i r ts).waiters ≡ s.waiters
  unfolding work_idle
  idle-waiters i r [] = refl
  idle-waiters i r (t ∷ ts) = execute-waiters i r t ts _

  worker-waiters : (i : ℕ) (r : Queue) (x : Worker) → (work_on s i r x).waiters ≡ s.waiters
  unfolding work_on
  worker-waiters i r promising = refl
  worker-waiters i r idle = idle-waiters i r r.tasks
  worker-waiters i r (getting f) = if-waiters (is_kept s.queues f) _ _ s.waiters refl refl

  pub work-waiters : (i : ℕ) (r : Option Queue) → (work_at s i r).waiters ≡ s.waiters
  unfolding work_at
  work-waiters i none = refl
  work-waiters i (some r) = worker-waiters i r r.worker

  pub event-waiters :
      (i e : ℕ) (r : Option Queue) (ev : Option EventImpl)
      → (enqueue_event s i e r ev).waiters ≡ s.waiters
  unfolding enqueue_event
  event-waiters i e none ev = refl
  event-waiters i e (some r) none = refl
  event-waiters i e (some r) (some ev) = if-waiters r.blocking _ _ s.waiters refl refl

  pub wait-waiters :
      (i e : ℕ) (r : Option Queue) (ev : Option EventImpl)
      → (wait_queue s i e r ev).waiters ≡ s.waiters
  unfolding wait_queue
  wait-waiters i e none ev = refl
  wait-waiters i e (some r) none = refl
  wait-waiters i e (some r) (some ev) =
      if-waiters (not r.blocking && not (is_ready ev)) _ _ s.waiters refl refl

  pub task-waiters : (i k : ℕ) (r : Option Queue) → (enqueue_task s i k r).waiters ≡ s.waiters
  unfolding enqueue_task
  task-waiters i k none = refl
  task-waiters i k (some r) = refl
