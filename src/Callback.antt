-- ===== src/Callback.antt =====
-- `CallbackThread` of include/alpaka/core/CallbackThread.hpp: one owner, who submits tasks and destroys the
-- object, and the worker, step by step in any order. A thread that sleeps in `m_cond.wait` wakes when it is
-- notified.
pub mod Sequence
pub mod Invariant
pub mod Laws
use alpaka.Base.{ℕ, Bool, true, false, not, ◌&&◌, ◌||◌, List, [], ◌∷◌, ◌++◌, if◌then◌else◌}

-- The owner: outside; in `submit` before the notification; in the destructor before the notification, and before
-- the join is done; after it.
pub data Owner : Type 0 where
  outside : Owner
  submitting : Owner
  stopping : Owner
  joining : Owner
  gone : Owner

-- The worker: not started; before it locks and tests the condition; with the lock, the test having failed, before it
-- sleeps; asleep; with a task; ended.
pub data Worker : Type 0 where
  absent : Worker
  testing : Worker
  deciding : Worker
  sleeping : Worker
  running : ℕ → Worker
  ended : Worker

-- `m_stop`, `m_tasks`, both threads, and the tasks submitted and run so far.
pub record State : Type 0 where
  pub stop : Bool
  pub tasks : List ℕ
  pub owner : Owner
  pub worker : Worker
  pub submitted : List ℕ
  pub ran : List ℕ

abbrev pub initial : State
initial = record {
  stop = false;
  tasks = [];
  owner = outside;
  worker = absent;
  submitted = [];
  ran = [];
}

-- `startWorkerThread` where no thread is joinable.
unfoldable pub start_worker : Worker → Worker
start_worker absent = testing
start_worker w = w

-- `m_cond.notify_one()`.
unfoldable pub notify_one : Worker → Worker
notify_one sleeping = testing
notify_one w = w

-- Nothing is submitted while the worker has the lock.
unfoldable pub submit_at : Owner → Worker → ℕ → State → State
unfolding start_worker
submit_at outside deciding n s = s
submit_at outside w n s = record {
  stop = s.stop;
  tasks = s.tasks ++ n ∷ [];
  owner = submitting;
  worker = start_worker w;
  submitted = s.submitted ++ n ∷ [];
  ran = s.ran;
}
submit_at o w n s = s

-- The destructor begins: `m_stop = true`, without the lock.
unfoldable pub destroy_at : Owner → State → State
destroy_at outside s = record {
  stop = true;
  tasks = s.tasks;
  owner = stopping;
  worker = s.worker;
  submitted = s.submitted;
  ran = s.ran;
}
destroy_at o s = s

unfoldable pub with_threads : State → Owner → Worker → State
with_threads s o w = record {
  stop = s.stop;
  tasks = s.tasks;
  owner = o;
  worker = w;
  submitted = s.submitted;
  ran = s.ran;
}

-- `join`: a thread that was never started is not joinable.
unfoldable pub join_owner : Worker → Owner
join_owner absent = gone
join_owner ended = gone
join_owner w = joining

unfoldable pub owner_at : Owner → State → State
unfolding notify_one with_threads join_owner
owner_at submitting s = with_threads s outside (notify_one s.worker)
owner_at stopping s = with_threads s joining (notify_one s.worker)
owner_at joining s = with_threads s (join_owner s.worker) s.worker
owner_at o s = s

-- The test and what follows it under the lock: by `m_stop` and the queue.
unfoldable pub test_at : Bool → List ℕ → State → State
unfolding with_threads
test_at true [] s = with_threads s s.owner ended
test_at false [] s = with_threads s s.owner deciding
test_at b (n ∷ ts) s = record {
  stop = s.stop;
  tasks = ts;
  owner = s.owner;
  worker = running n;
  submitted = s.submitted;
  ran = s.ran;
}

unfoldable pub worker_at : Worker → State → State
unfolding with_threads test_at
worker_at testing s = test_at s.stop s.tasks s
worker_at deciding s = with_threads s s.owner sleeping
worker_at (running n) s = record {
  stop = s.stop;
  tasks = s.tasks;
  owner = s.owner;
  worker = testing;
  submitted = s.submitted;
  ran = s.ran ++ n ∷ [];
}
worker_at w s = s

pub data Event : Type 0 where
  submit : ℕ → Event
  destroy : Event
  own : Event
  work : Event

unfoldable pub step : Event → State → State
unfolding submit_at destroy_at owner_at worker_at
step (submit n) s = submit_at s.owner s.worker n s
step destroy s = destroy_at s.owner s
step own s = owner_at s.owner s
step work s = worker_at s.worker s

unfoldable pub run : List Event → State → State
unfolding step
run [] s = s
run (e ∷ events) s = run events (step e s)
