-- ===== src/ExecPool.antt =====
-- `ThreadSafeQueue`, `TaskPkg` and `ConcurrentExecPool` of include/alpaka/core/ConcurrentExecPool.hpp, the pool
-- that waits on a condition variable, as the CPU queues use it. The clients and the workers take turns in any
-- order; a step is what one of them does between two points at which others can come in between. Pushing a task
-- and setting a flag are done under the mutex of the condition variable, and the notification is a step after
-- it. A worker that sleeps goes on only when it is notified, or wakes up without a reason.
pub mod Weights
pub mod Wake
pub mod Accounts
pub mod Idle
pub mod Promises
pub mod Sequence
pub mod Order
pub mod Alert
pub mod Progress
use alpaka.Base.{
  ℕ, suc, ◌+◌, ◌-◌, ◌^◌, Bool, true, false, not, ◌||◌, List, [], ◌∷◌, ◌++◌, Option, none, some, map,
  get_elem?, set, ◌==◌, replicate, if◌then◌else◌, wrap,
}

-- The function object of a task, by a number, and whether the call throws.
pub record Task : Type 0 where
  pub ident : ℕ
  pub throws : Bool

-- What the promise of a task was given.
pub data Outcome : Type 0 where
  value : ℕ → Outcome
  task_exception : ℕ → Outcome
  pool_destroyed : ℕ → Outcome

-- Where `concurrentExecFn` stands.
pub data Worker : Type 0 where
  checking : Worker
  popping : Worker
  executing : Task → Worker
  decrementing : Task → Worker
  promising : Task → Worker
  idling : Worker
  waiting : Worker
  notified : Worker
  ended : Worker

-- A call of `notify_one` or `notify_all` that is still to be made.
pub data Notice : Type 0 where
  to_one : Notice
  to_all : Notice

-- `m_qTasks`, `m_numActiveTasks`, the flags, the calls made and the promises kept, oldest first.
pub record Core : Type 0 where
  pub tasks : List Task
  pub num_active_tasks : ℕ
  pub shutdown_flag : Bool
  pub detached_flag : Bool
  pub calls : List ℕ
  pub outcomes : List Outcome

-- `pending` are the calls of `enqueueTask` between the increment and the push; `pushed` is every task pushed so far;
-- `notices` are the notifications to come, oldest first.
pub record Pool : Type 0 where
  pub core : Core
  pub workers : List Worker
  pub notices : List Notice
  pub pending : List Task
  pub pushed : List Task

unfoldable pub is_empty : List Task → Bool
is_empty [] = true
is_empty (t ∷ ts) = false

-- `isIdle`.
unfoldable pub is_idle : Core → Bool
is_idle c = c.num_active_tasks == 0

-- `--m_numActiveTasks`, `++m_numActiveTasks` on std::uint32_t.
unfoldable pub less_one : ℕ → ℕ
less_one a = wrap 32 (a + 2 ^ 32 - 1)

unfoldable pub plus_one : ℕ → ℕ
plus_one a = wrap 32 (a + 1)

unfoldable pub with_tasks : Core → List Task → Core
with_tasks c ts = record {
  tasks = ts;
  num_active_tasks = c.num_active_tasks;
  shutdown_flag = c.shutdown_flag;
  detached_flag = c.detached_flag;
  calls = c.calls;
  outcomes = c.outcomes;
}

unfoldable pub with_active : Core → ℕ → Core
with_active c a = record {
  tasks = c.tasks;
  num_active_tasks = a;
  shutdown_flag = c.shutdown_flag;
  detached_flag = c.detached_flag;
  calls = c.calls;
  outcomes = c.outcomes;
}

unfoldable pub with_flags : Core → Bool → Bool → Core
with_flags c shutdown detached = record {
  tasks = c.tasks;
  num_active_tasks = c.num_active_tasks;
  shutdown_flag = shutdown;
  detached_flag = detached;
  calls = c.calls;
  outcomes = c.outcomes;
}

unfoldable pub with_history : Core → List ℕ → List Outcome → Core
with_history c calls outcomes = record {
  tasks = c.tasks;
  num_active_tasks = c.num_active_tasks;
  shutdown_flag = c.shutdown_flag;
  detached_flag = c.detached_flag;
  calls = calls;
  outcomes = outcomes;
}

-- `ThreadSafeQueue::pop`.
unfoldable pub pop_task : List Task → Option (Task × List Task)
pop_task [] = none
pop_task (t ∷ ts) = some (t, ts)

unfoldable pub popped : Core → Option (Task × List Task) → Core × Worker
unfolding with_tasks
popped c none = (c, idling)
popped c (some (t, ts)) = (with_tasks c ts, executing t)

-- `runTask` calls the function. Where it throws, the rest of `invokeBothReturnFirst` is skipped and the promise
-- gets the exception.
unfoldable pub run_task : Bool → Task → Core → Core × Worker
unfolding with_history
run_task true t c =
    (with_history c (c.calls ++ t.ident ∷ []) (c.outcomes ++ task_exception t.ident ∷ []), idling)
run_task false t c = (with_history c (c.calls ++ t.ident ∷ []) c.outcomes, decrementing t)

-- Under the mutex: whether the queue has a task, the pool is detached, it is being destroyed.
unfoldable pub check_idle : Bool → Bool → Bool → Core → Core × Worker
unfolding with_flags
check_idle true detached shutdown c = (c, checking)
check_idle false true shutdown c = (with_flags c c.shutdown_flag false, ended)
check_idle false false true c = (c, ended)
check_idle false false false c = (c, waiting)

-- The next step of a worker.
unfoldable pub advance : Worker → Core → Core × Worker
unfolding is_empty less_one with_active with_history pop_task popped run_task check_idle
advance checking c = (c, if c.shutdown_flag then ended else popping)
advance popping c = popped c (pop_task c.tasks)
advance (executing t) c = run_task t.throws t c
advance (decrementing t) c = (with_active c (less_one c.num_active_tasks), promising t)
advance (promising t) c = (with_history c c.calls (c.outcomes ++ value t.ident ∷ []), idling)
advance idling c = check_idle (not (is_empty c.tasks)) c.detached_flag c.shutdown_flag c
advance waiting c = (c, waiting)
advance notified c =
    (c, if not (is_empty c.tasks) || c.shutdown_flag || c.detached_flag then checking else waiting)
advance ended c = (c, ended)

unfoldable pub is_waiting : Worker → Bool
is_waiting checking = false
is_waiting popping = false
is_waiting (executing t) = false
is_waiting (decrementing t) = false
is_waiting (promising t) = false
is_waiting idling = false
is_waiting waiting = true
is_waiting notified = false
is_waiting ended = false

unfoldable pub wake : Worker → Worker
unfolding is_waiting
wake x = if is_waiting x then notified else x

unfoldable pub wake_first : List Worker → List Worker
unfolding is_waiting
wake_first [] = []
wake_first (x ∷ ws) = if is_waiting x then notified ∷ ws else x ∷ wake_first ws

-- `notify_one` wakes a worker that sleeps, the one with the number if it does.
unfoldable pub wake_one : ℕ → List Worker → List Worker
unfolding is_waiting wake_first
wake_one i ws = elim (get_elem? ws i) [
  | none ↦ wake_first ws
  | some x ↦ if is_waiting x then set ws i notified else wake_first ws
]

-- The oldest notification that is still to come.
unfoldable pub notify_first : ℕ → Pool → List Notice → Pool
unfolding wake wake_one
notify_first i s [] = s
notify_first i s (to_one ∷ rest) = record s { workers = wake_one i s.workers; notices = rest }
notify_first i s (to_all ∷ rest) = record s { workers = map wake s.workers; notices = rest }

unfoldable pub wake_at : ℕ → Pool → Option Worker → Pool
unfolding wake
wake_at i s none = s
wake_at i s (some x) = record s { workers = set s.workers i (wake x) }

-- A client calls `enqueueTask`, or goes on to push; a worker takes a step; a notification is made, and may
-- choose the worker with the number; that worker wakes up without a reason; the owner detaches the pool, or
-- begins to destroy it, and then takes one task that is left from the queue.
pub data Event : Type 0 where
  enqueue : Task → Event
  push : Event
  work : ℕ → Event
  notify : ℕ → Event
  spurious_wake_up : ℕ → Event
  detach : Event
  shut_down : Event
  drain : Event

unfoldable pub all_ended : List Worker → Bool
all_ended [] = true
all_ended (ended ∷ ws) = all_ended ws
all_ended (w ∷ ws) = false

-- One round of the destructor's last loop, once all workers are joined.
unfoldable pub drained : Core → Option (Task × List Task) → Core
unfolding with_tasks with_history
drained c none = c
drained c (some (t, ts)) =
    with_history (with_tasks c ts) c.calls (c.outcomes ++ pool_destroyed t.ident ∷ [])

unfoldable pub drain_one : Core → Core
unfolding pop_task drained
drain_one c = drained c (pop_task c.tasks)

-- The push of the oldest call of `enqueueTask` that has not pushed yet.
unfoldable pub push_first : Pool → Option (Task × List Task) → Pool
unfolding with_tasks
push_first s none = s
push_first s (some (t, ts)) = record {
  core = with_tasks s.core (s.core.tasks ++ t ∷ []);
  workers = s.workers;
  notices = s.notices ++ to_one ∷ [];
  pending = ts;
  pushed = s.pushed ++ t ∷ [];
}

unfoldable pub work_at : Pool → ℕ → Option Worker → Pool
unfolding advance
work_at s i none = s
work_at s i (some x) =
    let (c, y) = advance x s.core in record s { core = c; workers = set s.workers i y }

unfoldable pub step : Event → Pool → Pool
unfolding plus_one with_active with_flags pop_task push_first work_at notify_first wake_at all_ended
    drain_one
step (enqueue t) s = record s {
  core = with_active s.core (plus_one s.core.num_active_tasks);
  pending = s.pending ++ t ∷ [];
}
step push s = push_first s (pop_task s.pending)
step (work i) s = work_at s i (get_elem? s.workers i)
step (notify i) s = notify_first i s s.notices
step (spurious_wake_up i) s = wake_at i s (get_elem? s.workers i)
step detach s = record s {
  core = with_flags s.core s.core.shutdown_flag true;
  notices = s.notices ++ to_one ∷ [];
}
step shut_down s = record s {
  core = with_flags s.core true s.core.detached_flag;
  notices = s.notices ++ to_all ∷ [];
}
step drain s = record s { core = if all_ended s.workers then drain_one s.core else s.core }

unfoldable pub run : List Event → Pool → Pool
unfolding step
run [] s = s
run (e ∷ events) s = run events (step e s)

abbrev pub fresh : ℕ → Pool
fresh count = record {
  core = record {
    tasks = [];
    num_active_tasks = 0;
    shutdown_flag = false;
    detached_flag = false;
    calls = [];
    outcomes = [];
  };
  workers = replicate count checking;
  notices = [];
  pending = [];
  pushed = [];
}

-- The constructor: `none` is the exception for less than one worker.
unfoldable pub start : ℕ → Option Pool
start count = if count == 0 then none else some (fresh count)
