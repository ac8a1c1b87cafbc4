-- ===== src/Event.antt =====
-- Events and queues of the CPU device: include/alpaka/event/EventGenericThreads.hpp and
-- queue/QueueGenericThreadsNonBlocking.hpp, QueueGenericThreadsBlocking.hpp. A queue that does not block is
-- its pool's one worker, which runs the tasks in the order they were enqueued; how that worker sleeps and is notified,
-- and what an exception or the end of the pool does, is in ExecPool. The clients and the workers take turns
-- in any order; a step is what one of them does under the mutex of an event, or one task.
pub mod Tallies
pub mod Invariant
pub mod Preserved
pub mod History
pub mod Laws
pub mod Waiters
pub mod Waiting
pub mod Deadlock
use alpaka.Base.{
  ℕ, zero, suc, ◌+◌, Bool, true, false, not, List, [], ◌∷◌, ◌++◌, Option, none, some, length,
  get_elem?, set, replicate, map, ◌&&◌, ◌==◌, ltb, leb, if◌then◌else◌, wrap,
}

-- A task of the client, by a number; the task that marks an event as ready; the task that waits for one. The two
-- lambdas hold the enqueue count of the event at the time of the call.
pub data Task : Type 0 where
  client_task : ℕ → Task
  signal : ℕ → ℕ → Task
  await : ℕ → ℕ → Task

-- The future of a task: its queue and its place in what was enqueued there.
pub record Future : Type 0 where
  pub queue : ℕ
  pub place : ℕ

-- `EventGenericThreadsImpl`; `none` is a shared_future without a state.
pub record EventImpl : Type 0 where
  pub future : Option Future
  pub enqueue_count : ℕ
  pub last_ready_enqueue_count : ℕ

-- The worker is between two tasks, in `future.get()`, or about to keep the promise of the task it has run.
pub data Worker : Type 0 where
  idle : Worker
  getting : Option Future → Worker
  promising : Worker

-- `finished` are the tasks run, `tasks` those to come, a task that is waiting first; `promised` is how many promises
-- have been kept. A blocking queue runs a task in the call that enqueues it.
pub record Queue : Type 0 where
  pub blocking : Bool
  pub finished : List Task
  pub tasks : List Task
  pub promised : ℕ
  pub worker : Worker

-- A thread that calls `wait(event)`: the count it waits for, and the future it is in, if any.
pub data Waiter : Type 0 where
  outside : Waiter
  testing : ℕ → ℕ → Waiter
  blocked : ℕ → ℕ → Option Future → Waiter

pub record System : Type 0 where
  pub queues : List Queue
  pub events : List EventImpl
  pub waiters : List Waiter

unfoldable pub is_ready : EventImpl → Bool
is_ready ev = ev.last_ready_enqueue_count == ev.enqueue_count

abbrev pub with_queue : System → ℕ → Queue → System
with_queue s q r = record s { queues = set s.queues q r }

abbrev pub with_event : System → ℕ → EventImpl → System
with_event s e ev = record s { events = set s.events e ev }

-- `enqueueTask` of the worker's pool.
unfoldable pub push : Queue → Task → Queue
push r t = record r { tasks = r.tasks ++ t ∷ [] }

-- `popTask` and `runTask` up to the promise: the task in front has been run.
unfoldable pub finish : Queue → Task → List Task → Queue
finish r t ts = record r { finished = r.finished ++ t ∷ []; tasks = ts; worker = promising }

unfoldable pub with_worker : Queue → Worker → Queue
with_worker r x = record r { worker = x }

-- `++m_enqueueCount` and the new future, under the mutex of the event.
unfoldable pub counted : EventImpl → Future → EventImpl
counted ev f = record ev { future = some f; enqueue_count = wrap 64 (ev.enqueue_count + 1) }

-- A task that a blocking queue has run, under its mutex.
unfoldable pub run_now : Queue → Task → Queue
run_now r t = record r { finished = r.finished ++ t ∷ []; promised = r.promised + 1 }

-- `Enqueue` of an event, on a queue of either kind.
unfoldable pub enqueue_event : System → ℕ → ℕ → Option Queue → Option EventImpl → System
unfolding counted push run_now
enqueue_event s q e (some r) (some ev) =
    let ev' = counted ev (record { queue = q; place = length r.finished + length r.tasks }) in
    if r.blocking
    then with_event (with_queue s q (run_now r (signal e ev'.enqueue_count))) e
        (record ev' { last_ready_enqueue_count = ev'.enqueue_count })
    else with_event (with_queue s q (push r (signal e ev'.enqueue_count))) e ev'
enqueue_event s q e none ev = s
enqueue_event s q e (some r) none = s

-- `WaiterWaitFor` of a queue that does not block, under the mutex of the event. A blocking queue is not changed: its
-- caller waits, as in `call_wait`.
unfoldable pub wait_queue : System → ℕ → ℕ → Option Queue → Option EventImpl → System
unfolding is_ready push
wait_queue s q e (some r) (some ev) =
    if not r.blocking && not (is_ready ev)
    then with_queue s q (push r (await e ev.enqueue_count))
    else s
wait_queue s q e none ev = s
wait_queue s q e (some r) none = s

-- `Enqueue` of a task.
unfoldable pub enqueue_task : System → ℕ → ℕ → Option Queue → System
unfolding push run_now
enqueue_task s q n none = s
enqueue_task s q n (some r) =
    with_queue s q (if r.blocking then run_now r (client_task n) else push r (client_task n))

-- The lambda of `Enqueue`: nothing is done if the event has been enqueued again.
unfoldable pub run_signal : ℕ → EventImpl → EventImpl
run_signal c ev =
    if c == ev.enqueue_count
    then (record ev { last_ready_enqueue_count = ev.enqueue_count })
    else ev

-- `future.get()` comes back once the promise is kept.
unfoldable pub is_kept : List Queue → Option Future → Bool
is_kept qs none = false
is_kept qs (some f) = elim (get_elem? qs f.queue) [ none ↦ false | some r ↦ ltb f.place r.promised ]

-- The next task of a worker of `ConcurrentExecPool`, whose event is alive since the lambda shares it. The loop
-- of `EventGenericThreadsImpl::wait` is left when the count is no more above the last ready one.
unfoldable pub execute : System → ℕ → Queue → Task → List Task → Option EventImpl → System
unfolding finish with_worker run_signal
execute s q r (client_task n) ts ev = with_queue s q (finish r (client_task n) ts)
execute s q r (signal e c) ts none = s
execute s q r (signal e c) ts (some ev) =
    with_event (with_queue s q (finish r (signal e c) ts)) e (run_signal c ev)
execute s q r (await e c) ts none = s
execute s q r (await e c) ts (some ev) = with_queue s q (
    if ltb ev.last_ready_enqueue_count c
    then with_worker r (getting ev.future)
    else finish r (await e c) ts)

abbrev pub event_of : Task → ℕ
event_of (client_task n) = 0
event_of (signal e c) = e
event_of (await e c) = e

-- The worker takes the next task and runs it, in `concurrentExecFn`.
unfoldable pub work_idle : System → ℕ → Queue → List Task → System
unfolding execute
work_idle s q r [] = s
work_idle s q r (t ∷ ts) = execute s q r t ts (get_elem? s.events (event_of t))

-- One step of the worker in `concurrentExecFn`: in the wait of a task it runs, or at the promise of the task it
-- has run.
unfoldable pub work_on : System → ℕ → Queue → Worker → System
unfolding work_idle is_kept with_worker
work_on s q r idle = work_idle s q r r.tasks
work_on s q r (getting f) = if is_kept s.queues f then with_queue s q (with_worker r idle) else s
work_on s q r promising = with_queue s q (record r { promised = r.promised + 1; worker = idle })

unfoldable pub work_at : System → ℕ → Option Queue → System
unfolding work_on
work_at s q none = s
work_at s q (some r) = work_on s q r r.worker

abbrev pub with_waiter : System → ℕ → Waiter → System
with_waiter s i x = record s { waiters = set s.waiters i x }

-- `CurrentThreadWaitFor` of an event: the count is read under the mutex, and the loop is entered.
unfoldable pub call_wait : System → ℕ → ℕ → Option Waiter → Option EventImpl → System
call_wait s i e (some outside) (some ev) = with_waiter s i (testing e ev.enqueue_count)
call_wait s i e (some outside) none = s
call_wait s i e (some (testing e' c)) ev = s
call_wait s i e (some (blocked e' c f)) ev = s
call_wait s i e none ev = s

unfoldable pub tested : ℕ → ℕ → Option EventImpl → Waiter
tested e c none = testing e c
tested e c (some ev) = if ltb ev.last_ready_enqueue_count c then blocked e c ev.future else outside

unfoldable pub waiter_at : System → ℕ → Option Waiter → System
unfolding tested is_kept
waiter_at s i none = s
waiter_at s i (some outside) = s
waiter_at s i (some (testing e c)) = with_waiter s i (tested e c (get_elem? s.events e))
waiter_at s i (some (blocked e c f)) =
    if is_kept s.queues f then with_waiter s i (testing e c) else s

-- The calls of the clients, and the steps of the workers and of the threads in `wait`.
pub data Event : Type 0 where
  task : ℕ → ℕ → Event
  record_event : ℕ → ℕ → Event
  wait_for : ℕ → ℕ → Event
  work : ℕ → Event
  wait : ℕ → ℕ → Event
  advance : ℕ → Event

unfoldable pub step : Event → System → System
unfolding enqueue_task enqueue_event wait_queue work_at call_wait waiter_at
step (task q n) s = enqueue_task s q n (get_elem? s.queues q)
step (record_event q e) s = enqueue_event s q e (get_elem? s.queues q) (get_elem? s.events e)
step (wait_for q e) s = wait_queue s q e (get_elem? s.queues q) (get_elem? s.events e)
step (work q) s = work_at s q (get_elem? s.queues q)
step (wait i e) s = call_wait s i e (get_elem? s.waiters i) (get_elem? s.events e)
step (advance i) s = waiter_at s i (get_elem? s.waiters i)

unfoldable pub run : List Event → System → System
unfolding step
run [] s = s
run (ev ∷ events) s = run events (step ev s)

abbrev pub fresh_queue : Bool → Queue
fresh_queue b = record { blocking = b; finished = []; tasks = []; promised = 0; worker = idle }

abbrev pub fresh_event : EventImpl
fresh_event = record { future = none; enqueue_count = 0; last_ready_enqueue_count = 0 }

-- Queues, events and threads that have just been made.
unfoldable pub start : List Bool → ℕ → ℕ → System
start kinds events threads = record {
  queues = map fresh_queue kinds;
  events = replicate events fresh_event;
  waiters = replicate threads outside;
}
