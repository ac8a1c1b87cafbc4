-- ===== src/Barrier/Predicate.antt =====
-- `BarrierThreadWithPredicate` of include/alpaka/core/BarrierThread.hpp with the operations of
-- include/alpaka/block/sync/Traits.hpp. The threads of a block take turns in any order; a step is the read of
-- the generation, what is done under the mutex, or, for a thread that has been woken, its test and the read of
-- the result. A thread that sleeps on the condition variable goes on only when it is notified, or wakes up
-- without a reason.
pub mod Invariant
pub mod Slots
pub mod Preserved
pub mod Arrival
pub mod Steps
pub mod Progress
use alpaka.Base.{
  ℕ, zero, suc, ◌+◌, ◌-◌, ◌%◌, ◌^◌, Bool, true, false, List, [], ◌∷◌, Option, none, some, get_elem?,
  set, map, length, ◌==◌, if◌then◌else◌, wrap,
}
use Prim.Native.Nat.{bit_and, bit_or}

pub data BlockOp : Type 0 where
  block_count block_and block_or : BlockOp

unfoldable pub initial_value : BlockOp → ℕ
initial_value block_count = 0
initial_value block_and = 1
initial_value block_or = 0

-- `static_cast<int>` of the predicate as a bool.
unfoldable pub as_bit : ℕ → ℕ
as_bit predicate = if predicate == 0 then 0 else 1

-- `detail::AtomicOp`, on an int of 32 bits.
unfoldable pub atomic_op : BlockOp → ℕ → ℕ → ℕ
atomic_op block_count result value = wrap 32 (result + value)
atomic_op block_and result value = bit_and result value
atomic_op block_or result value = bit_or result value

-- `m_curThreadCount`, `m_generation`, `m_result[0]` and `m_result[1]`.
pub record Shared : Type 0 where
  pub cur_thread_count : ℕ
  pub generation : ℕ
  pub result_0 : ℕ
  pub result_1 : ℕ

unfoldable pub result_at : ℕ → Shared → ℕ
result_at k m = if k == 0 then m.result_0 else m.result_1

unfoldable pub with_result : ℕ → ℕ → Shared → Shared
with_result k v m = record m {
  result_0 = if k == 0 then v else m.result_0;
  result_1 = if k == 0 then m.result_1 else v;
}

-- Not in `wait`; with the generation it read; asleep on the condition variable, with that generation and
-- `generationMod2`; woken, before it tests the generation under the mutex.
pub data Place : Type 0 where
  outside : Place
  entered : ℕ → Place
  waiting : ℕ → ℕ → Place
  woken : ℕ → ℕ → Place

-- What a thread passes as the predicate of its calls of `wait`, how many have returned, and with what, the
-- latest first.
pub record Thread : Type 0 where
  pub predicate : ℕ → ℕ
  pub place : Place
  pub passed : ℕ
  pub returned : List ℕ

pub record Barrier : Type 0 where
  pub shared : Shared
  pub threads : List Thread

unfoldable pub wake_place : Place → Place
wake_place outside = outside
wake_place (entered g) = entered g
wake_place (waiting g k) = woken g k
wake_place (woken g k) = woken g k

unfoldable pub wake : Thread → Thread
unfolding wake_place
wake t = record t { place = wake_place t.place }

unfoldable pub notify_all : List Thread → List Thread
unfolding wake
notify_all ts = map wake ts

-- A thread takes its next step, or its wait for the condition comes back without a notification.
pub data Event : Type 0 where
  turn : ℕ → Event
  spurious_wake_up : ℕ → Event

-- All threads make their calls with the same operations, `op k` in the call `k`.
module _ (w : ℕ) (op : ℕ → BlockOp) (thread_count : ℕ) where
  -- A thread has left a call with a result.
  unfoldable pub leave : ℕ → Thread → Thread
  leave result t = record t {
    place = outside;
    passed = suc t.passed;
    returned = result ∷ t.returned;
  }

  -- What the first thread to arrive finds in the result, and the others.
  unfoldable pub result_before : BlockOp → Shared → ℕ
  unfolding initial_value result_at
  result_before o m =
      if m.cur_thread_count == thread_count then initial_value o else result_at (m.generation % 2) m

  -- With the predicate's result, before the decrement.
  unfoldable pub with_predicate : BlockOp → ℕ → Shared → Shared
  unfolding as_bit atomic_op result_before with_result
  with_predicate o predicate m =
      with_result (m.generation % 2) (atomic_op o (result_before o m) (as_bit predicate)) m

  -- Under the mutex, up to the return or to sleep, which the wait for the condition goes to if its first test
  -- fails. The Boolean says whether all are notified.
  unfoldable pub arrive : ℕ → Thread → Shared → Shared × Thread × Bool
  unfolding with_predicate result_at leave
  arrive g t m =
      let k = m.generation % 2 in
      let m' = with_predicate (op t.passed) (t.predicate t.passed) m in
      let c = wrap w (m.cur_thread_count + 2 ^ w - 1) in
      if c == 0
      then (
        record m' { cur_thread_count = thread_count; generation = wrap w (m.generation + 1) },
        leave (result_at k m') t,
        true,
      )
      else (
        record m' { cur_thread_count = c },
        (if g == m.generation then record t { place = waiting g k } else leave (result_at k m') t),
        false,
      )

  unfoldable pub advance_at : Place → Thread → Shared → Shared × Thread × Bool
  unfolding arrive result_at leave
  advance_at outside t m = (m, record t { place = entered m.generation }, false)
  advance_at (entered g) t m = arrive g t m
  advance_at (waiting g k) t m = (m, t, false)
  advance_at (woken g k) t m = (
    m,
    (if g == m.generation then record t { place = waiting g k } else leave (result_at k m) t),
    false,
  )

  unfoldable pub step : Event → Barrier → Barrier
  unfolding advance_at notify_all wake
  step (turn i) s = elim (get_elem? s.threads i) [
    | none ↦ s
    | some t ↦
        let (m, u, notifies) = advance_at t.place t s.shared in
        record {
          shared = m;
          threads = if notifies then notify_all (set s.threads i u) else set s.threads i u;
        }
  ]
  step (spurious_wake_up i) s = elim (get_elem? s.threads i) [
    | none ↦ s
    | some t ↦ record s { threads = set s.threads i (wake t) }
  ]

  unfoldable pub run : List Event → Barrier → Barrier
  unfolding step
  run [] s = s
  run (e ∷ schedule) s = run schedule (step e s)

  -- The constructor, with a thread for each of the predicates; what `m_result` holds at first is not set.
  abbrev pub start : List (ℕ → ℕ) → ℕ → ℕ → Barrier
  start predicates r0 r1 = record {
    shared = record {
      cur_thread_count = thread_count;
      generation = 0;
      result_0 = r0;
      result_1 = r1;
    };
    threads =
        map (λ p. record { predicate = p; place = outside; passed = 0; returned = [] }) predicates;
  }
