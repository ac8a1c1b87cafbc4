-- ===== src/Tests/PredicateTests.antt =====
-- Runs of the barrier with a predicate.
use alpaka.Base.{ℕ, zero, suc, ◌≡◌, ◌≢◌, refl, List, [], ◌∷◌, some, arith, get_elem?, ap}
use alpaka.Barrier.Predicate.{
  BlockOp, block_count, block_and, block_or, outside, entered, waiting, Thread, Event, turn,
  spurious_wake_up, step, run, start,
}
use alpaka.Barrier.Predicate.Invariant.{totals}
use alpaka.Barrier.Predicate.Steps.{returned-eq-totals}
use alpaka.Barrier.Predicate.Progress.{ArrivesOrLeaves, predicate_step-moves}

-- First a count, then whether all are true, then whether one is.
abbrev ops : ℕ → BlockOp
ops zero = block_count
ops (suc zero) = block_and
ops (suc (suc k)) = block_or

abbrev five_once : ℕ → ℕ
five_once zero = 5
five_once (suc k) = 0

-- Two threads: 5, 0, 0, … and 7, 7, 7, …
abbrev two_predicates : List (ℕ → ℕ)
two_predicates = five_once ∷ (λ k. 7) ∷ []

abbrev three_calls : List Event
three_calls =
    turn 0
    ∷ turn 1
    ∷ turn 1
    ∷ turn 0
    ∷ turn 1
    ∷ turn 1
    ∷ turn 0
    ∷ turn 0
    ∷ turn 1
    ∷ turn 0
    ∷ turn 0
    ∷ turn 1
    ∷ turn 1
    ∷ turn 0
    ∷ []

returned-eq-totals_example : 1 ∷ 0 ∷ 2 ∷ [] ≡ totals 32 ops two_predicates 3
returned-eq-totals_example =
    returned-eq-totals 32 ops two_predicates (omega arith) (omega arith) (omega arith) (omega arith)
      three_calls 9 9 0
      (record { predicate = five_once; place = outside; passed = 3; returned = 1 ∷ 0 ∷ 2 ∷ [] })
      (unfold run in refl)

-- Thread 0 waits for the condition, wakes up once without a reason and waits again, and thread 1 has read the
-- generation.
abbrev one_waits : List Event
one_waits = turn 0 ∷ turn 1 ∷ turn 0 ∷ spurious_wake_up 0 ∷ turn 0 ∷ []

in_wait :
    (i : ℕ) (t : Thread)
    → get_elem? (run 32 ops 2 one_waits (start 32 ops 2 two_predicates 9 9)).threads i ≡ some t
    → t.place ≢ outside
unfolding run
in_wait zero t h =
    let e : record { predicate = five_once; place = waiting 0 0; passed = 0; returned = [] } ≡ t =
      cc in
    let f : waiting 0 0 ≡ t.place = ap (λ (x : Thread). x.place) e in λ g. cc
in_wait (suc zero) t h =
    let e : record { predicate = (λ k. 7); place = entered 0; passed = 0; returned = [] } ≡ t =
      cc in
    let f : entered 0 ≡ t.place = ap (λ (x : Thread). x.place) e in λ g. cc
in_wait (suc (suc i)) t h = absurd (cc)

predicate_step-moves_example :
    (let s = run 32 ops 2 one_waits (start 32 ops 2 two_predicates 9 9) in
      (i : ℕ) × (t : Thread) × (u : Thread) × (get_elem? s.threads i ≡ some t)
      × (get_elem? (step 32 ops 2 (turn i) s).threads i ≡ some u)
      × (step 32 ops 2 (turn i) s ≢ s)
      × (u.place ≢ t.place)
      × ArrivesOrLeaves t u)
predicate_step-moves_example =
    predicate_step-moves 32 ops two_predicates (omega arith) (omega arith) (omega arith)
      (omega arith) one_waits 9 9 in_wait
