-- ===== src/Barrier/Predicate/Invariant.antt =====
-- What holds between the steps of `BarrierThreadWithPredicate`, include/alpaka/core/BarrierThread.hpp.
use alpaka.Base.{
  ℕ, zero, suc, ◌+◌, ◌-◌, ◌%◌, ◌^◌, ◌≤◌, ◌<◌, ◌≡◌, refl, ◌⊎◌, List, [], ◌∷◌, arith, length, All,
  ◌==◌, if◌then◌else◌, wrap, wrap_of_lt, false,
}
use alpaka.Barrier.Predicate.{
  BlockOp, block_count, block_and, block_or, initial_value, as_bit, atomic_op, Shared, result_at,
  Place, outside, entered, waiting, woken, Thread,
}
use alpaka.Tally.{tally}

-- What an operation makes of a number of false and of true predicates.
abbrev pub block_value : BlockOp → ℕ → ℕ → ℕ
block_value block_count falses trues = trues
block_value block_and falses trues = if falses == 0 then 1 else 0
block_value block_or falses trues = if trues == 0 then 0 else 1

pub initial_value-eq : (o : BlockOp) → initial_value o ≡ block_value o 0 0
unfolding initial_value
initial_value-eq block_count = refl
initial_value-eq block_and = refl
initial_value-eq block_or = refl

pub as_bit_le : (p : ℕ) → as_bit p ≤ 1
unfolding as_bit
as_bit_le p = ground arith

pub atomic_op_lem :
    (o : BlockOp) (falses trues b : ℕ)
    → b ≤ 1
    → trues + 1 < 2 ^ 32
    → atomic_op o (block_value o falses trues) b ≡ block_value o (falses + (1 - b)) (trues + b)
unfolding atomic_op
atomic_op_lem block_count falses trues b h k = wrap_of_lt 32 (omega arith)
atomic_op_lem block_and zero trues zero h k = refl
atomic_op_lem block_and zero trues (suc zero) h k = refl
atomic_op_lem block_and (suc falses) trues zero h k =
    let e : (suc falses == 0) ≡ false = ground arith in
    let e' : (suc falses + (1 - 0) == 0) ≡ false = ground arith in rw (e, e') refl
atomic_op_lem block_and (suc falses) trues (suc zero) h k =
    let e : (suc falses == 0) ≡ false = ground arith in
    let e' : (suc falses + (1 - 1) == 0) ≡ false = ground arith in rw (e, e') refl
atomic_op_lem block_or falses zero zero h k = refl
atomic_op_lem block_or falses zero (suc zero) h k = refl
atomic_op_lem block_or falses (suc trues) zero h k =
    let e : (suc trues == 0) ≡ false = ground arith in
    let e' : (suc trues + 0 == 0) ≡ false = ground arith in rw (e, e') refl
atomic_op_lem block_or falses (suc trues) (suc zero) h k =
    let e : (suc trues == 0) ≡ false = ground arith in
    let e' : (suc trues + 1 == 0) ≡ false = ground arith in rw (e, e') refl
atomic_op_lem block_and falses trues (suc (suc b)) h k = absurd (omega arith)
atomic_op_lem block_or falses trues (suc (suc b)) h k = absurd (omega arith)

-- The weight `x` of a thread that has arrived in the call `G`, which has not ended.
abbrev pub seen : ℕ → Place → ℕ → ℕ → ℕ
seen G outside p x = 0
seen G (entered g) p x = 0
seen G (waiting g k) p x = if p == G then x else 0
seen G (woken g k) p x = if p == G then x else 0

abbrev pub true_bit : ℕ → Thread → ℕ
true_bit k t = as_bit (t.predicate k)

abbrev pub false_bit : ℕ → Thread → ℕ
false_bit k t = 1 - as_bit (t.predicate k)

abbrev pub arrived : ℕ → List Thread → ℕ
arrived G = tally (λ t. seen G t.place t.passed 1)

abbrev pub seen_ones : ℕ → List Thread → ℕ
seen_ones G = tally (λ t. seen G t.place t.passed (true_bit G t))

abbrev pub seen_zeros : ℕ → List Thread → ℕ
seen_zeros G = tally (λ t. seen G t.place t.passed (false_bit G t))

module _ (w : ℕ) (op : ℕ → BlockOp) (predicates : List (ℕ → ℕ)) where
  abbrev pub all_ones : ℕ → ℕ
  all_ones k = tally (λ p. as_bit (p k)) predicates

  abbrev pub all_zeros : ℕ → ℕ
  all_zeros k = tally (λ p. 1 - as_bit (p k)) predicates

  -- The value of the call `k` over the predicates of all threads, and the values of the first calls, the latest first.
  abbrev pub total : ℕ → ℕ
  total k = block_value (op k) (all_zeros k) (all_ones k)

  abbrev pub totals : ℕ → List ℕ
  totals zero = []
  totals (suc k) = total k ∷ totals k

  -- A thread sleeps only in the call that has not ended.
  abbrev pub Fits : ℕ → Place → ℕ → Type 0
  Fits G outside p = p ≡ G
  Fits G (entered g) p = (p ≡ G) × (g ≡ wrap w G)
  Fits G (waiting g k) p = (p ≡ G) × (g ≡ wrap w p) × (k ≡ p % 2)
  Fits G (woken g k) p = ((p ≡ G) ⊎ (p + 1 ≡ G)) × (g ≡ wrap w p) × (k ≡ p % 2)

  abbrev pub Good : ℕ → Thread → Type 0
  Good G t = Fits G t.place t.passed × (t.returned ≡ totals t.passed)

  -- `G` calls have ended.
  pub record Holds (G : ℕ) (m : Shared) (xs : List Thread) : Type 0 where
    pub count : length xs ≡ length predicates
    pub generation_eq : m.generation ≡ wrap w G
    pub each : All (Good G) xs
    pub sum_eq : m.cur_thread_count + arrived G xs ≡ length predicates
    pub now :
        0 < arrived G xs
        → result_at (G % 2) m ≡ block_value (op G) (seen_zeros G xs) (seen_ones G xs)
    pub before : (H : ℕ) → suc H ≡ G → result_at (H % 2) m ≡ total H
    pub every_one : (k : ℕ) → tally (true_bit k) xs ≡ all_ones k
    pub every_zero : (k : ℕ) → tally (false_bit k) xs ≡ all_zeros k
