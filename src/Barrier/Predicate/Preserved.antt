-- ===== src/Barrier/Predicate/Preserved.antt =====
-- The steps of `BarrierThreadWithPredicate::wait`, include/alpaka/core/BarrierThread.hpp, keep its invariant.
use alpaka.Base.{
  ℕ, suc, ◌+◌, ◌-◌, ◌%◌, ◌<◌, ◌≡◌, refl, sym, ap, ap₂, ◌∙◌, inl, inr, List, ◌∷◌, some, arith,
  length, get_elem?, set, ◌==◌, length-set, Bool-cases,
}
use alpaka.Barrier.Predicate.{
  BlockOp, as_bit, Shared, result_at, woken, Thread, leave, result_before,
}
use alpaka.Tally.{tally-set, tally_zero, tally_vanishes, All-set, All-map}
use alpaka.Barrier.Predicate.Invariant.{
  block_value, initial_value-eq, seen, true_bit, false_bit, arrived, seen_ones, seen_zeros, total,
  totals, Good, Holds,
}
use alpaka.Barrier.Predicate.Slots.{unseen, wrap-parity}

module _ (w : ℕ) (op : ℕ → BlockOp) (predicates : List (ℕ → ℕ)) where
  -- A thread changes within the call `G`, and what it passes does not.
  pub kept :
      (G : ℕ) (m m' : Shared) (xs : List Thread) (i : ℕ) (t u : Thread)
      → get_elem? xs i ≡ some t
      → u.predicate ≡ t.predicate
      → Good w op predicates G u
      → Holds w op predicates G m xs
      → m'.generation ≡ m.generation
      → (let ys = set xs i u in
          m'.cur_thread_count + arrived G ys ≡ length predicates
          → (0 < arrived G ys
              → result_at (G % 2) m' ≡ block_value (op G) (seen_zeros G ys) (seen_ones G ys))
          → ((H : ℕ) → suc H ≡ G → result_at (H % 2) m' ≡ total w op predicates H)
          → Holds w op predicates G m' ys)
  kept G m m' xs i t u at same good h gen sum now before = record {
    count = length-set xs i u ∙ h.count;
    generation_eq = gen ∙ h.generation_eq;
    each = All-set (Good w op predicates G) xs i u h.each good;
    sum_eq = sum;
    now = now;
    before = before;
    every_one = λ k.
        let e : true_bit k u ≡ true_bit k t = ap (λ (f : ℕ → ℕ). as_bit (f k)) same in
        omega (arith, tally-set (true_bit k) xs i t u at, e, h.every_one k);
    every_zero = λ k.
        let e : false_bit k u ≡ false_bit k t = ap (λ (f : ℕ → ℕ). 1 - as_bit (f k)) same in
        omega (arith, tally-set (false_bit k) xs i t u at, e, h.every_zero k);
  }

  -- A thread counts for the same before and after.
  pub steady :
      (G : ℕ) (m : Shared) (xs : List Thread) (i : ℕ) (t u : Thread)
      → get_elem? xs i ≡ some t
      → u.predicate ≡ t.predicate
      → Good w op predicates G u
      → ((x : ℕ) → seen G t.place t.passed x ≡ seen G u.place u.passed x)
      → Holds w op predicates G m xs
      → Holds w op predicates G m (set xs i u)
  steady G m xs i t u at same good weights h =
      let same_sum = tally-set (λ t. seen G t.place t.passed 1) xs i t u at in
      let same_ones = tally-set (λ t. seen G t.place t.passed (true_bit G t)) xs i t u at in
      let same_zeros = tally-set (λ t. seen G t.place t.passed (false_bit G t)) xs i t u at in
      let w1 : seen G t.place t.passed (true_bit G t) ≡ seen G u.place u.passed (true_bit G u) =
        weights (true_bit G t)
        ∙ ap (λ (f : ℕ → ℕ). seen G u.place u.passed (as_bit (f G))) (sym same) in
      let w0 : seen G t.place t.passed (false_bit G t) ≡ seen G u.place u.passed (false_bit G u) =
        weights (false_bit G t)
        ∙ ap (λ (f : ℕ → ℕ). seen G u.place u.passed (1 - as_bit (f G))) (sym same) in
      let e1 : seen_ones G xs ≡ seen_ones G (set xs i u) = omega (arith, same_ones, w1) in
      let e0 : seen_zeros G xs ≡ seen_zeros G (set xs i u) = omega (arith, same_zeros, w0) in
      kept G m m xs i t u at same good h refl (omega (arith, same_sum, weights 1, h.sum_eq))
        (λ some_arrived.
          h.now (omega (arith, same_sum, weights 1, some_arrived)) ∙ ap₂ (block_value (op G)) e0 e1)
        h.before

  -- A thread leaves the call that has ended.
  pub leaves :
      (G : ℕ) (m : Shared) (xs : List Thread) (i : ℕ) (t : Thread) (g k : ℕ)
      → get_elem? xs i ≡ some t
      → t.place ≡ woken g k
      → suc t.passed ≡ G
      → k ≡ t.passed % 2
      → t.returned ≡ totals w op predicates t.passed
      → Holds w op predicates G m xs
      → Holds w op predicates G m (set xs i (leave w op (length predicates) (result_at k m) t))
  unfolding leave
  leaves G m xs i t g k at place ended parity ret h =
      let result : result_at k m ≡ total w op predicates t.passed =
        ap (λ j. result_at j m) parity ∙ h.before t.passed ended in
      let out : seen G t.place t.passed 1 ≡ 0 = rw place (ground arith) in
      steady G m xs i t (leave w op (length predicates) (result_at k m) t) at refl
        (ended, ap₂ ◌∷◌ result ret) (λ x. unseen G t.place t.passed x out) h

  pub result_before_lem :
      (G : ℕ) (m : Shared) (xs : List Thread)
      → 0 < w
      → Holds w op predicates G m xs
      → result_before w op (length predicates) (op G) m
        ≡ block_value (op G) (seen_zeros G xs) (seen_ones G xs)
  unfolding result_before
  result_before_lem G m xs pos h =
      let n = length predicates in
      elim (Bool-cases (m.cur_thread_count == n)) [
        | inl first ↦
            let empty : arrived G xs ≡ 0 = ground (arith, h.sum_eq, first) in
            let each = tally_zero (λ t. seen G t.place t.passed 1) xs empty in
            let no_ones : seen_ones G xs ≡ 0 =
              tally_vanishes (λ t. seen G t.place t.passed (true_bit G t)) xs
                (All-map (λ t. seen G t.place t.passed 1 ≡ 0)
                  (λ t. seen G t.place t.passed (true_bit G t) ≡ 0)
                  (λ t z. unseen G t.place t.passed (true_bit G t) z) xs each) in
            let no_zeros : seen_zeros G xs ≡ 0 =
              tally_vanishes (λ t. seen G t.place t.passed (false_bit G t)) xs
                (All-map (λ t. seen G t.place t.passed 1 ≡ 0)
                  (λ t. seen G t.place t.passed (false_bit G t) ≡ 0)
                  (λ t z. unseen G t.place t.passed (false_bit G t) z) xs each) in
            rw first
              (initial_value-eq (op G) ∙ ap₂ (block_value (op G)) (sym no_zeros) (sym no_ones))
        | inr later ↦
            let parity : m.generation % 2 ≡ G % 2 =
              ap (λ (x : ℕ). x % 2) h.generation_eq ∙ wrap-parity w G pos in
            rw later (ap (λ j. result_at j m) parity ∙ h.now (ground (arith, h.sum_eq, later)))
      ]
