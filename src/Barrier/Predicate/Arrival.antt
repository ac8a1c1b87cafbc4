-- ===== src/Barrier/Predicate/Arrival.antt =====
-- The arrival of a thread, and the opening by the last one, in `BarrierThreadWithPredicate::wait`,
-- include/alpaka/core/BarrierThread.hpp.
use native.Mathlib.Nat.{mod-add-mod}
use alpaka.Base.{
  map, length-map, ℕ, suc, ◌+◌, ◌-◌, ◌%◌, ◌^◌, ◌≤◌, ◌<◌, ◌≡◌, refl, sym, ap, ap₂, ◌∙◌, inr, List,
  some, arith, length, get_elem?, set, All, wrap,
}
use alpaka.Barrier.Predicate.{
  BlockOp, as_bit, atomic_op, Shared, result_at, with_result, Place, outside, entered, waiting,
  woken, wake_place, wake, notify_all, Thread, result_before, with_predicate,
}
use alpaka.Tally.{
  tally-map, All-of_map, tally-set, tally_vanishes, All-map, All-both, tally-le, tally-eq,
  tally_full,
}
use alpaka.Barrier.Predicate.Invariant.{
  block_value, as_bit_le, atomic_op_lem, seen, true_bit, false_bit, arrived, seen_ones, seen_zeros,
  all_ones, all_zeros, total, totals, Fits, Good, Holds,
}
use alpaka.Barrier.Predicate.Slots.{
  result_at-with_result, result_at_other, seen_le, seen_one_le, seen_whole, wrap-parity,
}
use alpaka.Barrier.Predicate.Preserved.{kept, result_before_lem}

module _ (w : ℕ) (op : ℕ → BlockOp) (predicates : List (ℕ → ℕ)) (pos : 0 < w)
    (small : length predicates < 2 ^ 32) where
  -- A thread arrives, before the test of the counter.
  pub arrives :
      (G : ℕ) (m : Shared) (xs : List Thread) (i : ℕ) (t : Thread) (g : ℕ)
      → get_elem? xs i ≡ some t
      → t.place ≡ entered g
      → t.passed ≡ G
      → g ≡ wrap w G
      → t.returned ≡ totals w op predicates t.passed
      → 0 < m.cur_thread_count
      → Holds w op predicates G m xs
      → Holds w op predicates G
          (record (with_predicate w op (length predicates) (op t.passed) (t.predicate t.passed) m) {
            cur_thread_count = m.cur_thread_count - 1;
          })
          (set xs i (record t { place = waiting g (m.generation % 2) }))
  unfolding with_predicate with_result result_at
  arrives G m xs i t g at place passed gen ret some_left h =
      let n = length predicates in
      let u : Thread = record t { place = waiting g (m.generation % 2) } in
      let b : ℕ = as_bit (t.predicate t.passed) in
      let parity : m.generation % 2 ≡ G % 2 =
        ap (λ (x : ℕ). x % 2) h.generation_eq ∙ wrap-parity w G pos in
      let out : (x : ℕ) → seen G t.place t.passed x ≡ 0 = λ x. rw place refl in
      let whole : (x : ℕ) → seen G u.place u.passed x ≡ x = λ x. ground arith in
      let bit : true_bit G u ≡ b = ap (λ k. as_bit (t.predicate k)) (sym passed) in
      let more = tally-set (λ t. seen G t.place t.passed 1) xs i t u at in
      let more_ones = tally-set (λ t. seen G t.place t.passed (true_bit G t)) xs i t u at in
      let more_zeros = tally-set (λ t. seen G t.place t.passed (false_bit G t)) xs i t u at in
      let e1 : seen_ones G xs + b ≡ seen_ones G (set xs i u) =
        omega (arith, more_ones, out (true_bit G t), whole (true_bit G u), bit) in
      let e0 : seen_zeros G xs + (1 - b) ≡ seen_zeros G (set xs i u) =
        omega (arith, more_zeros, out (false_bit G t), whole (false_bit G u), bit) in
      let few : seen_ones G xs ≤ arrived G xs =
        tally-le (λ t. seen G t.place t.passed (true_bit G t)) (λ t. seen G t.place t.passed 1) xs
          (λ t. seen_le G t.place t.passed (true_bit G t) (as_bit_le (t.predicate G))) in
      let v : ℕ = atomic_op (op t.passed) (result_before w op n (op t.passed) m) b in
      let value : v ≡ block_value (op G) (seen_zeros G (set xs i u)) (seen_ones G (set xs i u)) =
        ap (λ k. atomic_op (op k) (result_before w op n (op k) m) b) passed
        ∙ ap (λ r. atomic_op (op G) r b) (result_before_lem w op predicates G m xs pos h)
        ∙ atomic_op_lem (op G) (seen_zeros G xs) (seen_ones G xs) b
            (as_bit_le (t.predicate t.passed)) (omega (arith, few, h.sum_eq))
        ∙ ap₂ (block_value (op G)) e0 e1 in
      kept w op predicates G m
        (record (with_result (m.generation % 2) v m) { cur_thread_count = m.cur_thread_count - 1 })
        xs i t u at refl
        ((passed, gen ∙ ap (wrap w) (sym passed), parity ∙ ap (λ (x : ℕ). x % 2) (sym passed)), ret)
        h refl (omega (arith, more, out 1, whole 1, h.sum_eq))
        (λ some_arrived.
          ap (λ k. result_at k (with_result (m.generation % 2) v m)) (sym parity)
          ∙ result_at-with_result (m.generation % 2) v m
          ∙ value)
        (λ H e.
          ap (λ k. result_at (H % 2) (with_result k v m)) parity
          ∙ result_at_other G H v m (ap (λ (x : ℕ). x % 2) e)
          ∙ h.before H e)

  -- A thread that has arrived is woken in the call that has ended.
  later_place :
      (G : ℕ) (q : Place) (p : ℕ)
      → Fits w op predicates G q p
      → seen G q p 1 ≡ 1
      → Fits w op predicates (suc G) (wake_place q) p × (seen (suc G) (wake_place q) p 1 ≡ 0)
  unfolding wake_place
  later_place G outside p fits whole = absurd (omega arith)
  later_place G (entered g) p fits whole = absurd (omega arith)
  later_place G (waiting g k) p fits whole =
      ((inr (omega (arith, fits.0)), fits.1, fits.2), ground (arith, fits.0))
  later_place G (woken g k) p fits whole =
      let e : p ≡ G = ground arith in ((inr (omega (arith, e)), fits.1, fits.2), ground (arith, e))

  later_Fits :
      (G : ℕ) (t : Thread)
      → Good w op predicates G t
      → seen G t.place t.passed 1 ≡ 1
      → Good w op predicates (suc G) (wake t) × (seen (suc G) (wake t).place (wake t).passed 1 ≡ 0)
  unfolding wake
  later_Fits G t good whole =
      let (fits, out) = later_place G t.place t.passed good.0 whole in ((fits, good.1), out)

  -- The last thread opens the barrier and wakes the others, who were in the call that has just ended.
  pub opens :
      (G : ℕ) (m : Shared) (xs : List Thread)
      → 0 < length predicates
      → m.cur_thread_count ≡ 0
      → Holds w op predicates G m xs
      → Holds w op predicates
          (suc G)
          (record m {
            cur_thread_count = length predicates;
            generation = wrap w (m.generation + 1);
          })
          (notify_all xs)
  unfolding result_at notify_all
  opens G m xs some_thread empty h =
      let each : All (λ t. seen G t.place t.passed 1 ≡ 1) xs =
        tally_full (λ t. seen G t.place t.passed 1) xs (λ t. seen_one_le G t.place t.passed)
          (omega (arith, h.sum_eq, h.count, empty)) in
      let both =
        All-both (Good w op predicates G) (λ t. seen G t.place t.passed 1 ≡ 1)
          (λ t.
            Good w op predicates (suc G) (wake t)
            × (seen (suc G) (wake t).place (wake t).passed 1 ≡ 0))
          (λ t good whole. later_Fits G t good whole) xs h.each each in
      let all_seen_ones : seen_ones G xs ≡ all_ones w op predicates G =
        tally-eq (λ t. seen G t.place t.passed (true_bit G t)) (true_bit G) xs
          (All-map (λ t. seen G t.place t.passed 1 ≡ 1)
            (λ t. seen G t.place t.passed (true_bit G t) ≡ true_bit G t)
            (λ t z. seen_whole G t.place t.passed (true_bit G t) z) xs each)
        ∙ h.every_one G in
      let all_seen_zeros : seen_zeros G xs ≡ all_zeros w op predicates G =
        tally-eq (λ t. seen G t.place t.passed (false_bit G t)) (false_bit G) xs
          (All-map (λ t. seen G t.place t.passed 1 ≡ 1)
            (λ t. seen G t.place t.passed (false_bit G t) ≡ false_bit G t)
            (λ t z. seen_whole G t.place t.passed (false_bit G t) z) xs each)
        ∙ h.every_zero G in
      let nobody : arrived (suc G) (map wake xs) ≡ 0 =
        tally-map wake (λ t. seen (suc G) t.place t.passed 1) xs
        ∙ tally_vanishes (λ t. seen (suc G) (wake t).place (wake t).passed 1) xs
            (All-map
              (λ t.
                Good w op predicates (suc G) (wake t)
                × (seen (suc G) (wake t).place (wake t).passed 1 ≡ 0))
              (λ t. seen (suc G) (wake t).place (wake t).passed 1 ≡ 0) (λ t z. z.1) xs both) in
      let done : result_at (G % 2) m ≡ total w op predicates G =
        h.now (omega (arith, h.sum_eq, empty, some_thread))
        ∙ ap₂ (block_value (op G)) all_seen_zeros all_seen_ones in
      record {
        count = length-map wake xs ∙ h.count;
        generation_eq =
            ap (λ (x : ℕ). wrap w (x + 1)) h.generation_eq
            ∙ mod-add-mod G (2 ^ w) 1
            ∙ (let e : G + 1 ≡ suc G = omega arith in ap (wrap w) e);
        each = All-of_map wake (Good w op predicates (suc G)) xs (
            All-map
              (λ t.
                Good w op predicates (suc G) (wake t)
                × (seen (suc G) (wake t).place (wake t).passed 1 ≡ 0))
              (λ t. Good w op predicates (suc G) (wake t)) (λ t z. z.0) xs both);
        sum_eq = omega (arith, nobody);
        now = λ some_arrived. absurd (omega (arith, nobody, some_arrived));
        before = λ H e.
            let same : H ≡ G = omega arith in
            ap (λ k. result_at (k % 2) m) same ∙ done ∙ ap (total w op predicates) (sym same);
        every_one = λ k. tally-map wake (true_bit k) xs ∙ h.every_one k;
        every_zero = λ k. tally-map wake (false_bit k) xs ∙ h.every_zero k;
      }
