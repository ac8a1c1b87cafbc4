-- ===== src/Barrier/Predicate/Steps.antt =====
-- Every step of `BarrierThreadWithPredicate::wait`, include/alpaka/core/BarrierThread.hpp, and what the calls return.
use native.Mathlib.Nat.{add-mod_right, mod-eq_of_lt}
use alpaka.Base.{
  ◌⊎◌, true, Bool, if◌then◌else◌, one-lt-two-pow, ◌≤◌, ℕ, suc, ◌+◌, ◌-◌, ◌%◌, ◌^◌, ◌<◌, ◌≡◌, refl,
  sym, ap, ◌∙◌, inl, inr, List, [], ◌∷◌, some, arith, length, get_elem?, set, All, ◌==◌, wrap,
  Bool-cases, Option-cases, subst, map, length-map, wrap_of_lt,
}
use alpaka.Barrier.Predicate.{
  BlockOp, Shared, result_at, Place, outside, entered, waiting, woken, Thread, Barrier, wake_place,
  wake, notify_all, Event, turn, spurious_wake_up, leave, with_predicate, arrive, advance_at, step,
  run, start,
}
use alpaka.Tally.{
  tally-map, map-set, get_elem?-map, All-get_elem?, get_elem?-set_same, set-set, set_same,
}
use alpaka.Barrier.Predicate.Invariant.{
  seen, true_bit, false_bit, arrived, totals, Fits, Good, Holds,
}
use alpaka.Barrier.Predicate.Slots.{wrap-parity}
use alpaka.Barrier.Predicate.Preserved.{steady, leaves}
use alpaka.Barrier.Safety.{next_differs}
use alpaka.Barrier.Predicate.Arrival.{arrives, opens}

module _ (w : ℕ) (op : ℕ → BlockOp) (predicates : List (ℕ → ℕ)) (pos : 0 < w)
    (some_thread : 0 < length predicates) (narrow : length predicates < 2 ^ w)
    (small : length predicates < 2 ^ 32) where
  -- Between the steps no count is down to 0.
  abbrev Sound : Shared → List Thread → Type 0
  Sound m xs = (G : ℕ) × Holds w op predicates G m xs × (0 < m.cur_thread_count)

  -- The threads after a step, which may notify all.
  abbrev notified : Bool → List Thread → List Thread
  notified notifies xs = if notifies then notify_all xs else xs

  arrive-Sound :
      (G : ℕ) (m : Shared) (xs : List Thread) (i : ℕ) (t : Thread) (g : ℕ)
      → get_elem? xs i ≡ some t
      → t.place ≡ entered g
      → t.passed ≡ G
      → g ≡ wrap w G
      → t.returned ≡ totals w op predicates t.passed
      → 0 < m.cur_thread_count
      → Holds w op predicates G m xs
      → (let (m', u, notifies) = arrive w op (length predicates) g t m in
          Sound m' (notified notifies (set xs i u)))
  unfolding arrive notify_all wake
  arrive-Sound G m xs i t g at place passed gen ret some_left h =
      let n = length predicates in
      let o = op t.passed in
      let m' : Shared = record (with_predicate w op n o (t.predicate t.passed) m) {
        cur_thread_count = m.cur_thread_count - 1;
      } in
      let u : Thread = record t { place = waiting g (m.generation % 2) } in
      let left : wrap w (m.cur_thread_count + 2 ^ w - 1) ≡ m.cur_thread_count - 1 =
        (let e : m.cur_thread_count + 2 ^ w - 1 ≡ (m.cur_thread_count - 1) + 2 ^ w = omega arith in
          ap (wrap w) e)
        ∙ add-mod_right (m.cur_thread_count - 1) (2 ^ w)
        ∙ mod-eq_of_lt (omega (arith, h.sum_eq)) in
      let here =
        arrives w op predicates pos small G m xs i t g at place passed gen ret some_left h in
      elim (Bool-cases (m.cur_thread_count - 1 == 0)) [
        | inr more ↦
            let asleep : (g == m.generation) ≡ true = ground (arith, gen, h.generation_eq) in
            rw (left, more, asleep) (G, here, ground (arith, more))
        | inl last ↦
            let ys : List Thread = set xs i u in
            let m'' : Shared = record m' {
              cur_thread_count = n;
              generation = wrap w (m.generation + 1);
            } in
            let k = m.generation % 2 in
            let parity : k ≡ t.passed % 2 =
              ap (λ (x : ℕ). x % 2) h.generation_eq
              ∙ wrap-parity w G pos
              ∙ ap (λ (x : ℕ). x % 2) (sym passed) in
            let awake : List Thread = notify_all ys in
            let v : Thread = leave w op n (result_at k m'') t in
            let after : Holds w op predicates (suc G) m'' awake =
              opens w op predicates pos small G m' ys some_thread (ground (arith, last)) here in
            let at_awake : get_elem? awake i ≡ some (wake u) =
              get_elem?-map wake ys i u (get_elem?-set_same xs i t u at) in
            let gone : Holds w op predicates (suc G) m'' (set awake i v) =
              leaves w op predicates (suc G) m'' awake i (wake u) g k at_awake refl (ap suc passed)
                parity ret after in
            let same : set awake i v ≡ notify_all (set xs i v) =
              sym (map-set wake ys i v) ∙ ap (map wake) (set-set xs i u v) in
            rw (left, last)
              (suc G, subst (Holds w op predicates (suc G) m'') same gone, some_thread)
      ]

  -- A thread finds its own generation only in the call that has not ended.
  still_now :
      (G : ℕ) (m : Shared) (p g : ℕ)
      → (p ≡ G) ⊎ (p + 1 ≡ G)
      → g ≡ wrap w p
      → (g == m.generation) ≡ true
      → m.generation ≡ wrap w G
      → p ≡ G
  still_now G m p g (inl now) own still gen = now
  still_now G m p g (inr before) own still gen =
      let wide : 2 ≤ 2 ^ w = omega (arith, one-lt-two-pow w pos) in
      let next : suc p ≡ G = omega (arith, before) in
      let same : g ≡ m.generation = ground (arith, still) in
      absurd (next_differs (2 ^ w) p wide (sym own ∙ same ∙ gen ∙ ap (wrap w) (sym next)))

  wake_place-Fits :
      (G : ℕ) (q : Place) (p : ℕ)
      → Fits w op predicates G q p
      → Fits w op predicates G (wake_place q) p
  unfolding wake_place
  wake_place-Fits G outside p fits = fits
  wake_place-Fits G (entered g) p fits = fits
  wake_place-Fits G (waiting g k) p fits = (inl fits.0, fits.1, fits.2)
  wake_place-Fits G (woken g k) p fits = fits

  seen-wake_place : (G : ℕ) (q : Place) (p x : ℕ) → seen G q p x ≡ seen G (wake_place q) p x
  unfolding wake_place
  seen-wake_place G outside p x = refl
  seen-wake_place G (entered g) p x = refl
  seen-wake_place G (waiting g k) p x = refl
  seen-wake_place G (woken g k) p x = refl

  advance_at-Sound :
      (G : ℕ) (m : Shared) (xs : List Thread) (i : ℕ) (q : Place) (t : Thread)
      → get_elem? xs i ≡ some t
      → t.place ≡ q
      → Fits w op predicates G q t.passed
      → t.returned ≡ totals w op predicates t.passed
      → 0 < m.cur_thread_count
      → Holds w op predicates G m xs
      → (let (m', u, notifies) = advance_at w op (length predicates) q t m in
          Sound m' (notified notifies (set xs i u)))
  unfolding advance_at
  advance_at-Sound G m xs i outside t at place fits ret some_left h = (
    G,
    steady w op predicates G m xs i t (record t { place = entered m.generation }) at refl
        ((fits, h.generation_eq), ret) (λ x. rw place refl) h,
    some_left,
  )
  advance_at-Sound G m xs i (entered g) t at place fits ret some_left h =
      arrive-Sound G m xs i t g at place fits.0 fits.1 ret some_left h
  advance_at-Sound G m xs i (waiting g k) t at place fits ret some_left h =
      rw (set_same xs i t at) (G, h, some_left)
  advance_at-Sound G m xs i (woken g k) t at place fits ret some_left h =
      elim (Bool-cases (g == m.generation)) [
        | inl still ↦
            let now : t.passed ≡ G = still_now G m t.passed g fits.0 fits.1 still h.generation_eq in
            rw still (
              G,
              steady w op predicates G m xs i t (record t { place = waiting g k }) at refl
                  ((now, fits.1, fits.2), ret) (λ x. rw place refl) h,
              some_left,
            )
        | inr opened ↦ elim fits.0 [
          | inl now ↦ absurd (ground (arith, opened, fits.1 ∙ ap (wrap w) now, h.generation_eq))
          | inr before ↦ rw opened (
            G,
            leaves w op predicates G m xs i t g k at place (omega (arith, before)) fits.2 ret h,
            some_left,
          )
        ]
      ]

  wake-Good : (G : ℕ) (t : Thread) → Good w op predicates G t → Good w op predicates G (wake t)
  unfolding wake
  wake-Good G t (fits, ret) = (wake_place-Fits G t.place t.passed fits, ret)

  step-Sound :
      (e : Event) (s : Barrier)
      → Sound s.shared s.threads
      → (let s' = step w op (length predicates) e s in Sound s'.shared s'.threads)
  unfolding step wake
  step-Sound (turn i) s (G, h, some_left) = elim (Option-cases (get_elem? s.threads i)) [
    | inl none_there ↦ rw (none_there, step) (G, h, some_left)
    | inr found ↦
        let (t, at) = found in
        let good = All-get_elem? (Good w op predicates G) s.threads i t h.each at in
        rw (at, step)
          (advance_at-Sound G s.shared s.threads i t.place t at refl good.0 good.1 some_left h)
  ]
  step-Sound (spurious_wake_up i) s (G, h, some_left) =
      elim (Option-cases (get_elem? s.threads i)) [
        | inl none_there ↦ rw (none_there, step) (G, h, some_left)
        | inr found ↦
            let (t, at) = found in
            let good = All-get_elem? (Good w op predicates G) s.threads i t h.each at in
            rw (at, step)
              (
                G,
                steady w op predicates G s.shared s.threads i t (wake t) at refl
                    (wake-Good G t good) (λ x. seen-wake_place G t.place t.passed x) h,
                some_left,
              )
      ]

  pub run-Sound :
      (schedule : List Event) (s : Barrier)
      → Sound s.shared s.threads
      → (let s' = run w op (length predicates) schedule s in Sound s'.shared s'.threads)
  unfolding run
  run-Sound [] s h = h
  run-Sound (e ∷ schedule) s h =
      run-Sound schedule (step w op (length predicates) e s) (step-Sound e s h)

  abbrev new_thread : (ℕ → ℕ) → Thread
  new_thread p = record { predicate = p; place = outside; passed = 0; returned = [] }

  new_thread-Good : (ps : List (ℕ → ℕ)) → All (Good w op predicates 0) (map new_thread ps)
  new_thread-Good [] = tt
  new_thread-Good (p ∷ ps) = ((refl, refl), new_thread-Good ps)

  nobody_arrived : (ps : List (ℕ → ℕ)) → arrived 0 (map new_thread ps) ≡ 0
  nobody_arrived [] = refl
  nobody_arrived (p ∷ ps) = omega (arith, nobody_arrived ps)

  pub start-Sound :
      (r0 r1 : ℕ)
      → (let s = start w op (length predicates) predicates r0 r1 in Sound s.shared s.threads)
  start-Sound r0 r1 = (
    0,
    record {
      count = length-map new_thread predicates;
      generation_eq = sym (wrap_of_lt w (omega arith));
      each = new_thread-Good predicates;
      sum_eq = omega (arith, nobody_arrived predicates);
      now = λ h. absurd (omega (arith, nobody_arrived predicates, h));
      before = λ H e. absurd (omega (arith, e));
      every_one = λ k. tally-map new_thread (true_bit k) predicates;
      every_zero = λ k. tally-map new_thread (false_bit k) predicates;
    },
    some_thread,
  )

  -- For some threads, fewer than 2 ^ w and than 2 ^ 32, after any schedule and whatever the results hold at
  -- first: each call of `wait` that has returned to a thread has returned the value of the operation of this
  -- call over what all threads pass to it, which is the number of true predicates, whether all are true, or
  -- whether one is.
  pub returned-eq-totals :
      (schedule : List Event) (r0 r1 i : ℕ) (t : Thread)
      → get_elem?
          (run w op
            (length predicates)
            schedule
            (start w op (length predicates) predicates r0 r1)).threads
          i
        ≡ some t
      → t.returned ≡ totals w op predicates t.passed
  returned-eq-totals schedule r0 r1 i t at =
      let s = start w op (length predicates) predicates r0 r1 in
      let (G, h, some_left) = run-Sound schedule s (start-Sound r0 r1) in
      (All-get_elem? (Good w op predicates G) (run w op (length predicates) schedule s).threads i t
        h.each at).1
