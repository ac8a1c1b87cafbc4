-- ===== src/Barrier/Predicate/Progress.antt =====
-- The next move in `BarrierThreadWithPredicate`, include/alpaka/core/BarrierThread.hpp.
use alpaka.Base.{
  set, ℕ, suc, ◌+◌, ◌-◌, ◌^◌, ◌≤◌, ◌<◌, ◌≡◌, ◌≢◌, ◌⊎◌, refl, sym, ap, ◌∙◌, inl, inr, List, [], ◌∷◌,
  some, arith, length, get_elem?, ◌==◌, wrap, Bool-cases, false, one-lt-two-pow,
}
use alpaka.Barrier.Predicate.{
  BlockOp, Shared, Place, outside, entered, waiting, woken, Thread, Barrier, wake_place, wake,
  notify_all, Event, turn, leave, arrive, advance_at, step, run, start,
}
use alpaka.Tally.{tally, get_elem?-map, All-get_elem?, get_elem?-set_same}
use alpaka.Barrier.Safety.{next_differs}
use alpaka.Barrier.Predicate.Invariant.{seen, Fits, Good}
use alpaka.Barrier.Predicate.Steps.{run-Sound, start-Sound}

-- Where not all have the weight 1, one has the weight 0.
found_zero :
    {A : Type 0} (weight : A → ℕ) (xs : List A)
    → tally weight xs < length xs
    → (i : ℕ) × (x : A) × (get_elem? xs i ≡ some x) × (weight x ≡ 0)
found_zero weight [] h = absurd (omega arith)
found_zero weight (x ∷ xs) h = elim (Bool-cases (weight x == 0)) [
  | inl here ↦ (0, x, refl, ground arith)
  | inr there ↦ let (i, y, at, z) = found_zero weight xs (ground arith) in (suc i, y, at, z)
]

-- A thread before and after its turn: it was about to arrive, or it has left its call.
abbrev pub ArrivesOrLeaves : Thread → Thread → Type 0
ArrivesOrLeaves t u = ((g : ℕ) × (t.place ≡ entered g)) ⊎ (u.passed ≡ suc t.passed)

module _ (w : ℕ) (op : ℕ → BlockOp) (predicates : List (ℕ → ℕ)) (pos : 0 < w) where
  -- Neither the place nor, if all are notified, the place after that.
  abbrev Elsewhere : Place → Thread → Type 0
  Elsewhere q u = (u.place ≢ q) × ((wake u).place ≢ q)

  arrive-Elsewhere :
      (n g h : ℕ) (t : Thread) (m : Shared) → Elsewhere (entered h) (arrive w op n g t m).1
  unfolding arrive leave wake wake_place
  arrive-Elsewhere n g h t m = elim (Bool-cases (wrap w (m.cur_thread_count + 2 ^ w - 1) == 0)) [
    | inl last ↦ rw last ((λ e. cc), (λ e. cc))
    | inr more ↦ elim (Bool-cases (g == m.generation)) [
      | inl still ↦ rw (more, still) ((λ e. cc), (λ e. cc))
      | inr gone ↦ rw (more, gone) ((λ e. cc), (λ e. cc))
    ]
  ]

  -- The generation of a thread that the others have passed is an old one.
  is_behind :
      (G now g passed : ℕ)
      → now ≡ wrap w G
      → g ≡ wrap w passed
      → suc passed ≡ G
      → (g == now) ≡ false
  is_behind G now g passed gen old behind =
      let wide : 2 ≤ 2 ^ w = omega (arith, one-lt-two-pow w pos) in
      let differs : g ≢ now =
        λ e. next_differs (2 ^ w) passed wide (sym old ∙ (e ∙ (gen ∙ ap (wrap w) (sym behind)))) in
      ground arith

  -- A thread that has arrived in the present call is the only one that may sleep.
  advance_at-Elsewhere :
      (n G : ℕ) (m : Shared) (q : Place) (t : Thread)
      → m.generation ≡ wrap w G
      → Fits w op predicates G q t.passed
      → q ≢ outside
      → seen G q t.passed 1 ≡ 0
      → Elsewhere q (advance_at w op n q t m).1
  unfolding advance_at leave wake wake_place
  advance_at-Elsewhere n G m outside t gen f inside out = absurd (inside refl)
  advance_at-Elsewhere n G m (entered g) t gen f inside out = arrive-Elsewhere n g g t m
  advance_at-Elsewhere n G m (waiting g k) t gen f inside out = absurd (ground (arith, f.0, out))
  advance_at-Elsewhere n G m (woken g k) t gen f inside out =
      rw (is_behind G m.generation g t.passed gen f.1 (ground (arith, f.0, out)))
        ((λ e. cc), (λ e. cc))

  leaves :
      (n G : ℕ) (m : Shared) (q : Place) (t : Thread)
      → m.generation ≡ wrap w G
      → Fits w op predicates G q t.passed
      → q ≢ outside
      → seen G q t.passed 1 ≡ 0
      → ((g : ℕ) × (q ≡ entered g)) ⊎ ((advance_at w op n q t m).1.passed ≡ suc t.passed)
  unfolding advance_at leave
  leaves n G m outside t gen f inside out = absurd (inside refl)
  leaves n G m (entered g) t gen f inside out = inl (g, refl)
  leaves n G m (waiting g k) t gen f inside out = absurd (ground (arith, f.0, out))
  leaves n G m (woken g k) t gen f inside out =
      rw (is_behind G m.generation g t.passed gen f.1 (ground (arith, f.0, out))) (inr refl)

  moved :
      (n i : ℕ) (s : Barrier) (t : Thread)
      → get_elem? s.threads i ≡ some t
      → Elsewhere t.place (advance_at w op n t.place t s.shared).1
      → ArrivesOrLeaves t (advance_at w op n t.place t s.shared).1
      → (u : Thread) × (get_elem? (step w op n (turn i) s).threads i ≡ some u)
        × (u.place ≢ t.place)
        × ArrivesOrLeaves t u
  unfolding step notify_all wake
  moved n i s t at (differs, differs_woken) goes =
      let (m, u, notifies) = advance_at w op n t.place t s.shared in
      let there : get_elem? (set s.threads i u) i ≡ some u =
        get_elem?-set_same s.threads i t u at in
      elim (Bool-cases notifies) [
        | inl all ↦ (
          wake u,
          rw (at, step, all) (get_elem?-map wake (set s.threads i u) i u there),
          differs_woken,
          goes,
        )
        | inr one ↦ (u, rw (at, step, one) there, differs, goes)
      ]

  -- For at least one thread and fewer than 2 ^ w and than 2 ^ 32, and after any schedule, with or without
  -- spurious wake-ups: where every thread is in a call of `wait`, the turn of some thread changes its place and
  -- the barrier, and the thread arrives in that turn or leaves its call. So they do not all sleep, nor wake up
  -- only to sleep again.
  pub predicate_step-moves :
      0 < length predicates
      → length predicates < 2 ^ w
      → length predicates < 2 ^ 32
      → (schedule : List Event) (r0 r1 : ℕ)
      → (let s =
            run w op
              (length predicates)
              schedule
              (start w op (length predicates) predicates r0 r1) in
          (i : ℕ) (t : Thread) → get_elem? s.threads i ≡ some t → t.place ≢ outside)
      → (let s =
            run w op
              (length predicates)
              schedule
              (start w op (length predicates) predicates r0 r1) in
          (i : ℕ) × (t : Thread) × (u : Thread) × (get_elem? s.threads i ≡ some t)
          × (get_elem? (step w op (length predicates) (turn i) s).threads i ≡ some u)
          × (step w op (length predicates) (turn i) s ≢ s)
          × (u.place ≢ t.place)
          × ArrivesOrLeaves t u)
  predicate_step-moves some_thread narrow small schedule r0 r1 inside =
      let n = length predicates in
      let first = start w op n predicates r0 r1 in
      let (G, h, some_left) =
        run-Sound w op predicates pos some_thread narrow small schedule first
          (start-Sound w op predicates pos some_thread narrow small r0 r1) in
      let s : Barrier = run w op n schedule first in
      let (i, t, at, out) =
        found_zero (λ t. seen G t.place t.passed 1) s.threads
          (omega (arith, h.sum_eq, h.count, some_left)) in
      let good = All-get_elem? (Good w op predicates G) s.threads i t h.each at in
      let place = inside i t at in
      let (u, after, differs, goes) =
        moved n i s t at
          (advance_at-Elsewhere n G s.shared t.place t h.generation_eq good.0 place out)
          (leaves n G s.shared t.place t h.generation_eq good.0 place out) in
      let changes : step w op n (turn i) s ≢ s = λ same.
        let both : some u ≡ some t =
          sym after ∙ (ap (λ (b : Barrier). get_elem? b.threads i) same ∙ at) in
        let same_thread : u ≡ t = cc in differs (ap (λ (x : Thread). x.place) same_thread) in
      (i, t, u, at, after, changes, differs, goes)
