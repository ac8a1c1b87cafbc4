-- ===== src/Barrier/Preserved.antt =====
-- The invariant of `BarrierThread` and the steps of `wait`, include/alpaka/core/BarrierThread.hpp.
use alpaka.Base.{
  ℕ, suc, ◌+◌, ◌-◌, ◌%◌, ◌^◌, ◌≤◌, ◌<◌, ◌≡◌, refl, sym, ap, ◌∙◌, inl, inr, List, [], ◌∷◌, some,
  arith, get_elem?, set, replicate, length-replicate, All, ◌==◌, Option-cases, Bool-cases, wrap,
  wrap_of_lt, one-le-two-pow, length-set,
}
use native.Mathlib.Nat.{mod-eq_of_lt, mod-add-mod, add-mod_right}
use alpaka.Barrier.{
  Shared, Place, outside, entered, spinning, resetting, opening, Thread, Barrier, start,
  decremented, advance_at, step, run,
}
use alpaka.Tally.{
  tally-set, le-tally, tally_zero, tally_vanishes, All-set, All-get_elem?, All-both, All-map,
  All-replicate,
}
use alpaka.Barrier.Invariant.{
  waits, resets, opens, lags, in_reset, in_open, lagging, Fits, Holds, everyone, stays,
}

-- A positive counter that fits its type is decremented without a wrap.
decremented_lem :
    (w n : ℕ) (m : Shared)
    → 0 < m.cur_thread_count
    → m.cur_thread_count ≤ n
    → n < 2 ^ w
    → decremented w n m ≡ m.cur_thread_count - 1
unfolding decremented
decremented_lem w n m pos le narrow =
    let c : ℕ = m.cur_thread_count in
    let e : c + 2 ^ w - 1 ≡ (c - 1) + 2 ^ w = omega arith in
    ap (λ (t : ℕ). t % 2 ^ w) e ∙ (add-mod_right (c - 1) (2 ^ w) ∙ mod-eq_of_lt (omega arith))

-- The threads once the last one is about to open the barrier: the others wait for generation `G` to end.
abbrev Opens : ℕ → ℕ → Place → ℕ → Type 0
Opens w G outside p = p ≡ suc G
Opens w G (entered g) p = ⊥
Opens w G (spinning g) p = (p ≡ G) × (g ≡ wrap w p)
Opens w G resetting p = ⊥
Opens w G opening p = Unit

Fits-Opens :
    (w G : ℕ) (q : Place) (p : ℕ) → Fits w G q p → (lags G q p ≡ 0) × (resets q ≡ 0) → Opens w G q p
Fits-Opens w G outside p f z = absurd (omega (arith, z.0))
Fits-Opens w G (entered g) p f z = absurd (omega (arith, z.0))
Fits-Opens w G (spinning g) p f z = (ground (arith, z.0), f.1)
Fits-Opens w G resetting p f z = absurd (omega (arith, z.1))
Fits-Opens w G opening p f z = tt

Opens-Fits :
    (w G : ℕ) (q : Place) (p : ℕ)
    → Opens w G q p
    → opens q ≡ 0
    → Fits w (suc G) q p × (waits (suc G) q p ≡ 0)
Opens-Fits w G outside p f z = (f, refl)
Opens-Fits w G (entered g) p f z = absurd f
Opens-Fits w G (spinning g) p f z = ((inr (omega (arith, f.0)), f.1), ground (arith, f.0))
Opens-Fits w G resetting p f z = absurd f
Opens-Fits w G opening p f z = absurd (omega arith)

module _ (w n : ℕ) (some_thread : 0 < n) (narrow : n < 2 ^ w) (G : ℕ) (m : Shared)
    (xs : List Thread) (i : ℕ) where
  -- After its second write the last thread has left, and the others wait in the generation before.
  opened :
      (p : ℕ)
      → get_elem? xs i ≡ some (record { place = opening; passed = p })
      → Holds w n G m xs
      → Holds w n
          (suc G)
          (record { cur_thread_count = m.cur_thread_count; generation = wrap w (m.generation + 1) })
          (set xs i (record { place = outside; passed = suc p }))
  opened p at h =
      let old : Thread = record { place = opening; passed = p } in
      let u : Thread = record { place = outside; passed = suc p } in
      let ys : List Thread = set xs i u in
      let p_eq : p ≡ G = All-get_elem? (λ t. Fits w G t.place t.passed) xs i old h.each at in
      let at_open = le-tally (λ t. opens t.place) xs i old at in
      let all = everyone w n G m xs h in
      let no_lag : lagging G xs ≡ 0 = ground (arith, h.phase) in
      let no_reset : in_reset xs ≡ 0 = ground (arith, h.phase) in
      let now_reset = tally-set (λ t. resets t.place) xs i old u at in
      let now_open = tally-set (λ t. opens t.place) xs i old u at in
      let full : m.cur_thread_count ≡ n = ground (arith, h.phase) in
      let one_open : in_open xs ≡ 1 = ground (arith, h.phase) in
      let before : All (λ t. Opens w G t.place t.passed) xs =
        All-both (λ t. Fits w G t.place t.passed)
          (λ t. (lags G t.place t.passed ≡ 0) × (resets t.place ≡ 0))
          (λ t. Opens w G t.place t.passed) (λ t f z. Fits-Opens w G t.place t.passed f z) xs h.each
          (All-both (λ t. lags G t.place t.passed ≡ 0) (λ t. resets t.place ≡ 0)
            (λ t. (lags G t.place t.passed ≡ 0) × (resets t.place ≡ 0)) (λ t a b. (a, b)) xs
            (tally_zero (λ t. lags G t.place t.passed) xs no_lag)
            (tally_zero (λ t. resets t.place) xs no_reset)) in
      let after : All (λ t. Fits w (suc G) t.place t.passed × (waits (suc G) t.place t.passed ≡ 0))
          ys =
        All-both (λ t. Opens w G t.place t.passed) (λ t. opens t.place ≡ 0)
          (λ t. Fits w (suc G) t.place t.passed × (waits (suc G) t.place t.passed ≡ 0))
          (λ t f z. Opens-Fits w G t.place t.passed f z) ys
          (All-set (λ t. Opens w G t.place t.passed) xs i u before (ap suc p_eq))
          (tally_zero (λ t. opens t.place) ys (omega (arith, now_open, one_open))) in
      let nobody =
        tally_vanishes (λ t. waits (suc G) t.place t.passed) ys
          (All-map (λ t. Fits w (suc G) t.place t.passed × (waits (suc G) t.place t.passed ≡ 0))
            (λ t. waits (suc G) t.place t.passed ≡ 0) (λ t a. a.1) ys after) in
      record {
        count = length-set xs i u ∙ h.count;
        generation_eq =
            ap (λ (t : ℕ). wrap w (t + 1)) h.generation_eq
            ∙ mod-add-mod G (2 ^ w) 1
            ∙ ap (wrap w) (let e : G + 1 ≡ suc G = omega arith in e);
        each =
            All-map (λ t. Fits w (suc G) t.place t.passed × (waits (suc G) t.place t.passed ≡ 0))
              (λ t. Fits w (suc G) t.place t.passed) (λ t a. a.0) ys after;
        phase = inl (
          omega (arith, now_reset, no_reset),
          omega (arith, now_open, one_open),
          omega (arith, nobody, full),
          omega (arith, full),
        );
      }

  advance_at-Holds :
      (q : Place) (p : ℕ)
      → get_elem? xs i ≡ some (record { place = q; passed = p })
      → Holds w n G m xs
      → (H : ℕ) × Holds w n H (advance_at w n q p m).0 (set xs i (advance_at w n q p m).1)
  unfolding advance_at
  advance_at-Holds outside p at h =
      let fits =
        All-get_elem? (λ t. Fits w G t.place t.passed) xs i (record { place = outside; passed = p })
          h.each at in
      (
        G,
        stays w n some_thread narrow G m xs i outside p
            (record { place = entered m.generation; passed = p }) m.cur_thread_count at h
            (fits, h.generation_eq) (λ a b c d. ground (arith, h.phase, everyone w n G m xs h)),
      )
  advance_at-Holds (entered g) p at h =
      let old : Thread = record { place = entered g; passed = p } in
      let fits = All-get_elem? (λ t. Fits w G t.place t.passed) xs i old h.each at in
      let lag = le-tally (λ t. lags G t.place t.passed) xs i old at in
      let all = everyone w n G m xs h in
      let pos : 0 < m.cur_thread_count = ground (arith, h.phase) in
      let le : m.cur_thread_count ≤ n = ground (arith, h.phase) in
      rw (decremented_lem w n m pos le narrow) (elim (Bool-cases (m.cur_thread_count - 1 == 0)) [
        | inl last ↦ rw last (
          G,
          stays w n some_thread narrow G m xs i (entered g) p
              (record { place = resetting; passed = p }) (m.cur_thread_count - 1) at h fits.0
              (λ a b c d. ground (arith, h.phase)),
        )
        | inr more ↦ rw more (
          G,
          stays w n some_thread narrow G m xs i (entered g) p
              (record { place = spinning g; passed = p }) (m.cur_thread_count - 1) at h
              (inl fits.0, fits.1 ∙ ap (wrap w) (sym fits.0))
              (λ a b c d. ground (arith, h.phase, fits.0)),
        )
      ])
  advance_at-Holds (spinning g) p at h =
      let old : Thread = record { place = spinning g; passed = p } in
      let fits = All-get_elem? (λ t. Fits w G t.place t.passed) xs i old h.each at in
      elim (Bool-cases (g == m.generation)) [
        | inl same ↦ rw same (
          G,
          stays w n some_thread narrow G m xs i (spinning g) p old m.cur_thread_count at h fits
              (λ a b c d. ground (arith, h.phase)),
        )
        | inr other ↦
            let behind : suc p ≡ G = elim fits.0 [
              | inl here ↦ absurd (ground (arith, fits.1, h.generation_eq, ap (wrap w) here))
              | inr e ↦ omega (arith, e)
            ] in
            rw other (
              G,
              stays w n some_thread narrow G m xs i (spinning g) p
                  (record { place = outside; passed = suc p }) m.cur_thread_count at h behind
                  (λ a b c d. ground (arith, h.phase)),
            )
      ]
  advance_at-Holds resetting p at h =
      let fits =
        All-get_elem? (λ t. Fits w G t.place t.passed) xs i
          (record { place = resetting; passed = p }) h.each at in
      (
        G,
        stays w n some_thread narrow G m xs i resetting p (record { place = opening; passed = p }) n
            at h fits (λ a b c d. ground (arith, h.phase)),
      )
  advance_at-Holds opening p at h = (suc G, opened p at h)

pub start-Holds : (w n : ℕ) → 0 < n → Holds w n 0 (start w n).shared (start w n).threads
start-Holds w n pos =
    let fresh : Thread = record { place = outside; passed = 0 } in
    let threads : List Thread = replicate n fresh in
    record {
      count = length-replicate n fresh;
      generation_eq = sym (wrap_of_lt w (one-le-two-pow w));
      each = All-replicate (λ t. Fits w 0 t.place t.passed) n fresh refl;
      phase = inl (
        tally_vanishes (λ t. resets t.place) threads
            (All-replicate (λ t. resets t.place ≡ 0) n fresh refl),
        tally_vanishes (λ t. opens t.place) threads
            (All-replicate (λ t. opens t.place ≡ 0) n fresh refl),
        omega (
          arith,
          tally_vanishes (λ t. waits 0 t.place t.passed) threads
              (All-replicate (λ t. waits 0 t.place t.passed ≡ 0) n fresh refl),
        ),
        pos,
      );
    }

pub step-Holds :
    (w n : ℕ)
    → 0 < n
    → n < 2 ^ w
    → (G i : ℕ) (s : Barrier) → Holds w n G s.shared s.threads
    → (H : ℕ) × Holds w n H (step w n i s).shared (step w n i s).threads
unfolding step
step-Holds w n pos narrow G i s h = elim (Option-cases (get_elem? s.threads i)) [
  | inl absent ↦ rw (absent, step) (G, h)
  | inr (t, at) ↦
      rw (at, step) (advance_at-Holds w n pos narrow G s.shared s.threads i t.place t.passed at h)
]

pub run-Holds :
    (w n : ℕ)
    → 0 < n
    → n < 2 ^ w
    → (schedule : List ℕ) (G : ℕ) (s : Barrier) → Holds w n G s.shared s.threads
    → (H : ℕ) × Holds w n H (run w n schedule s).shared (run w n schedule s).threads
unfolding run
run-Holds w n pos narrow [] G s h = (G, h)
run-Holds w n pos narrow (i ∷ schedule) G s h =
    let (H, k) = step-Holds w n pos narrow G i s h in
    run-Holds w n pos narrow schedule H (step w n i s) k
