-- ===== src/Barrier/Safety.antt =====
-- Arrivals, departures and progress at the barrier of include/alpaka/core/BarrierThread.hpp.
use alpaka.Base.{
  ℕ, suc, ◌+◌, ◌%◌, ◌^◌, ◌≤◌, ◌<◌, ◌≡◌, ◌≢◌, refl, sym, ap, ◌∙◌, inl, inr, List, [], ◌∷◌, some,
  arith, get_elem?, ◌==◌, Bool-cases, wrap, false,
}
use native.Mathlib.Nat.{mod-eq_of_lt, mod-add-mod, mod-lt, mod_self}
use alpaka.Barrier.{
  Shared, Place, outside, entered, spinning, resetting, opening, Thread, Barrier, start,
  decremented, advance_at, step, run,
}
use native.Mathlib.Decide.{dec_lt}
use alpaka.Tally.{tally, tally-add, get_elem?-set_same, All-get_elem?}
use alpaka.Barrier.Invariant.{waits, resets, opens, lags, Fits, Holds, everyone, one_weight}
use alpaka.Barrier.Preserved.{start-Holds, run-Holds}

-- The calls of `wait` whose decrement has been made.
abbrev pub arrivals : Place → ℕ → ℕ
arrivals outside p = p
arrivals (entered g) p = p
arrivals (spinning g) p = p + 1
arrivals resetting p = p + 1
arrivals opening p = p + 1

Fits-passed : (w G : ℕ) (q : Place) (p : ℕ) → Fits w G q p → (p ≤ G) × (G ≤ arrivals q p)
Fits-passed w G outside p f = (omega (arith, f), omega (arith, f))
Fits-passed w G (entered g) p f = (omega (arith, f.0), omega (arith, f.0))
Fits-passed w G (spinning g) p f = (ground (arith, f.0), ground (arith, f.0))
Fits-passed w G resetting p f = (omega (arith, f), omega (arith, f))
Fits-passed w G opening p f = (omega (arith, f), omega (arith, f))

-- For from 1 to 2 ^ w - 1 threads and any schedule: a thread has returned from at most as many calls of
-- `wait` as any other thread has arrived at. So no thread leaves the barrier before all have reached it.
pub passed-le-arrivals :
    (w n : ℕ)
    → 0 < n
    → n < 2 ^ w
    → (schedule : List ℕ) (i j : ℕ) (t u : Thread)
    → get_elem? (run w n schedule (start w n)).threads i ≡ some t
    → get_elem? (run w n schedule (start w n)).threads j ≡ some u
    → t.passed ≤ arrivals u.place u.passed
passed-le-arrivals w n pos narrow schedule i j t u at_i at_j =
    let (G, h) = run-Holds w n pos narrow schedule 0 (start w n) (start-Holds w n pos) in
    let threads = (run w n schedule (start w n)).threads in
    let fits_t = All-get_elem? (λ t. Fits w G t.place t.passed) threads i t h.each at_i in
    let fits_u = All-get_elem? (λ t. Fits w G t.place t.passed) threads j u h.each at_j in
    omega (
      arith,
      (Fits-passed w G t.place t.passed fits_t).0,
      (Fits-passed w G u.place u.passed fits_u).1,
    )

-- A positive sum has a thread with a positive weight.
found :
    (weight : Thread → ℕ) (xs : List Thread)
    → 0 < tally weight xs
    → (i : ℕ) × (t : Thread) × (get_elem? xs i ≡ some t) × (0 < weight t)
found weight [] h = absurd (omega arith)
found weight (x ∷ xs) h = elim (Bool-cases (weight x == 0)) [
  | inl none_here ↦ let (i, t, at, pos) = found weight xs (ground arith) in (suc i, t, at, pos)
  | inr here ↦ (0, x, refl, ground arith)
]

pub next_differs : (m p : ℕ) → 2 ≤ m → p % m ≢ suc p % m
next_differs m p h e =
    let r : ℕ = p % m in
    let small : r < m = mod-lt p (omega arith) in
    let next : (r + 1) % m ≡ suc p % m =
      mod-add-mod p m 1 ∙ ap (λ (t : ℕ). t % m) (let e : p + 1 ≡ suc p = omega arith in e) in
    elim (dec_lt (r + 1) m) [
      | yes inside ↦ omega (arith, mod-eq_of_lt inside, next, e)
      | no edge ↦
          let full : r + 1 ≡ m = omega arith in
          omega (arith, ap (λ (t : ℕ). t % m) full, mod_self m, next, e)
    ]

-- A thread whose next step is not to stay as it is changes the barrier.
moved :
    (w n i : ℕ) (s : Barrier) (t : Thread)
    → get_elem? s.threads i ≡ some t
    → (advance_at w n t.place t.passed s.shared).1.place ≢ t.place
    → step w n i s ≢ s
unfolding step advance_at
moved w n i s t at differs same =
    let u : Thread = (advance_at w n t.place t.passed s.shared).1 in
    let after : get_elem? (step w n i s).threads i ≡ some u =
      rw (at, step) (get_elem?-set_same s.threads i t u at) in
    let both : some u ≡ some t =
      sym after ∙ (ap (λ (b : Barrier). get_elem? b.threads i) same ∙ at) in
    let same_thread : u ≡ t = cc in differs (ap (λ (x : Thread). x.place) same_thread)

place_changes :
    (w n G : ℕ) (m : Shared) (q : Place) (p : ℕ)
    → 2 ≤ 2 ^ w
    → m.generation ≡ wrap w G
    → Fits w G q p
    → q ≢ outside
    → waits G q p ≡ 0
    → (advance_at w n q p m).1.place ≢ q
unfolding advance_at
place_changes w n G m outside p wide gen f inside no_wait = absurd (inside refl)
place_changes w n G m (entered g) p wide gen f inside no_wait =
    elim (Bool-cases (decremented w n m == 0)) [
      | inl last ↦ rw last (λ e. cc)
      | inr more ↦ rw more (λ e. cc)
    ]
place_changes w n G m (spinning g) p wide gen f inside no_wait =
    let behind : suc p ≡ G = ground (arith, f.0, no_wait) in
    let differs : g ≢ m.generation =
      λ e. next_differs (2 ^ w) p wide (sym f.1 ∙ (e ∙ (gen ∙ ap (wrap w) (sym behind)))) in
    let test : (g == m.generation) ≡ false = ground arith in rw test (λ e. cc)
place_changes w n G m resetting p wide gen f inside no_wait = λ e. cc
place_changes w n G m opening p wide gen f inside no_wait = λ e. cc

abbrev active : ℕ → Thread → ℕ
active G t = lags G t.place t.passed + resets t.place + opens t.place

active-Holds :
    (w n G : ℕ) (m : Shared) (xs : List Thread) → 0 < n → Holds w n G m xs → 0 < tally (active G) xs
active-Holds w n G m xs pos h =
    let sum =
      tally-add (λ t. lags G t.place t.passed) (λ t. resets t.place) (λ t. opens t.place) xs in
    ground (arith, h.phase, everyone w n G m xs h, sum)

-- For from 1 to 2 ^ w - 1 threads and after any schedule, where every thread is in a call of `wait`, some
-- thread has a step that changes the barrier: the threads do not wait for each other for ever.
pub step-moves :
    (w n : ℕ)
    → 0 < n
    → n < 2 ^ w
    → (schedule : List ℕ)
    → ((i : ℕ) (t : Thread)
        → get_elem? (run w n schedule (start w n)).threads i ≡ some t
        → t.place ≢ outside)
    → (i : ℕ) × (step w n i (run w n schedule (start w n)) ≢ run w n schedule (start w n))
step-moves w n pos narrow schedule inside =
    let (G, h) = run-Holds w n pos narrow schedule 0 (start w n) (start-Holds w n pos) in
    let s : Barrier = run w n schedule (start w n) in
    let (i, t, at, heavy) =
      found (active G) s.threads (active-Holds w n G s.shared s.threads pos h) in
    let fits = All-get_elem? (λ t. Fits w G t.place t.passed) s.threads i t h.each at in
    let weights = one_weight G t.place t.passed in
    let no_wait : waits G t.place t.passed ≡ 0 = omega (arith, weights, heavy) in
    (
      i,
      moved w n i s t at (
          place_changes w n G s.shared t.place t.passed (omega arith) h.generation_eq fits
            (inside i t at) no_wait),
    )
