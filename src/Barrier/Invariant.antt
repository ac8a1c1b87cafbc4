-- ===== src/Barrier/Invariant.antt =====
-- The invariant of `BarrierThread`, include/alpaka/core/BarrierThread.hpp.
use alpaka.Base.{
  ℕ, ◌+◌, ◌^◌, ◌≤◌, ◌<◌, ◌≡◌, refl, ◌⊎◌, List, some, arith, length, get_elem?, set, All, ◌==◌,
  if◌then◌else◌, wrap, length-set, ◌∙◌,
}
use alpaka.Barrier.{Shared, Place, outside, entered, spinning, resetting, opening, Thread}
use alpaka.Tally.{tally, tally-set, le-tally, All-set, tallies}

-- Weights of a thread in generation `G`: it waits for the generation to end, stands before the first or the
-- second write of the last thread, or is none of these.
abbrev pub waits : ℕ → Place → ℕ → ℕ
waits G outside p = 0
waits G (entered g) p = 0
waits G (spinning g) p = if p == G then 1 else 0
waits G resetting p = 0
waits G opening p = 0

abbrev pub resets : Place → ℕ
resets outside = 0
resets (entered g) = 0
resets (spinning g) = 0
resets resetting = 1
resets opening = 0

abbrev pub opens : Place → ℕ
opens outside = 0
opens (entered g) = 0
opens (spinning g) = 0
opens resetting = 0
opens opening = 1

abbrev pub lags : ℕ → Place → ℕ → ℕ
lags G outside p = 1
lags G (entered g) p = 1
lags G (spinning g) p = if p == G then 0 else 1
lags G resetting p = 0
lags G opening p = 0

abbrev pub waiting : ℕ → List Thread → ℕ
waiting G = tally (λ t. waits G t.place t.passed)

abbrev pub in_reset : List Thread → ℕ
in_reset = tally (λ t. resets t.place)

abbrev pub in_open : List Thread → ℕ
in_open = tally (λ t. opens t.place)

abbrev pub lagging : ℕ → List Thread → ℕ
lagging G = tally (λ t. lags G t.place t.passed)

pub one_weight : (G : ℕ) (q : Place) (p : ℕ) → waits G q p + resets q + opens q + lags G q p ≡ 1
one_weight G outside p = refl
one_weight G (entered g) p = refl
one_weight G (spinning g) p = ground arith
one_weight G resetting p = refl
one_weight G opening p = refl

-- A thread that spins has read its own generation, which is the present one or the one before.
abbrev pub Fits : ℕ → ℕ → Place → ℕ → Type 0
Fits w G outside p = p ≡ G
Fits w G (entered g) p = (p ≡ G) × (g ≡ wrap w G)
Fits w G (spinning g) p = ((p ≡ G) ⊎ (p + 1 ≡ G)) × (g ≡ wrap w p)
Fits w G resetting p = p ≡ G
Fits w G opening p = p ≡ G

-- Threads arrive, or the last one resets the counter, or it is about to open the barrier.
abbrev pub Phase : ℕ → ℕ → ℕ → ℕ → ℕ → Type 0
Phase n c waiting_n reset_n open_n =
    ((reset_n ≡ 0) × (open_n ≡ 0) × (c + waiting_n ≡ n) × (0 < c))
    ⊎ (((reset_n ≡ 1) × (open_n ≡ 0) × (c ≡ 0) × (waiting_n + 1 ≡ n))
        ⊎ ((reset_n ≡ 0) × (open_n ≡ 1) × (c ≡ n) × (waiting_n + 1 ≡ n)))

pub record Holds (w n G : ℕ) (m : Shared) (xs : List Thread) : Type 0 where
  pub count : length xs ≡ n
  pub generation_eq : m.generation ≡ wrap w G
  pub each : All (λ t. Fits w G t.place t.passed) xs
  pub phase : Phase n m.cur_thread_count (waiting G xs) (in_reset xs) (in_open xs)

-- Nobody lags while the last thread writes.
pub everyone :
    (w n G : ℕ) (m : Shared) (xs : List Thread)
    → Holds w n G m xs
    → waiting G xs + in_reset xs + in_open xs + lagging G xs ≡ n
everyone w n G m xs h = omega (
  arith,
  tallies (λ t. waits G t.place t.passed) (λ t. resets t.place) (λ t. opens t.place)
      (λ t. lags G t.place t.passed) xs (λ t. one_weight G t.place t.passed),
  h.count,
)

module _ (w n : ℕ) (some_thread : 0 < n) (narrow : n < 2 ^ w) (G : ℕ) (m : Shared)
    (xs : List Thread) (i : ℕ) where
  -- The change of one thread from place `q` to `u`, with the counter `c`, within the generation.
  pub stays :
      (q : Place) (p : ℕ) (u : Thread) (c : ℕ)
      → get_elem? xs i ≡ some (record { place = q; passed = p })
      → Holds w n G m xs
      → Fits w G u.place u.passed
      → (waiting G (set xs i u) + waits G q p ≡ waiting G xs + waits G u.place u.passed
          → in_reset (set xs i u) + resets q ≡ in_reset xs + resets u.place
          → in_open (set xs i u) + opens q ≡ in_open xs + opens u.place
          → lags G q p ≤ lagging G xs
          → Phase n c (waiting G (set xs i u)) (in_reset (set xs i u)) (in_open (set xs i u)))
      → Holds w n G (record { cur_thread_count = c; generation = m.generation }) (set xs i u)
  stays q p u c at h fits phase = record {
    count = length-set xs i u ∙ h.count;
    generation_eq = h.generation_eq;
    each = All-set (λ t. Fits w G t.place t.passed) xs i u h.each fits;
    phase =
        phase
          (tally-set (λ t. waits G t.place t.passed) xs i (record { place = q; passed = p }) u at)
          (tally-set (λ t. resets t.place) xs i (record { place = q; passed = p }) u at)
          (tally-set (λ t. opens t.place) xs i (record { place = q; passed = p }) u at)
          (le-tally (λ t. lags G t.place t.passed) xs i (record { place = q; passed = p }) at);
  }
