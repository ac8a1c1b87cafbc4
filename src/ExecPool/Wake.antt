-- ===== src/ExecPool/Wake.antt =====
-- What the notifications of include/alpaka/core/ConcurrentExecPool.hpp do to sums over the workers.
use alpaka.Base.{
  ℕ, ◌≡◌, refl, sym, ap, ◌∙◌, inl, inr, true, Bool-cases, Option-cases, List, [], ◌∷◌, some, arith,
  get_elem?, set, map,
}
use alpaka.Tally.{tally, tally-set}
use alpaka.ExecPool.{
  Worker, checking, popping, executing, decrementing, promising, idling, waiting, notified, ended,
  is_waiting, wake, wake_first, wake_one,
}

pub is_waiting_lem : (x : Worker) → is_waiting x ≡ true → x ≡ waiting
unfolding is_waiting
is_waiting_lem checking e = absurd (cc)
is_waiting_lem popping e = absurd (cc)
is_waiting_lem (executing t) e = absurd (cc)
is_waiting_lem (decrementing t) e = absurd (cc)
is_waiting_lem (promising t) e = absurd (cc)
is_waiting_lem idling e = absurd (cc)
is_waiting_lem waiting e = refl
is_waiting_lem notified e = absurd (cc)
is_waiting_lem ended e = absurd (cc)

-- A weight that tells no worker that sleeps from one that has been notified.
module _ (weight : Worker → ℕ) (same : weight notified ≡ weight waiting) where
  pub wake_lem : (x : Worker) → weight (wake x) ≡ weight x
  unfolding wake
  wake_lem x = elim (Bool-cases (is_waiting x)) [
    | inl asleep ↦ rw asleep (same ∙ ap weight (sym (is_waiting_lem x asleep)))
    | inr awake ↦ rw awake refl
  ]

  wake_first_lem : (ws : List Worker) → tally weight (wake_first ws) ≡ tally weight ws
  unfolding wake_first
  wake_first_lem [] = refl
  wake_first_lem (x ∷ ws) = elim (Bool-cases (is_waiting x)) [
    | inl asleep ↦ rw asleep (omega (arith, same, ap weight (is_waiting_lem x asleep)))
    | inr awake ↦ rw awake (omega (arith, wake_first_lem ws))
  ]

  pub wake_one_lem : (i : ℕ) (ws : List Worker) → tally weight (wake_one i ws) ≡ tally weight ws
  unfolding wake_one
  wake_one_lem i ws = elim (Option-cases (get_elem? ws i)) [
    | inl absent ↦ rw (absent, wake_one) (wake_first_lem ws)
    | inr (x, there) ↦ elim (Bool-cases (is_waiting x)) [
      | inl asleep ↦
          rw (there, asleep, wake_one)
            (omega (
              arith,
              tally-set weight ws i x notified there,
              same,
              ap weight (is_waiting_lem x asleep),
            ))
      | inr awake ↦ rw (there, awake, wake_one) (wake_first_lem ws)
    ]
  ]

  pub wake_all_lem : (ws : List Worker) → tally weight (map wake ws) ≡ tally weight ws
  wake_all_lem [] = refl
  wake_all_lem (x ∷ ws) = omega (arith, wake_lem x, wake_all_lem ws)

  pub wake_at_lem :
      (ws : List Worker) (i : ℕ) (x : Worker)
      → get_elem? ws i ≡ some x
      → tally weight (set ws i (wake x)) ≡ tally weight ws
  wake_at_lem ws i x there = omega (arith, tally-set weight ws i x (wake x) there, wake_lem x)
