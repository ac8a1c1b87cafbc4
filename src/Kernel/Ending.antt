-- ===== src/Kernel/Ending.antt =====
-- How many accesses the iterations have left, in any order of their turns.
use alpaka.Base.{
  ℕ, zero, suc, ◌+◌, ◌-◌, ◌≤◌, ◌≡◌, refl, ◌∙◌, inl, inr, true, false, List, [], ◌∷◌, arith, length,
  ◌==◌, if◌then◌else◌, Bool-cases,
}
use alpaka.Kernel.{Iteration, run_accesses, turn, turns, is_done}
use alpaka.Kernel.Interleaving.{in_turn}

-- The turns of one iteration in a schedule.
abbrev pub turn_count : ℕ → List ℕ → ℕ
turn_count j [] = 0
turn_count j (i ∷ schedule) = (if i == j then 1 else 0) + turn_count j schedule

module _ {M S : Type 0} where
  abbrev pub pending : ℕ → List (Iteration M S) → ℕ
  pending i [] = 0
  pending (suc i) (it ∷ its) = pending i its
  pending zero (it ∷ its) = length it.left

  abbrev pub Bounded : List (Iteration M S) → List ℕ → Type 0
  Bounded its schedule = (j : ℕ) → pending j its ≤ turn_count j schedule

  pending-turn_head :
      (m : M) (fs : List (M × S → M × S)) (its : List (Iteration M S)) (s : S)
      → (pending zero (turn zero (record { shared = m; left = fs } ∷ its) s).0 ≡ length fs - 1)
        × ((j : ℕ)
            → pending (suc j) (turn zero (record { shared = m; left = fs } ∷ its) s).0
              ≡ pending j its)
  unfolding turn
  pending-turn_head m [] its s = (omega arith, λ j. refl)
  pending-turn_head m (f ∷ fs) its s = (omega arith, λ j. refl)

  pending-turn_same :
      (i : ℕ) (its : List (Iteration M S)) (s : S) → pending i (turn i its s).0 ≡ pending i its - 1
  unfolding turn
  pending-turn_same i [] s = omega arith
  pending-turn_same (suc i) (it ∷ its) s = pending-turn_same i its s
  pending-turn_same zero (it ∷ its) s = (pending-turn_head it.shared it.left its s).0

  pending-turn_other :
      (i j : ℕ) (its : List (Iteration M S)) (s : S)
      → (i == j) ≡ false
      → pending j (turn i its s).0 ≡ pending j its
  unfolding turn
  pending-turn_other i j [] s h = refl
  pending-turn_other (suc i) (suc j) (it ∷ its) s h = pending-turn_other i j its s (ground arith)
  pending-turn_other (suc i) zero (it ∷ its) s h = refl
  pending-turn_other zero (suc j) (it ∷ its) s h = (pending-turn_head it.shared it.left its s).1 j
  pending-turn_other zero zero (it ∷ its) s h = absurd (ground arith)

  Bounded-turn :
      (i : ℕ) (schedule : List ℕ) (its : List (Iteration M S)) (s : S)
      → Bounded its (i ∷ schedule)
      → Bounded (turn i its s).0 schedule
  Bounded-turn i schedule its s h j = elim (Bool-cases (i == j)) [
    | inl same ↦
        let e : i ≡ j = ground arith in ground (arith, h j, same, e, pending-turn_same i its s)
    | inr other ↦ ground (arith, h j, other, pending-turn_other i j its s other)
  ]

  is_done_head :
      (m : M) (fs : List (M × S → M × S)) (its : List (Iteration M S))
      → length fs ≤ 0
      → is_done its ≡ true
      → is_done (record { shared = m; left = fs } ∷ its) ≡ true
  unfolding is_done
  is_done_head m [] its h k = k
  is_done_head m (f ∷ fs) its h k = absurd (omega arith)

  none_pending : (its : List (Iteration M S)) → Bounded its [] → is_done its ≡ true
  unfolding is_done
  none_pending [] h = refl
  none_pending (it ∷ its) h =
      is_done_head it.shared it.left its (h 0) (none_pending its (λ j. h (suc j)))

  pub turns-is_done :
      (schedule : List ℕ) (its : List (Iteration M S)) (s : S)
      → Bounded its schedule
      → is_done (turns schedule its s).0 ≡ true
  unfolding turns
  turns-is_done [] its s h = none_pending its h
  turns-is_done (i ∷ schedule) its s h =
      turns-is_done schedule (turn i its s).0 (turn i its s).1 (Bounded-turn i schedule its s h)

  in_turn-done_head :
      (m : M) (fs : List (M × S → M × S)) (its : List (Iteration M S)) (s : S)
      → is_done (record { shared = m; left = fs } ∷ its) ≡ true
      → (is_done its ≡ true) × (in_turn (record { shared = m; left = fs } ∷ its) s ≡ in_turn its s)
  unfolding is_done run_accesses
  in_turn-done_head m [] its s h = (h, refl)
  in_turn-done_head m (f ∷ fs) its s h = absurd (cc)

  pub in_turn-done : (its : List (Iteration M S)) (s : S) → is_done its ≡ true → in_turn its s ≡ s
  in_turn-done [] s h = refl
  in_turn-done (it ∷ its) s h =
      let (k, e) = in_turn-done_head it.shared it.left its s h in e ∙ in_turn-done its s k
