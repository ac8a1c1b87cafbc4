-- ===== src/Kernel/Interleaving.antt =====
-- Accesses of several iterations in any order, against one iteration after the other.
use alpaka.Base.{ℕ, zero, suc, ◌≡◌, refl, sym, ap, ap₂, ◌∙◌, List, [], ◌∷◌, All}
use alpaka.Kernel.{Iteration, run_accesses, turn, turns}

module _ {M S : Type 0} where
  -- Two accesses of different iterations, with shared variables of their own, do the same in both orders.
  abbrev pub Commute : (M × S → M × S) → (M × S → M × S) → Type 0
  Commute g f =
      (m n : M) (s : S)
      → ((f (m, (g (n, s)).1)).0 ≡ (f (m, s)).0)
        × ((g (n, (f (m, s)).1)).0 ≡ (g (n, s)).0)
        × ((f (m, (g (n, s)).1)).1 ≡ (g (n, (f (m, s)).1)).1)

  abbrev pub Separate : List (M × S → M × S) → List (M × S → M × S) → Type 0
  Separate gs fs = All (λ g. All (λ f. Commute g f) fs) gs

  abbrev pub Apart : List (Iteration M S) → Type 0
  Apart [] = Unit
  Apart (it ∷ its) = All (λ other. Separate it.left other.left) its × Apart its

  -- What an iteration leaves when it runs to its end, and what all do, one after the other.
  abbrev pub run_alone : Iteration M S → S → S
  run_alone it s = (run_accesses it.left (it.shared, s)).1

  abbrev pub in_turn : List (Iteration M S) → S → S
  in_turn [] s = s
  in_turn (it ∷ its) s = in_turn its (run_alone it s)

  access-after :
      (gs : List (M × S → M × S)) (f : M × S → M × S) (m n : M) (s : S)
      → All (λ g. Commute g f) gs
      → ((f (m, (run_accesses gs (n, s)).1)).0 ≡ (f (m, s)).0)
        × ((f (m, (run_accesses gs (n, s)).1)).1 ≡ (run_accesses gs (n, (f (m, s)).1)).1)
  unfolding run_accesses
  access-after [] f m n s h = (refl, refl)
  access-after (g ∷ gs) f m n s h =
      let (same_m, same_n, same) = h.0 m n s in
      let (rec_m, rec) = access-after gs f m (g (n, s)).0 (g (n, s)).1 h.1 in
      (rec_m ∙ same_m, rec ∙ ap₂ (λ a b. (run_accesses gs (a, b)).1) (sym same_n) same)

  Separate-right :
      (gs : List (M × S → M × S)) (f : M × S → M × S) (fs : List (M × S → M × S))
      → Separate gs (f ∷ fs)
      → All (λ g. Commute g f) gs × Separate gs fs
  Separate-right [] f fs h = (tt, tt)
  Separate-right (g ∷ gs) f fs h =
      let (now, later) = Separate-right gs f fs h.1 in ((h.0.0, now), (h.0.1, later))

  turn-run_alone_head :
      (it : Iteration M S) (m : M) (fs : List (M × S → M × S)) (its : List (Iteration M S)) (s : S)
      → Separate it.left fs
      → (let its' : List (Iteration M S) = record { shared = m; left = fs } ∷ its in
          ((turn zero its' (run_alone it s)).0 ≡ (turn zero its' s).0)
          × ((turn zero its' (run_alone it s)).1 ≡ run_alone it (turn zero its' s).1))
  unfolding turn
  turn-run_alone_head it m [] its s h = (refl, refl)
  turn-run_alone_head it m (f ∷ fs) its s h =
      let (e, k) = access-after it.left f m it.shared s (Separate-right it.left f fs h).0 in
      (ap (λ n. let i : Iteration M S = record { shared = n; left = fs } in i ∷ its) e, k)

  turn-run_alone :
      (i : ℕ) (its : List (Iteration M S)) (it : Iteration M S) (s : S)
      → All (λ other. Separate it.left other.left) its
      → ((turn i its (run_alone it s)).0 ≡ (turn i its s).0)
        × ((turn i its (run_alone it s)).1 ≡ run_alone it (turn i its s).1)
  unfolding turn
  turn-run_alone i [] it s h = (refl, refl)
  turn-run_alone (suc i) (other ∷ its) it s h =
      let (e, k) = turn-run_alone i its it s h.1 in (ap (λ q. other ∷ q) e, k)
  turn-run_alone zero (other ∷ its) it s h =
      turn-run_alone_head it other.shared other.left its s h.0

  in_turn-turn_head :
      (m : M) (fs : List (M × S → M × S)) (its : List (Iteration M S)) (s : S)
      → (let (after, t) = turn zero (record { shared = m; left = fs } ∷ its) s in
          in_turn after t ≡ in_turn (record { shared = m; left = fs } ∷ its) s)
  unfolding turn run_accesses
  in_turn-turn_head m [] its s = refl
  in_turn-turn_head m (f ∷ fs) its s = refl

  -- An access in any order leaves what all do together.
  in_turn-turn :
      (i : ℕ) (its : List (Iteration M S)) (s : S)
      → Apart its
      → in_turn (turn i its s).0 (turn i its s).1 ≡ in_turn its s
  unfolding turn
  in_turn-turn i [] s h = refl
  in_turn-turn (suc i) (it ∷ its) s h =
      let (e, k) = turn-run_alone i its it s h.0 in
      ap₂ in_turn (sym e) (sym k) ∙ in_turn-turn i its (run_alone it s) h.1
  in_turn-turn zero (it ∷ its) s h = in_turn-turn_head it.shared it.left its s

  -- A property of the accesses that are left, when one of them has been made.
  module _ (P : List (M × S → M × S) → Type 0)
      (later : (f : M × S → M × S) (fs : List (M × S → M × S)) → P (f ∷ fs) → P fs) where
    All-turn_head :
        (m : M) (fs : List (M × S → M × S)) (its : List (Iteration M S)) (s : S)
        → P fs
        → All (λ it. P it.left) its
        → All (λ it. P it.left) (turn zero (record { shared = m; left = fs } ∷ its) s).0
    unfolding turn
    All-turn_head m [] its s h k = (h, k)
    All-turn_head m (f ∷ fs) its s h k = (later f fs h, k)

    All-turn :
        (i : ℕ) (its : List (Iteration M S)) (s : S)
        → All (λ it. P it.left) its
        → All (λ it. P it.left) (turn i its s).0
    unfolding turn
    All-turn i [] s h = tt
    All-turn (suc i) (it ∷ its) s h = (h.0, All-turn i its s h.1)
    All-turn zero (it ∷ its) s h = All-turn_head it.shared it.left its s h.0 h.1

  Separate-left :
      (f : M × S → M × S) (fs : List (M × S → M × S)) (its : List (Iteration M S))
      → All (λ other. Separate (f ∷ fs) other.left) its
      → All (λ other. Separate fs other.left) its
  Separate-left f fs [] h = tt
  Separate-left f fs (it ∷ its) h = (h.0.1, Separate-left f fs its h.1)

  Apart-turn_head :
      (m : M) (fs : List (M × S → M × S)) (its : List (Iteration M S)) (s : S)
      → All (λ other. Separate fs other.left) its
      → Apart its
      → Apart (turn zero (record { shared = m; left = fs } ∷ its) s).0
  unfolding turn
  Apart-turn_head m [] its s h k = (h, k)
  Apart-turn_head m (f ∷ fs) its s h k = (Separate-left f fs its h, k)

  Apart-turn : (i : ℕ) (its : List (Iteration M S)) (s : S) → Apart its → Apart (turn i its s).0
  unfolding turn
  Apart-turn i [] s h = tt
  Apart-turn (suc i) (it ∷ its) s h = (
    All-turn (Separate it.left) (λ f fs k. (Separate-right it.left f fs k).1) i its s h.0,
    Apart-turn i its s h.1,
  )
  Apart-turn zero (it ∷ its) s h = Apart-turn_head it.shared it.left its s h.0 h.1

  pub in_turn-turns :
      (schedule : List ℕ) (its : List (Iteration M S)) (s : S)
      → Apart its
      → in_turn (turns schedule its s).0 (turns schedule its s).1 ≡ in_turn its s
  unfolding turns
  in_turn-turns [] its s h = refl
  in_turn-turns (i ∷ schedule) its s h =
      in_turn-turns schedule (turn i its s).0 (turn i its s).1 (Apart-turn i its s h)
      ∙ in_turn-turn i its s h
