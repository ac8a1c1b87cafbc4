-- ===== src/Tests/AtomicTests.antt =====
-- Runs of the atomic operations.
use alpaka.Base.{◌≤◌, ◌-◌, ℕ, ◌<◌, ◌≡◌, ◌↔◌, ◌⊎◌, refl, true, false, List, [], ◌∷◌, some, arith}
use alpaka.Atomic.Op.{atomic_min, atomic_max, atomic_exch, atomic_inc, atomic_dec, atomic_cas}
use alpaka.Atomic.Ref.{Attempt, Exchange, ref_min, ref_max, ref_exch, ref_cas, ref_inc, ref_dec}
use alpaka.Atomic.Ref.Laws.{quiet, TakesEffect, loops-TakesEffect, ref_dec_differs}

-- Another thread writes 9, and the first exchange on 7 fails without a reason.
abbrev attempts : List Attempt
attempts = quiet (record { content = 9; fails = false } ∷ []) 7 true []

loops-TakesEffect_example :
    TakesEffect (atomic_min 5) (ref_min 5 attempts 4)
    × TakesEffect (atomic_max 5) (ref_max 5 attempts 4)
    × TakesEffect (atomic_exch 5) (ref_exch 5 attempts 4)
    × TakesEffect (atomic_inc 8 5) (ref_inc 8 5 attempts 4)
    × TakesEffect (atomic_cas 7 5) (ref_cas 7 5 attempts 4)
loops-TakesEffect_example =
    loops-TakesEffect 8 5 7 (record { content = 9; fails = false } ∷ []) 7 4 true []

ref_dec_differs_example :
    (x : Exchange) × (ref_dec 8 5 attempts 4 ≡ some x)
    × (x.returned ≡ x.met)
    × (((5 ≤ x.met) × (x.written ≡ 0))
        ⊎ (((x.met ≡ 0) × (0 < 5) × (x.written ≡ 255))
            ⊎ ((0 < x.met) × (x.met < 5) × (x.written ≡ x.met - 1))))
    × ((x.written ≡ (atomic_dec 8 5 x.met).1) ↔ (
        ((0 < x.met) × (x.met < 5))
        ⊎ ((◌≡◌ {A = ℕ} 5 0)
            ⊎ (((x.met ≡ 0) × (◌≡◌ {A = ℕ} 6 256)) ⊎ ((x.met ≡ 1) × (◌≡◌ {A = ℕ} 5 1))))))
ref_dec_differs_example =
    ref_dec_differs 8 5 (record { content = 9; fails = false } ∷ []) 7 4 true [] (omega arith)

-- At the content `value` the operation counts down, the loop resets.
dec_of_five : (atomic_dec 8 5 5).1 ≡ 4
unfolding atomic_dec
dec_of_five = refl

ref_dec_of_five :
    ref_dec 8 5 (quiet [] 5 false []) 5 ≡ some (record { returned = 5; met = 5; written = 0 })
unfolding ref_dec
ref_dec_of_five = refl
