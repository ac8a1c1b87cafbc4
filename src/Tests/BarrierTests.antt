-- ===== src/Tests/BarrierTests.antt =====
-- Runs of the barrier.
use alpaka.Base.{ℕ, ◌≤◌, ◌≡◌, ◌≢◌, refl, ap, zero, suc, List, [], ◌∷◌, some, arith, get_elem?}
use alpaka.Barrier.{Thread, outside, entered, spinning, start, run, step}
use alpaka.Barrier.Safety.{arrivals, passed-le-arrivals, step-moves}

-- Two threads; the second one arrives last and has left, the first one has not.
abbrev order : List ℕ
order = 0 ∷ 0 ∷ 1 ∷ 1 ∷ 1 ∷ 1 ∷ []

after_order :
    (run 8 2 order (start 8 2)).threads
    ≡ record { place = spinning 0; passed = 0 } ∷ record { place = outside; passed = 1 } ∷ []
unfolding run
after_order = refl

passed-le-arrivals_example : 1 ≤ arrivals (spinning 0) 0
passed-le-arrivals_example =
    passed-le-arrivals 8 2 (omega arith) (omega arith) order 1 0
      (record { place = outside; passed = 1 }) (record { place = spinning 0; passed = 0 })
      (unfold run in refl) (unfold run in refl)

-- Both threads have called `wait`.
abbrev both_in : List ℕ
both_in = 0 ∷ 1 ∷ []

in_wait :
    (i : ℕ) (t : Thread)
    → get_elem? (run 8 2 both_in (start 8 2)).threads i ≡ some t
    → t.place ≢ outside
unfolding run
in_wait zero t h =
    let e : record { place = entered 0; passed = 0 } ≡ t = cc in
    let f : entered 0 ≡ t.place = ap (λ (x : Thread). x.place) e in λ g. cc
in_wait (suc zero) t h =
    let e : record { place = entered 0; passed = 0 } ≡ t = cc in
    let f : entered 0 ≡ t.place = ap (λ (x : Thread). x.place) e in λ g. cc
in_wait (suc (suc i)) t h = absurd (cc)

step-moves_example :
    (i : ℕ) × (step 8 2 i (run 8 2 both_in (start 8 2)) ≢ run 8 2 both_in (start 8 2))
step-moves_example = step-moves 8 2 (omega arith) (omega arith) both_in in_wait
