-- ===== src/Atomic/Ref/Laws.antt =====
-- The loops of include/alpaka/atomic/AtomicAtomicRef.hpp against the operations of Op.hpp.
use native.Mathlib.Decide.{dec_lt}
use alpaka.Base.{
  ◌≤◌, ℕ, zero, suc, ◌+◌, ◌-◌, ◌%◌, ◌^◌, ◌<◌, ◌≡◌, ◌↔◌, ◌⊎◌, refl, sym, ap, ◌∙◌, arith, true, false,
  not, inl, inr, Bool, Bool-cases, leb, ◌==◌, ◌&&◌, if◌then◌else◌, wrap, List, [], ◌∷◌, ◌++◌,
  Option, some,
}
use native.Mathlib.Nat.{mod-eq_of_lt, add-mod_right}
use alpaka.Vec.Elementwise.{std_min, std_max}
use alpaka.Atomic.Op.{atomic_min, atomic_max, atomic_exch, atomic_inc, atomic_dec, atomic_cas}
use alpaka.Atomic.Ref.{
  Attempt, Exchange, exchange_loop, ref_min, ref_max, ref_exch, ref_cas, ref_inc, ref_dec,
  dec_result,
}

-- One content met twice in a row, without a needless failure the second time.
abbrev pub quiet : List Attempt → ℕ → Bool → List Attempt → List Attempt
quiet before v fails after =
    before ++ record { content = v; fails = fails } ∷ record { content = v; fails = false } ∷ after

-- The exchange took effect at once: at the content it met it did what the operation does.
abbrev pub TakesEffect : (ℕ → ℕ × ℕ) → Option Exchange → Type 0
TakesEffect op r =
    (x : Exchange) × (r ≡ some x) × (x.returned ≡ (op x.met).0) × (x.written ≡ (op x.met).1)

module _ (compute : ℕ → ℕ) where
  abbrev Done : Option Exchange → Type 0
  Done r = (x : Exchange) × (r ≡ some x) × (x.returned ≡ x.met) × (x.written ≡ compute x.met)

  loop-second :
      (v old : ℕ) (fails : Bool) (after : List Attempt)
      → Done (exchange_loop compute (quiet [] v fails after) old)
  unfolding exchange_loop
  loop-second v old fails after = elim (Bool-cases (not fails && (v == old))) [
    | inl hit ↦
        let e : v ≡ old = ground arith in
        rw hit (
          record { returned = old; met = v; written = compute old },
          refl,
          sym e,
          ap compute (sym e),
        )
    | inr miss ↦
        let e : (v == v) ≡ true = ground arith in
        rw (miss, e) (record { returned = v; met = v; written = compute v }, refl, refl, refl)
  ]

  loop-Done :
      (before : List Attempt) (v old : ℕ) (fails : Bool) (after : List Attempt)
      → Done (exchange_loop compute (quiet before v fails after) old)
  unfolding exchange_loop
  loop-Done [] v old fails after = loop-second v old fails after
  loop-Done (a ∷ before) v old fails after =
      let rest = loop-Done before v a.content fails after in
      elim (Bool-cases (not a.fails && (a.content == old))) [
        | inl hit ↦
            let e : a.content ≡ old = ground arith in
            rw (hit, exchange_loop)
              (
                record { returned = old; met = a.content; written = compute old },
                refl,
                sym e,
                ap compute (sym e),
              )
        | inr miss ↦ rw (miss, exchange_loop) rest
      ]

wrap_less : (w v : ℕ) → v < 2 ^ w → wrap w (v + 2 ^ w - 1) ≡ (if v == 0 then 2 ^ w - 1 else v - 1)
wrap_less w zero small =
    let e : 0 + 2 ^ w - 1 ≡ 2 ^ w - 1 = omega arith in
    ap (λ (t : ℕ). t % 2 ^ w) e ∙ mod-eq_of_lt (omega arith)
wrap_less w (suc v) small =
    ap (λ (t : ℕ). t % 2 ^ w) (let e : suc v + 2 ^ w - 1 ≡ v + 2 ^ w = omega arith in e)
    ∙ (add-mod_right v (2 ^ w) ∙ (mod-eq_of_lt (omega arith) ∙ ground arith))

dec_differs :
    (w value v : ℕ)
    → value < 2 ^ w
    → (dec_result w value v ≡ (atomic_dec w value v).1) ↔ (
        ((0 < v) × (v < value))
        ⊎ ((value ≡ 0) ⊎ (((v ≡ 0) × (value + 1 ≡ 2 ^ w)) ⊎ ((v ≡ 1) × (value ≡ 1)))))
unfolding dec_result atomic_dec
dec_differs w value v fits = elim (dec_lt v (2 ^ w)) [
  | yes small ↦ (λ h. ground (arith, wrap_less w v small), λ h. ground (arith, wrap_less w v small))
  | no large ↦ (λ h. ground arith, λ h. ground arith)
]

-- What the loop writes, in three cases.
dec_result-cases :
    (w value v : ℕ)
    → value < 2 ^ w
    → ((value ≤ v) × (dec_result w value v ≡ 0))
      ⊎ (((v ≡ 0) × (0 < value) × (dec_result w value v ≡ 2 ^ w - 1))
          ⊎ ((0 < v) × (v < value) × (dec_result w value v ≡ v - 1)))
unfolding dec_result
dec_result-cases w value v fits = elim (dec_lt v value) [
  | yes below ↦ ground (arith, wrap_less w v (omega (arith, below, fits)))
  | no above ↦ ground arith
]

-- Whatever the attempts before, a loop ends where one content is met twice in a row and the second exchange
-- does not fail without a reason. Then the loops for the minimum, the maximum, the exchange, the increment and
-- compare-and-swap have taken effect at once: they return the content that they replaced, and have written what
-- the operation writes.
pub loops-TakesEffect :
    (w value compare_value : ℕ) (before : List Attempt) (v old : ℕ) (fails : Bool)
    (after : List Attempt)
    → TakesEffect (atomic_min value) (ref_min value (quiet before v fails after) old)
      × TakesEffect (atomic_max value) (ref_max value (quiet before v fails after) old)
      × TakesEffect (atomic_exch value) (ref_exch value (quiet before v fails after) old)
      × TakesEffect (atomic_inc w value) (ref_inc w value (quiet before v fails after) old)
      × TakesEffect
          (atomic_cas compare_value value)
          (ref_cas compare_value value (quiet before v fails after) old)
unfolding ref_min ref_max ref_exch ref_inc ref_cas atomic_min atomic_max atomic_exch atomic_inc
    atomic_cas
loops-TakesEffect w value compare_value before v old fails after = (
  loop-Done (λ o. std_min o value) before v old fails after,
  loop-Done (λ o. std_max o value) before v old fails after,
  loop-Done (λ o. value) before v old fails after,
  loop-Done (λ o. if leb value o then 0 else wrap w (o + 1)) before v old fails after,
  loop-Done (λ o. if o == compare_value then value else o) before v old fails after,
)

-- For a `value` below 2 ^ w, the loop for the decrement ends, where one content is met twice in a row and the second
-- exchange does not fail without a reason, and takes effect at once. At the content it meets it writes 0 where the
-- content is at least `value`, else 2 ^ w - 1 where the content is 0, else the content less 1. This is what
-- `AtomicDec` writes exactly where the content lies strictly between 0 and `value`, or `value` is 0, or the content
-- is 0 and `value` is 2 ^ w - 1, or both are 1.
pub ref_dec_differs :
    (w value : ℕ) (before : List Attempt) (v old : ℕ) (fails : Bool) (after : List Attempt)
    → value < 2 ^ w
    → (x : Exchange) × (ref_dec w value (quiet before v fails after) old ≡ some x)
      × (x.returned ≡ x.met)
      × (((value ≤ x.met) × (x.written ≡ 0))
          ⊎ (((x.met ≡ 0) × (0 < value) × (x.written ≡ 2 ^ w - 1))
              ⊎ ((0 < x.met) × (x.met < value) × (x.written ≡ x.met - 1))))
      × ((x.written ≡ (atomic_dec w value x.met).1) ↔ (
          ((0 < x.met) × (x.met < value))
          ⊎ ((value ≡ 0) ⊎ (((x.met ≡ 0) × (value + 1 ≡ 2 ^ w)) ⊎ ((x.met ≡ 1) × (value ≡ 1))))))
unfolding ref_dec
ref_dec_differs w value before v old fails after fits =
    let (x, e, r, wr) = loop-Done (dec_result w value) before v old fails after in
    (x, e, r, rw wr (dec_result-cases w value x.met fits), rw wr (dec_differs w value x.met fits))
