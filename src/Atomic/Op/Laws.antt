-- ===== src/Atomic/Op/Laws.antt =====
-- The counters of `AtomicInc` and `AtomicDec`, include/alpaka/atomic/Op.hpp.
use native.Mathlib.Nat.{mod-eq_of_lt, add-mod_right}
use alpaka.Base.{
  ℕ, ◌+◌, ◌-◌, ◌%◌, ◌^◌, ◌≤◌, ◌<◌, ◌≡◌, refl, ap, ◌∙◌, arith, inl, inr, Bool-cases, leb, ◌==◌,
  if◌then◌else◌, wrap, wrap_of_lt,
}
use alpaka.Atomic.Op.{atomic_inc, atomic_dec}

wrap_pred : (w v : ℕ) → 0 < v → v < 2 ^ w → wrap w (v + 2 ^ w - 1) ≡ v - 1
wrap_pred w v pos fits =
    ap (λ (t : ℕ). t % 2 ^ w) (let e : v + 2 ^ w - 1 ≡ (v - 1) + 2 ^ w = omega arith in e)
    ∙ (add-mod_right (v - 1) (2 ^ w) ∙ mod-eq_of_lt (omega arith))

-- `AtomicInc` leaves a content of at most `value`, and counts through 0, …, value and around.
pub inc_new :
    (w value v : ℕ) → value < 2 ^ w → (atomic_inc w value v).1 ≡ (if leb value v then 0 else v + 1)
unfolding atomic_inc
inc_new w value v fits = elim (Bool-cases (leb value v)) [
  | inl up ↦ rw up refl
  | inr below ↦ rw below (wrap_of_lt w (ground arith))
]

pub dec_new :
    (w value v : ℕ)
    → value < 2 ^ w
    → v ≤ value
    → (atomic_dec w value v).1 ≡ (if v == 0 then value else v - 1)
unfolding atomic_dec
dec_new w value v fits le = elim (Bool-cases (v == 0)) [
  | inl z ↦ ground arith
  | inr pos ↦ ground (arith, wrap_pred w v (ground arith) (omega arith))
]

-- On a content of at most `value`, `AtomicInc` and `AtomicDec` undo each other, and both leave a content of at
-- most `value` again.
pub inc_dec :
    (w value v : ℕ)
    → value < 2 ^ w
    → v ≤ value
    → (((atomic_inc w value v).1 ≤ value) × ((atomic_dec w value v).1 ≤ value))
      × (((atomic_dec w value (atomic_inc w value v).1).1 ≡ v)
          × ((atomic_inc w value (atomic_dec w value v).1).1 ≡ v))
inc_dec w value v fits le =
    let i = inc_new w value v fits in
    let d = dec_new w value v fits le in
    let i_le : (atomic_inc w value v).1 ≤ value = ground arith in
    let d_le : (atomic_dec w value v).1 ≤ value = ground arith in
    (
      (i_le, d_le),
      (
        ground (arith, dec_new w value (atomic_inc w value v).1 fits i_le),
        ground (arith, inc_new w value (atomic_dec w value v).1 fits),
      ),
    )
