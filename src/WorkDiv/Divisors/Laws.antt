-- ===== src/WorkDiv/Divisors/Laws.antt =====
-- The divisor searches of include/alpaka/workdiv/WorkDivHelpers.hpp against divisibility.
use native.Mathlib.Nat.{mod-one, div-add-mod, mul-div_cancel, div-one, div-le_self, mul-mod_left}
use native.Mathlib.Decide.{dec_lt}
use alpaka.Base.{
  ℕ, zero, suc, ◌+◌, ◌*◌, ◌/◌, ◌%◌, ◌≤◌, ◌<◌, ◌≡◌, refl, sym, ap, ◌∙◌, ◌⊎◌, ◌↔◌, inl, inr, List, [],
  ◌∷◌, some, arith, ◌==◌, Bool-cases, In,
}
use alpaka.Vec.Elementwise.{std_min}
use alpaka.WorkDiv.Divisors.{
  next_divisor_loop, next_divisor_lower_or_equal, set_insert, all_divisors_loop,
  all_divisors_less_or_equal,
}

-- `r` is the greatest divisor of `n` from 1 to `bound`.
pub record IsGreatestDivisor (n bound r : ℕ) : Type 0 where
  pub positive : 0 < r
  pub bounded : r ≤ bound
  pub divides : n % r ≡ 0
  pub greatest : (d : ℕ) → 0 < d → d ≤ bound → n % d ≡ 0 → d ≤ r

next_divisor_loop_lem :
    (n d : ℕ) → 0 < d → (r : ℕ) × (next_divisor_loop n d ≡ some r) × IsGreatestDivisor n d r
unfolding next_divisor_loop
next_divisor_loop_lem n zero h = absurd (omega arith)
next_divisor_loop_lem n (suc d) h = elim (Bool-cases (n % suc d == 0)) [
  | inl hit ↦ (
    suc d,
    rw hit refl,
    record {
      positive = omega arith;
      bounded = omega arith;
      divides = ground arith;
      greatest = λ c p q z. q;
    },
  )
  | inr miss ↦ elim (Bool-cases (0 == d)) [
    | inl last ↦ absurd (let e : d ≡ 0 = ground arith in ground (arith, mod-one n, e))
    | inr more ↦
        let (r, e, g) = next_divisor_loop_lem n d (ground arith) in
        (
          r,
          rw miss e,
          record {
            positive = g.positive;
            bounded = omega (arith, g.bounded);
            divides = g.divides;
            greatest = λ c p q z. g.greatest c p (ground arith) z;
          },
        )
  ]
]

-- From a positive bound that does not exceed the dividend, the loop ends at the greatest divisor.
pub next_divisor_lem :
    (dividend max_divisor : ℕ)
    → 0 < max_divisor
    → max_divisor ≤ dividend
    → (r : ℕ) × (next_divisor_lower_or_equal dividend max_divisor ≡ some r)
      × IsGreatestDivisor dividend max_divisor r
unfolding next_divisor_lower_or_equal
next_divisor_lem n d h k = let (r, e, g) = next_divisor_loop_lem n d h in (r, ground arith, g)

In-set_insert : (x y : ℕ) (ys : List ℕ) → In x (set_insert y ys) → (x ≡ y) ⊎ In x ys
unfolding set_insert
In-set_insert x y [] h = h
In-set_insert x y (z ∷ zs) h = ground (arith, In-set_insert x y zs)

In-set_insert_of : (x y : ℕ) (ys : List ℕ) → (x ≡ y) ⊎ In x ys → In x (set_insert y ys)
unfolding set_insert
In-set_insert_of x y [] h = h
In-set_insert_of x y (z ∷ zs) h = ground (arith, In-set_insert_of x y zs)

-- `i` from `lo` on, `n` of them, divides `val` with the quotient `x`.
abbrev Quotient : ℕ → ℕ → ℕ → ℕ → Type 0
Quotient val lo n x = (i : ℕ) × (lo ≤ i) × (i < lo + n) × (val % i ≡ 0) × (x ≡ val / i)

In-all_divisors_loop :
    (val n lo : ℕ) (s : List ℕ) (x : ℕ)
    → In x (all_divisors_loop val n lo s)
    → In x s ⊎ Quotient val lo n x
unfolding all_divisors_loop
In-all_divisors_loop val zero lo s x h = inl h
In-all_divisors_loop val (suc n) lo s x h = elim (Bool-cases (val % lo == 0)) [
  | inl hit ↦ elim (In-all_divisors_loop val n (lo + 1) (set_insert (val / lo) s) x (rw hit at h)) [
    | inl old ↦ elim (In-set_insert x (val / lo) s old) [
      | inl e ↦ inr (lo, omega arith, omega arith, ground arith, e)
      | inr m ↦ inl m
    ]
    | inr (i, a, b, c, d) ↦ inr (i, omega arith, omega arith, c, d)
  ]
  | inr miss ↦ elim (In-all_divisors_loop val n (lo + 1) s x (rw miss at h)) [
    | inl old ↦ inl old
    | inr (i, a, b, c, d) ↦ inr (i, omega arith, omega arith, c, d)
  ]
]

In-all_divisors_loop_of :
    (val n lo : ℕ) (s : List ℕ) (x : ℕ)
    → In x s ⊎ Quotient val lo n x
    → In x (all_divisors_loop val n lo s)
unfolding all_divisors_loop
In-all_divisors_loop_of val zero lo s x (inl h) = h
In-all_divisors_loop_of val zero lo s x (inr (i, a, b, c, d)) = absurd (omega arith)
In-all_divisors_loop_of val (suc n) lo s x (inl h) =
    In-all_divisors_loop_of val n (lo + 1) _ x
      (inl (ground (arith, In-set_insert_of x (val / lo) s (inr h))))
In-all_divisors_loop_of val (suc n) lo s x (inr (i, a, b, c, d)) = elim (dec_lt lo i) [
  | yes later ↦ In-all_divisors_loop_of val n (lo + 1) _ x (inr (i, omega arith, omega arith, c, d))
  | no first ↦
      let e : lo ≡ i = omega arith in
      let hit : val % lo ≡ 0 = ap (λ (t : ℕ). val % t) e ∙ c in
      let here : x ≡ val / lo = d ∙ ap (λ (t : ℕ). val / t) (sym e) in
      In-all_divisors_loop_of val n (lo + 1) _ x
        (inl (ground (arith, In-set_insert_of x (val / lo) s (inl here))))
]

-- The set holds the quotients of `val` by its divisors up to the maximum, and nothing else.
pub In-all_divisors_iff :
    (val max_divisor : ℕ)
    → max_divisor ≤ val
    → (s : List ℕ) × (all_divisors_less_or_equal val max_divisor ≡ some s)
      × ((x : ℕ) → In x s ↔ ((i : ℕ) × (0 < i) × (i ≤ max_divisor) × (val % i ≡ 0) × (x ≡ val / i)))
unfolding all_divisors_less_or_equal std_min
In-all_divisors_iff val m h = (
  all_divisors_loop val m 1 [],
  ground arith,
  λ x. (
    λ k. elim (In-all_divisors_loop val m 1 [] x k) [
      | inl no_element ↦ absurd no_element
      | inr (i, a, b, c, d) ↦ (i, a, omega arith, c, d)
    ],
    λ (i, a, b, c, d). In-all_divisors_loop_of val m 1 [] x (inr (i, a, omega arith, c, d)),
  ),
)

-- A divisor and its quotient change places.
cofactor :
    (val i : ℕ)
    → 0 < val
    → 0 < i
    → val % i ≡ 0
    → (0 < val / i) × (val % (val / i) ≡ 0) × (val / (val / i) ≡ i) × (val / i ≤ val)
cofactor val i pos hi z =
    let split : i * (val / i) ≡ val = omega (arith, div-add-mod val i) in
    let q_pos : 0 < val / i = grind arith in
    (
      q_pos,
      ap (λ (t : ℕ). t % (val / i)) (sym split) ∙ mul-mod_left i (val / i),
      ap (λ (t : ℕ). t / (val / i)) (sym split) ∙ mul-div_cancel i q_pos,
      div-le_self val i,
    )

-- The whole range of divisors: the quotients are then all the divisors.
pub In-all_divisors_full :
    (val : ℕ)
    → 0 < val
    → (s : List ℕ) × (all_divisors_less_or_equal val val ≡ some s)
      × ((x : ℕ) → In x s ↔ ((0 < x) × (val % x ≡ 0)))
In-all_divisors_full val pos =
    let (s, e, iff) = In-all_divisors_iff val val (omega arith) in
    (
      s,
      e,
      λ x. (
        λ k.
            let (i, a, b, c, d) = (iff x).0 k in
            let (p, q, r, t) = cofactor val i pos a c in (rw d p, rw d q),
        λ (a, c). let (p, q, r, t) = cofactor val x pos a c in (iff x).1 (val / x, p, t, q, sym r),
      ),
    )

-- Below the value the maximum is not obeyed: the value itself, the quotient by 1, is in the set.
pub all_divisors_exceed :
    (val max_divisor : ℕ)
    → 0 < max_divisor
    → max_divisor < val
    → (s : List ℕ) × (all_divisors_less_or_equal val max_divisor ≡ some s) × In val s
all_divisors_exceed val m h k =
    let (s, e, iff) = In-all_divisors_iff val m (omega arith) in
    (s, e, (iff val).1 (1, omega arith, omega arith, mod-one val, sym (div-one val)))
