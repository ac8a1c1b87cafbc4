-- ===== src/Barrier/Predicate/Slots.antt =====
-- The two results of `BarrierThreadWithPredicate`, include/alpaka/core/BarrierThread.hpp, and the weights of
-- its threads.
use native.Mathlib.Nat.{mod-mod_of_dvd, pow-suc, dvd-mul_left}
use alpaka.Base.{
  ℕ, zero, suc, ◌%◌, ◌^◌, ◌≤◌, ◌<◌, ◌≡◌, ◌∣◌, refl, sym, subst, inl, inr, true, false, arith, ◌==◌,
  wrap, Bool-cases,
}
use alpaka.Barrier.Predicate.{
  Shared, result_at, with_result, Place, outside, entered, waiting, woken,
}
use alpaka.Barrier.Predicate.Invariant.{seen}

pub result_at-with_result : (k v : ℕ) (m : Shared) → result_at k (with_result k v m) ≡ v
unfolding result_at with_result
result_at-with_result k v m = elim (Bool-cases (k == 0)) [ inl e ↦ rw e refl | inr e ↦ rw e refl ]

pub result_at_other :
    (k j v : ℕ) (m : Shared)
    → suc j % 2 ≡ k % 2
    → result_at (j % 2) (with_result (k % 2) v m) ≡ result_at (j % 2) m
unfolding result_at with_result
result_at_other k j v m h = elim (Bool-cases (k % 2 == 0)) [
  | inl e ↦ let e' : (j % 2 == 0) ≡ false = ground arith in rw (e, e') refl
  | inr e ↦ let e' : (j % 2 == 0) ≡ true = ground arith in rw (e, e') refl
]

pub seen_le : (G : ℕ) (q : Place) (p x : ℕ) → x ≤ 1 → seen G q p x ≤ seen G q p 1
seen_le G outside p x h = omega arith
seen_le G (entered g) p x h = omega arith
seen_le G (waiting g k) p x h = ground arith
seen_le G (woken g k) p x h = ground arith

pub seen_one_le : (G : ℕ) (q : Place) (p : ℕ) → seen G q p 1 ≤ 1
seen_one_le G outside p = omega arith
seen_one_le G (entered g) p = omega arith
seen_one_le G (waiting g k) p = ground arith
seen_one_le G (woken g k) p = ground arith

pub unseen : (G : ℕ) (q : Place) (p x : ℕ) → seen G q p 1 ≡ 0 → seen G q p x ≡ 0
unseen G outside p x h = refl
unseen G (entered g) p x h = refl
unseen G (waiting g k) p x h = ground arith
unseen G (woken g k) p x h = ground arith

pub seen_whole : (G : ℕ) (q : Place) (p x : ℕ) → seen G q p 1 ≡ 1 → seen G q p x ≡ x
seen_whole G outside p x h = absurd (omega arith)
seen_whole G (entered g) p x h = absurd (omega arith)
seen_whole G (waiting g k) p x h = ground arith
seen_whole G (woken g k) p x h = ground arith

pub wrap-parity : (w G : ℕ) → 0 < w → wrap w G % 2 ≡ G % 2
wrap-parity zero G h = absurd (omega arith)
wrap-parity (suc w) G h =
    mod-mod_of_dvd 2 G (subst (λ x. 2 ∣ x) (sym (pow-suc 2 w)) (dvd-mul_left 2 (2 ^ w)))
