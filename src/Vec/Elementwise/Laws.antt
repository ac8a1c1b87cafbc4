-- ===== src/Vec/Elementwise/Laws.antt =====
-- The element-wise operators of include/alpaka/vec/Vec.hpp: equality, subtraction, minimum and maximum.
use alpaka.Base.{
  ℕ, ◌+◌, ◌-◌, ◌%◌, ◌^◌, ◌≤◌, ◌<◌, ◌≡◌, refl, ap₂, ◌↔◌, ◌∙◌, true, List, [], ◌∷◌, arith, All,
  length, zip_with, length-zip_with, sym,
}
use native.Mathlib.Nat.{mod-eq-sub-mod, mod-eq_of_lt, add-mod_right}
use native.Mathlib.Decide.{dec_lt}
use alpaka.Vec.Fold.{Vec}
use alpaka.Vec.Elementwise.{add, sub, eq, std_min, std_max, elementwise_min, elementwise_max}

-- `operator==` on vectors of one dimension decides their equality.
pub eq_iff : (p q : Vec) → length p ≡ length q → (eq p q ≡ true) ↔ (p ≡ q)
unfolding eq
eq_iff [] [] h = (λ _. refl, λ _. refl)
eq_iff [] (b ∷ q) h = absurd (omega arith)
eq_iff (a ∷ p) [] h = absurd (omega arith)
eq_iff (a ∷ p) (b ∷ q) h =
    let ih = eq_iff p q (omega arith) in
    (
      λ e. ap₂ ◌∷◌ (ground arith) (ih.0 (ground arith)),
      λ e. let t : p ≡ q = cc in ground (arith, ih.1 t),
    )

sub_add_one : (m a b : ℕ) → a < m → b < m → ((a + b) % m + m - b) % m ≡ a
sub_add_one m a b ha hb = elim (dec_lt (a + b) m) [
  | yes fits ↦
      let e : a + b + m - b ≡ a + m = omega arith in
      rw (mod-eq_of_lt fits) (rw e (add-mod_right a m ∙ mod-eq_of_lt ha))
  | no over ↦
      let small : (a + b) % m ≡ a + b - m =
        mod-eq-sub-mod (omega arith) ∙ mod-eq_of_lt (omega arith) in
      let e : a + b - m + m - b ≡ a = omega arith in rw small (rw e (mod-eq_of_lt ha))
]

-- `(p + q) - q` is `p`, also where the sum wraps.
pub sub-add :
    (w : ℕ) (p q : Vec)
    → length p ≡ length q
    → All (λ a. a < 2 ^ w) p
    → All (λ a. a < 2 ^ w) q
    → sub w (add w p q) q ≡ p
unfolding sub add
sub-add w [] q h hp hq = refl
sub-add w (a ∷ p) [] h hp hq = absurd (omega arith)
sub-add w (a ∷ p) (b ∷ q) h hp hq =
    ap₂ ◌∷◌ (sub_add_one (2 ^ w) a b hp.0 hq.0) (sub-add w p q (omega arith) hp.1 hq.1)

All-zip_min :
    (m : ℕ) (p q : Vec)
    → length q ≡ length p
    → All (λ a. m ≤ a) (zip_with std_min p q)
    → All (λ a. m ≤ a) p × All (λ a. m ≤ a) q
unfolding std_min
All-zip_min m [] [] h k = (tt, tt)
All-zip_min m [] (b ∷ q) h k = absurd (omega arith)
All-zip_min m (a ∷ p) [] h k = absurd (omega arith)
All-zip_min m (a ∷ p) (b ∷ q) h k =
    let (hp, hq) = All-zip_min m p q (omega arith) k.1 in ((ground arith, hp), (ground arith, hq))

All-zip_max :
    (m : ℕ) (p q : Vec)
    → length q ≡ length p
    → All (λ a. a ≤ m) (zip_with std_max p q)
    → All (λ a. a ≤ m) p × All (λ a. a ≤ m) q
unfolding std_max
All-zip_max m [] [] h k = (tt, tt)
All-zip_max m [] (b ∷ q) h k = absurd (omega arith)
All-zip_max m (a ∷ p) [] h k = absurd (omega arith)
All-zip_max m (a ∷ p) (b ∷ q) h k =
    let (hp, hq) = All-zip_max m p q (omega arith) k.1 in ((ground arith, hp), (ground arith, hq))

All-length_zip :
    (f : ℕ → ℕ → ℕ) (p q : Vec) (qs : List Vec)
    → length q ≡ length p
    → All (λ q'. length q' ≡ length p) qs
    → All (λ q'. length q' ≡ length (zip_with f p q)) qs
All-length_zip f p q [] h k = tt
All-length_zip f p q (r ∷ qs) h k =
    (omega (arith, length-zip_with f p q, sym h), All-length_zip f p q qs h k.1)

-- A bound from below of the element-wise minimum bounds every vector, and one from above of the
-- element-wise maximum does.
pub elementwise_min_ge :
    (m : ℕ) (p : Vec) (qs : List Vec)
    → All (λ q. length q ≡ length p) qs
    → All (λ a. m ≤ a) (elementwise_min p qs)
    → All (All (λ a. m ≤ a)) (p ∷ qs)
unfolding elementwise_min
elementwise_min_ge m p [] h k = (k, tt)
elementwise_min_ge m p (q ∷ qs) h k =
    let (z, rest) =
      elementwise_min_ge m (zip_with std_min p q) qs (All-length_zip std_min p q qs h.0 h.1) k in
    let (hp, hq) = All-zip_min m p q h.0 z in (hp, (hq, rest))

pub elementwise_max_le :
    (m : ℕ) (p : Vec) (qs : List Vec)
    → All (λ q. length q ≡ length p) qs
    → All (λ a. a ≤ m) (elementwise_max p qs)
    → All (All (λ a. a ≤ m)) (p ∷ qs)
unfolding elementwise_max
elementwise_max_le m p [] h k = (k, tt)
elementwise_max_le m p (q ∷ qs) h k =
    let (z, rest) =
      elementwise_max_le m (zip_with std_max p q) qs (All-length_zip std_max p q qs h.0 h.1) k in
    let (hp, hq) = All-zip_max m p q h.0 z in (hp, (hq, rest))
