-- ===== src/WorkDiv/Clip/Halving.antt =====
-- One round of the clipping loops of include/alpaka/workdiv/WorkDivHelpers.hpp, and the rounds by fuel.
use alpaka.Base.{
  ℕ, zero, suc, ◌/◌, ◌^◌, ◌≤◌, ◌<◌, ◌≡◌, refl, ◌∙◌, inl, inr, [], ◌∷◌, some, arith, get_elem?,
  get_or, set, All, ltb, ltb→lt, if◌then◌else◌, Bool-cases,
}
use native.Mathlib.Nat.{mul-le-mul}
use native.Mathlib.Decide.{dec_lt}
use alpaka.Vec.Fold.{Vec, prod}
use alpaka.Vec.Fold.Laws.{product, total, prod_of_lt}
use alpaka.Vec.Select.{max_elem}
use alpaka.Vec.Select.Laws.{max_elem_lem}
use alpaka.MapIdx.Spec.{IsPositive}
use alpaka.WorkDiv.Clip.{halve_while}

-- Component by component at most, in one dimension.
abbrev pub IsBelow : Vec → Vec → Type 0
IsBelow [] [] = Unit
IsBelow [] (y ∷ ys) = ⊥
IsBelow (x ∷ xs) [] = ⊥
IsBelow (x ∷ xs) (y ∷ ys) = (x ≤ y) × IsBelow xs ys

pub IsBelow-refl : (v : Vec) → IsBelow v v
IsBelow-refl [] = tt
IsBelow-refl (x ∷ xs) = (omega arith, IsBelow-refl xs)

pub IsBelow-trans : (u v x : Vec) → IsBelow u v → IsBelow v x → IsBelow u x
IsBelow-trans [] [] [] h k = tt
IsBelow-trans [] [] (c ∷ x) h k = absurd k
IsBelow-trans [] (b ∷ v) x h k = absurd h
IsBelow-trans (a ∷ u) [] x h k = absurd h
IsBelow-trans (a ∷ u) (b ∷ v) [] h k = absurd k
IsBelow-trans (a ∷ u) (b ∷ v) (c ∷ x) h k = (omega arith, IsBelow-trans u v x h.1 k.1)

pub product_mono : (u v : Vec) → IsBelow u v → product u ≤ product v
product_mono [] [] h = omega arith
product_mono [] (b ∷ v) h = absurd h
product_mono (a ∷ u) [] h = absurd h
product_mono (a ∷ u) (b ∷ v) h = mul-le-mul h.0 (product_mono u v h.1)

-- What one halving does, at an index whose component is at least 2.
pub record Halved (v v' : Vec) : Type 0 where
  pub below : IsBelow v' v
  pub positive : IsPositive v'
  pub less : total v' < total v

pub halve_at :
    (v : Vec) (k a : ℕ)
    → get_elem? v k ≡ some a
    → 2 ≤ a
    → IsPositive v
    → Halved v (set v k (get_or v k 0 / 2))
halve_at [] k a e two pos = cc
halve_at (x ∷ xs) zero a e two pos =
    let x-eq : x ≡ a = cc in
    record {
      below = (omega arith, IsBelow-refl xs);
      positive = (omega arith, pos.1);
      less = omega arith;
    }
halve_at (x ∷ xs) (suc k) a e two pos =
    let ih = halve_at xs k a e two pos.1 in
    record {
      below = (omega arith, ih.below);
      positive = (pos.0, ih.positive);
      less = omega (arith, ih.less);
    }

-- The pick finds a component of at least 2 wherever the loop goes on.
abbrev pub Finds : ℕ → (Vec → ℕ) → Vec → Type 0
Finds count_max pick v =
    IsPositive v → count_max < product v → (a : ℕ) × (get_elem? v (pick v) ≡ some a) × (2 ≤ a)

-- The clipped block.
pub record Clipped (count_max : ℕ) (v r : Vec) : Type 0 where
  pub below : IsBelow r v
  pub positive : IsPositive r
  pub fits : product r ≤ count_max

pub halve_while-suc :
    (w count_max : ℕ) (pick : Vec → ℕ) (fuel : ℕ) (v : Vec)
    → halve_while w count_max pick (suc fuel) v ≡ (
        if ltb count_max (prod w v)
        then halve_while w count_max pick fuel (set v (pick v) (get_or v (pick v) 0 / 2))
        else some v)
unfolding halve_while
halve_while-suc w count_max pick fuel v = refl

module _ (w count_max : ℕ) (pick : Vec → ℕ) (wide : 0 < w) (top : Vec)
    (finds : (v : Vec) → IsBelow v top → Finds count_max pick v) where
  pub halve_while-Clipped :
      (fuel : ℕ) (v : Vec)
      → IsBelow v top
      → IsPositive v
      → product v < 2 ^ w
      → total v < fuel
      → (r : Vec) × (halve_while w count_max pick fuel v ≡ some r) × Clipped count_max v r
  halve_while-Clipped zero v under pos small enough = absurd (omega arith)
  halve_while-Clipped (suc fuel) v under pos small enough =
      elim (Bool-cases (ltb count_max (product v))) [
        | inl more ↦
            let (a, at, two) = finds v under pos (ltb→lt count_max (product v) more) in
            let h = halve_at v (pick v) a at two pos in
            let v' = set v (pick v) (get_or v (pick v) 0 / 2) in
            let (r, e, c) =
              halve_while-Clipped fuel v' (IsBelow-trans v' v top h.below under) h.positive
                (omega (arith, product_mono v' v h.below)) (omega (arith, h.less)) in
            (
              r,
              halve_while-suc w count_max pick fuel v ∙ rw (prod_of_lt w v wide small, more) e,
              record {
                below = IsBelow-trans r v' v c.below h.below;
                positive = c.positive;
                fits = c.fits;
              },
            )
        | inr done ↦ (
          v,
          halve_while-suc w count_max pick fuel v ∙ rw (prod_of_lt w v wide small, done) refl,
          record { below = IsBelow-refl v; positive = pos; fits = ground arith },
        )
      ]

pub product-le-one : (b : ℕ) (v : Vec) → b ≤ 1 → All (λ y. y ≤ b) v → product v ≤ 1
product-le-one b [] h k = omega arith
product-le-one b (x ∷ xs) h k = omega (
  arith,
  mul-le-mul {n₁ = x} {m₁ = product xs} {n₂ = 1} {m₂ = 1} (omega (arith, k.0))
      (product-le-one b xs h k.1),
)

pub max_elem-Finds : (count_max : ℕ) → 0 < count_max → (v : Vec) → Finds count_max max_elem v
max_elem-Finds count_max h [] pos more = absurd (omega arith)
max_elem-Finds count_max h (x ∷ xs) pos more =
    let (b, at, all_le) = max_elem_lem x xs in
    elim (dec_lt 1 b) [
      | yes two ↦ (b, at, two)
      | no small ↦ absurd (omega (arith, product-le-one b (x ∷ xs) (omega arith) all_le))
    ]
