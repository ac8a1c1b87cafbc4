-- ===== src/WorkDiv/Subdivide/Steps.antt =====
-- The steps of `subDivideGridElems`, include/alpaka/workdiv/WorkDivHelpers.hpp.
use native.Mathlib.Nat.{
  mod-lt, mul-le-mul_left, mul-add-div, div-eq_of_lt, mul_comm, div-add-mod, div-lt_iff_lt-mul,
  le-div_iff_mul-le,
}
use alpaka.Base.{
  ℕ, suc, ◌+◌, ◌-◌, ◌*◌, ◌/◌, ◌%◌, ◌^◌, ◌≤◌, ◌<◌, ◌≡◌, refl, ap, ap₂, ◌∙◌, true, [], ◌∷◌, arith,
  length, zip_with, lt→ltb, le→leb, All,
}
use alpaka.Vec.Fold.{Vec}
use alpaka.Vec.Elementwise.{std_min}
use alpaka.MapIdx.Spec.{IsPositive}
use alpaka.WorkDiv.Types.{AccDevProps}
use alpaka.WorkDiv.Valid.{extents_at_least_one}
use alpaka.WorkDiv.Divisors.Laws.{next_divisor_lem}
use alpaka.WorkDiv.Clip.Halving.{IsBelow}
use alpaka.WorkDiv.Subdivide.{
  Doubles, done, extents_asserted, inputs_asserted, ceil_extent, next_divisors,
}

-- The quotient rounded up.
abbrev pub ceil_div : ℕ → ℕ → ℕ
ceil_div a b = (a + b - 1) / b

-- Doubles hold integers below 2 ^ 53 exactly, and the rounded quotient of two of them has the ceiling of
-- the exact one.
abbrev pub IsExact : Doubles → Type 0
IsExact fp = (a b : ℕ) → a < 2 ^ 53 → 0 < b → b < 2 ^ 53 → fp.ceil_quotient a b ≡ ceil_div a b

-- Component by component a divisor.
abbrev pub Divides : Vec → Vec → Type 0
Divides [] [] = Unit
Divides [] (y ∷ ys) = ⊥
Divides (x ∷ xs) [] = ⊥
Divides (x ∷ xs) (y ∷ ys) = (y % x ≡ 0) × Divides xs ys

abbrev pub IsSmall : Vec → Type 0
IsSmall = All (λ x. x < 2 ^ 53)

pub IsSmall-below : (u v : Vec) → IsBelow u v → IsSmall v → IsSmall u
IsSmall-below [] [] h k = tt
IsSmall-below [] (b ∷ v) h k = absurd h
IsSmall-below (a ∷ u) [] h k = absurd h
IsSmall-below (a ∷ u) (b ∷ v) h k = (omega (arith, h.0, k.0), IsSmall-below u v h.1 k.1)

pub length-below : (u v : Vec) → IsBelow u v → length u ≡ length v
length-below [] [] h = refl
length-below [] (b ∷ v) h = absurd h
length-below (a ∷ u) [] h = absurd h
length-below (a ∷ u) (b ∷ v) h = ap suc (length-below u v h.1)

pub ceil_extent-eq :
    (fp : Doubles) (u v : Vec)
    → IsExact fp
    → length u ≡ length v
    → IsPositive v
    → IsSmall u
    → IsSmall v
    → ceil_extent fp u v ≡ done (zip_with ceil_div u v)
unfolding ceil_extent
ceil_extent-eq fp [] v exact e pos su sv = refl
ceil_extent-eq fp (a ∷ u) [] exact e pos su sv = absurd (omega arith)
ceil_extent-eq fp (a ∷ u) (b ∷ v) exact e pos su sv =
    rw
      (
        lt→ltb 0 b pos.0,
        ceil_extent-eq fp u v exact (omega arith) pos.1 su.1 sv.1,
        exact a b su.0 pos.0 sv.0,
      )
      refl

-- The component-wise minimum lies below both, and is positive if both are.
pub min-IsBelow_left : (u v : Vec) → length u ≡ length v → IsBelow (zip_with std_min u v) u
unfolding std_min
min-IsBelow_left [] v e = tt
min-IsBelow_left (a ∷ u) [] e = absurd (omega arith)
min-IsBelow_left (a ∷ u) (b ∷ v) e = (ground arith, min-IsBelow_left u v (omega arith))

pub min-IsBelow_right : (u v : Vec) → length u ≡ length v → IsBelow (zip_with std_min u v) v
unfolding std_min
min-IsBelow_right [] [] e = tt
min-IsBelow_right [] (b ∷ v) e = absurd (omega arith)
min-IsBelow_right (a ∷ u) [] e = absurd (omega arith)
min-IsBelow_right (a ∷ u) (b ∷ v) e = (ground arith, min-IsBelow_right u v (omega arith))

pub IsPositive-min : (u v : Vec) → IsPositive u → IsPositive v → IsPositive (zip_with std_min u v)
unfolding std_min
IsPositive-min [] v p q = tt
IsPositive-min (a ∷ u) [] p q = tt
IsPositive-min (a ∷ u) (b ∷ v) p q = (ground arith, IsPositive-min u v p.1 q.1)

ceil_div-pos : (a b : ℕ) → 0 < a → 0 < b → 0 < ceil_div a b
ceil_div-pos a b p q = (le-div_iff_mul-le q).1 (omega arith)

ceil_div-le : (a b : ℕ) → 0 < b → ceil_div a b ≤ a
ceil_div-le a b q =
    let below : ceil_div a b < a + 1 =
      (div-lt_iff_lt-mul q).1 (omega (arith, mul-le-mul_left {m = 1} {n = b} a q)) in
    omega arith

pub IsPositive-ceil : (u v : Vec) → IsPositive u → IsPositive v → IsPositive (zip_with ceil_div u v)
IsPositive-ceil [] v p q = tt
IsPositive-ceil (a ∷ u) [] p q = tt
IsPositive-ceil (a ∷ u) (b ∷ v) p q = (ceil_div-pos a b p.0 q.0, IsPositive-ceil u v p.1 q.1)

pub ceil-IsBelow :
    (u v : Vec) → length u ≡ length v → IsPositive v → IsBelow (zip_with ceil_div u v) u
ceil-IsBelow [] v e q = tt
ceil-IsBelow (a ∷ u) [] e q = absurd (omega arith)
ceil-IsBelow (a ∷ u) (b ∷ v) e q = (ceil_div-le a b q.0, ceil-IsBelow u v (omega arith) q.1)

-- A quotient rounded up covers the dividend, and is exact for a divisor.
ceil_div-mul-ge : (a b : ℕ) → 0 < b → a ≤ ceil_div a b * b
ceil_div-mul-ge a b q = omega (arith, div-add-mod (a + b - 1) b, mod-lt (a + b - 1) q)

ceil_div-mul-eq : (a b : ℕ) → 0 < b → a % b ≡ 0 → ceil_div a b * b ≡ a
ceil_div-mul-eq a b q z =
    let k : ℕ = a / b in
    let split : b * k ≡ a = omega (arith, div-add-mod a b) in
    let quotient : ceil_div a b ≡ k =
      ap (λ (t : ℕ). t / b) (let e : a + b - 1 ≡ b * k + (b - 1) = omega arith in e)
      ∙ (mul-add-div q k (b - 1)
          ∙ omega (arith, div-eq_of_lt (let h : b - 1 < b = omega arith in h))) in
    rw quotient (mul_comm k b ∙ split)

pub ceil_covers :
    (u v : Vec)
    → length u ≡ length v
    → IsPositive v
    → IsBelow u (zip_with ◌*◌ (zip_with ceil_div u v) v)
ceil_covers [] v e q = tt
ceil_covers (a ∷ u) [] e q = absurd (omega arith)
ceil_covers (a ∷ u) (b ∷ v) e q = (ceil_div-mul-ge a b q.0, ceil_covers u v (omega arith) q.1)

pub ceil_exact :
    (u v : Vec) → IsPositive v → Divides v u → zip_with ◌*◌ (zip_with ceil_div u v) v ≡ u
ceil_exact [] [] p d = refl
ceil_exact [] (b ∷ v) p d = absurd d
ceil_exact (a ∷ u) [] p d = absurd d
ceil_exact (a ∷ u) (b ∷ v) p d = ap₂ ◌∷◌ (ceil_div-mul-eq a b p.0 d.0) (ceil_exact u v p.1 d.1)

-- The divisor search of every dimension succeeds.
pub record Divided (g v r : Vec) : Type 0 where
  pub divides : Divides r g
  pub below : IsBelow r v
  pub positive : IsPositive r

pub next_divisors-Divided :
    (g v : Vec)
    → IsBelow v g
    → IsPositive v
    → (r : Vec) × (next_divisors g v ≡ done r) × Divided g v r
unfolding next_divisors
next_divisors-Divided [] [] h p = ([], refl, record { divides = tt; below = tt; positive = tt })
next_divisors-Divided [] (b ∷ v) h p = absurd h
next_divisors-Divided (a ∷ g) [] h p = absurd h
next_divisors-Divided (a ∷ g) (b ∷ v) h p =
    let (d, e, best) = next_divisor_lem a b p.0 h.0 in
    let (r, f, rest) = next_divisors-Divided g v h.1 p.1 in
    (
      d ∷ r,
      rw (le→leb b a h.0, e, f) refl,
      record {
        divides = (best.divides, rest.divides);
        below = (best.bounded, rest.below);
        positive = (best.positive, rest.positive);
      },
    )

-- What the assertions and `isValidAccDevProps` say of the inputs.
pub record Asserted (grid elems : Vec) (p : AccDevProps) : Type 0 where
  pub grid_positive : IsPositive grid
  pub elems_positive : IsPositive elems
  pub block_max_positive : IsPositive p.block_thread_extent_max
  pub some_thread : 0 < p.block_thread_count_max

extents_asserted-IsPositive :
    (g t m : Vec)
    → length g ≡ length t
    → length t ≡ length m
    → extents_asserted g t m ≡ true
    → IsPositive g × IsPositive t
unfolding extents_asserted
extents_asserted-IsPositive [] [] m e f h = (tt, tt)
extents_asserted-IsPositive [] (b ∷ t) m e f h = absurd (omega arith)
extents_asserted-IsPositive (a ∷ g) [] m e f h = absurd (omega arith)
extents_asserted-IsPositive (a ∷ g) (b ∷ t) [] e f h = absurd (omega arith)
extents_asserted-IsPositive (a ∷ g) (b ∷ t) (c ∷ m) e f h =
    let (pg, pt) = extents_asserted-IsPositive g t m (omega arith) (omega arith) (ground arith) in
    ((ground arith, pg), (ground arith, pt))

extents_at_least_one-IsPositive :
    (g b t : Vec)
    → length b ≡ length g
    → length b ≡ length t
    → extents_at_least_one g b t ≡ true
    → IsPositive b
unfolding extents_at_least_one
extents_at_least_one-IsPositive g [] t e f h = tt
extents_at_least_one-IsPositive [] (y ∷ b) t e f h = absurd (omega arith)
extents_at_least_one-IsPositive (x ∷ g) (y ∷ b) [] e f h = absurd (omega arith)
extents_at_least_one-IsPositive (x ∷ g) (y ∷ b) (z ∷ t) e f h =
    (ground arith, extents_at_least_one-IsPositive g b t (omega arith) (omega arith) (ground arith))

-- The vectors of the device have the dimension of the grid.
pub record HasDim (n : ℕ) (p : AccDevProps) : Type 0 where
  pub grid_block : length p.grid_block_extent_max ≡ n
  pub block_thread : length p.block_thread_extent_max ≡ n
  pub thread_elem : length p.thread_elem_extent_max ≡ n

pub inputs_asserted-Asserted :
    (w : ℕ) (grid elems : Vec) (p : AccDevProps)
    → length elems ≡ length grid
    → HasDim (length grid) p
    → inputs_asserted w grid elems p ≡ true
    → Asserted grid elems p
unfolding inputs_asserted
inputs_asserted-Asserted w grid elems p e dim h =
    let (pg, pe) =
      extents_asserted-IsPositive grid elems p.thread_elem_extent_max (omega arith)
        (omega (arith, dim.thread_elem)) (ground arith) in
    record {
      grid_positive = pg;
      elems_positive = pe;
      block_max_positive =
          extents_at_least_one-IsPositive p.grid_block_extent_max p.block_thread_extent_max
            p.thread_elem_extent_max (omega (arith, dim.grid_block, dim.block_thread))
            (omega (arith, dim.block_thread, dim.thread_elem)) (ground arith);
      some_thread = ground arith;
    }
