-- ===== src/MapIdx/Spec.antt =====
-- Row-major indexing as mathematics, without a width: what the loops of MapIdx.hpp compute.
use native.Mathlib.Nat.{
  mul-add-div_right, mod-eq_of_lt, div-eq_of_lt, mul-add-mod_self_left, mul_comm, mul_assoc,
  mul-pos, mod-lt, div-add-mod,
}
use alpaka.Base.{ℕ, ◌+◌, ◌*◌, ◌/◌, ◌%◌, ◌<◌, ◌≡◌, refl, sym, ap, ap₂, ◌∙◌, [], ◌∷◌, arith, All}
use alpaka.Vec.Fold.{Vec}
use alpaka.Vec.Fold.Laws.{product}

-- Every component of the index is below the extent, in one dimension.
abbrev pub IsInside : Vec → Vec → Type 0
IsInside [] [] = Unit
IsInside [] (e ∷ es) = ⊥
IsInside (i ∷ is) [] = ⊥
IsInside (i ∷ is) (e ∷ es) = (i < e) × IsInside is es

abbrev pub IsPositive : Vec → Type 0
IsPositive = All (λ e. 0 < e)

-- The position in row-major order: the last dimension is the fast one.
unfoldable pub linear : Vec → Vec → ℕ
linear [] es = 0
linear (i ∷ is) [] = 0
linear (i ∷ is) (e ∷ es) = i * product es + linear is es

-- The components of the position `i`.
unfoldable pub unravel : ℕ → Vec → Vec
unravel i [] = []
unravel i (e ∷ es) = (i / product es % e) ∷ unravel i es

pub product-pos : (es : Vec) → IsPositive es → 0 < product es
product-pos [] h = omega arith
product-pos (e ∷ es) h = mul-pos h.0 (product-pos es h.1)

pub IsInside-IsPositive : (is es : Vec) → IsInside is es → IsPositive es
IsInside-IsPositive [] [] h = tt
IsInside-IsPositive [] (e ∷ es) h = absurd h
IsInside-IsPositive (i ∷ is) [] h = absurd h
IsInside-IsPositive (i ∷ is) (e ∷ es) h = (omega (arith, h.0), IsInside-IsPositive is es h.1)

pub digit_lt : (i e p r : ℕ) → i < e → r < p → i * p + r < e * p
digit_lt i e p r h k = grind arith

pub linear-lt : (is es : Vec) → IsInside is es → linear is es < product es
unfolding linear
linear-lt [] [] h = omega arith
linear-lt [] (e ∷ es) h = absurd h
linear-lt (i ∷ is) [] h = absurd h
linear-lt (i ∷ is) (e ∷ es) h = digit_lt i e (product es) (linear is es) h.0 (linear-lt is es h.1)

-- Whole multiples of the product do not show in the components.
unravel-add :
    (q r m : ℕ) (es : Vec) → IsPositive es → m ≡ q * product es + r → unravel m es ≡ unravel r es
unfolding unravel
unravel-add q r m [] h k = refl
unravel-add q r m (e ∷ es) h k =
    let k' : m ≡ (q * e) * product es + r =
      k ∙ ap (λ (t : ℕ). t + r) (sym (mul_assoc q e (product es))) in
    ap₂ ◌∷◌
      (ap (λ (t : ℕ). t / product es % e) k'
        ∙ (ap (λ (t : ℕ). t % e) (mul-add-div_right (product-pos es h.1) (q * e) r)
            ∙ (ap (λ (t : ℕ). (t + r / product es) % e) (mul_comm q e)
                ∙ mul-add-mod_self_left e q (r / product es))))
      (unravel-add (q * e) r m es h.1 k')

pub unravel-digit :
    (i j e : ℕ) (es : Vec)
    → i < e
    → j < product es
    → IsPositive es
    → unravel (i * product es + j) (e ∷ es) ≡ i ∷ unravel j es
unfolding unravel
unravel-digit i j e es h k pos =
    ap₂ ◌∷◌
      (ap (λ (t : ℕ). t % e)
          (mul-add-div_right (product-pos es pos) i j ∙ omega (arith, div-eq_of_lt k))
        ∙ mod-eq_of_lt h)
      (unravel-add i j (i * product es + j) es pos refl)

pub unravel-linear : (is es : Vec) → IsInside is es → unravel (linear is es) es ≡ is
unfolding unravel linear
unravel-linear [] [] h = refl
unravel-linear [] (e ∷ es) h = absurd h
unravel-linear (i ∷ is) [] h = absurd h
unravel-linear (i ∷ is) (e ∷ es) h =
    let pos = IsInside-IsPositive is es h.1 in
    ap₂ ◌∷◌
      (ap (λ (t : ℕ). t % e)
          (mul-add-div_right (product-pos es pos) i (linear is es)
            ∙ omega (arith, div-eq_of_lt (linear-lt is es h.1)))
        ∙ mod-eq_of_lt h.0)
      (unravel-add i (linear is es) (i * product es + linear is es) es pos refl
        ∙ unravel-linear is es h.1)

pub unravel-IsInside : (i : ℕ) (es : Vec) → IsPositive es → IsInside (unravel i es) es
unfolding unravel
unravel-IsInside i [] h = tt
unravel-IsInside i (e ∷ es) h = (mod-lt (i / product es) h.0, unravel-IsInside i es h.1)

-- The remainder by a product, digit by digit.
mod-mul : (i e p : ℕ) → 0 < e → 0 < p → i % (e * p) ≡ (i / p % e) * p + i % p
mod-mul i e p he hp =
    ap (λ (t : ℕ). t % (e * p)) split
    ∙ (mul-add-mod_self_left (e * p) (i / p / e) (i / p % e * p + i % p)
        ∙ mod-eq_of_lt (digit_lt (i / p % e) e p (i % p) (mod-lt (i / p) he) (mod-lt i hp)))
  where
    split : i ≡ e * p * (i / p / e) + (i / p % e * p + i % p)
    split = omega (arith, div-add-mod i p, ap (λ (t : ℕ). p * t) (div-add-mod (i / p) e))

pub linear-unravel : (i : ℕ) (es : Vec) → IsPositive es → linear (unravel i es) es ≡ i % product es
unfolding unravel linear
linear-unravel i [] h = omega arith
linear-unravel i (e ∷ es) h =
    ap (λ (t : ℕ). (i / product es % e) * product es + t) (linear-unravel i es h.1)
    ∙ sym (mod-mul i e (product es) h.0 (product-pos es h.1))
