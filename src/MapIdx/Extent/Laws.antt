-- ===== src/MapIdx/Extent/Laws.antt =====
-- `detail::MapIdx` of include/alpaka/idx/MapIdx.hpp against row-major positions.
use native.Mathlib.Nat.{mod-eq_of_lt, div-lt_iff_lt-mul, mul_comm, div-le_self, mod-le}
use alpaka.Base.{
  ℕ, ◌+◌, ◌*◌, ◌/◌, ◌%◌, ◌^◌, ◌≤◌, ◌<◌, ◌≡◌, refl, sym, ap, ap₂, ◌∙◌, [], ◌∷◌, arith, wrap,
  wrap_of_lt,
}
use alpaka.Vec.Fold.{Vec}
use alpaka.Vec.Fold.Laws.{product}
use alpaka.MapIdx.Spec.{
  IsInside, IsPositive, linear, unravel, product-pos, IsInside-IsPositive, linear-lt,
  unravel-linear, unravel-IsInside, linear-unravel,
}
use alpaka.MapIdx.Extent.{planes, map_idx_to_nd, flatten, map_idx_to_1d}

pub le-mul_pos : (e p : ℕ) → 0 < e → p ≤ e * p
le-mul_pos e p h = grind arith

digit_lt : (i e p r : ℕ) → i < e → r < p → i * p + r < e * p
digit_lt i e p r h k = grind arith

planes-cons :
    (w i e f : ℕ) (es : Vec)
    → planes w i (e ∷ f ∷ es) ≡ (
      wrap w ((planes w i (f ∷ es)).0 * e),
      wrap w (i / (planes w i (f ∷ es)).0 % e) ∷ (planes w i (f ∷ es)).1,
    )
unfolding planes
planes-cons w i e f es = refl

module _ (w : ℕ) where
  -- No step of the loop wraps: it is the row-major position.
  flatten-eq-linear :
      (acc bound : ℕ) (is es : Vec)
      → acc < bound
      → IsInside is es
      → bound * product es ≤ 2 ^ w
      → flatten w acc is es ≡ acc * product es + linear is es
  unfolding flatten linear
  flatten-eq-linear acc bound [] [] h k fits = omega arith
  flatten-eq-linear acc bound [] (e ∷ es) h k fits = absurd k
  flatten-eq-linear acc bound (i ∷ is) [] h k fits = absurd k
  flatten-eq-linear acc bound (i ∷ is) (e ∷ es) h k fits =
      let pos = product-pos es (IsInside-IsPositive is es k.1) in
      let next : acc * e + i < bound * e = digit_lt acc bound e i h k.0 in
      let room : bound * e * product es ≤ 2 ^ w = omega arith in
      let small : acc * e + i < 2 ^ w = omega (arith, le-mul_pos (product es) (bound * e) pos) in
      rw (wrap_of_lt w small)
        (flatten-eq-linear (acc * e + i) (bound * e) is es next k.1 room ∙ omega arith)

  pub map_idx_to_1d-eq-linear :
      (is es : Vec) → IsInside is es → product es ≤ 2 ^ w → map_idx_to_1d w is es ≡ linear is es
  unfolding map_idx_to_1d linear
  map_idx_to_1d-eq-linear [] [] k fits = refl
  map_idx_to_1d-eq-linear [] (e ∷ es) k fits = absurd k
  map_idx_to_1d-eq-linear (i ∷ is) [] k fits = absurd k
  map_idx_to_1d-eq-linear (i ∷ is) (e ∷ es) k fits = flatten-eq-linear i e is es k.0 k.1 fits

  pub map_idx_to_1d-lt :
      (is es : Vec) → IsInside is es → product es ≤ 2 ^ w → map_idx_to_1d w is es < product es
  map_idx_to_1d-lt is es h fits = rw (map_idx_to_1d-eq-linear is es h fits) (linear-lt is es h)

  planes_step :
      (i e f : ℕ) (es : Vec)
      → i < 2 ^ w
      → IsPositive (e ∷ f ∷ es)
      → product (e ∷ f ∷ es) < 2 ^ w
      → planes w i (f ∷ es) ≡ (product (f ∷ es), unravel i (f ∷ es))
      → planes w i (e ∷ f ∷ es) ≡ (product (e ∷ f ∷ es), unravel i (e ∷ f ∷ es))
  unfolding unravel
  planes_step i e f es h pos fits ih =
      let p : ℕ = product (f ∷ es) in
      let size : wrap w (p * e) ≡ e * p = ap (wrap w) (mul_comm p e) ∙ wrap_of_lt w fits in
      let digit : wrap w (i / p % e) ≡ i / p % e =
        wrap_of_lt w (omega (arith, mod-le (i / p) e, div-le_self i p)) in
      rw (planes-cons w i e f es, ih)
        (ap₂ (λ (a : ℕ) (b : ℕ). let r : ℕ × Vec = (a, b ∷ unravel i (f ∷ es)) in r) size digit)

  planes-eq-unravel :
      (i : ℕ) (es : Vec)
      → i < 2 ^ w
      → IsPositive es
      → product es < 2 ^ w
      → planes w i es ≡ (product es, unravel i es)
  unfolding planes unravel
  planes-eq-unravel i [] h pos fits = refl
  planes-eq-unravel i (e ∷ []) h pos fits =
      let one : i / 1 ≡ i = omega arith in
      let small : wrap w (i % e) ≡ i % e = wrap_of_lt w (omega (arith, mod-le i e)) in
      rw (one, small) (ground arith)
  planes-eq-unravel i (e ∷ f ∷ es) h pos fits =
      planes_step i e f es h pos fits (
        planes-eq-unravel i (f ∷ es) h pos.1 (omega (arith, le-mul_pos e (product (f ∷ es)) pos.0)))

  pub map_idx_to_nd-eq-unravel :
      (i : ℕ) (es : Vec)
      → i < product es
      → IsPositive es
      → product es < 2 ^ w
      → map_idx_to_nd w i es ≡ unravel i es
  unfolding map_idx_to_nd unravel
  map_idx_to_nd-eq-unravel i [] h pos fits = refl
  map_idx_to_nd-eq-unravel i (e ∷ es) h pos fits =
      let p : ℕ = product es in
      let below : p ≤ e * p = le-mul_pos e p pos.0 in
      let slow : i / p < e = (div-lt_iff_lt-mul (product-pos es pos.1)).1 h in
      let small : i / p < 2 ^ w = omega (arith, div-le_self i p) in
      rw (planes-eq-unravel i es (omega arith) pos.1 (omega arith)) (
        ap (λ (t : ℕ). let r : Vec = t ∷ unravel i es in r)
          (wrap_of_lt w small ∙ sym (mod-eq_of_lt slow)))

  -- A multi-dimensional index comes back from its linear index.
  pub map_idx_to_nd-map_idx_to_1d :
      (idx extent : Vec)
      → IsInside idx extent
      → product extent < 2 ^ w
      → map_idx_to_nd w (map_idx_to_1d w idx extent) extent ≡ idx
  map_idx_to_nd-map_idx_to_1d idx extent h fits =
      rw (map_idx_to_1d-eq-linear idx extent h (omega arith)) (
        map_idx_to_nd-eq-unravel (linear idx extent) extent (linear-lt idx extent h)
          (IsInside-IsPositive idx extent h) fits
        ∙ unravel-linear idx extent h)

  -- A linear index below the size of a positive extent has an index inside it, and comes back.
  pub map_idx_to_1d-map_idx_to_nd :
      (i : ℕ) (extent : Vec)
      → i < product extent
      → IsPositive extent
      → product extent < 2 ^ w
      → IsInside (map_idx_to_nd w i extent) extent
        × (map_idx_to_1d w (map_idx_to_nd w i extent) extent ≡ i)
  map_idx_to_1d-map_idx_to_nd i extent h pos fits =
      let inside = unravel-IsInside i extent pos in
      rw (map_idx_to_nd-eq-unravel i extent h pos fits) (
        inside,
        map_idx_to_1d-eq-linear (unravel i extent) extent inside (omega arith)
            ∙ (linear-unravel i extent pos ∙ mod-eq_of_lt h),
      )
