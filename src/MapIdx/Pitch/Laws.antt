-- ===== src/MapIdx/Pitch/Laws.antt =====
-- `detail::MapIdxPitchBytes` of include/alpaka/idx/MapIdx.hpp: indices in a buffer with pitches, with and
-- without padding.
use native.Mathlib.Nat.{mul-add-div, mul-add-mod_self_left, mod-eq_of_lt, div-eq_of_lt}
use alpaka.Base.{
  ℕ, ◌+◌, ◌*◌, ◌/◌, ◌%◌, ◌^◌, ◌<◌, ◌≡◌, refl, sym, ap, ap₂, ◌∙◌, [], ◌∷◌, arith, wrap_of_lt,
}
use alpaka.Vec.Fold.{Vec}
use alpaka.Vec.Fold.Laws.{product}
use alpaka.MapIdx.Spec.{IsInside, linear, linear-lt}
use alpaka.MapIdx.Extent.{map_idx_to_nd, map_idx_to_1d}
use alpaka.MapIdx.Extent.Laws.{map_idx_to_1d-eq-linear, map_idx_to_nd-map_idx_to_1d, le-mul_pos}
use alpaka.MapIdx.Pitch.{
  divide_by, map_idx_pitch_bytes_to_nd, last, add_steps, map_idx_pitch_bytes_to_1d,
}

-- The position of an index with the steps `ps` of all but the last dimension.
abbrev pub position : Vec → Vec → ℕ
position [] ps = 0
position (i ∷ is) [] = i
position (i ∷ is) (p ∷ ps) = p * i + position is ps

-- Below each step lie only the dimensions after it.
abbrev pub HasRoom : Vec → Vec → Type 0
HasRoom [] ps = ⊥
HasRoom (i ∷ []) [] = Unit
HasRoom (i ∷ j ∷ is) [] = ⊥
HasRoom (i ∷ is) (p ∷ ps) = (position is ps < p) × HasRoom is ps

-- What the dimensions before the last add.
steps : Vec → Vec → ℕ
steps [] ps = 0
steps (i ∷ is) [] = 0
steps (i ∷ is) (p ∷ ps) = p * i + steps is ps

last-add-steps :
    (w i : ℕ) (is ps : Vec)
    → HasRoom (i ∷ is) ps
    → last w i is + steps (i ∷ is) ps ≡ position (i ∷ is) ps
unfolding last steps
last-add-steps w i [] [] h = omega arith
last-add-steps w i (j ∷ is) [] h = absurd h
last-add-steps w i [] (p ∷ ps) h = absurd h.1
last-add-steps w i (j ∷ is) (p ∷ ps) h = omega (arith, last-add-steps w j is ps h.1)

module _ (w : ℕ) where
  divide_by-position :
      (is ps : Vec) → HasRoom is ps → position is ps < 2 ^ w → divide_by w (position is ps) ps ≡ is
  unfolding divide_by
  divide_by-position [] ps h fits = absurd h
  divide_by-position (i ∷ []) [] h fits = refl
  divide_by-position (i ∷ j ∷ is) [] h fits = absurd h
  divide_by-position (i ∷ is) (p ∷ ps) h fits =
      let rest : ℕ = position is ps in
      let quotient : (p * i + rest) / p ≡ i =
        mul-add-div (omega (arith, h.0)) i rest ∙ omega (arith, div-eq_of_lt h.0) in
      let remainder : (p * i + rest) % p ≡ rest =
        mul-add-mod_self_left p i rest ∙ mod-eq_of_lt h.0 in
      let small : i < 2 ^ w = omega (arith, le-mul_pos p i (omega (arith, h.0))) in
      rw (quotient, remainder)
        (ap₂ ◌∷◌ (wrap_of_lt w small) (divide_by-position is ps h.1 (omega arith)))

  add_steps-eq-add :
      (acc : ℕ) (is ps : Vec)
      → acc + steps is ps < 2 ^ w
      → add_steps w acc is ps ≡ acc + steps is ps
  unfolding add_steps steps
  add_steps-eq-add acc [] ps fits = omega arith
  add_steps-eq-add acc (i ∷ is) [] fits = omega arith
  add_steps-eq-add acc (i ∷ is) (p ∷ ps) fits =
      let small : acc + p * i < 2 ^ w = omega arith in
      rw (wrap_of_lt w small) (add_steps-eq-add (acc + p * i) is ps (omega arith) ∙ omega arith)

  -- The position of an index is the sum of its steps.
  pub map_idx_pitch_bytes_to_1d-eq-position :
      (i p0 : ℕ) (is ps : Vec)
      → HasRoom (i ∷ is) ps
      → position (i ∷ is) ps < 2 ^ w
      → map_idx_pitch_bytes_to_1d w (i ∷ is) (p0 ∷ ps) ≡ position (i ∷ is) ps
  unfolding map_idx_pitch_bytes_to_1d
  map_idx_pitch_bytes_to_1d-eq-position i p0 is ps h fits =
      let total = last-add-steps w i is ps h in
      add_steps-eq-add (last w i is) (i ∷ is) ps (omega (arith, total)) ∙ total

  -- In a buffer whose pitches leave room for the dimensions below them, padding included, an index
  -- comes back from its position.
  pub map_idx_pitch_bytes_to_nd-to_1d :
      (i p0 : ℕ) (is ps : Vec)
      → HasRoom (i ∷ is) ps
      → position (i ∷ is) ps < 2 ^ w
      → map_idx_pitch_bytes_to_nd w (map_idx_pitch_bytes_to_1d w (i ∷ is) (p0 ∷ ps)) (p0 ∷ ps)
        ≡ i ∷ is
  unfolding map_idx_pitch_bytes_to_nd
  map_idx_pitch_bytes_to_nd-to_1d i p0 is ps h fits =
      rw (map_idx_pitch_bytes_to_1d-eq-position i p0 is ps h fits)
        (divide_by-position (i ∷ is) ps h fits)

-- The pitches of a buffer without padding: in each dimension the size of what lies in it.
abbrev pub packed : Vec → Vec
packed [] = []
packed (e ∷ es) = product (e ∷ es) ∷ packed es

position-packed :
    (is es : Vec) (i e : ℕ)
    → IsInside is es
    → position (i ∷ is) (packed es) ≡ linear (i ∷ is) (e ∷ es)
unfolding linear
position-packed [] [] i e h = omega arith
position-packed [] (f ∷ es) i e h = absurd h
position-packed (j ∷ is) [] i e h = absurd h
position-packed (j ∷ is) (f ∷ es) i e h = omega (arith, position-packed is es j f h.1)

HasRoom-packed : (is es : Vec) (i : ℕ) → IsInside is es → HasRoom (i ∷ is) (packed es)
HasRoom-packed [] [] i h = tt
HasRoom-packed [] (f ∷ es) i h = absurd h
HasRoom-packed (j ∷ is) [] i h = absurd h
HasRoom-packed (j ∷ is) (f ∷ es) i h =
    (rw (position-packed is es j f h.1) (linear-lt (j ∷ is) (f ∷ es) h), HasRoom-packed is es j h.1)

-- Without padding, the position by pitches is the linear index by extents, and the components of a
-- position are the same.
pub pitch_bytes-packed :
    (w : ℕ) (idx extent : Vec)
    → IsInside idx extent
    → product extent < 2 ^ w
    → (map_idx_pitch_bytes_to_1d w idx (packed extent) ≡ map_idx_to_1d w idx extent)
      × (map_idx_pitch_bytes_to_nd w (map_idx_to_1d w idx extent) (packed extent)
          ≡ map_idx_to_nd w (map_idx_to_1d w idx extent) extent)
unfolding map_idx_pitch_bytes_to_1d map_idx_pitch_bytes_to_nd map_idx_to_1d map_idx_to_nd
pitch_bytes-packed w [] [] h fits = (refl, refl)
pitch_bytes-packed w [] (e ∷ es) h fits = absurd h
pitch_bytes-packed w (i ∷ is) [] h fits = absurd h
pitch_bytes-packed w (i ∷ is) (e ∷ es) h fits = (
  same,
  ap (λ t. map_idx_pitch_bytes_to_nd w t (packed (e ∷ es))) (sym same)
      ∙ (map_idx_pitch_bytes_to_nd-to_1d w i (product (e ∷ es)) is (packed es) room small
          ∙ sym (map_idx_to_nd-map_idx_to_1d w (i ∷ is) (e ∷ es) h fits)),
)
  where
    room : HasRoom (i ∷ is) (packed es)
    room = HasRoom-packed is es i h.1

    at : position (i ∷ is) (packed es) ≡ linear (i ∷ is) (e ∷ es)
    at = position-packed is es i e h.1

    small : position (i ∷ is) (packed es) < 2 ^ w
    small = omega (arith, at, linear-lt (i ∷ is) (e ∷ es) h)

    same :
        map_idx_pitch_bytes_to_1d w (i ∷ is) (packed (e ∷ es)) ≡ map_idx_to_1d w (i ∷ is) (e ∷ es)
    same =
        map_idx_pitch_bytes_to_1d-eq-position w i (product (e ∷ es)) is (packed es) room small
        ∙ (at ∙ sym (map_idx_to_1d-eq-linear w (i ∷ is) (e ∷ es) h (omega arith)))
