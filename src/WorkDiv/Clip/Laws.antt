-- ===== src/WorkDiv/Clip/Laws.antt =====
-- The clipping loops of include/alpaka/workdiv/WorkDivHelpers.hpp as a whole.
use alpaka.Base.{
  ℕ, zero, suc, ◌+◌, ◌^◌, ◌≤◌, ◌<◌, ◌≡◌, refl, sym, ap, subst, ◌∙◌, false, [], ◌∷◌, some, arith,
  replicate, ◌++◌, get_elem?, All, ltb, lt→ltb, one-le-two-pow,
}
use native.Mathlib.Decide.{dec_lt}
use alpaka.Vec.Fold.{Vec}
use alpaka.Vec.Fold.Laws.{product, total, prod_of_lt}
use alpaka.Vec.Select.{select_from, select, max_elem}
use alpaka.Vec.Select.Laws.{IsStrict, select_lem}
use alpaka.MapIdx.Spec.{IsPositive}
use alpaka.WorkDiv.Clip.{
  ones_last, but_last, min_elem_but_last, clip_close_to_equal, clip_unrestricted,
}
use alpaka.WorkDiv.Clip.Halving.{
  IsBelow, IsBelow-refl, Finds, Clipped, halve_while-suc, halve_while-Clipped, max_elem-Finds,
}

-- Halving the largest extent ends with the sum of the extents as fuel, and leaves a block that has at
-- most the allowed number of threads, no empty dimension, and no extent above the one it began with.
pub clip_close_to_equal-Clipped :
    (w count_max fuel : ℕ) (v : Vec)
    → 0 < w
    → 0 < count_max
    → IsPositive v
    → product v < 2 ^ w
    → total v < fuel
    → (r : Vec) × (clip_close_to_equal w count_max fuel v ≡ some r) × Clipped count_max v r
unfolding clip_close_to_equal
clip_close_to_equal-Clipped w count_max fuel v wide some_thread pos small enough =
    halve_while-Clipped w count_max max_elem wide v (λ u _. max_elem-Finds count_max some_thread u)
      fuel v (IsBelow-refl v) pos small enough

-- The last extent is at most the bound.
abbrev pub LastFits : ℕ → Vec → Type 0
LastFits c [] = Unit
LastFits c (x ∷ []) = x ≤ c
LastFits c (x ∷ y ∷ ys) = LastFits c (y ∷ ys)

pub LastFits-below : (c : ℕ) (u v : Vec) → IsBelow u v → LastFits c v → LastFits c u
LastFits-below c [] v h k = tt
LastFits-below c (a ∷ u) [] h k = absurd h
LastFits-below c (a ∷ []) (b ∷ []) h k = omega arith
LastFits-below c (a ∷ []) (b ∷ y ∷ v) h k = absurd h.1
LastFits-below c (a ∷ x ∷ u) (b ∷ []) h k = absurd h.1
LastFits-below c (a ∷ x ∷ u) (b ∷ y ∷ v) h k = LastFits-below c (x ∷ u) (y ∷ v) h.1 k

ones_last-IsStrict : IsStrict ones_last
unfolding ones_last
ones_last-IsStrict = record { irrefl = λ a. ground arith; trans = λ a b c p q. ground arith }

-- If the selected extent is 1, so is every extent but the last.
ones_everywhere : (v : Vec) → All (λ y. ones_last y 1 ≡ false) v → All (λ y. y ≡ 1) v
unfolding ones_last
ones_everywhere [] h = tt
ones_everywhere (x ∷ xs) h = (ground arith, ones_everywhere xs h.1)

product_ones :
    (c : ℕ) (v : Vec) → 0 < c → All (λ y. y ≡ 1) (but_last v) → LastFits c v → product v ≤ c
unfolding but_last
product_ones c [] pos h k = pos
product_ones c (x ∷ []) pos h k = omega arith
product_ones c (x ∷ y ∷ ys) pos h k =
    let ih = product_ones c (y ∷ ys) pos h.1 k in rw (h.0) (omega arith)

get_elem?-but_last :
    (v : Vec) (k b : ℕ) → get_elem? (but_last v) k ≡ some b → get_elem? v k ≡ some b
unfolding but_last
get_elem?-but_last [] k b h = h
get_elem?-but_last (x ∷ []) k b h = cc
get_elem?-but_last (x ∷ y ∷ ys) zero b h = h
get_elem?-but_last (x ∷ y ∷ ys) (suc k) b h = get_elem?-but_last (y ∷ ys) k b h

All_get : (v : Vec) (k b : ℕ) → IsPositive v → get_elem? v k ≡ some b → 0 < b
All_get [] k b h e = cc
All_get (x ∷ xs) zero b h e = let x-eq : x ≡ b = cc in omega arith
All_get (x ∷ xs) (suc k) b h e = All_get xs k b h.1 e

module _ (c : ℕ) (pos : 0 < c) (v : Vec) (last : LastFits c v) (all_pos : IsPositive v)
    (more : c < product v) where
  some_not_one : All (λ y. y ≡ 1) (but_last v) → ⊥
  some_not_one h = omega (arith, product_ones c v pos h last)

  min_elem_in :
      (l : Vec)
      → but_last v ≡ l
      → (a : ℕ) × (get_elem? v (select ones_last (but_last v)) ≡ some a) × (2 ≤ a)
  min_elem_in [] e = absurd (some_not_one (rw e tt))
  min_elem_in (x ∷ xs) e =
      let (b, at, none_better) = select_lem ones_last-IsStrict x xs in
      let at_v =
        get_elem?-but_last v (select ones_last (but_last v)) b
          (subst (λ t. get_elem? t (select ones_last t) ≡ some b) (sym e) at) in
      let b_pos = All_get v (select ones_last (but_last v)) b all_pos at_v in
      elim (dec_lt 1 b) [
        | yes two ↦ (b, at_v, two)
        | no small ↦
            let one : b ≡ 1 = omega arith in
            absurd (
              some_not_one (
                ones_everywhere (but_last v)
                  (rw e (subst (λ t. All (λ y. ones_last y t ≡ false) (x ∷ xs)) one none_better))))
      ]

min_elem_but_last-Finds : (c : ℕ) → 0 < c → (v : Vec) → LastFits c v → Finds c min_elem_but_last v
unfolding min_elem_but_last
min_elem_but_last-Finds c pos v last all_pos more =
    min_elem_in c pos v last all_pos more (but_last v) refl

-- Halving the smallest extent that is not 1, the last one left out, ends the same way, where the last
-- extent alone is at most the allowed number of threads.
pub clip_unrestricted-Clipped :
    (w count_max fuel : ℕ) (v : Vec)
    → 0 < w
    → 0 < count_max
    → LastFits count_max v
    → IsPositive v
    → product v < 2 ^ w
    → total v < fuel
    → (r : Vec) × (clip_unrestricted w count_max fuel v ≡ some r) × Clipped count_max v r
unfolding clip_unrestricted
clip_unrestricted-Clipped w count_max fuel v wide some_thread last pos small enough =
    halve_while-Clipped w count_max min_elem_but_last wide v
      (λ u below.
        min_elem_but_last-Finds count_max some_thread u (LastFits-below count_max u v below last))
      fuel v (IsBelow-refl v) pos small enough

but_last-ones : (n x : ℕ) → but_last (1 ∷ replicate n 1 ++ x ∷ []) ≡ 1 ∷ replicate n 1
unfolding but_last
but_last-ones zero x = refl
but_last-ones (suc n) x = ap (◌∷◌ 1) (but_last-ones n x)

select_from-ones : (n i : ℕ) → select_from ones_last 1 0 i (replicate n 1) ≡ 0
unfolding select_from ones_last
select_from-ones zero i = refl
select_from-ones (suc n) i = select_from-ones n (i + 1)

min_elem-ones : (n x : ℕ) → min_elem_but_last (1 ∷ replicate n 1 ++ x ∷ []) ≡ 0
unfolding min_elem_but_last
min_elem-ones n x = rw (but_last-ones n x) (unfold select in select_from-ones n 1)

product-ones_append : (n x : ℕ) → product (replicate n 1 ++ x ∷ []) ≡ x
product-ones_append zero x = omega arith
product-ones_append (suc n) x = omega (arith, product-ones_append n x)

-- Where every extent but the last is 1 and the last one is above the allowed number, the first extent is
-- halved to zero: the loop ends with a block that has no thread.
pub clip_unrestricted_empties :
    (w count_max n x : ℕ)
    → 0 < w
    → count_max < x
    → x < 2 ^ w
    → clip_unrestricted w count_max 2 (1 ∷ replicate n 1 ++ x ∷ [])
      ≡ some (0 ∷ replicate n 1 ++ x ∷ [])
unfolding clip_unrestricted
clip_unrestricted_empties w count_max n x wide more fits =
    halve_while-suc w count_max min_elem_but_last 1 v
    ∙ (rw (prod_of_lt w v wide fits', lt→ltb count_max (product v) more', min_elem-ones n x)
        (halve_while-suc w count_max min_elem_but_last 0 z
          ∙ rw (prod_of_lt w z wide fits_z, done) refl))
  where
    v : Vec
    v = 1 ∷ replicate n 1 ++ x ∷ []

    fits' : product v < 2 ^ w
    fits' = omega (arith, product-ones_append n x)

    more' : count_max < product v
    more' = omega (arith, product-ones_append n x)

    z : Vec
    z = 0 ∷ replicate n 1 ++ x ∷ []

    fits_z : product z < 2 ^ w
    fits_z = omega (arith, one-le-two-pow w)

    done : ltb count_max (product z) ≡ false
    done = ground arith
