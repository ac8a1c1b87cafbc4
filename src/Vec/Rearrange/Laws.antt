-- ===== src/Vec/Rearrange/Laws.antt =====
-- The loops of include/alpaka/vec/Vec.hpp that write by index against the rearrangement they stand for.
use alpaka.Base.{
  ℕ, zero, suc, ◌+◌, ◌-◌, ◌≤◌, ◌<◌, ◌≡◌, refl, sym, ap, ap₂, ◌∙◌, ◌&&◌, [], ◌∷◌, ◌++◌, some, arith,
  length, get_elem?, get_or, set, length-set, get_elem?-set, length-replicate, take, replicate,
  get_elem?_ext, get_elem?_beyond, get_elem?-get_or, ltb, leb, if◌then◌else◌, length-append,
  get_elem?-append_left, get_elem?-append_right, Bool-cases, inl, inr,
}
use mathlib.Core.List.{append_assoc, append-nil}
use native.Mathlib.Decide.{dec_lt}
use alpaka.Vec.Fold.{Vec, zeros}
use alpaka.Vec.Rearrange.{
  index_sequence, sub_vec_from_indices, sub_vec_begin, sub_vec_end, fill, reverse_vec, concat_vec,
}

module _ (base : ℕ) (f : ℕ → ℕ) where
  length-fill : (left i : ℕ) (r : Vec) → length (fill base f left i r) ≡ length r
  unfolding fill
  length-fill zero i r = refl
  length-fill (suc left) i r = length-fill left (i + 1) (set r (base + i) (f i)) ∙ length-set r _ _

  -- The loop writes the indices from `base + i` on, and leaves the others alone.
  get_elem?-fill :
      (left i : ℕ) (r : Vec) (j : ℕ)
      → base + i + left ≤ length r
      → get_elem? (fill base f left i r) j ≡ (
          if leb (base + i) j && ltb j (base + i + left)
          then some (f (j - base))
          else get_elem? r j)
  unfolding fill
  get_elem?-fill zero i r j h = ground arith
  get_elem?-fill (suc left) i r j h =
      let here : base + i ≡ j → f i ≡ f (j - base) = λ e. ap f (omega arith) in
      get_elem?-fill left (i + 1) (set r (base + i) (f i)) j
        (omega (arith, length-set r (base + i) (f i)))
      ∙ rw (get_elem?-set r (base + i) j (f i) (omega arith)) (ground (arith, here))

-- `reverseVec` reads the components from the last to the first.
pub get_elem?-reverse_vec :
    (v : Vec) (j : ℕ) → j < length v → get_elem? (reverse_vec v) j ≡ get_elem? v (length v - 1 - j)
unfolding reverse_vec zeros
get_elem?-reverse_vec v j h = elim (Bool-cases (leb (length v) 1)) [
  | inl short ↦ rw short (ap (get_elem? v) (ground arith))
  | inr long ↦ rw long (
      get_elem?-fill 0 (λ i. get_or v (length v - 1 - i) 0) (length v) 0 (zeros (length v)) j
        (omega (arith, length-replicate {A = ℕ} (length v) 0))
      ∙ ground (arith, get_elem?-get_or v (length v - 1 - j) 0))
]

length-reverse_vec : (v : Vec) → length (reverse_vec v) ≡ length v
unfolding reverse_vec zeros
length-reverse_vec v = elim (Bool-cases (leb (length v) 1)) [
  | inl short ↦ rw short refl
  | inr long ↦ rw long (
      length-fill 0 (λ i. get_or v (length v - 1 - i) 0) (length v) 0 (zeros (length v))
      ∙ length-replicate {A = ℕ} (length v) 0)
]

-- Reversing twice gives the vector back.
pub reverse_vec-reverse_vec : (v : Vec) → reverse_vec (reverse_vec v) ≡ v
reverse_vec-reverse_vec v = get_elem?_ext _ _ λ j. elim (dec_lt j (length v)) [
  | yes inside ↦ ground (
    arith,
    get_elem?-reverse_vec (reverse_vec v) j,
    get_elem?-reverse_vec v (length v - 1 - j),
    length-reverse_vec v,
    ap (get_elem? v) (let e : length v - 1 - (length v - 1 - j) ≡ j = omega arith in e),
  )
  | no outside ↦ ground (
    arith,
    get_elem?_beyond (reverse_vec (reverse_vec v)) j,
    get_elem?_beyond v j,
    length-reverse_vec v,
    length-reverse_vec (reverse_vec v),
  )
]

module _ (l r : Vec) where
  abbrev blank : Vec
  blank = replicate (length l + length r) 0

  abbrev half : Vec
  half = fill 0 (λ i. get_or l i 0) (length l) 0 blank

  length-half : length half ≡ length l + length r
  length-half =
      length-fill 0 (λ i. get_or l i 0) (length l) 0 blank
      ∙ length-replicate {A = ℕ} (length l + length r) 0

  get_elem?-concat_vec : (j : ℕ) → get_elem? (concat_vec l r) j ≡ get_elem? (l ++ r) j
  unfolding concat_vec zeros
  get_elem?-concat_vec j =
      get_elem?-fill (length l) (λ i. get_or r i 0) (length r) 0 half j (omega (arith, length-half))
      ∙ ground (
        arith,
        get_elem?-fill 0 (λ i. get_or l i 0) (length l) 0 blank j
            (omega (arith, length-replicate {A = ℕ} (length l + length r) 0)),
        get_elem?_beyond blank j,
        length-replicate {A = ℕ} (length l + length r) 0,
        get_elem?-get_or l j 0,
        get_elem?-get_or r (j - length l) 0,
        get_elem?-append_left l r j,
        get_elem?-append_right l r j,
        get_elem?_beyond r (j - length l),
      )

  -- The two loops of `concatVec` put the right vector behind the left one.
  pub concat_vec-eq-append : concat_vec l r ≡ l ++ r
  concat_vec-eq-append = get_elem?_ext _ _ get_elem?-concat_vec

get_or-append-length : (xs ys : Vec) (y d : ℕ) → get_or (xs ++ y ∷ ys) (length xs) d ≡ y
get_or-append-length [] ys y d = refl
get_or-append-length (x ∷ xs) ys y d = get_or-append-length xs ys y d

-- A sub-vector from consecutive indices is a slice.
sub_vec_from_indices-slice :
    (n : ℕ) (xs ys zs : Vec) (k : ℕ)
    → n ≤ length ys
    → zs ≡ xs ++ ys
    → k ≡ length xs
    → sub_vec_from_indices (index_sequence k n) zs ≡ take n ys
unfolding sub_vec_from_indices index_sequence
sub_vec_from_indices-slice zero xs ys zs k h e f = refl
sub_vec_from_indices-slice (suc n) xs [] zs k h e f = absurd (omega arith)
sub_vec_from_indices-slice (suc n) xs (y ∷ ys) zs k h e f =
    ap₂ ◌∷◌ (rw (e, f) (get_or-append-length xs ys y 0)) (
      sub_vec_from_indices-slice n (xs ++ y ∷ []) ys zs (k + 1) (omega arith)
        (e ∙ sym (append_assoc xs (y ∷ []) ys)) (omega (arith, length-append xs (y ∷ []))))

take-length-append : (xs ys : Vec) → take (length xs) (xs ++ ys) ≡ xs
take-length-append [] ys = refl
take-length-append (x ∷ xs) ys = ap (◌∷◌ x) (take-length-append xs ys)

-- `subVecBegin` and `subVecEnd` take a concatenation apart.
pub sub_vec-concat_vec :
    (l r : Vec)
    → (sub_vec_begin (length l) (concat_vec l r) ≡ l)
      × (sub_vec_end (length r) (concat_vec l r) ≡ r)
unfolding sub_vec_begin sub_vec_end
sub_vec-concat_vec l r = rw (concat_vec-eq-append l r) (
  sub_vec_from_indices-slice (length l) [] (l ++ r) (l ++ r) 0 (omega (arith, length-append l r))
        refl refl
      ∙ take-length-append l r,
  sub_vec_from_indices-slice (length r) l r (l ++ r) (length (l ++ r) - length r) (omega arith) refl
        (omega (arith, length-append l r))
      ∙ (ap (take (length r)) (sym (append-nil r)) ∙ take-length-append r []),
)
