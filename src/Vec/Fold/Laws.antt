-- ===== src/Vec/Fold/Laws.antt =====
-- The folds of include/alpaka/vec/Vec.hpp against the mathematical product, sum, minimum and maximum.
use alpaka.Base.{
  ℕ, suc, ◌+◌, ◌-◌, ◌*◌, ◌^◌, ◌≤◌, ◌<◌, ◌≡◌, refl, sym, ap, ◌∙◌, List, [], ◌∷◌, ◌++◌, foldr, arith,
  wrap, wrap_of_lt, wrap-mul-wrap, wrap-add-wrap, one-le-two-pow, one-lt-two-pow, All, get_elem?,
  some, Bool-cases, ltb, inl, inr,
}
use alpaka.Vec.Fold.{Vec, foldr_pack, foldr_all, prod, sum, min_fn, min}

module _ {ℓ} {A : Type ℓ} (f : A → A → A) where
  foldr_pack-cons : (x a : A) (xs : List A) → foldr_pack f x (xs ++ a ∷ []) ≡ f x (foldr_all f xs a)
  unfolding foldr_all
  foldr_pack-cons x a [] = refl
  foldr_pack-cons x a (y ∷ ys) = refl

  pub foldr_all-cons : (x a : A) (xs : List A) → foldr_all f (x ∷ xs) a ≡ f x (foldr_all f xs a)
  unfolding foldr_all
  foldr_all-cons x a xs = foldr_pack-cons x a xs

  -- `foldrAll` with an initial value is the right fold of the list.
  pub foldr_all-eq-foldr : (v : List A) (a : A) → foldr_all f v a ≡ foldr f a v
  foldr_all-eq-foldr [] a = unfold foldr_all in refl
  foldr_all-eq-foldr (x ∷ xs) a = foldr_all-cons x a xs ∙ ap (f x) (foldr_all-eq-foldr xs a)

-- The mathematical product and sum.
abbrev pub product : List ℕ → ℕ
product [] = 1
product (x ∷ xs) = x * product xs

abbrev pub total : List ℕ → ℕ
total [] = 0
total (x ∷ xs) = x + total xs

pub prod-nil : (w : ℕ) → prod w [] ≡ 1
unfolding prod
prod-nil w = refl

pub prod-cons : (w x : ℕ) (xs : Vec) → prod w (x ∷ xs) ≡ wrap w (x * prod w xs)
unfolding prod
prod-cons w x xs = foldr_all-cons (λ a b. wrap w (a * b)) x 1 xs

-- `prod` is the product modulo the range of the type.
pub prod-eq-wrap : (w : ℕ) (v : Vec) → 0 < w → prod w v ≡ wrap w (product v)
prod-eq-wrap w [] pos = prod-nil w ∙ sym (wrap_of_lt w (one-lt-two-pow w pos))
prod-eq-wrap w (x ∷ xs) pos =
    prod-cons w x xs
    ∙ (ap (λ (t : ℕ). wrap w (x * t)) (prod-eq-wrap w xs pos) ∙ wrap-mul-wrap w x (product xs))

pub prod_of_lt : (w : ℕ) (v : Vec) → 0 < w → product v < 2 ^ w → prod w v ≡ product v
prod_of_lt w v pos h = prod-eq-wrap w v pos ∙ wrap_of_lt w h

sum-cons : (w x : ℕ) (xs : Vec) → sum w (x ∷ xs) ≡ wrap w (x + sum w xs)
unfolding sum
sum-cons w x xs = foldr_all-cons (λ a b. wrap w (a + b)) x 0 xs

-- `sum` is the sum modulo the range of the type.
pub sum-eq-wrap : (w : ℕ) (v : Vec) → sum w v ≡ wrap w (total v)
sum-eq-wrap w [] = unfold sum in sym (wrap_of_lt w (one-le-two-pow w))
sum-eq-wrap w (x ∷ xs) =
    sum-cons w x xs
    ∙ (ap (λ (t : ℕ). wrap w (x + t)) (sum-eq-wrap w xs) ∙ wrap-add-wrap w x (total xs))

min-cons : (w x : ℕ) (xs : Vec) → min w (x ∷ xs) ≡ min_fn x (min w xs)
unfolding min
min-cons w x xs = foldr_all-cons min_fn x (2 ^ w - 1) xs

min-nil : (w : ℕ) → min w [] ≡ 2 ^ w - 1
unfolding min
min-nil w = refl

min_ge : (w m : ℕ) (v : Vec) → m ≤ min w v → All (λ x. m ≤ x) v
unfolding min_fn
min_ge w m [] h = tt
min_ge w m (x ∷ xs) h = let e = min-cons w x xs in (ground arith, min_ge w m xs (ground arith))

min_attained :
    (w x : ℕ) (xs : Vec)
    → All (λ y. y < 2 ^ w) (x ∷ xs)
    → (i : ℕ) × (get_elem? (x ∷ xs) i ≡ some (min w (x ∷ xs)))
unfolding min_fn
min_attained w x [] h = (0, ground (arith, min-cons w x [], min-nil w, one-le-two-pow w))
min_attained w x (y ∷ ys) h =
    let (i, e) = min_attained w y ys h.1 in
    let c = min-cons w x (y ∷ ys) in
    elim (Bool-cases (ltb x (min w (y ∷ ys)))) [
      | inl first ↦ (0, rw (c, first) refl)
      | inr later ↦ (suc i, rw (c, later) e)
    ]

-- `min` of a vector with a component is its least component.
pub min_lem :
    (w x : ℕ) (xs : Vec)
    → All (λ y. y < 2 ^ w) (x ∷ xs)
    → All (λ y. min w (x ∷ xs) ≤ y) (x ∷ xs)
      × ((i : ℕ) × (get_elem? (x ∷ xs) i ≡ some (min w (x ∷ xs))))
min_lem w x xs h = (min_ge w (min w (x ∷ xs)) (x ∷ xs) (omega arith), min_attained w x xs h)
