-- ===== src/Tally.antt =====
-- Sums of a weight over a list, and predicates on all of a list, when one element changes.
use alpaka.Base.{
  ℕ, zero, suc, ◌+◌, ◌≤◌, ◌≡◌, refl, List, [], ◌∷◌, ◌++◌, some, arith, length, get_elem?, set,
  replicate, All, subst, map, sym, ap,
}

module _ {A : Type 0} (weight : A → ℕ) where
  abbrev pub tally : List A → ℕ
  tally [] = 0
  tally (x ∷ xs) = weight x + tally xs

  pub tally-set :
      (xs : List A) (i : ℕ) (t u : A)
      → get_elem? xs i ≡ some t
      → tally (set xs i u) + weight t ≡ tally xs + weight u
  tally-set [] i t u h = absurd (cc)
  tally-set (x ∷ xs) zero t u h = let e : x ≡ t = cc in rw e (omega arith)
  tally-set (x ∷ xs) (suc i) t u h = omega (arith, tally-set xs i t u h)

  pub le-tally : (xs : List A) (i : ℕ) (t : A) → get_elem? xs i ≡ some t → weight t ≤ tally xs
  le-tally [] i t h = absurd (cc)
  le-tally (x ∷ xs) zero t h = let e : x ≡ t = cc in rw e (omega arith)
  le-tally (x ∷ xs) (suc i) t h = omega (arith, le-tally xs i t h)

  pub tally_zero : (xs : List A) → tally xs ≡ 0 → All (λ x. weight x ≡ 0) xs
  tally_zero [] h = tt
  tally_zero (x ∷ xs) h = (omega arith, tally_zero xs (omega arith))

  pub tally_vanishes : (xs : List A) → All (λ x. weight x ≡ 0) xs → tally xs ≡ 0
  tally_vanishes [] h = refl
  tally_vanishes (x ∷ xs) h = omega (arith, h.0, tally_vanishes xs h.1)

module _ {A : Type 0} (P : A → Type 0) where
  pub All-set : (xs : List A) (i : ℕ) (u : A) → All P xs → P u → All P (set xs i u)
  All-set [] i u h k = tt
  All-set (x ∷ xs) zero u h k = (k, h.1)
  All-set (x ∷ xs) (suc i) u h k = (h.0, All-set xs i u h.1 k)

  pub All-get_elem? : (xs : List A) (i : ℕ) (t : A) → All P xs → get_elem? xs i ≡ some t → P t
  All-get_elem? [] i t h e = absurd (cc)
  All-get_elem? (x ∷ xs) zero t h e = subst P (cc) h.0
  All-get_elem? (x ∷ xs) (suc i) t h e = All-get_elem? xs i t h.1 e

-- Each thread counts for one of four weights.
pub tallies :
    {A : Type 0} (a b c d : A → ℕ) (xs : List A)
    → ((x : A) → a x + b x + c x + d x ≡ 1)
    → tally a xs + tally b xs + tally c xs + tally d xs ≡ length xs
tallies a b c d [] h = refl
tallies a b c d (x ∷ xs) h = omega (arith, h x, tallies a b c d xs h)

pub All-both :
    {A : Type 0} (P Q R : A → Type 0)
    → ((x : A) → P x → Q x → R x)
    → (xs : List A) → All P xs
    → All Q xs
    → All R xs
All-both P Q R f [] h k = tt
All-both P Q R f (x ∷ xs) h k = (f x h.0 k.0, All-both P Q R f xs h.1 k.1)

pub All-map :
    {A : Type 0} (P R : A → Type 0) → ((x : A) → P x → R x) → (xs : List A) → All P xs → All R xs
All-map P R f [] h = tt
All-map P R f (x ∷ xs) h = (f x h.0, All-map P R f xs h.1)

pub All-replicate : {A : Type 0} (P : A → Type 0) (n : ℕ) (a : A) → P a → All P (replicate n a)
All-replicate P zero a h = tt
All-replicate P (suc n) a h = (h, All-replicate P n a h)

pub get_elem?-set_same :
    {A : Type 0} (xs : List A) (i : ℕ) (t u : A)
    → get_elem? xs i ≡ some t
    → get_elem? (set xs i u) i ≡ some u
get_elem?-set_same [] i t u h = absurd (cc)
get_elem?-set_same (x ∷ xs) zero t u h = refl
get_elem?-set_same (x ∷ xs) (suc i) t u h = get_elem?-set_same xs i t u h

pub tally-add :
    {A : Type 0} (a b c : A → ℕ) (xs : List A)
    → tally (λ x. a x + b x + c x) xs ≡ tally a xs + tally b xs + tally c xs
tally-add a b c [] = refl
tally-add a b c (x ∷ xs) = omega (arith, tally-add a b c xs)

pub tally-snoc :
    {A : Type 0} (a : A → ℕ) (xs : List A) (x : A) → tally a (xs ++ x ∷ []) ≡ tally a xs + a x
tally-snoc a [] x = omega arith
tally-snoc a (y ∷ xs) x = omega (arith, tally-snoc a xs x)

pub length-snoc : {A : Type 0} (xs : List A) (x : A) → length (xs ++ x ∷ []) ≡ length xs + 1
length-snoc [] x = omega arith
length-snoc (y ∷ xs) x = omega (arith, length-snoc xs x)

pub set-set : {A : Type 0} (xs : List A) (i : ℕ) (a b : A) → set (set xs i a) i b ≡ set xs i b
set-set [] i a b = refl
set-set (x ∷ xs) zero a b = refl
set-set (x ∷ xs) (suc i) a b = ap (λ q. x ∷ q) (set-set xs i a b)

pub set_same :
    {A : Type 0} (xs : List A) (i : ℕ) (a : A) → get_elem? xs i ≡ some a → set xs i a ≡ xs
set_same [] i a h = refl
set_same (x ∷ xs) zero a h = let e : x ≡ a = cc in ap (λ q. q ∷ xs) (sym e)
set_same (x ∷ xs) (suc i) a h = ap (λ q. x ∷ q) (set_same xs i a h)

pub tally-le :
    {A : Type 0} (a b : A → ℕ) (xs : List A) → ((x : A) → a x ≤ b x) → tally a xs ≤ tally b xs
tally-le a b [] h = omega arith
tally-le a b (x ∷ xs) h = omega (arith, h x, tally-le a b xs h)

pub tally-eq :
    {A : Type 0} (a b : A → ℕ) (xs : List A) → All (λ x. a x ≡ b x) xs → tally a xs ≡ tally b xs
tally-eq a b [] h = refl
tally-eq a b (x ∷ xs) h = omega (arith, h.0, tally-eq a b xs h.1)

tally-le-length :
    {A : Type 0} (a : A → ℕ) (xs : List A) → ((x : A) → a x ≤ 1) → tally a xs ≤ length xs
tally-le-length a [] h = omega arith
tally-le-length a (x ∷ xs) h = omega (arith, h x, tally-le-length a xs h)

pub tally_full :
    {A : Type 0} (a : A → ℕ) (xs : List A)
    → ((x : A) → a x ≤ 1)
    → tally a xs ≡ length xs
    → All (λ x. a x ≡ 1) xs
tally_full a [] h e = tt
tally_full a (x ∷ xs) h e =
    let rest = tally-le-length a xs h in
    (omega (arith, h x, rest), tally_full a xs h (omega (arith, h x, rest)))

-- What is done to every element of a list.
module _ {A B : Type 0} (f : A → B) where
  pub tally-map :
      (weight : B → ℕ) (xs : List A) → tally weight (map f xs) ≡ tally (λ x. weight (f x)) xs
  tally-map weight [] = refl
  tally-map weight (x ∷ xs) = omega (arith, tally-map weight xs)

  pub All-of_map : (P : B → Type 0) (xs : List A) → All (λ x. P (f x)) xs → All P (map f xs)
  All-of_map P [] h = tt
  All-of_map P (x ∷ xs) h = (h.0, All-of_map P xs h.1)

  pub map-set : (xs : List A) (i : ℕ) (a : A) → map f (set xs i a) ≡ set (map f xs) i (f a)
  map-set [] i a = refl
  map-set (x ∷ xs) zero a = refl
  map-set (x ∷ xs) (suc i) a = ap (λ q. f x ∷ q) (map-set xs i a)

  pub get_elem?-map :
      (xs : List A) (i : ℕ) (a : A) → get_elem? xs i ≡ some a → get_elem? (map f xs) i ≡ some (f a)
  get_elem?-map [] i a h = absurd (cc)
  get_elem?-map (x ∷ xs) zero a h = let e : x ≡ a = cc in ap (λ q. some (f q)) e
  get_elem?-map (x ∷ xs) (suc i) a h = get_elem?-map xs i a h
