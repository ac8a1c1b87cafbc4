-- ===== src/Vec/Select/Laws.antt =====
-- `minElem` and `maxElem` of include/alpaka/vec/Vec.hpp: the pass that selects an element.
use alpaka.Base.{
  ℕ, suc, ◌+◌, ◌≤◌, ◌≡◌, refl, ◌⊎◌, inl, inr, Bool, true, false, [], ◌∷◌, some, arith, All,
  get_elem?, ltb, Bool-cases,
}
use alpaka.Vec.Fold.{Vec}
use alpaka.Vec.Select.{select_from, select, min_elem, max_elem}

-- A strict order as a test.
pub record IsStrict (better : ℕ → ℕ → Bool) : Type 0 where
  pub irrefl : (a : ℕ) → better a a ≡ false
  pub trans : (a b c : ℕ) → better a b ≡ true → better b c ≡ true → better a c ≡ true

module _ {better : ℕ → ℕ → Bool} (strict : IsStrict better) where
  open strict use {irrefl, trans}

  -- The result is the index held, with nothing better in the rest, or an index into the rest.
  abbrev Picks : ℕ → ℕ → ℕ → Vec → ℕ → Type 0
  Picks best idx i xs r =
      ((r ≡ idx) × All (λ x. better x best ≡ false) xs)
      ⊎ ((k b : ℕ) × (r ≡ i + k)
          × (get_elem? xs k ≡ some b)
          × (better b best ≡ true)
          × All (λ x. better x b ≡ false) xs)

  asym : (a b : ℕ) → better a b ≡ true → better b a ≡ false
  asym a b h = ground (arith, irrefl a, trans a b a)

  select_from-Picks :
      (best idx i : ℕ) (xs : Vec) → Picks best idx i xs (select_from better best idx i xs)
  unfolding select_from
  select_from-Picks best idx i [] = inl (refl, tt)
  select_from-Picks best idx i (x ∷ xs) = elim (Bool-cases (better x best)) [
    | inl take ↦ rw take (elim (select_from-Picks x i (i + 1) xs) [
      | inl (e, rest) ↦ inr (0, x, omega arith, refl, take, (irrefl x, rest))
      | inr (k, b, e, at, up, rest) ↦
          inr (suc k, b, omega arith, at, trans b x best up take, (asym b x up, rest))
    ])
    | inr keep ↦ rw keep (elim (select_from-Picks best idx (i + 1) xs) [
      | inl (e, rest) ↦ inl (e, (refl, rest))
      | inr (k, b, e, at, up, rest) ↦
          inr (suc k, b, omega arith, at, up, (ground (arith, trans x b best), rest))
    ])
  ]

  -- The selected index is one of the vector, and no component is better than the one there.
  pub select_lem :
      (x : ℕ) (xs : Vec)
      → (b : ℕ) × (get_elem? (x ∷ xs) (select better (x ∷ xs)) ≡ some b)
        × All (λ y. better y b ≡ false) (x ∷ xs)
  unfolding select
  select_lem x xs = elim (select_from-Picks x 0 1 xs) [
    | inl (e, rest) ↦ (x, rw e refl, (irrefl x, rest))
    | inr (k, b, e, at, up, rest) ↦ (
      b,
      let e' : select_from better x 0 1 xs ≡ suc k = omega (arith, e) in rw e' at,
      (asym b x up, rest),
    )
  ]

ltb-IsStrict : IsStrict ltb
ltb-IsStrict = record { irrefl = λ a. ground arith; trans = λ a b c p q. ground arith }

gtb-IsStrict : IsStrict (λ x best. ltb best x)
gtb-IsStrict = record { irrefl = λ a. ground arith; trans = λ a b c p q. ground arith }

All-le : (b : ℕ) (v : Vec) → All (λ y. ltb b y ≡ false) v → All (λ y. y ≤ b) v
All-le b [] h = tt
All-le b (x ∷ xs) h = (ground arith, All-le b xs h.1)

All-ge : (b : ℕ) (v : Vec) → All (λ y. ltb y b ≡ false) v → All (λ y. b ≤ y) v
All-ge b [] h = tt
All-ge b (x ∷ xs) h = (ground arith, All-ge b xs h.1)

-- `maxElem` is the index of a component that no other exceeds.
pub max_elem_lem :
    (x : ℕ) (xs : Vec)
    → (b : ℕ) × (get_elem? (x ∷ xs) (max_elem (x ∷ xs)) ≡ some b) × All (λ y. y ≤ b) (x ∷ xs)
unfolding max_elem
max_elem_lem x xs = let (b, at, h) = select_lem gtb-IsStrict x xs in (b, at, All-le b (x ∷ xs) h)

-- `minElem` is the index of a component that exceeds no other.
pub min_elem_lem :
    (x : ℕ) (xs : Vec)
    → (b : ℕ) × (get_elem? (x ∷ xs) (min_elem (x ∷ xs)) ≡ some b) × All (λ y. b ≤ y) (x ∷ xs)
unfolding min_elem
min_elem_lem x xs = let (b, at, h) = select_lem ltb-IsStrict x xs in (b, at, All-ge b (x ∷ xs) h)
