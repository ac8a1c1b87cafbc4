-- ===== src/WorkDiv/Equal/Laws.antt =====
-- The common divisor in include/alpaka/workdiv/WorkDivHelpers.hpp, by the number of dimensions.
use alpaka.Base.{
  ℕ, zero, suc, ◌+◌, ◌%◌, ◌/◌, ◌≤◌, ◌<◌, ◌≡◌, refl, ap, subst, ◌∙◌, ◌⊎◌, inl, inr, List, [], ◌∷◌,
  ◌++◌, Option, none, some, arith, length, ltb, ◌==◌, if◌then◌else◌, Bool-cases, In, All,
}
use native.Mathlib.Nat.{div-le_self}
use alpaka.WorkDiv.Divisors.{set_insert, all_divisors_loop, all_divisors_less_or_equal}
use alpaka.WorkDiv.Divisors.Laws.{In-all_divisors_iff, all_divisors_exceed}
use alpaka.WorkDiv.Equal.{set_intersection, last_of, intersects_loop, max_common_divisor}

abbrev pub IsAscending : List ℕ → Type 0
IsAscending [] = Unit
IsAscending (x ∷ xs) = All (λ y. x < y) xs × IsAscending xs

In-above : (a x : ℕ) (xs : List ℕ) → All (λ y. a < y) xs → In x xs → a < x
In-above a x (y ∷ ys) h (inl e) = omega (arith, h.0)
In-above a x (y ∷ ys) h (inr k) = In-above a x ys h.1 k
In-above a x [] h k = absurd k

-- The intersection has the elements of both.
In-set_intersection : (x : ℕ) (xs ys : List ℕ) → In x (set_intersection xs ys) → In x xs × In x ys
unfolding set_intersection
In-set_intersection x [] ys h = absurd h
In-set_intersection x (a ∷ xs) [] h = absurd h
In-set_intersection x (a ∷ xs) (b ∷ ys) h = ground (
  arith,
  In-set_intersection x xs (b ∷ ys),
  In-set_intersection x (a ∷ xs) ys,
  In-set_intersection x xs ys,
)

In-set_intersection_of :
    (x : ℕ) (xs ys : List ℕ)
    → IsAscending xs
    → IsAscending ys
    → In x xs
    → In x ys
    → In x (set_intersection xs ys)
unfolding set_intersection
In-set_intersection_of x [] ys p q h k = absurd h
In-set_intersection_of x (a ∷ xs) [] p q h k = absurd k
In-set_intersection_of x (a ∷ xs) (b ∷ ys) p q h k = ground (
  arith,
  In-set_intersection_of x xs (b ∷ ys) p.1 q,
  In-set_intersection_of x (a ∷ xs) ys p q.1,
  In-set_intersection_of x xs ys p.1 q.1,
  In-above a x xs p.0,
  In-above b x ys q.0,
)

All-set_intersection {κ} :
    (P : ℕ → Type κ) (xs ys : List ℕ) → All P xs → All P (set_intersection xs ys)
unfolding set_intersection
All-set_intersection P [] ys h = tt
All-set_intersection P (a ∷ xs) [] h = tt
All-set_intersection P (a ∷ xs) (b ∷ ys) h = elim (Bool-cases (ltb a b)) [
  | inl less ↦ rw (less, All) (All-set_intersection P xs (b ∷ ys) h.1)
  | inr not_less ↦ elim (Bool-cases (ltb b a)) [
    | inl more ↦ rw (not_less, more, All) (All-set_intersection P (a ∷ xs) ys h)
    | inr same ↦ rw (not_less, same, All) (h.0, All-set_intersection P xs ys h.1)
  ]
]

IsAscending-set_intersection :
    (xs ys : List ℕ) → IsAscending xs → IsAscending (set_intersection xs ys)
unfolding set_intersection
IsAscending-set_intersection [] ys h = tt
IsAscending-set_intersection (a ∷ xs) [] h = tt
IsAscending-set_intersection (a ∷ xs) (b ∷ ys) h = elim (Bool-cases (ltb a b)) [
  | inl less ↦ rw (less, IsAscending) (IsAscending-set_intersection xs (b ∷ ys) h.1)
  | inr not_less ↦ elim (Bool-cases (ltb b a)) [
    | inl more ↦ rw (not_less, more, IsAscending) (IsAscending-set_intersection (a ∷ xs) ys h)
    | inr same ↦
        rw (not_less, same, IsAscending)
          (All-set_intersection (λ y. a < y) xs ys h.0, IsAscending-set_intersection xs ys h.1)
  ]
]

-- The end of an ascending list is its greatest element.
abbrev IsGreatest : List ℕ → Option ℕ → Type 0
IsGreatest l o =
    ((l ≡ []) × (o ≡ none)) ⊎ ((r : ℕ) × (o ≡ some r) × In r l × ((x : ℕ) → In x l → x ≤ r))

last_of-IsGreatest : (l : List ℕ) → IsAscending l → IsGreatest l (last_of l)
unfolding last_of
last_of-IsGreatest [] h = inl (refl, refl)
last_of-IsGreatest (x ∷ []) h = inr (x, refl, inl refl, λ y k. ground arith)
last_of-IsGreatest (x ∷ y ∷ ys) h = elim (last_of-IsGreatest (y ∷ ys) h.1) [
  | inl (e, _) ↦ absurd (cc)
  | inr (r, e, m, g) ↦ inr (
    r,
    e,
    inr m,
    λ z k. elim k [
      | inl here ↦ omega (arith, here, In-above x r (y ∷ ys) h.0 m)
      | inr later ↦ g z later
    ],
  )
]

abbrev last_set : List ℕ → List (List ℕ) → List ℕ
last_set d [] = d
last_set d (e ∷ es) = last_set e es

intersects_loop-last :
    (d0 : List ℕ) (i : ℕ) (d : List ℕ) (ds : List (List ℕ)) (s : List ℕ × List ℕ) (j : ℕ)
    → j ≡ i + length ds
    → (if j % 2 == 1
        then (intersects_loop d0 i (d ∷ ds) s).1
        else (intersects_loop d0 i (d ∷ ds) s).0)
      ≡ set_intersection d0 (last_set d ds)
unfolding intersects_loop
intersects_loop-last d0 i d [] s j h =
    let e : j ≡ i = omega arith in
    rw e (elim (Bool-cases (i % 2 == 1)) [ inl odd ↦ rw odd refl | inr even ↦ rw even refl ])
intersects_loop-last d0 i d (e ∷ es) s j h =
    intersects_loop-last d0 (i + 1) e es
      (if i % 2 == 1 then (d0, set_intersection d0 d) else (set_intersection d0 d, d0)) j
      (omega arith)

max_common_divisor_lem :
    (d0 d : List ℕ) (ds : List (List ℕ))
    → max_common_divisor (d0 ∷ d ∷ ds) ≡ last_of (set_intersection d0 (last_set d ds))
unfolding max_common_divisor
max_common_divisor_lem d0 d ds = ap last_of chosen
  where
    slots : List ℕ × List ℕ
    slots = intersects_loop d0 1 (d ∷ ds) ([], [])

    chosen :
        (if length (d ∷ ds) % 2 == 0 then slots.0 else slots.1)
        ≡ set_intersection d0 (last_set d ds)
    chosen = ground (arith, intersects_loop-last d0 1 d ds ([], []) (suc (length ds)) (omega arith))

last_set-append : (d z : List ℕ) (ds : List (List ℕ)) → last_set d (ds ++ z ∷ []) ≡ z
last_set-append d z [] = refl
last_set-append d z (e ∷ es) = last_set-append e z es

-- The divisors of the dimensions between the first and the last have no part in the result.
pub max_common_divisor_ends :
    (d0 z : List ℕ) (mid : List (List ℕ))
    → max_common_divisor (d0 ∷ (mid ++ z ∷ [])) ≡ last_of (set_intersection d0 z)
max_common_divisor_ends d0 z [] = max_common_divisor_lem d0 z []
max_common_divisor_ends d0 z (e ∷ es) =
    max_common_divisor_lem d0 e (es ++ z ∷ [])
    ∙ ap (λ t. last_of (set_intersection d0 t)) (last_set-append e z es)

-- With one dimension the set is empty, whatever its divisors are, and the result is undefined.
pub max_common_divisor_one : (d0 : List ℕ) → max_common_divisor (d0 ∷ []) ≡ none
unfolding max_common_divisor
max_common_divisor_one d0 = refl

-- Of two ascending sets that share an element, the result is the greatest shared element.
pub max_common_divisor_two :
    (d0 d1 : List ℕ) (c : ℕ)
    → IsAscending d0
    → IsAscending d1
    → In c d0
    → In c d1
    → (r : ℕ) × (max_common_divisor (d0 ∷ d1 ∷ []) ≡ some r)
      × In r d0
      × In r d1
      × ((x : ℕ) → In x d0 → In x d1 → x ≤ r)
max_common_divisor_two d0 d1 c p q in0 in1 =
    elim (last_of-IsGreatest both (IsAscending-set_intersection d0 d1 p)) [
      | inl (e, _) ↦ absurd (subst (In c) e (In-set_intersection_of c d0 d1 p q in0 in1))
      | inr (r, e, m, g) ↦
          let (m0, m1) = In-set_intersection r d0 d1 m in
          (
            r,
            max_common_divisor_lem d0 d1 [] ∙ e,
            m0,
            m1,
            λ x k0 k1. g x (In-set_intersection_of x d0 d1 p q k0 k1),
          )
    ]
  where
    both : List ℕ
    both = set_intersection d0 d1

All-lt_trans : (a b : ℕ) (ys : List ℕ) → a < b → All (λ y. b < y) ys → All (λ y. a < y) ys
All-lt_trans a b [] h k = tt
All-lt_trans a b (y ∷ ys) h k = (omega (arith, k.0), All-lt_trans a b ys h k.1)

All-set_insert :
    (b x : ℕ) (ys : List ℕ) → b < x → All (λ y. b < y) ys → All (λ y. b < y) (set_insert x ys)
unfolding set_insert
All-set_insert b x [] h k = (h, tt)
All-set_insert b x (y ∷ ys) h k = ground (arith, All-set_insert b x ys h k.1)

IsAscending-set_insert : (x : ℕ) (ys : List ℕ) → IsAscending ys → IsAscending (set_insert x ys)
unfolding set_insert
IsAscending-set_insert x [] h = (tt, tt)
IsAscending-set_insert x (y ∷ ys) h =
    ground (arith, All-lt_trans x y ys, All-set_insert y x ys, IsAscending-set_insert x ys h.1)

IsAscending-all_divisors_loop :
    (val left i : ℕ) (s : List ℕ) → IsAscending s → IsAscending (all_divisors_loop val left i s)
unfolding all_divisors_loop
IsAscending-all_divisors_loop val zero i s h = h
IsAscending-all_divisors_loop val (suc left) i s h =
    IsAscending-all_divisors_loop val left (i + 1) _
      (ground (arith, IsAscending-set_insert (val / i) s h))

pub IsAscending-all_divisors :
    (val max_divisor : ℕ) (s : List ℕ)
    → all_divisors_less_or_equal val max_divisor ≡ some s
    → IsAscending s
unfolding all_divisors_less_or_equal
IsAscending-all_divisors val m s h = ground (arith, IsAscending-all_divisors_loop val m 1 [] tt)

-- Two equal grid extents above the block extent give the grid extent itself, not a divisor that
-- respects the block extent.
pub max_common_divisor_exceeds :
    (grid block : ℕ)
    → 0 < block
    → block < grid
    → (s : List ℕ) × (all_divisors_less_or_equal grid block ≡ some s)
      × (max_common_divisor (s ∷ s ∷ []) ≡ some grid)
max_common_divisor_exceeds g b h k =
    let (s, e, at) = all_divisors_exceed g b h k in
    let (s', e', iff) = In-all_divisors_iff g b (omega arith) in
    let asc = IsAscending-all_divisors g b s e in
    let (r, found, m0, m1, greatest) = max_common_divisor_two s s g asc asc at at in
    let same : s ≡ s' = cc in
    let (i, a, c, d, q) = (iff r).0 (subst (In r) same m0) in
    let r-eq : r ≡ g = omega (arith, greatest g at at, q, div-le_self g i) in
    (s, e, found ∙ ap some r-eq)
