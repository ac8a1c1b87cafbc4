-- ===== src/NdLoop/Order.antt =====
-- The nested loops of include/alpaka/meta/NdLoop.hpp against one loop over the linear index.
use alpaka.Base.{
  ℕ, zero, suc, ◌+◌, ◌*◌, ◌^◌, ◌≤◌, ◌<◌, ◌≡◌, refl, sym, ap, ◌∙◌, ◌⊎◌, inl, inr, [], ◌∷◌, Option,
  some, arith, length, All, length-replicate,
}
use mathlib.Core.Path.{fun_ext}
use alpaka.Vec.Fold.{Vec, zeros}
use alpaka.Vec.Fold.Laws.{product}
use alpaka.MapIdx.Spec.{IsPositive, unravel, unravel-digit}
use alpaka.MapIdx.Extent.{map_idx_to_nd}
use alpaka.MapIdx.Extent.Laws.{map_idx_to_nd-eq-unravel}
use alpaka.NdLoop.{nd_loop, nd_loop_inc_idx}
use alpaka.NdLoop.Laws.{rounds, nested, nd_loop_detail-nested}

module _ {S : Type 0} where
  -- Rounds that do the same.
  rounds-eq :
      (n i j : ℕ) (F G : ℕ → S → S) (s : S)
      → ((k : ℕ) → k < n → F (i + k) ≡ G (j + k))
      → rounds n i F s ≡ rounds n j G s
  rounds-eq zero i j F G s h = refl
  rounds-eq (suc n) i j F G s h =
      let head : F i s ≡ G j s =
        ap (λ (q : ℕ). F q s) (let e : i ≡ i + 0 = omega arith in e)
        ∙ (ap (λ (q : S → S). q s) (h 0 (omega arith))
            ∙ ap (λ (q : ℕ). G q s) (let e : j + 0 ≡ j = omega arith in e)) in
      ap (rounds n (suc i) F) head
      ∙ rounds-eq n (suc i) (suc j) F G (G j s) (λ k l.
        ap F (let e : suc i + k ≡ i + suc k = omega arith in e)
        ∙ (h (suc k) (omega arith) ∙ ap G (let e : j + suc k ≡ suc j + k = omega arith in e)))

  rounds-add :
      (a b n i : ℕ) (F : ℕ → S → S) (s : S)
      → n ≡ a + b
      → rounds n i F s ≡ rounds b (i + a) F (rounds a i F s)
  rounds-add zero b n i F s e =
      ap (λ (q : ℕ). rounds q i F s) (let k : n ≡ b = omega arith in k)
      ∙ ap (λ (q : ℕ). rounds b q F s) (let k : i ≡ i + 0 = omega arith in k)
  rounds-add (suc a) b zero i F s e = absurd (omega arith)
  rounds-add (suc a) b (suc n) i F s e =
      rounds-add a b n (suc i) F (F i s) (omega arith)
      ∙ ap (λ (q : ℕ). rounds b q F (rounds a (suc i) F (F i s)))
          (let k : suc i + a ≡ i + suc a = omega arith in k)

  -- A loop of `left` loops of `p` rounds.
  rounds-mul :
      (left p i n : ℕ) (F : ℕ → S → S) (G : ℕ → ℕ → S → S) (s : S)
      → n ≡ left * p
      → ((q k : ℕ) → i ≤ q → q < i + left → k < p → F (q * p + k) ≡ G q k)
      → rounds left i (λ q. rounds p 0 (G q)) s ≡ rounds n (i * p) F s
  rounds-mul zero p i n F G s e h =
      ap (λ (q : ℕ). rounds q (i * p) F s) (let k : 0 ≡ n = grind arith in k)
  rounds-mul (suc left) p i n F G s e h =
      let split : n ≡ p + left * p = grind arith in
      let next : suc i * p ≡ i * p + p = grind arith in
      let first : rounds p 0 (G i) s ≡ rounds p (i * p) F s = sym (
        rounds-eq p (i * p) 0 F (G i) s (λ k l.
          h i k (omega arith) (omega arith) l ∙ ap (G i) (let e : k ≡ 0 + k = omega arith in e))) in
      ap (rounds left (suc i) (λ q. rounds p 0 (G q))) first
      ∙ (rounds-mul left p (suc i) (left * p) F G (rounds p (i * p) F s) refl
            (λ q k a b l. h q k (omega arith) (omega arith) l)
          ∙ (ap (λ (q : ℕ). rounds (left * p) q F (rounds p (i * p) F s)) next
              ∙ sym (rounds-add p (left * p) n (i * p) F s split)))

  nested-eq-rounds :
      (es : Vec) (f : Vec → S → S) (s : S)
      → IsPositive es
      → nested es f s ≡ rounds (product es) 0 (λ j. f (unravel j es)) s
  nested-eq-rounds [] f s pos = unfold unravel in refl
  nested-eq-rounds (e ∷ es) f s pos =
      let F : ℕ → S → S = λ j. f (unravel j (e ∷ es)) in
      let G : ℕ → ℕ → S → S = λ i j. f (i ∷ unravel j es) in
      let p : ℕ = product es in
      ap (λ r. rounds e 0 r s)
        (fun_ext (λ i. fun_ext (λ t. nested-eq-rounds es (λ v. f (i ∷ v)) t pos.1)))
      ∙ (rounds-mul e p 0 (e * p) F G s refl
            (λ q k a b l. ap f (unravel-digit q k e es (omega arith) l pos.1))
          ∙ ap (λ (q : ℕ). rounds (e * p) q F s) (let z : 0 * p ≡ 0 = grind arith in z))

  rounds_idle :
      (n i : ℕ) (r : ℕ → S → S) (s : S) → ((j : ℕ) (t : S) → r j t ≡ t) → rounds n i r s ≡ s
  rounds_idle zero i r s h = refl
  rounds_idle (suc n) i r s h = rounds_idle n (suc i) r (r i s) h ∙ h i s

  nested_empty : (es : Vec) (f : Vec → S → S) (s : S) → product es ≡ 0 → nested es f s ≡ s
  nested_empty [] f s h = absurd (omega arith)
  nested_empty (zero ∷ es) f s h = refl
  nested_empty (suc e ∷ es) f s h =
      rounds_idle (suc e) 0 (λ i. nested es (λ v. f (i ∷ v))) s
        (λ j t. nested_empty es (λ v. f (j ∷ v)) t (grind arith))

pub product-cases : (es : Vec) → (product es ≡ 0) ⊎ IsPositive es
product-cases [] = inr tt
product-cases (zero ∷ es) = inl (grind arith)
product-cases (suc e ∷ es) = elim (product-cases es) [
  | inl z ↦ inl (grind arith)
  | inr pos ↦ inr (omega arith, pos)
]

-- For extents that fit the index type, and so does their product, `ndLoopIncIdx` ends and does what one
-- loop over the linear indices would do: the function is called once for each, from 0 up to the product of the
-- extents, with the index that `mapIdx` gives for it, and not at all where an extent is 0.
pub nd_loop_inc_idx_lem :
    {S : Type 0} (w : ℕ) (extent : Vec) (f : Vec → S → S) (s : S)
    → All (λ e. e < 2 ^ w) extent
    → product extent < 2 ^ w
    → (idx : Vec) × (nd_loop_inc_idx w extent f s
        ≡ some (idx, rounds (product extent) 0 (λ j. f (map_idx_to_nd w j extent)) s))
unfolding nd_loop_inc_idx nd_loop zeros
nd_loop_inc_idx_lem {S} w extent f s small fits =
    let (idx, len, e) =
      nd_loop_detail-nested w f [] extent [] (zeros (length extent)) extent 0 s refl refl refl
        (length-replicate {A = ℕ} (length extent) 0) small in
    let same : nested extent f s ≡ rounds (product extent) 0 (λ j. f (map_idx_to_nd w j extent)) s =
      elim (product-cases extent) [
        | inl z ↦
            nested_empty extent f s z
            ∙ ap (λ (q : ℕ). rounds q 0 (λ j. f (map_idx_to_nd w j extent)) s) (sym z)
        | inr pos ↦
            nested-eq-rounds extent f s pos
            ∙ rounds-eq (product extent) 0 0 (λ j. f (unravel j extent))
                (λ j. f (map_idx_to_nd w j extent)) s
                (λ k l.
                  ap f (sym (map_idx_to_nd-eq-unravel w (0 + k) extent (omega arith) pos fits)))
      ] in
    (idx, e ∙ ap (λ q. let r : Option (Vec × S) = some (idx, q) in r) same)
