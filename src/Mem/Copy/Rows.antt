-- ===== src/Mem/Copy/Rows.antt =====
-- The rows that the loops of include/alpaka/mem/buf/cpu/Copy.hpp and Set.hpp write: where they lie, and what is
-- in them after all.
use native.Mathlib.Nat.{mul-add-div_right, div-eq_of_lt}
use alpaka.Base.{
  ℕ, zero, suc, ◌+◌, ◌*◌, ◌/◌, ◌^◌, ◌≤◌, ◌<◌, ◌≡◌, ◌≢◌, refl, sym, ap, ap₂, ◌∙◌, inl, inr, [], ◌∷◌,
  arith, length, wrap, wrap_of_lt, ◌==◌, Bool-cases,
}
use alpaka.Vec.Fold.{Vec}
use alpaka.Vec.Elementwise.{mul}
use alpaka.MapIdx.Spec.{IsInside}
use alpaka.NdLoop.Laws.{rounds}
use alpaka.Mem.Copy.{Memory, fold_all, offset_bytes}

-- The position of a row without a width.
abbrev pub strides : Vec → Vec → ℕ
strides [] ps = 0
strides (i ∷ is) [] = 0
strides (i ∷ is) (p ∷ ps) = i * p + strides is ps

-- The bytes from the first to the last of a block of rows, padding included.
abbrev pub span : ℕ → Vec → Vec → ℕ
span width [] ps = width
span width (e ∷ es) [] = 0
span width (e ∷ es) (p ∷ ps) = e * p

-- Each pitch leaves room for what lies below it.
abbrev pub Pitched : ℕ → Vec → Vec → Type 0
Pitched width [] [] = Unit
Pitched width [] (p ∷ ps) = ⊥
Pitched width (e ∷ es) [] = ⊥
Pitched width (e ∷ es) (p ∷ ps) = (span width es ps ≤ p) × Pitched width es ps

product-step : (i e p t : ℕ) → i < e → t < p → i * p + t < e * p
product-step i e p t h k = grind arith

pub strides-lt-span :
    (width j : ℕ) (is es ps : Vec)
    → IsInside is es
    → Pitched width es ps
    → j < width
    → strides is ps + j < span width es ps
strides-lt-span width j [] [] [] h r k = omega arith
strides-lt-span width j [] [] (p ∷ ps) h r k = absurd r
strides-lt-span width j [] (e ∷ es) ps h r k = absurd h
strides-lt-span width j (i ∷ is) [] ps h r k = absurd h
strides-lt-span width j (i ∷ is) (e ∷ es) [] h r k = absurd r
strides-lt-span width j (i ∷ is) (e ∷ es) (p ∷ ps) h r k = omega (
  arith,
  product-step i e p (strides is ps + j) h.0
      (omega (arith, strides-lt-span width j is es ps h.1 r.1 k)),
)

digits_unique : (i i' p t t' : ℕ) → t < p → t' < p → i * p + t ≡ i' * p + t' → i ≡ i'
digits_unique i i' p t t' h k e =
    sym (quotient i t h) ∙ (ap (λ (x : ℕ). x / p) e ∙ quotient i' t' k)
  where
    quotient : (a b : ℕ) → b < p → (a * p + b) / p ≡ a
    quotient a b l = mul-add-div_right (omega arith) a b ∙ omega (arith, div-eq_of_lt l)

-- A byte lies in one row at most.
pub strides_unique :
    (width j j' : ℕ) (is is' es ps : Vec)
    → IsInside is es
    → IsInside is' es
    → Pitched width es ps
    → j < width
    → j' < width
    → strides is ps + j ≡ strides is' ps + j'
    → is ≡ is'
strides_unique width j j' [] [] es ps h h' r k k' e = refl
strides_unique width j j' [] (i ∷ is') [] ps h h' r k k' e = absurd h'
strides_unique width j j' [] (i ∷ is') (e' ∷ es) ps h h' r k k' e = absurd h
strides_unique width j j' (i ∷ is) [] [] ps h h' r k k' e = absurd h
strides_unique width j j' (i ∷ is) [] (e' ∷ es) ps h h' r k k' e = absurd h'
strides_unique width j j' (i ∷ is) (i' ∷ is') [] ps h h' r k k' e = absurd h
strides_unique width j j' (i ∷ is) (i' ∷ is') (e' ∷ es) [] h h' r k k' e = absurd r
strides_unique width j j' (i ∷ is) (i' ∷ is') (e' ∷ es) (p ∷ ps) h h' r k k' e =
    let below = strides-lt-span width j is es ps h.1 r.1 k in
    let below' = strides-lt-span width j' is' es ps h'.1 r.1 k' in
    let same : i ≡ i' =
      digits_unique i i' p (strides is ps + j) (strides is' ps + j') (omega arith) (omega arith)
        (omega arith) in
    ap₂ ◌∷◌ same (
      strides_unique width j j' is is' es ps h.1 h'.1 r.1 k k'
        (omega (arith, ap (λ (t : ℕ). t * p) same)))

-- Without a wrap the fold of the products is the position.
pub offset_bytes-eq-strides :
    (w : ℕ) (is ps : Vec)
    → strides is ps < 2 ^ w
    → length is ≡ length ps
    → offset_bytes w is ps ≡ strides is ps
unfolding offset_bytes fold_all mul
offset_bytes-eq-strides w [] [] h l = refl
offset_bytes-eq-strides w [] (p ∷ ps) h l = absurd (omega arith)
offset_bytes-eq-strides w (i ∷ is) [] h l = absurd (omega arith)
offset_bytes-eq-strides w (i ∷ []) (p ∷ []) h l = wrap_of_lt w (omega arith) ∙ omega arith
offset_bytes-eq-strides w (i ∷ []) (p ∷ p' ∷ ps) h l = absurd (omega arith)
offset_bytes-eq-strides w (i ∷ i' ∷ is) (p ∷ []) h l = absurd (omega arith)
offset_bytes-eq-strides w (i ∷ i' ∷ is) (p ∷ p' ∷ ps) h l =
    let rest : offset_bytes w (i' ∷ is) (p' ∷ ps) ≡ strides (i' ∷ is) (p' ∷ ps) =
      offset_bytes-eq-strides w (i' ∷ is) (p' ∷ ps) (omega arith) (omega arith) in
    ap (λ (t : ℕ). wrap w (wrap w (i * p) + t)) rest
    ∙ (ap (λ (t : ℕ). wrap w (t + strides (i' ∷ is) (p' ∷ ps))) (wrap_of_lt w (omega arith))
        ∙ wrap_of_lt w h)

-- An address in the row that begins at `d`.
abbrev pub InRow : ℕ → ℕ → ℕ → Type 0
InRow width d a = (d ≤ a) × (a < d + width)

-- A loop that writes one row in each round: `D k` is where row `k` begins, and `value k j m` its byte `j`.
module _ (width : ℕ) (op : ℕ → Memory → Memory) (D : ℕ → ℕ) (value : ℕ → ℕ → Memory → ℕ)
    (keeps : (k : ℕ) (m : Memory) (a : ℕ) → ¬ InRow width (D k) a → op k m a ≡ m a)
    (writes : (k j : ℕ) (m : Memory) → j < width → op k m (D k + j) ≡ value k j m) where
  pub rounds_untouched :
      (n i : ℕ) (m : Memory) (a : ℕ)
      → ((k : ℕ) → i ≤ k → k < i + n → ¬ InRow width (D k) a)
      → rounds n i op m a ≡ m a
  rounds_untouched zero i m a h = refl
  rounds_untouched (suc n) i m a h =
      rounds_untouched n (suc i) (op i m) a (λ k l u. h k (omega arith) (omega arith))
      ∙ keeps i m a (h i (omega arith) (omega arith))

  pub rounds_written :
      (n i k j : ℕ) (m : Memory)
      → i ≤ k
      → k < i + n
      → j < width
      → ((k' : ℕ) → i ≤ k' → k' < i + n → k' ≢ k → ¬ InRow width (D k') (D k + j))
      → ((k' : ℕ) → i ≤ k' → k' < i + n → (m' : Memory) → value k j (op k' m') ≡ value k j m')
      → rounds n i op m (D k + j) ≡ value k j m
  rounds_written zero i k j m l u s apart stable = absurd (omega arith)
  rounds_written (suc n) i k j m l u s apart stable = elim (Bool-cases (i == k)) [
    | inl eq ↦
        let ik : i ≡ k = ground (arith, eq) in
        rounds_untouched n (suc i) (op i m) (D k + j)
          (λ k' l' u'. apart k' (omega arith) (omega arith) (omega arith))
        ∙ (ap (λ (q : ℕ). op q m (D k + j)) ik ∙ writes k j m s)
    | inr ne ↦
        let next : i ≢ k = ground (arith, ne) in
        rounds_written n (suc i) k j (op i m) (omega arith) (omega arith) s
          (λ k' l' u' d. apart k' (omega arith) (omega arith) d)
          (λ k' l' u' m'. stable k' (omega arith) (omega arith) m')
        ∙ stable i (omega arith) (omega arith) m
  ]
