-- ===== src/NdLoop/Laws.antt =====
-- The nested loops of include/alpaka/meta/NdLoop.hpp, dimension by dimension.
use mathlib.Core.Path.{fun_ext}
use alpaka.Base.{
  ℕ, zero, suc, ◌+◌, ◌^◌, ◌<◌, ◌≡◌, refl, sym, ap, ◌∙◌, true, false, [], ◌∷◌, ◌++◌, Option, some,
  arith, length, get_or, set, ltb, All, wrap, wrap_of_lt,
}
use alpaka.Vec.Fold.{Vec}
use alpaka.Vec.Rearrange.{index_sequence}
use alpaka.NdLoop.{for_dim, nd_loop_detail}

get_or-at : (pre : Vec) (y : ℕ) (g : Vec) → get_or (pre ++ y ∷ g) (length pre) 0 ≡ y
get_or-at [] y g = refl
get_or-at (x ∷ pre) y g = get_or-at pre y g

set-at : (pre : Vec) (y v : ℕ) (g : Vec) → set (pre ++ y ∷ g) (length pre) v ≡ pre ++ v ∷ g
set-at [] y v g = refl
set-at (x ∷ pre) y v g = ap (λ t. x ∷ t) (set-at pre y v g)

snoc-append : (pre : Vec) (i : ℕ) (g : Vec) → (pre ++ i ∷ []) ++ g ≡ pre ++ i ∷ g
snoc-append [] i g = refl
snoc-append (x ∷ pre) i g = ap (λ t. x ∷ t) (snoc-append pre i g)

length-snoc : (pre : Vec) (i : ℕ) → length (pre ++ i ∷ []) ≡ length pre + 1
length-snoc [] i = refl
length-snoc (x ∷ pre) i = omega (arith, length-snoc pre i)

module _ {S : Type 0} where
  -- `left` rounds from `i` on.
  abbrev pub rounds : ℕ → ℕ → (ℕ → S → S) → S → S
  rounds zero i row s = s
  rounds (suc left) i row s = rounds left (suc i) row (row i s)

  -- The loops as mathematics.
  abbrev pub nested : Vec → (Vec → S → S) → S → S
  nested [] f s = f [] s
  nested (e ∷ es) f s = rounds e 0 (λ i. nested es (λ v. f (i ∷ v))) s

  module _ (w : ℕ) (pre : Vec) (n : ℕ) (body : Vec → S → Option (Vec × S)) (row : ℕ → S → S)
      (does : (i : ℕ) (g : Vec) (s : S)
        → length g ≡ n
        → (h : Vec) × (length h ≡ n) × (body (pre ++ i ∷ g) s ≡ some (pre ++ i ∷ h, row i s))) where
    for_dim-rounds :
        (fuel left i bound : ℕ) (g : Vec) (s : S)
        → i + left ≡ bound
        → bound < 2 ^ w
        → left < fuel
        → length g ≡ n
        → (h : Vec) × (length h ≡ n)
          × (for_dim w (length pre) bound body fuel (pre ++ i ∷ g) s
              ≡ some (pre ++ bound ∷ h, rounds left i row s))
    unfolding for_dim
    for_dim-rounds zero left i bound g s e small enough len = absurd (omega arith)
    for_dim-rounds (suc fuel) zero i bound g s e small enough len =
        let done : ltb (get_or (pre ++ i ∷ g) (length pre) 0) bound ≡ false =
          rw (get_or-at pre i g) (ground arith) in
        (
          g,
          len,
          rw (done, for_dim)
              (ap (λ t. some (pre ++ t ∷ g, s)) (let k : i ≡ bound = omega arith in k)),
        )
    for_dim-rounds (suc fuel) (suc left) i bound g s e small enough len =
        let more : ltb (get_or (pre ++ i ∷ g) (length pre) 0) bound ≡ true =
          rw (get_or-at pre i g) (ground arith) in
        let (h, len-h, does-i) = does i g s len in
        let step : set (pre ++ i ∷ h) (length pre)
              (wrap w (get_or (pre ++ i ∷ h) (length pre) 0 + 1))
            ≡ pre ++ suc i ∷ h =
          rw (get_or-at pre i h) (
            set-at pre i (wrap w (i + 1)) h
            ∙ ap (λ t. pre ++ t ∷ h)
                (wrap_of_lt w (omega arith) ∙ (let k : i + 1 ≡ suc i = omega arith in k))) in
        let (r, len-r, rest) =
          for_dim-rounds fuel left (suc i) bound h (row i s) (omega arith) small (omega arith)
            len-h in
        (r, len-r, rw (more, does-i, step, for_dim) rest)

  nested-cong : (es : Vec) (f g : Vec → S → S) → ((v : Vec) → f v ≡ g v) → nested es f ≡ nested es g
  nested-cong es f g h = ap (nested es) (fun_ext h)

  rounds-cong :
      (e : ℕ) (r t : ℕ → S → S) (s : S) → ((i : ℕ) → r i ≡ t i) → rounds e 0 r s ≡ rounds e 0 t s
  rounds-cong e r t s h = ap (λ q. rounds e 0 q s) (fun_ext h)

  -- The loops for the last dimensions, with an index fixed before them.
  pub nd_loop_detail-nested :
      (w : ℕ) (f : Vec → S → S) (epre es pre g : Vec) (extent : Vec) (k : ℕ) (s : S)
      → extent ≡ epre ++ es
      → k ≡ length epre
      → length pre ≡ k
      → length g ≡ length es
      → All (λ e. e < 2 ^ w) es
      → (h : Vec) × (length h ≡ length es)
        × (nd_loop_detail w (index_sequence k (length es)) extent f (pre ++ g) s
            ≡ some (pre ++ h, nested es (λ v. f (pre ++ v)) s))
  unfolding nd_loop_detail index_sequence
  nd_loop_detail-nested w f epre [] pre [] extent k s x kk pk len small = ([], refl, refl)
  nd_loop_detail-nested w f epre [] pre (y ∷ g) extent k s x kk pk len small = absurd (omega arith)
  nd_loop_detail-nested w f epre (e ∷ es) pre [] extent k s x kk pk len small = absurd (omega arith)
  nd_loop_detail-nested w f epre (e ∷ es) pre (y ∷ g) extent k s x kk pk len small =
      let row : ℕ → S → S = λ i. nested es (λ v. f ((pre ++ i ∷ []) ++ v)) in
      let body = nd_loop_detail w (index_sequence (k + 1) (length es)) extent f in
      let does : (i : ℕ) (g' : Vec) (t : S)
          → length g' ≡ length es
          → (h : Vec) × (length h ≡ length es)
            × (body (pre ++ i ∷ g') t ≡ some (pre ++ i ∷ h, row i t)) =
        λ i g' t l.
          let (h, lh, eq) =
            nd_loop_detail-nested w f (epre ++ e ∷ []) es (pre ++ i ∷ []) g' extent (k + 1) t
              (x ∙ sym (snoc-append epre e es)) (omega (arith, kk, length-snoc epre e))
              (omega (arith, pk, length-snoc pre i)) l small.1 in
          (
            h,
            lh,
            ap (λ q. body q t) (sym (snoc-append pre i g'))
                ∙ (eq
                    ∙ ap (λ q. let r : Option (Vec × S) = some (q, row i t) in r)
                        (snoc-append pre i h)),
          ) in
      let bound : get_or extent k 0 ≡ e = rw (x, kk) (get_or-at epre e es) in
      let first : set (pre ++ y ∷ g) k 0 ≡ pre ++ 0 ∷ g =
        ap (λ q. set (pre ++ y ∷ g) q 0) (sym pk) ∙ set-at pre y 0 g in
      let (h, lh, eq) =
        for_dim-rounds w pre (length es) body row does (suc e) e 0 e g s
          (let l : 0 + e ≡ e = omega arith in l) small.0 (let l : e < suc e = omega arith in l)
          (let l : length g ≡ length es = omega arith in l) in
      let rows : rounds e 0 row s ≡ rounds e 0 (λ i. nested es (λ v. f (pre ++ i ∷ v))) s =
        rounds-cong e row (λ i. nested es (λ v. f (pre ++ i ∷ v))) s
          (λ i.
            nested-cong es (λ v. f ((pre ++ i ∷ []) ++ v)) (λ v. f (pre ++ i ∷ v))
              (λ v. ap f (snoc-append pre i v))) in
      (
        e ∷ h,
        ap suc lh,
        ap (λ q. for_dim w k q body (suc q) (set (pre ++ y ∷ g) k 0) s) bound
            ∙ (ap (λ q. for_dim w k e body (suc e) q s) first
                ∙ (ap (λ q. for_dim w q e body (suc e) (pre ++ 0 ∷ g) s) (sym pk)
                    ∙ (eq
                        ∙ ap (λ q. let r : Option (Vec × S) = some (pre ++ e ∷ h, q) in r) rows))),
      )
