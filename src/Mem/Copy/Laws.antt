-- ===== src/Mem/Copy/Laws.antt =====
-- The copy and set tasks of include/alpaka/mem/buf/cpu/Copy.hpp and Set.hpp, byte by byte.
use native.Mathlib.Nat.{mod-eq_of_lt}
use alpaka.Base.{
  ℕ, suc, ◌+◌, ◌-◌, ◌*◌, ◌^◌, ◌≤◌, ◌<◌, ◌≡◌, refl, sym, ap, ap₂, ◌∙◌, inl, inr, [], ◌∷◌, ◌++◌, true,
  some, arith, length, get_or, All, length-append, wrap, wrap_of_lt, ◌==◌, leb, ltb, ◌&&◌,
  if◌then◌else◌,
}
use alpaka.Vec.Fold.{Vec, prod}
use alpaka.Vec.Fold.Laws.{product}
use alpaka.Vec.Rearrange.{sub_vec_begin, sub_vec_end}
use alpaka.Vec.Rearrange.Laws.{sub_vec-concat_vec, concat_vec-eq-append}
use alpaka.MapIdx.Spec.{
  IsInside, IsPositive, linear, unravel, linear-lt, unravel-linear, linear-unravel,
  unravel-IsInside, IsInside-IsPositive,
}
use alpaka.MapIdx.Extent.{map_idx_to_nd}
use alpaka.MapIdx.Extent.Laws.{map_idx_to_nd-eq-unravel}
use alpaka.NdLoop.{nd_loop_inc_idx}
use alpaka.NdLoop.Laws.{rounds}
use alpaka.NdLoop.Order.{nd_loop_inc_idx_lem, product-cases}
use alpaka.Mem.Copy.{
  Memory, memcpy, offset_bytes, View, innermost, extent_width_bytes, final, copy_rows,
}
use alpaka.Mem.Copy.Rows.{
  strides, span, Pitched, InRow, strides-lt-span, strides_unique, offset_bytes-eq-strides,
  rounds_untouched, rounds_written,
}

module _ (d s width : ℕ) (mem : Memory) where
  pub memcpy-outside : (a : ℕ) → ¬ InRow width d a → memcpy d s width mem a ≡ mem a
  unfolding memcpy
  memcpy-outside a h = ground arith

  pub memcpy-inside : (j : ℕ) → j < width → memcpy d s width mem (d + j) ≡ mem (s + j)
  unfolding memcpy
  memcpy-inside j h =
      let within : (leb d (d + j) && ltb (d + j) (d + width)) ≡ true = ground arith in
      rw within (ap mem (omega arith))

-- The parts of an extent and of the pitches that the loops use.
pub begin-rows : (es : Vec) (x : ℕ) → sub_vec_begin (length (es ++ x ∷ []) - 1) (es ++ x ∷ []) ≡ es
begin-rows es x =
    let count : length (es ++ x ∷ []) - 1 ≡ length es = omega (arith, length-append es (x ∷ [])) in
    ap₂ sub_vec_begin count (sym (concat_vec-eq-append es (x ∷ [])))
    ∙ (sub_vec-concat_vec es (x ∷ [])).0

pub end-pitches :
    (es : Vec) (x p : ℕ) (ps : Vec)
    → length es ≡ length ps
    → sub_vec_end (length (es ++ x ∷ []) - 1) (p ∷ ps) ≡ ps
end-pitches es x p ps h =
    let count : length (es ++ x ∷ []) - 1 ≡ length ps = omega (arith, length-append es (x ∷ [])) in
    ap₂ sub_vec_end count (sym (concat_vec-eq-append (p ∷ []) ps))
    ∙ (sub_vec-concat_vec (p ∷ []) ps).1

get_or-last : (es : Vec) (x : ℕ) → get_or (es ++ x ∷ []) (length es) 0 ≡ x
get_or-last [] x = refl
get_or-last (e ∷ es) x = get_or-last es x

pub innermost-append : (es : Vec) (x : ℕ) → innermost (es ++ x ∷ []) ≡ x
innermost-append es x =
    let count : length (es ++ x ∷ []) - 1 ≡ length es = omega (arith, length-append es (x ∷ [])) in
    ap (λ (n : ℕ). get_or (es ++ x ∷ []) n 0) count ∙ get_or-last es x

pub product-append : (es : Vec) (x : ℕ) → product (es ++ x ∷ []) ≡ product es * x
product-append [] x = omega arith
product-append (e ∷ es) x = grind (arith, product-append es x)

pub Pitched-length : (width : ℕ) (es ps : Vec) → Pitched width es ps → length es ≡ length ps
Pitched-length width [] [] r = refl
Pitched-length width [] (p ∷ ps) r = absurd r
Pitched-length width (e ∷ es) [] r = absurd r
Pitched-length width (e ∷ es) (p ∷ ps) r = ap suc (Pitched-length width es ps r.1)

pub IsInside-length : (is es : Vec) → IsInside is es → length is ≡ length es
IsInside-length [] [] h = refl
IsInside-length [] (e ∷ es) h = absurd h
IsInside-length (i ∷ is) [] h = absurd h
IsInside-length (i ∷ is) (e ∷ es) h = ap suc (IsInside-length is es h.1)

-- Row `k` of the loop, for an extent of rows whose size fits the index type.
module _ (w width : ℕ) (es : Vec) (fits : product es < 2 ^ w) where
  abbrev pub row : ℕ → Vec
  row k = map_idx_to_nd w k es

  row-unravel : (k : ℕ) → IsPositive es → k < product es → row k ≡ unravel k es
  row-unravel k pos h = map_idx_to_nd-eq-unravel w k es (omega arith) pos fits

  row-IsInside : (k : ℕ) → IsPositive es → k < product es → IsInside (row k) es
  row-IsInside k pos h = rw (row-unravel k pos h) (unravel-IsInside k es pos)

  row-linear : (idx : Vec) → IsInside idx es → row (linear idx es) ≡ idx
  row-linear idx h =
      row-unravel (linear idx es) (IsInside-IsPositive idx es h) (linear-lt idx es h)
      ∙ unravel-linear idx es h

  linear-row : (k : ℕ) → IsPositive es → k < product es → linear (row k) es ≡ k
  linear-row k pos h =
      ap (λ v. linear v es) (row-unravel k pos h) ∙ (linear-unravel k es pos ∙ mod-eq_of_lt h)

  positive : (k : ℕ) → k < product es → IsPositive es
  positive k h = elim (product-cases es) [ inl z ↦ absurd (omega arith) | inr pos ↦ pos ]

  offset-row :
      (ps : Vec) (k : ℕ)
      → Pitched width es ps
      → span width es ps ≤ 2 ^ w
      → 0 < width
      → k < product es
      → offset_bytes w (row k) ps ≡ strides (row k) ps
  offset-row ps k r room pos h =
      offset_bytes-eq-strides w (row k) ps
        (omega
          (arith, strides-lt-span width 0 (row k) es ps (row-IsInside k (positive k h) h) r pos))
        (IsInside-length (row k) es (row-IsInside k (positive k h) h)
          ∙ Pitched-length width es ps r)

-- A loop over the rows that writes row `idx` at its offset; `value idx j m` is byte `j` of the row.
module _ (w width d : ℕ) (es ps : Vec) (f : Vec → Memory → Memory) (value : Vec → ℕ → Memory → ℕ)
    (fits : product es < 2 ^ w) (small : All (λ e. e < 2 ^ w) es) (room : Pitched width es ps)
    (within : span width es ps ≤ 2 ^ w)
    (keeps : (idx : Vec) (m : Memory) (a : ℕ)
      → ¬ InRow width (d + offset_bytes w idx ps) a
      → f idx m a ≡ m a)
    (writes : (idx : Vec) (j : ℕ) (m : Memory)
      → j < width
      → f idx m (d + offset_bytes w idx ps + j) ≡ value idx j m)
    (stable : (idx idx' : Vec) (j : ℕ) (m : Memory)
      → IsInside idx es
      → IsInside idx' es
      → offset_bytes w idx' ps ≡ strides idx' ps
      → j < width
      → value idx j (f idx' m) ≡ value idx j m) where
  abbrev pub D : ℕ → ℕ
  D k = d + offset_bytes w (row w width es fits k) ps

  abbrev pub after : Memory → Memory
  after = rounds (product es) 0 (λ k. f (row w width es fits k))

  pub rows_written :
      (mem : Memory) (idx : Vec) (j : ℕ)
      → IsInside idx es
      → j < width
      → after mem (d + strides idx ps + j) ≡ value idx j mem
  rows_written mem idx j h l =
      let k : ℕ = linear idx es in
      let k-lt : k < product es = linear-lt idx es h in
      let here : row w width es fits k ≡ idx = row-linear w width es fits idx h in
      let pos : 0 < width = omega arith in
      let off : (k' : ℕ) → k' < product es → D k' ≡ d + strides (row w width es fits k') ps =
        λ k' u. ap (λ (t : ℕ). d + t) (offset-row w width es fits ps k' room within pos u) in
      let inside : (k' : ℕ) → k' < product es → IsInside (row w width es fits k') es =
        λ k' u. row-IsInside w width es fits k' (positive w width es fits k' u) u in
      let at : d + strides idx ps + j ≡ D k + j =
        omega (arith, off k k-lt, ap (λ v. strides v ps) here) in
      let written =
        rounds_written width (λ k. f (row w width es fits k)) D
          (λ k j m. value (row w width es fits k) j m)
          (λ k m a n. keeps (row w width es fits k) m a n)
          (λ k j m u. writes (row w width es fits k) j m u) (product es) 0 k j mem (omega arith)
          (omega arith) l
          (λ k' z u ne r.
            let same : row w width es fits k' ≡ row w width es fits k =
              strides_unique width (D k + j - D k') j (row w width es fits k')
                (row w width es fits k) es ps (inside k' (omega arith)) (inside k k-lt) room
                (omega (arith, r)) l (omega (arith, r, off k k-lt, off k' (omega arith))) in
            ne (
              sym (
                linear-row w width es fits k' (positive w width es fits k' (omega arith))
                  (omega arith))
              ∙ ap (λ v. linear v es) (same ∙ here)))
          (λ k' z u m'.
            stable (row w width es fits k) (row w width es fits k') j m' (inside k k-lt)
              (inside k' (omega arith))
              (offset-row w width es fits ps k' room within pos (omega arith)) l) in
      ap (after mem) at ∙ (written ∙ ap (λ v. value v j mem) here)

  pub rows_untouched :
      (mem : Memory) (a : ℕ)
      → ((idx : Vec) → IsInside idx es → ¬ InRow width (d + strides idx ps) a)
      → after mem a ≡ mem a
  rows_untouched mem a h =
      rounds_untouched width (λ k. f (row w width es fits k)) D
        (λ k j m. value (row w width es fits k) j m)
        (λ k m a n. keeps (row w width es fits k) m a n)
        (λ k j m u. writes (row w width es fits k) j m u) (product es) 0 mem a
        (λ k z u r.
          let pos : 0 < width = omega (arith, r) in
          let off = offset-row w width es fits ps k room within pos (omega arith) in
          h (row w width es fits k)
            (row-IsInside w width es fits k (positive w width es fits k (omega arith))
              (omega arith))
            (omega (arith, r, off), omega (arith, r, off)))

  pub loop_ends : (mem : Memory) → final (nd_loop_inc_idx w es f mem) ≡ some (after mem)
  loop_ends mem = let (idx, e) = nd_loop_inc_idx_lem w es f mem small fits in ap final e

abbrev pub view_of : Vec → ℕ → Vec → ℕ → View
view_of extent p ps ptr = record { extent = extent; pitch_bytes = p ∷ ps; ptr = ptr }

-- What the loops use, for rows `es` of `x` elements.
pub copy_rows-loop :
    (w elem_size x p q d s : ℕ) (es dp sp dst_extent src_extent : Vec) (mem : Memory)
    → x * elem_size < 2 ^ w
    → length es ≡ length dp
    → length es ≡ length sp
    → copy_rows w elem_size
        (es ++ x ∷ [])
        (view_of dst_extent p dp d)
        (view_of src_extent q sp s)
        mem
      ≡ (if prod w (es ++ x ∷ []) == 0
          then some mem
          else final (
              nd_loop_inc_idx w es
                (λ idx m.
                  memcpy (d + offset_bytes w idx dp) (s + offset_bytes w idx sp) (x * elem_size) m)
                mem))
unfolding copy_rows extent_width_bytes
copy_rows-loop w elem_size x p q d s es dp sp dst_extent src_extent mem b ld ls =
    let width : wrap w (innermost (es ++ x ∷ []) * elem_size) ≡ x * elem_size =
      ap (λ (t : ℕ). wrap w (t * elem_size)) (innermost-append es x) ∙ wrap_of_lt w b in
    rw (begin-rows es x, end-pitches es x p dp ld, end-pitches es x q sp ls, width) refl
