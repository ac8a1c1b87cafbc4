-- ===== src/Mem/Copy/Bytes.antt =====
-- What the copy and set tasks of include/alpaka/mem/buf/cpu/Copy.hpp and Set.hpp leave in memory.
use alpaka.Base.{
  ℕ, ◌+◌, ◌-◌, ◌*◌, ◌^◌, ◌≤◌, ◌<◌, ◌≡◌, ◌⊎◌, refl, ap, ◌∙◌, inl, inr, [], ◌∷◌, ◌++◌, some, arith,
  All, ◌==◌, Bool-cases,
}
use alpaka.Vec.Fold.{Vec, prod}
use alpaka.Vec.Fold.Laws.{product, prod_of_lt}
use alpaka.MapIdx.Spec.{IsInside, linear-lt}
use alpaka.Mem.Copy.{Memory, memcpy, offset_bytes, View, copy_rows, copy}
use alpaka.Mem.Copy.Rows.{strides, span, Pitched, InRow, strides-lt-span, offset_bytes-eq-strides}
use alpaka.Mem.Copy.Laws.{
  memcpy-outside, memcpy-inside, Pitched-length, product-append, after, rows_written,
  rows_untouched, loop_ends, view_of, IsInside-length, copy_rows-loop,
}

-- Byte `j` of each row has the value `value idx j`, and all other bytes are those of `mem`.
abbrev pub Rewritten : ℕ → ℕ → Vec → Vec → (Vec → ℕ → ℕ) → Memory → Memory → Type 0
Rewritten width d es ps value mem m =
    ((idx : Vec) (j : ℕ) → IsInside idx es → j < width → m (d + strides idx ps + j) ≡ value idx j)
    × ((a : ℕ)
        → ((idx : Vec) → IsInside idx es → ¬ InRow width (d + strides idx ps) a)
        → m a ≡ mem a)

-- An extent of no elements has no row, or rows of no bytes.
pub nothing-Rewritten :
    (x elem_size d : ℕ) (es ps : Vec) (value : Vec → ℕ → ℕ) (mem : Memory)
    → product es * x ≡ 0
    → Rewritten (x * elem_size) d es ps value mem mem
nothing-Rewritten x elem_size d es ps value mem z = (
  λ idx j h l.
      let some_row = linear-lt idx es h in
      absurd (let p : 0 < product es = omega arith in let q : 0 < x = grind arith in grind arith),
  λ a h. refl,
)

source_offset :
    (w width : ℕ) (es sp idx : Vec)
    → IsInside idx es
    → Pitched width es sp
    → span width es sp ≤ 2 ^ w
    → 0 < width
    → offset_bytes w idx sp ≡ strides idx sp
source_offset w width es sp idx h rs ws pos =
    offset_bytes-eq-strides w idx sp (omega (arith, strides-lt-span width 0 idx es sp h rs pos))
      (IsInside-length idx es h ∙ Pitched-length width es sp rs)

-- No byte is read where one is written.
separate :
    (width d s : ℕ) (es dp sp idx idx' : Vec) (j : ℕ)
    → IsInside idx es
    → IsInside idx' es
    → Pitched width es dp
    → Pitched width es sp
    → (d + span width es dp ≤ s) ⊎ (s + span width es sp ≤ d)
    → j < width
    → ¬ InRow width (d + strides idx' dp) (s + strides idx sp + j)
separate width d s es dp sp idx idx' j h h' rd rs apart l r =
    let read = strides-lt-span width j idx es sp h rs l in
    let last = strides-lt-span width (width - 1) idx' es dp h' rd (omega arith) in
    elim apart [ inl a ↦ absurd (omega (arith, r)) | inr a ↦ absurd (omega (arith, r)) ]

copy_rows-Rewritten :
    (w elem_size x p q d s : ℕ) (es dp sp dst_extent src_extent : Vec) (mem : Memory)
    → 0 < w
    → All (λ e. e < 2 ^ w) es
    → product es < 2 ^ w
    → product es * x < 2 ^ w
    → x * elem_size < 2 ^ w
    → Pitched (x * elem_size) es dp
    → Pitched (x * elem_size) es sp
    → span (x * elem_size) es dp ≤ 2 ^ w
    → span (x * elem_size) es sp ≤ 2 ^ w
    → (d + span (x * elem_size) es dp ≤ s) ⊎ (s + span (x * elem_size) es sp ≤ d)
    → (m : Memory) × (copy_rows w elem_size
          (es ++ x ∷ [])
          (view_of dst_extent p dp d)
          (view_of src_extent q sp s)
          mem
        ≡ some m)
      × Rewritten (x * elem_size) d es dp (λ idx j. mem (s + strides idx sp + j)) mem m
copy_rows-Rewritten w elem_size x p q d s es dp sp dst_extent src_extent mem wpos small fits all_fit
      b rd rs wd ws apart =
    let width : ℕ = x * elem_size in
    let loop =
      copy_rows-loop w elem_size x p q d s es dp sp dst_extent src_extent mem b
        (Pitched-length width es dp rd) (Pitched-length width es sp rs) in
    let size : prod w (es ++ x ∷ []) ≡ product es * x =
      prod_of_lt w (es ++ x ∷ []) wpos (omega (arith, product-append es x)) ∙ product-append es x in
    elim (Bool-cases (prod w (es ++ x ∷ []) == 0)) [
      | inl empty ↦ (
        mem,
        loop ∙ rw empty refl,
        nothing-Rewritten x elem_size d es dp (λ idx j. mem (s + strides idx sp + j)) mem
            (ground (arith, empty, size)),
      )
      | inr more ↦
          let f : Vec → Memory → Memory =
            λ idx m. memcpy (d + offset_bytes w idx dp) (s + offset_bytes w idx sp) width m in
          let value : Vec → ℕ → Memory → ℕ = λ idx j m. m (s + offset_bytes w idx sp + j) in
          let keeps : (idx : Vec) (m : Memory) (a : ℕ)
              → ¬ InRow width (d + offset_bytes w idx dp) a
              → f idx m a ≡ m a =
            λ idx m a h.
              memcpy-outside (d + offset_bytes w idx dp) (s + offset_bytes w idx sp) width m a h in
          let writes : (idx : Vec) (j : ℕ) (m : Memory)
              → j < width
              → f idx m (d + offset_bytes w idx dp + j) ≡ value idx j m =
            λ idx j m l.
              memcpy-inside (d + offset_bytes w idx dp) (s + offset_bytes w idx sp) width m j l in
          let stable : (idx idx' : Vec) (j : ℕ) (m : Memory)
              → IsInside idx es
              → IsInside idx' es
              → offset_bytes w idx' dp ≡ strides idx' dp
              → j < width
              → value idx j (f idx' m) ≡ value idx j m =
            λ idx idx' j m h h' e l. keeps idx' m (s + offset_bytes w idx sp + j) (λ r.
              separate width d s es dp sp idx idx' j h h' rd rs apart l
                (omega (arith, r, e, source_offset w width es sp idx h rs ws (omega arith)))) in
          (
            after w width d es dp f value fits small rd wd keeps writes stable mem,
            loop
                ∙ (rw more refl
                    ∙ loop_ends w width d es dp f value fits small rd wd keeps writes stable mem),
            (
              λ idx j h l.
                  rows_written w width d es dp f value fits small rd wd keeps writes stable mem idx
                    j h l
                  ∙ ap (λ (t : ℕ). mem (s + t + j))
                      (source_offset w width es sp idx h rs ws (omega arith)),
              λ a h.
                  rows_untouched w width d es dp f value fits small rd wd keeps writes stable mem a
                    h,
            ),
          )
    ]

copy-eq-copy_rows :
    (w elem_size e x : ℕ) (es : Vec) (dst src : View) (mem : Memory)
    → copy w elem_size ((e ∷ es) ++ x ∷ []) dst src mem
      ≡ copy_rows w elem_size ((e ∷ es) ++ x ∷ []) dst src mem
unfolding copy
copy-eq-copy_rows w elem_size e x [] dst src mem = refl
copy-eq-copy_rows w elem_size e x (e' ∷ es) dst src mem = refl

-- A copy in two or more dimensions, for extents, positions and rows that fit the index type of `w` bits, between two
-- places that do not overlap, both with pitches that leave room for what lies below them: it ends, byte `j` of each
-- row of the destination is byte `j` of the row of the source with the same index, and all bytes outside these rows,
-- the padding among them, are as before. The extent has rows of `x` elements, and may be empty.
pub copy-Rewritten :
    (w elem_size e x p q d s : ℕ) (es dp sp dst_extent src_extent : Vec) (mem : Memory)
    → 0 < w
    → All (λ e. e < 2 ^ w) (e ∷ es)
    → product (e ∷ es) < 2 ^ w
    → product (e ∷ es) * x < 2 ^ w
    → x * elem_size < 2 ^ w
    → Pitched (x * elem_size) (e ∷ es) dp
    → Pitched (x * elem_size) (e ∷ es) sp
    → span (x * elem_size) (e ∷ es) dp ≤ 2 ^ w
    → span (x * elem_size) (e ∷ es) sp ≤ 2 ^ w
    → (d + span (x * elem_size) (e ∷ es) dp ≤ s) ⊎ (s + span (x * elem_size) (e ∷ es) sp ≤ d)
    → (m : Memory) × (copy w elem_size
          ((e ∷ es) ++ x ∷ [])
          (view_of dst_extent p dp d)
          (view_of src_extent q sp s)
          mem
        ≡ some m)
      × Rewritten (x * elem_size) d (e ∷ es) dp (λ idx j. mem (s + strides idx sp + j)) mem m
copy-Rewritten w elem_size e x p q d s es dp sp dst_extent src_extent mem a b c f g h i j k l =
    let (m, eq, done) =
      copy_rows-Rewritten w elem_size x p q d s (e ∷ es) dp sp dst_extent src_extent mem a b c f g h
        i j k l in
    (m, copy-eq-copy_rows w elem_size e x es _ _ mem ∙ eq, done)
