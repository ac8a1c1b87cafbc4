-- ===== src/Mem/Copy/Fill.antt =====
-- What the set task of include/alpaka/mem/buf/cpu/Set.hpp leaves in memory, and what the assertions of the copy
-- and set tasks let pass.
use alpaka.Base.{
  ℕ, ◌+◌, ◌*◌, ◌^◌, ◌≤◌, ◌<◌, ◌≡◌, refl, ap, ◌∙◌, inl, inr, true, ◌&&◌, [], ◌∷◌, ◌++◌, some, arith,
  length, All, wrap, wrap_of_lt, ◌==◌, leb, ltb, Bool-cases, if◌then◌else◌,
}
use alpaka.Vec.Fold.{Vec, prod}
use alpaka.Vec.Fold.Laws.{product, prod_of_lt}
use alpaka.MapIdx.Spec.{IsInside}
use alpaka.NdLoop.{nd_loop_inc_idx}
use alpaka.Mem.Copy.{
  Memory, memset, offset_bytes, View, innermost, final, set_rows, set_bytes, extent_width_bytes,
  extent_asserted,
}
use alpaka.Mem.Copy.Rows.{strides, span, Pitched, InRow}
use alpaka.Mem.Copy.Laws.{
  Pitched-length, product-append, after, rows_written, rows_untouched, loop_ends, view_of,
  begin-rows, end-pitches, innermost-append,
}
use alpaka.Mem.Copy.Bytes.{Rewritten, nothing-Rewritten}

module _ (d byte width : ℕ) (mem : Memory) where
  memset-outside : (a : ℕ) → ¬ InRow width d a → memset d byte width mem a ≡ mem a
  unfolding memset
  memset-outside a h = ground arith

  memset-inside : (j : ℕ) → j < width → memset d byte width mem (d + j) ≡ byte
  unfolding memset
  memset-inside j h =
      let within : (leb d (d + j) && ltb (d + j) (d + width)) ≡ true = ground arith in
      rw within refl

set_rows-loop :
    (w elem_size byte x p d : ℕ) (es dp extent : Vec) (mem : Memory)
    → x * elem_size < 2 ^ w
    → length es ≡ length dp
    → set_rows w elem_size byte (es ++ x ∷ []) (view_of extent p dp d) mem ≡ (
        if prod w (es ++ x ∷ []) == 0
        then some mem
        else final (
            nd_loop_inc_idx w es
              (λ idx m. memset (d + offset_bytes w idx dp) byte (x * elem_size) m)
              mem))
unfolding set_rows extent_width_bytes
set_rows-loop w elem_size byte x p d es dp extent mem b ld =
    let width : wrap w (innermost (es ++ x ∷ []) * elem_size) ≡ x * elem_size =
      ap (λ (t : ℕ). wrap w (t * elem_size)) (innermost-append es x) ∙ wrap_of_lt w b in
    rw (begin-rows es x, end-pitches es x p dp ld, width) refl

set_bytes-eq-set_rows :
    (w elem_size byte e x : ℕ) (es : Vec) (dst : View) (mem : Memory)
    → set_bytes w elem_size byte ((e ∷ es) ++ x ∷ []) dst mem
      ≡ set_rows w elem_size byte ((e ∷ es) ++ x ∷ []) dst mem
unfolding set_bytes
set_bytes-eq-set_rows w elem_size byte e x [] dst mem = refl
set_bytes-eq-set_rows w elem_size byte e x (e' ∷ es) dst mem = refl

-- A set in two or more dimensions, for extents, positions and rows that fit the index type of `w` bits, where the
-- pitches leave room for what lies below them: it ends, each byte of each row has the value, and all bytes outside
-- the rows, the padding among them, are as before. The extent has rows of `x` elements, and may be empty.
pub set_bytes-Rewritten :
    (w elem_size byte e x p d : ℕ) (es dp extent : Vec) (mem : Memory)
    → 0 < w
    → All (λ e. e < 2 ^ w) (e ∷ es)
    → product (e ∷ es) < 2 ^ w
    → product (e ∷ es) * x < 2 ^ w
    → x * elem_size < 2 ^ w
    → Pitched (x * elem_size) (e ∷ es) dp
    → span (x * elem_size) (e ∷ es) dp ≤ 2 ^ w
    → (m : Memory) × (set_bytes w elem_size byte ((e ∷ es) ++ x ∷ []) (view_of extent p dp d) mem
        ≡ some m)
      × Rewritten (x * elem_size) d (e ∷ es) dp (λ idx j. byte) mem m
set_bytes-Rewritten w elem_size byte e x p d es dp extent mem wpos small fits all_fit b rd wd =
    let width : ℕ = x * elem_size in
    let rows = e ∷ es in
    let loop =
      set_bytes-eq-set_rows w elem_size byte e x es (view_of extent p dp d) mem
      ∙ set_rows-loop w elem_size byte x p d rows dp extent mem b
          (Pitched-length width rows dp rd) in
    let size : prod w (rows ++ x ∷ []) ≡ product rows * x =
      prod_of_lt w (rows ++ x ∷ []) wpos (omega (arith, product-append rows x))
      ∙ product-append rows x in
    elim (Bool-cases (prod w (rows ++ x ∷ []) == 0)) [
      | inl empty ↦ (
        mem,
        loop ∙ rw empty refl,
        nothing-Rewritten x elem_size d rows dp (λ idx j. byte) mem (ground (arith, empty, size)),
      )
      | inr more ↦
          let f : Vec → Memory → Memory =
            λ idx m. memset (d + offset_bytes w idx dp) byte width m in
          let value : Vec → ℕ → Memory → ℕ = λ idx j m. byte in
          let keeps : (idx : Vec) (m : Memory) (a : ℕ)
              → ¬ InRow width (d + offset_bytes w idx dp) a
              → f idx m a ≡ m a =
            λ idx m a h. memset-outside (d + offset_bytes w idx dp) byte width m a h in
          let writes : (idx : Vec) (j : ℕ) (m : Memory)
              → j < width
              → f idx m (d + offset_bytes w idx dp + j) ≡ byte =
            λ idx j m l. memset-inside (d + offset_bytes w idx dp) byte width m j l in
          let stable : (idx idx' : Vec) (j : ℕ) (m : Memory)
              → IsInside idx rows
              → IsInside idx' rows
              → offset_bytes w idx' dp ≡ strides idx' dp
              → j < width
              → value idx j (f idx' m) ≡ value idx j m =
            λ idx idx' j m h h' e l. refl in
          (
            after w width d rows dp f value fits small rd wd keeps writes stable mem,
            loop
                ∙ (rw more refl
                    ∙ loop_ends w width d rows dp f value fits small rd wd keeps writes stable mem),
            (
              λ idx j h l.
                  rows_written w width d rows dp f value fits small rd wd keeps writes stable mem
                    idx j h l,
              λ a h.
                  rows_untouched w width d rows dp f value fits small rd wd keeps writes stable mem
                    a h,
            ),
          )
    ]

-- In two dimensions the constructors' assertions on the extents hold as soon as one dimension fits: where the
-- innermost one does, and its bytes fit the pitch, they hold whatever the number of rows of the task and of the
-- view.
pub extent_asserted_one :
    (w elem_size e x p q ptr : ℕ) (e' x' : ℕ)
    → x ≤ x'
    → wrap w (x * elem_size) ≤ q
    → extent_asserted w elem_size
        (e ∷ x ∷ [])
        (record { extent = e' ∷ x' ∷ []; pitch_bytes = p ∷ q ∷ []; ptr = ptr })
      ≡ true
unfolding extent_asserted
extent_asserted_one w elem_size e x p q ptr e' x' h k = ground arith
