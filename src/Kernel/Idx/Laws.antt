-- ===== src/Kernel/Idx/Laws.antt =====
-- Blocks, threads and elements of a grid, one to one.
use native.Mathlib.Nat.{
  mul-add-div_right, mul-add-mod_self_left, mod-eq_of_lt, div-eq_of_lt, mul_comm, div-add-mod,
  mod-lt,
}
use alpaka.Base.{
  ℕ, ◌+◌, ◌*◌, ◌/◌, ◌%◌, ◌^◌, ◌<◌, ◌≡◌, refl, ap, ap₂, ◌∙◌, [], ◌∷◌, arith, zip_with, wrap,
  wrap_of_lt,
}
use alpaka.Vec.Fold.{Vec}
use alpaka.Vec.Elementwise.{add, mul}
use alpaka.WorkDiv.Types.{WorkDivMembers}
use alpaka.MapIdx.Spec.{IsInside, digit_lt}
use alpaka.Kernel.Idx.{grid_threads, grid_elems, grid_thread_idx, idx_thread_first_elem}

-- One dimension: `t` below `i` in the `b`th of `o` parts.
module _ (w o i b t : ℕ) (b_lt : b < o) (t_lt : t < i) (fits : o * i < 2 ^ w) where
  part_eq : wrap w (wrap w (b * i) + t) ≡ b * i + t
  part_eq =
      let lt : b * i + t < 2 ^ w = omega (arith, digit_lt b o i t b_lt t_lt) in
      ap (λ x. wrap w (x + t)) (wrap_of_lt w (omega arith)) ∙ wrap_of_lt w lt

  part_lt : wrap w (wrap w (b * i) + t) < wrap w (o * i)
  part_lt = omega (arith, part_eq, digit_lt b o i t b_lt t_lt, wrap_of_lt w fits)

  part-div : wrap w (wrap w (b * i) + t) / i ≡ b
  part-div =
      ap (λ x. x / i) part_eq
      ∙ mul-add-div_right (let pos : 0 < i = omega arith in pos) b t
      ∙ omega (arith, div-eq_of_lt t_lt)

  part-mod : wrap w (wrap w (b * i) + t) % i ≡ t
  part-mod =
      ap (λ x. x % i) (part_eq ∙ ap (λ (x : ℕ). x + t) (mul_comm b i))
      ∙ mul-add-mod_self_left i b t
      ∙ mod-eq_of_lt t_lt

module _ (w o i x : ℕ) (x_lt : x < wrap w (o * i)) (fits : o * i < 2 ^ w) where
  whole_lt : x < o * i
  whole_lt = omega (arith, wrap_of_lt w fits)

  whole-pos : 0 < i
  whole-pos = grind (arith, whole_lt)

  whole-mod : x % i < i
  whole-mod = mod-lt x whole-pos

  whole-div : x / i < o
  whole-div = grind (arith, whole_lt, div-add-mod x i, whole-mod)

  whole_eq : wrap w (wrap w (x / i * i) + x % i) ≡ x
  whole_eq =
      part_eq w o i (x / i) (x % i) whole-div whole-mod fits
      ∙ (let e : x / i * i + x % i ≡ x = grind (arith, div-add-mod x i) in e)

-- The product of the extents fits the index type in every dimension.
abbrev pub Fits : ℕ → Vec → Vec → Type 0
Fits w [] [] = Unit
Fits w [] (i ∷ is) = ⊥
Fits w (o ∷ os) [] = ⊥
Fits w (o ∷ os) (i ∷ is) = (o * i < 2 ^ w) × Fits w os is

-- The part of an extent that holds an index, and the index in it.
abbrev pub quotients : Vec → Vec → Vec
quotients idx inner = zip_with ◌/◌ idx inner

abbrev pub remainders : Vec → Vec → Vec
remainders idx inner = zip_with ◌%◌ idx inner

module _ (w : ℕ) where
  parts :
      (outer inner b t : Vec)
      → Fits w outer inner
      → IsInside b outer
      → IsInside t inner
      → IsInside (add w (mul w b inner) t) (mul w outer inner)
        × (quotients (add w (mul w b inner) t) inner ≡ b)
        × (remainders (add w (mul w b inner) t) inner ≡ t)
  unfolding add mul
  parts [] [] [] [] fits h k = (tt, refl, refl)
  parts (o ∷ os) (i ∷ is) (b ∷ bs) (t ∷ ts) fits h k =
      let (inside, div, rest) = parts os is bs ts fits.1 h.1 k.1 in
      (
        (part_lt w o i b t h.0 k.0 fits.0, inside),
        ap₂ ◌∷◌ (part-div w o i b t h.0 k.0 fits.0) div,
        ap₂ ◌∷◌ (part-mod w o i b t h.0 k.0 fits.0) rest,
      )
  parts [] [] (b ∷ bs) t fits h k = absurd h
  parts [] [] [] (t ∷ ts) fits h k = absurd k
  parts [] (i ∷ is) b t fits h k = absurd fits
  parts (o ∷ os) [] b t fits h k = absurd fits
  parts (o ∷ os) (i ∷ is) [] t fits h k = absurd h
  parts (o ∷ os) (i ∷ is) (b ∷ bs) [] fits h k = absurd k

  wholes :
      (outer inner idx : Vec)
      → Fits w outer inner
      → IsInside idx (mul w outer inner)
      → IsInside (quotients idx inner) outer
        × IsInside (remainders idx inner) inner
        × (add w (mul w (quotients idx inner) inner) (remainders idx inner) ≡ idx)
  unfolding add mul
  wholes [] [] [] fits h = (tt, tt, refl)
  wholes (o ∷ os) (i ∷ is) (x ∷ xs) fits h =
      let (div, rest, eq) = wholes os is xs fits.1 h.1 in
      (
        (whole-div w o i x h.0 fits.0, div),
        (whole-mod w o i x h.0 fits.0, rest),
        ap₂ ◌∷◌ (whole_eq w o i x h.0 fits.0) eq,
      )
  wholes [] [] (x ∷ xs) fits h = absurd h
  wholes [] (i ∷ is) idx fits h = absurd fits
  wholes (o ∷ os) [] idx fits h = absurd fits
  wholes (o ∷ os) (i ∷ is) [] fits h = absurd h

  -- Where the extents of the grid in threads fit the index type, `getIdx<Grid, Threads>` takes the blocks of
  -- the grid and the threads of a block one to one to the indices inside the extent of the grid in threads.
  pub grid_thread_idx_lem :
      (work_div : WorkDivMembers) (b t idx : Vec)
      → Fits w work_div.grid_block_extent work_div.block_thread_extent
      → IsInside b work_div.grid_block_extent
      → IsInside t work_div.block_thread_extent
      → IsInside idx (grid_threads w work_div)
      → (IsInside (grid_thread_idx w work_div b t) (grid_threads w work_div)
          × (quotients (grid_thread_idx w work_div b t) work_div.block_thread_extent ≡ b)
          × (remainders (grid_thread_idx w work_div b t) work_div.block_thread_extent ≡ t))
        × (let b' = quotients idx work_div.block_thread_extent in
            let t' = remainders idx work_div.block_thread_extent in
            IsInside b' work_div.grid_block_extent
            × IsInside t' work_div.block_thread_extent
            × (grid_thread_idx w work_div b' t' ≡ idx))
  unfolding grid_thread_idx grid_threads
  grid_thread_idx_lem work_div b t idx fits in_grid in_block inside = (
    parts work_div.grid_block_extent work_div.block_thread_extent b t fits in_grid in_block,
    wholes work_div.grid_block_extent work_div.block_thread_extent idx fits inside,
  )

  -- Where the extents of the grid in threads and in elements fit the index type, every element of the grid is
  -- one of exactly one thread's: the element `e` past `getIdxThreadFirstElem` is inside the grid and gives its
  -- thread and `e` back, and an index inside the grid in elements is that of a block, a thread and an element
  -- inside their extents.
  pub idx_thread_first_elem_lem :
      (work_div : WorkDivMembers) (b t e idx : Vec)
      → Fits w work_div.grid_block_extent work_div.block_thread_extent
      → Fits w (grid_threads w work_div) work_div.thread_elem_extent
      → IsInside b work_div.grid_block_extent
      → IsInside t work_div.block_thread_extent
      → IsInside e work_div.thread_elem_extent
      → IsInside idx (grid_elems w work_div)
      → (let elem = add w (idx_thread_first_elem w work_div b t) e in
          let thread = quotients elem work_div.thread_elem_extent in
          IsInside elem (grid_elems w work_div)
          × (quotients thread work_div.block_thread_extent ≡ b)
          × (remainders thread work_div.block_thread_extent ≡ t)
          × (remainders elem work_div.thread_elem_extent ≡ e))
        × (let thread = quotients idx work_div.thread_elem_extent in
            let b' = quotients thread work_div.block_thread_extent in
            let t' = remainders thread work_div.block_thread_extent in
            let e' = remainders idx work_div.thread_elem_extent in
            IsInside b' work_div.grid_block_extent
            × IsInside t' work_div.block_thread_extent
            × IsInside e' work_div.thread_elem_extent
            × (add w (idx_thread_first_elem w work_div b' t') e' ≡ idx))
  unfolding idx_thread_first_elem grid_elems
  idx_thread_first_elem_lem work_div b t e idx fits fits_elems in_grid in_block in_thread inside =
      let grid = work_div.grid_block_extent in
      let block = work_div.block_thread_extent in
      let elems = work_div.thread_elem_extent in
      let thread = quotients idx elems in
      let (in_threads, in_elems, eq) =
        wholes (grid_threads w work_div) elems idx fits_elems inside in
      let ((in_grid_threads, div, rest), (b_in, t_in, thread_eq)) =
        grid_thread_idx_lem work_div b t thread fits in_grid in_block in_threads in
      let (elem_in, elem_div, elem_rest) =
        parts (grid_threads w work_div) elems (grid_thread_idx w work_div b t) e fits_elems
          in_grid_threads in_thread in
      (
        (
          elem_in,
          ap (λ v. quotients v block) elem_div ∙ div,
          ap (λ v. remainders v block) elem_div ∙ rest,
          elem_rest,
        ),
        (
          b_in,
          t_in,
          in_elems,
          ap (λ v. add w (mul w v elems) (remainders idx elems)) thread_eq ∙ eq,
        ),
      )
