-- ===== src/WorkDiv/Subdivide/Accepted.antt =====
-- `getValidWorkDiv` against `isValidWorkDiv`, include/alpaka/workdiv/WorkDivHelpers.hpp.
use alpaka.Base.{ℕ, ◌*◌, ◌^◌, ◌≤◌, ◌<◌, ◌≡◌, sym, subst, true, [], ◌∷◌, arith, length, zip_with}
use alpaka.Vec.Fold.{Vec}
use alpaka.Vec.Fold.Laws.{product}
use alpaka.MapIdx.Spec.{IsPositive}
use alpaka.WorkDiv.Types.{Restrictions, AccDevProps, WorkDivMembers}
use alpaka.WorkDiv.Valid.{is_valid_work_div}
use alpaka.WorkDiv.Valid.Laws.{SameDim, is_valid_work_div_iff}
use alpaka.WorkDiv.Clip.Halving.{IsBelow, IsBelow-trans, product_mono}
use alpaka.WorkDiv.Subdivide.{Doubles, done, inputs_asserted, get_valid_work_div}
use alpaka.WorkDiv.Subdivide.Steps.{IsExact, IsSmall, HasDim, length-below}
use alpaka.WorkDiv.Subdivide.Laws.{CanHalve, sub_divide_grid_elems_lem}

factor_pos : (a b : ℕ) → 0 < a * b → 0 < a
factor_pos a b h = grind arith

factor_below : (a b : ℕ) → 0 < b → a ≤ a * b
factor_below a b h = grind arith

-- The factors of positive numbers are positive and no larger.
factors :
    (a b : Vec)
    → length a ≡ length b
    → IsPositive b
    → IsPositive (zip_with ◌*◌ a b)
    → IsPositive a × IsBelow a (zip_with ◌*◌ a b)
factors [] [] e p q = (tt, tt)
factors [] (y ∷ b) e p q = absurd (omega arith)
factors (x ∷ a) [] e p q = absurd (omega arith)
factors (x ∷ a) (y ∷ b) e p q =
    let (r, s) = factors a b (omega arith) p.1 q.1 in
    ((factor_pos x y q.0, r), (factor_below x y p.0, s))

-- A device that accepts a grid with one block for each element, and whose maxima for the elements of a
-- thread are not below those for the threads of a block, as on the CPU.
pub record IsLiberal (w : ℕ) (grid : Vec) (p : AccDevProps) : Type 0 where
  pub grid_extent : IsBelow grid p.grid_block_extent_max
  pub grid_count : product grid ≤ p.grid_block_count_max
  pub grid_small : product grid < 2 ^ w
  pub elem_extent : IsBelow p.block_thread_extent_max p.thread_elem_extent_max
  pub elem_count : p.block_thread_count_max ≤ p.thread_elem_count_max

-- On a liberal device, and under the conditions for the subdivision, `getValidWorkDiv` returns a work
-- division that `isValidWorkDiv` accepts.
pub get_valid_work_div-is_valid_work_div :
    (fp : Doubles) (w : ℕ) (p : AccDevProps) (r : Restrictions) (g : ℕ) (grid elems : Vec)
    → 0 < w
    → IsExact fp
    → length elems ≡ length (g ∷ grid)
    → HasDim (length (g ∷ grid)) p
    → inputs_asserted w (g ∷ grid) elems p ≡ true
    → IsSmall (g ∷ grid)
    → product p.block_thread_extent_max < 2 ^ w
    → CanHalve r p.block_thread_count_max p.block_thread_extent_max
    → IsLiberal w (g ∷ grid) p
    → (d : WorkDivMembers) × (get_valid_work_div fp w (g ∷ grid) elems p true r ≡ done d)
      × (is_valid_work_div w p d ≡ true)
unfolding get_valid_work_div
get_valid_work_div-is_valid_work_div fp w p r g grid elems wide exact len dim asserted small fits
      can lib =
    let (d, threads, e, below, pos, t_in, covers, b) =
      sub_divide_grid_elems_lem fp w wide exact p r (g ∷ grid) elems len dim asserted small fits
        can in
    let blocks : Vec = d.grid_block_extent in
    let block : Vec = d.block_thread_extent in
    let (g_pos, g_in') =
      factors blocks block b.same_dim b.block_positive (subst IsPositive (sym b.tiles) pos) in
    let g_in =
      IsBelow-trans blocks threads (g ∷ grid) (subst (IsBelow blocks) b.tiles g_in') t_in in
    let dims : SameDim (length (g ∷ grid)) blocks block block p.grid_block_extent_max
        p.block_thread_extent_max p.thread_elem_extent_max =
      omega (
        arith,
        length-below blocks (g ∷ grid) g_in,
        b.same_dim,
        dim.grid_block,
        dim.block_thread,
        dim.thread_elem,
      ) in
    let g_le = product_mono blocks (g ∷ grid) g_in in
    let b_le = product_mono block p.block_thread_extent_max b.block_below_max in
    (
      d,
      e,
      (is_valid_work_div_iff w (length (g ∷ grid)) p d wide dims
            (omega (arith, lib.grid_small, g_le)) (omega (arith, b_le, fits))).1
          (record {
            block_count = omega (arith, g_le, lib.grid_count);
            thread_count = b.block_fits;
            elem_count = omega (arith, b.block_fits, lib.elem_count);
            extents = (
              (g_pos, b.block_positive, b.block_positive),
              (
                IsBelow-trans blocks (g ∷ grid) p.grid_block_extent_max g_in lib.grid_extent,
                b.block_below_max,
                IsBelow-trans block p.block_thread_extent_max p.thread_elem_extent_max
                    b.block_below_max lib.elem_extent,
              ),
            );
          }),
    )
