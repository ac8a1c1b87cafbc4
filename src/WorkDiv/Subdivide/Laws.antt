-- ===== src/WorkDiv/Subdivide/Laws.antt =====
-- `subDivideGridElems` of include/alpaka/workdiv/WorkDivHelpers.hpp, for the restrictions that clip by halving.
use alpaka.Base.{
  ℕ, ◌*◌, ◌^◌, ◌≤◌, ◌<◌, ◌≡◌, refl, sym, ◌∙◌, true, arith, length, length-zip_with, zip_with,
}
use native.Mathlib.Nat.{le_refl}
use alpaka.Vec.Fold.{Vec}
use alpaka.Vec.Fold.Laws.{product}
use alpaka.Vec.Elementwise.{std_min}
use alpaka.MapIdx.Spec.{IsPositive}
use alpaka.WorkDiv.Types.{
  Restrictions, equal_extent, close_to_equal_extent, unrestricted, AccDevProps, WorkDivMembers,
}
use alpaka.WorkDiv.Clip.Laws.{
  clip_close_to_equal-Clipped, LastFits, LastFits-below, clip_unrestricted-Clipped,
}
use alpaka.WorkDiv.Clip.Halving.{IsBelow, IsBelow-trans, product_mono, Clipped}
use alpaka.WorkDiv.Subdivide.{
  Doubles, done, clip, clip_fuel, equalize, make_divide, inputs_asserted, sub_divide_threads,
  sub_divide_grid_elems,
}
use alpaka.WorkDiv.Subdivide.Steps.{
  ceil_div, IsExact, Divides, IsSmall, IsSmall-below, length-below, ceil_extent-eq,
  min-IsBelow_left, min-IsBelow_right, IsPositive-min, IsPositive-ceil, ceil-IsBelow, ceil_covers,
  ceil_exact, Divided, next_divisors-Divided, HasDim, inputs_asserted-Asserted,
}

-- The restriction clips by halving, and the loop of `unrestricted` can reach every extent that counts.
abbrev pub CanHalve : Restrictions → ℕ → Vec → Type 0
CanHalve equal_extent c v = ⊥
CanHalve close_to_equal_extent c v = Unit
CanHalve unrestricted c v = LastFits c v

CanHalve-below :
    (r : Restrictions) (c : ℕ) (u v : Vec) → IsBelow u v → CanHalve r c v → CanHalve r c u
CanHalve-below equal_extent c u v h k = k
CanHalve-below close_to_equal_extent c u v h k = k
CanHalve-below unrestricted c u v h k = LastFits-below c u v h k

-- What the caller is promised of the blocks of a grid of threads.
pub record IsBlocked (threads : Vec) (p : AccDevProps) (work_div : WorkDivMembers) : Type 0 where
  pub same_dim : length work_div.grid_block_extent ≡ length work_div.block_thread_extent
  pub block_positive : IsPositive work_div.block_thread_extent
  pub block_below_max : IsBelow work_div.block_thread_extent p.block_thread_extent_max
  pub block_fits : product work_div.block_thread_extent ≤ p.block_thread_count_max
  pub divides : Divides work_div.block_thread_extent threads
  pub tiles : zip_with ◌*◌ work_div.grid_block_extent work_div.block_thread_extent ≡ threads

module _ (fp : Doubles) (w : ℕ) (wide : 0 < w) (exact : IsExact fp) (p : AccDevProps) where
  clip-Clipped :
      (r : Restrictions) (c : ℕ) (v : Vec)
      → CanHalve r c v
      → 0 < c
      → IsPositive v
      → product v < 2 ^ w
      → (u : Vec) × (clip fp w r c (equalize w r v) ≡ done u) × Clipped c v u
  unfolding clip equalize
  clip-Clipped equal_extent c v can some_thread pos fits = absurd can
  clip-Clipped close_to_equal_extent c v can some_thread pos fits =
      let (u, e, h) =
        clip_close_to_equal-Clipped w c (clip_fuel v) v wide some_thread pos fits
          (unfold clip_fuel in le_refl _) in
      (u, rw e refl, h)
  clip-Clipped unrestricted c v can some_thread pos fits =
      let (u, e, h) =
        clip_unrestricted-Clipped w c (clip_fuel v) v wide some_thread can pos fits
          (unfold clip_fuel in le_refl _) in
      (u, rw e refl, h)

  make_divide-Divided :
      (r : Restrictions) (c : ℕ) (g v : Vec)
      → CanHalve r c v
      → (u : Vec) → IsBelow u g
      → IsPositive u
      → (d : Vec) × (make_divide r g u ≡ done d) × Divided g u d
  unfolding make_divide
  make_divide-Divided equal_extent c g v can u below pos = absurd can
  make_divide-Divided close_to_equal_extent c g v can u below pos =
      next_divisors-Divided g u below pos
  make_divide-Divided unrestricted c g v can u below pos = next_divisors-Divided g u below pos

  sub_divide_threads-IsBlocked :
      (r : Restrictions) (elems threads : Vec)
      → length threads ≡ length p.block_thread_extent_max
      → CanHalve r p.block_thread_count_max p.block_thread_extent_max
      → 0 < p.block_thread_count_max
      → IsPositive threads
      → IsPositive p.block_thread_extent_max
      → IsSmall threads
      → product p.block_thread_extent_max < 2 ^ w
      → (d : WorkDivMembers) × (sub_divide_threads fp w elems threads p true r ≡ done d)
        × (d.thread_elem_extent ≡ elems)
        × IsBlocked threads p d
  unfolding sub_divide_threads
  sub_divide_threads-IsBlocked r elems threads len can some_thread tp bp small fits =
      let start : Vec = zip_with std_min p.block_thread_extent_max threads in
      let in_max = min-IsBelow_left p.block_thread_extent_max threads (sym len) in
      let in_threads = min-IsBelow_right p.block_thread_extent_max threads (sym len) in
      let can' =
        CanHalve-below r p.block_thread_count_max start p.block_thread_extent_max in_max can in
      let (u, e, c) =
        clip-Clipped r p.block_thread_count_max start can' some_thread
          (IsPositive-min p.block_thread_extent_max threads bp tp)
          (omega (arith, product_mono start p.block_thread_extent_max in_max)) in
      let u_in = IsBelow-trans u start threads c.below in_threads in
      let (d, f, dv) =
        make_divide-Divided r p.block_thread_count_max threads start can' u u_in c.positive in
      let d_in = IsBelow-trans d u threads dv.below u_in in
      let blocks =
        ceil_extent-eq fp threads d exact (sym (length-below d threads d_in)) dv.positive small
          (IsSmall-below d threads d_in small) in
      (
        record {
          grid_block_extent = zip_with ceil_div threads d;
          block_thread_extent = d;
          thread_elem_extent = elems;
        },
        rw (e, f, blocks) refl,
        refl,
        record {
          same_dim =
              length-zip_with ceil_div threads d (sym (length-below d threads d_in))
              ∙ sym (length-below d threads d_in);
          block_positive = dv.positive;
          block_below_max =
              IsBelow-trans d start p.block_thread_extent_max
                (IsBelow-trans d u start dv.below c.below) in_max;
          block_fits = omega (arith, product_mono d u dv.below, c.fits);
          divides = dv.divides;
          tiles = ceil_exact threads d dv.positive dv.divides;
        },
      )

  -- In one dimension for all vectors, where the inputs pass the assertions, the extents of the grid of elements
  -- are below 2 ^ 53 and their quotients on doubles are rounded up exactly, the product of the maximal block
  -- extents is below 2 ^ w, and the block is clipped by halving (the restriction is `close_to_equal_extent`, or
  -- it is `unrestricted` and the last of the maximal block extents is at most the maximal number of threads of
  -- a block; it is not `equal_extent`): the subdivision that makes the block divide the grid succeeds: no loop
  -- runs out of fuel and nothing undefined is met. The threads get at most the elements asked for; in each
  -- dimension there are from 1 to as many threads as elements, and they cover the elements. The block has no
  -- empty dimension, respects the maxima of the device for its extents and for its number of threads, divides
  -- the thread extent, and the blocks tile the threads exactly.
  pub sub_divide_grid_elems_lem :
      (r : Restrictions) (grid elems : Vec)
      → length elems ≡ length grid
      → HasDim (length grid) p
      → inputs_asserted w grid elems p ≡ true
      → IsSmall grid
      → product p.block_thread_extent_max < 2 ^ w
      → CanHalve r p.block_thread_count_max p.block_thread_extent_max
      → (d : WorkDivMembers) × (threads : Vec) × (sub_divide_grid_elems fp w grid elems p true r
          ≡ done d)
        × IsBelow d.thread_elem_extent elems
        × IsPositive threads
        × IsBelow threads grid
        × IsBelow grid (zip_with ◌*◌ threads d.thread_elem_extent)
        × IsBlocked threads p d
  unfolding sub_divide_grid_elems
  sub_divide_grid_elems_lem r grid elems len dim asserted small fits can =
      let a = inputs_asserted-Asserted w grid elems p len dim asserted in
      let e : Vec = zip_with std_min elems grid in
      let e_pos = IsPositive-min elems grid a.elems_positive a.grid_positive in
      let e_in = min-IsBelow_right elems grid len in
      let e_len = length-below e grid e_in in
      let threads : Vec = zip_with ceil_div grid e in
      let t_in = ceil-IsBelow grid e (sym e_len) e_pos in
      let t_eq =
        ceil_extent-eq fp grid e exact (sym e_len) e_pos small (IsSmall-below e grid e_in small) in
      let (d, f, g, h) =
        sub_divide_threads-IsBlocked r e threads
          (length-below threads grid t_in ∙ sym dim.block_thread) can a.some_thread
          (IsPositive-ceil grid e a.grid_positive e_pos) a.block_max_positive
          (IsSmall-below threads grid t_in small) fits in
      (
        d,
        threads,
        rw (asserted, t_eq) f,
        rw g (min-IsBelow_left elems grid len),
        IsPositive-ceil grid e a.grid_positive e_pos,
        t_in,
        rw g (ceil_covers grid e (sym e_len) e_pos),
        h,
      )
