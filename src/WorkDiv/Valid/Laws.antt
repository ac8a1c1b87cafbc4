-- ===== src/WorkDiv/Valid/Laws.antt =====
-- The validity tests of include/alpaka/workdiv/WorkDivHelpers.hpp against the conditions they test.
use alpaka.Base.{ℕ, zero, suc, ◌^◌, ◌≤◌, ◌<◌, ◌≡◌, refl, ◌↔◌, true, false, [], ◌∷◌, arith, length}
use alpaka.Vec.Fold.{Vec}
use alpaka.Vec.Fold.Laws.{product, prod_of_lt}
use alpaka.MapIdx.Spec.{IsPositive}
use alpaka.WorkDiv.Types.{AccDevProps, WorkDivMembers}
use alpaka.WorkDiv.Clip.Halving.{IsBelow}
use alpaka.WorkDiv.Valid.{
  extents_at_least_one, is_valid_acc_dev_props, extents_allowed, is_valid_work_div,
}

-- Every maximum is at least 1.
pub record HasRoom (p : AccDevProps) : Type 0 where
  pub some_block : 0 < p.grid_block_count_max
  pub some_thread : 0 < p.block_thread_count_max
  pub some_elem : 0 < p.thread_elem_count_max
  pub grid_positive : IsPositive p.grid_block_extent_max
  pub block_positive : IsPositive p.block_thread_extent_max
  pub elem_positive : IsPositive p.thread_elem_extent_max

extents_at_least_one_to :
    (g b t : Vec)
    → length g ≡ length b
    → length t ≡ length b
    → extents_at_least_one g b t ≡ true
    → IsPositive g × IsPositive b × IsPositive t
unfolding extents_at_least_one
extents_at_least_one_to [] [] [] e f h = (tt, tt, tt)
extents_at_least_one_to [] [] (z ∷ t) e f h = absurd (omega arith)
extents_at_least_one_to [] (y ∷ b) t e f h = absurd (omega arith)
extents_at_least_one_to (x ∷ g) [] t e f h = absurd (omega arith)
extents_at_least_one_to (x ∷ g) (y ∷ b) [] e f h = absurd (omega arith)
extents_at_least_one_to (x ∷ g) (y ∷ b) (z ∷ t) e f h =
    let (pg, pb, pt) = extents_at_least_one_to g b t (omega arith) (omega arith) (ground arith) in
    ((ground arith, pg), (ground arith, pb), (ground arith, pt))

extents_at_least_one_of :
    (g b t : Vec) → IsPositive g → IsPositive b → IsPositive t → extents_at_least_one g b t ≡ true
unfolding extents_at_least_one
extents_at_least_one_of [] b t p q r = refl
extents_at_least_one_of (x ∷ g) [] t p q r = refl
extents_at_least_one_of (x ∷ g) (y ∷ b) [] p q r = refl
extents_at_least_one_of (x ∷ g) (y ∷ b) (z ∷ t) p q r =
    ground (arith, extents_at_least_one_of g b t p.1 q.1 r.1)

-- The device properties are valid exactly when no maximum, of counts or of extents, is 0.
pub is_valid_acc_dev_props_iff :
    (p : AccDevProps)
    → length p.grid_block_extent_max ≡ length p.block_thread_extent_max
    → length p.thread_elem_extent_max ≡ length p.block_thread_extent_max
    → (is_valid_acc_dev_props p ≡ true) ↔ HasRoom p
unfolding is_valid_acc_dev_props
is_valid_acc_dev_props_iff p e f = (
  λ h.
      let (pg, pb, pt) =
        extents_at_least_one_to p.grid_block_extent_max p.block_thread_extent_max
          p.thread_elem_extent_max e f (ground arith) in
      record {
        some_block = ground arith;
        some_thread = ground arith;
        some_elem = ground arith;
        grid_positive = pg;
        block_positive = pb;
        elem_positive = pt;
      },
  λ r. ground (
    arith,
    extents_at_least_one_of p.grid_block_extent_max p.block_thread_extent_max
        p.thread_elem_extent_max r.grid_positive r.block_positive r.elem_positive,
  ),
)

-- A work division that respects the device, with `elems` for the elements of each thread.
pub record Respects (p : AccDevProps) (blocks threads elems : Vec) : Type 0 where
  pub block_count : product blocks ≤ p.grid_block_count_max
  pub thread_count : product threads ≤ p.block_thread_count_max
  pub elem_count : product elems ≤ p.thread_elem_count_max
  pub extents :
      (IsPositive blocks × IsPositive threads × IsPositive elems)
      × (IsBelow blocks p.grid_block_extent_max
          × IsBelow threads p.block_thread_extent_max
          × IsBelow elems p.thread_elem_extent_max)

abbrev Extents : Vec → Vec → Vec → Vec → Vec → Vec → Type 0
Extents g b t gm bm tm =
    (IsPositive g × IsPositive b × IsPositive t) × (IsBelow g gm × IsBelow b bm × IsBelow t tm)

abbrev pub SameDim : ℕ → Vec → Vec → Vec → Vec → Vec → Vec → Type 0
SameDim n g b t gm bm tm =
    (length g ≡ n)
    × (length b ≡ n)
    × (length t ≡ n)
    × (length gm ≡ n)
    × (length bm ≡ n)
    × (length tm ≡ n)

extents_allowed_iff :
    (n : ℕ) (g b t gm bm tm : Vec)
    → SameDim n g b t gm bm tm
    → (extents_allowed g b t gm bm tm ≡ true) ↔ Extents g b t gm bm tm
unfolding extents_allowed
extents_allowed_iff zero [] [] [] [] [] [] d = (λ _. ((tt, tt, tt), (tt, tt, tt)), λ _. refl)
extents_allowed_iff (suc n) (g ∷ gs) (b ∷ bs) (t ∷ ts) (gm ∷ gms) (bm ∷ bms) (tm ∷ tms) d =
    let ih = extents_allowed_iff n gs bs ts gms bms tms (omega arith) in
    (
      λ h.
          let ((pg, pb, pt), (lg, lb, lt)) = ih.0 (ground arith) in
          (
            ((ground arith, pg), (ground arith, pb), (ground arith, pt)),
            ((ground arith, lg), (ground arith, lb), (ground arith, lt)),
          ),
      λ ((pg, pb, pt), (lg, lb, lt)). ground (arith, ih.1 ((pg.1, pb.1, pt.1), (lg.1, lb.1, lt.1))),
    )
extents_allowed_iff n g b t gm bm tm d = absurd (omega arith)

-- The work division of 0 < w bits and one number of dimensions, whose three products do not wrap, is
-- valid exactly when its blocks and threads respect the device and the threads, read a second time
-- in place of the elements, do too. The thread element extent is in no condition.
pub is_valid_work_div_iff :
    (w n : ℕ) (p : AccDevProps) (d : WorkDivMembers)
    → 0 < w
    → SameDim n d.grid_block_extent d.block_thread_extent d.block_thread_extent
        p.grid_block_extent_max p.block_thread_extent_max p.thread_elem_extent_max
    → product d.grid_block_extent < 2 ^ w
    → product d.block_thread_extent < 2 ^ w
    → (is_valid_work_div w p d ≡ true)
      ↔ Respects p d.grid_block_extent d.block_thread_extent d.block_thread_extent
unfolding is_valid_work_div
is_valid_work_div_iff w n p d pos dims small-g small-b =
    let e-g = prod_of_lt w d.grid_block_extent pos small-g in
    let e-b = prod_of_lt w d.block_thread_extent pos small-b in
    let inner =
      extents_allowed_iff n d.grid_block_extent d.block_thread_extent d.block_thread_extent
        p.grid_block_extent_max p.block_thread_extent_max p.thread_elem_extent_max dims in
    rw (e-g, e-b)
      (
        λ h. record {
          block_count = ground arith;
          thread_count = ground arith;
          elem_count = ground arith;
          extents = inner.0 (ground arith);
        },
        λ r. ground (arith, r.block_count, r.thread_count, r.elem_count, inner.1 r.extents),
      )

-- A block of more threads than a thread may have elements, as a product that does not wrap, is
-- refused, whatever else holds.
pub is_valid_work_div_refuses :
    (w : ℕ) (p : AccDevProps) (d : WorkDivMembers)
    → 0 < w
    → product d.block_thread_extent < 2 ^ w
    → p.thread_elem_count_max < product d.block_thread_extent
    → is_valid_work_div w p d ≡ false
unfolding is_valid_work_div
is_valid_work_div_refuses w p d pos small more =
    rw (prod_of_lt w d.block_thread_extent pos small) (ground arith)
