-- ===== src/WorkDiv/Subdivide.antt =====
-- `subDivideGridElems` and `getValidWorkDiv` of include/alpaka/workdiv/WorkDivHelpers.hpp.
pub mod Steps
pub mod Laws
pub mod Accepted
use alpaka.Base.{
  ℕ, suc, ◌+◌, Bool, true, false, not, ◌&&◌, ◌||◌, List, [], ◌∷◌, Option, none, some, length, map,
  replicate, zip_with, ltb, leb, ◌==◌, if◌then◌else◌, wrap,
}
use alpaka.Vec.Fold.{Vec, all, zeros, prod, min}
use alpaka.Vec.Fold.Laws.{total}
use alpaka.Vec.Elementwise.{std_min, eq}
use alpaka.WorkDiv.Types.{
  Restrictions, equal_extent, close_to_equal_extent, unrestricted, AccDevProps, WorkDivMembers,
}
use alpaka.WorkDiv.Valid.{is_valid_acc_dev_props}
use alpaka.WorkDiv.Divisors.{next_divisor_lower_or_equal, all_divisors_less_or_equal}
use alpaka.WorkDiv.Clip.{clip_close_to_equal, clip_unrestricted}
use alpaka.WorkDiv.Equal.{max_common_divisor}

-- The arithmetic on doubles: `ceil(double(a) / double(b))` and `pow(double(a), 1.0 / double(n))`, cut
-- back to an integer.
pub record Doubles : Type 0 where
  pub ceil_quotient : ℕ → ℕ → ℕ
  pub nth_root : ℕ → ℕ → ℕ

-- A failed assertion, undefined behaviour (a division by zero, the last element of an empty set), or a
-- loop that has not ended on its fuel.
pub data Fault : Type 0 where
  assertion undefined out_of_fuel : Fault

pub data Result (T : Type 0) : Type 0 where
  failed : Fault → Result T
  done : T → Result T

infixl 5 ◌>>=◌ ◌>>◌
abbrev pub ◌>>=◌ : {T U : Type 0} → Result T → (T → Result U) → Result U
failed why >>= next = failed why
done value >>= next = next value

-- `ALPAKA_ASSERT`, and the conditions under which an operation is defined.
abbrev pub assert : Bool → Fault → Result (Unit {0})
assert holds why = if holds then done tt else failed why

abbrev pub ◌>>◌ : {U : Type 0} → Result (Unit {0}) → Result U → Result U
checked >> next = checked >>= λ _. next

abbrev pub or_fault : {T : Type 0} → Option T → Fault → Result T
or_fault (some value) why = done value
or_fault none why = failed why

-- The assertions on each dimension: grid and thread elements are at least 1, and the latter at most
-- the maximum.
unfoldable pub extents_asserted : Vec → Vec → Vec → Bool
extents_asserted (g ∷ gs) (t ∷ ts) (m ∷ ms) =
    leb 1 g && leb 1 t && leb t m && extents_asserted gs ts ms
extents_asserted _ _ _ = true

unfoldable pub inputs_asserted : ℕ → Vec → Vec → AccDevProps → Bool
unfolding extents_asserted prod is_valid_acc_dev_props
inputs_asserted w grid_elem_extent thread_elem_extent p =
    extents_asserted grid_elem_extent thread_elem_extent p.thread_elem_extent_max
    && leb (prod w thread_elem_extent) p.thread_elem_count_max
    && is_valid_acc_dev_props p

-- For equal extents the minimum component is taken in every dimension.
unfoldable pub equalize : ℕ → Restrictions → Vec → Vec
unfolding min all
equalize w equal_extent v = all (length v) (min w v)
equalize w close_to_equal_extent v = v
equalize w unrestricted v = v

-- The sum of the extents is fuel enough for the loops, since each round makes it smaller.
unfoldable pub clip_fuel : Vec → ℕ
clip_fuel v = suc (total v)

-- `a / b` rounded up in each dimension; a zero divisor gives an infinite quotient, whose conversion to an
-- integer is undefined.
module _ (fp : Doubles) where
  unfoldable pub ceil_extent : Vec → Vec → Result Vec
  ceil_extent (a ∷ xs) (b ∷ ys) = do
    assert (ltb 0 b) undefined
    rest ← ceil_extent xs ys
    done (fp.ceil_quotient a b ∷ rest)
  ceil_extent _ _ = done []

  -- A block with too many threads is clipped.
  unfoldable pub clip : ℕ → Restrictions → ℕ → Vec → Result Vec
  unfolding all prod clip_close_to_equal clip_unrestricted clip_fuel
  clip w equal_extent count_max v =
      done
        (if ltb count_max (prod w v) then all (length v) (fp.nth_root count_max (length v)) else v)
  clip w close_to_equal_extent count_max v =
      or_fault (clip_close_to_equal w count_max (clip_fuel v) v) out_of_fuel
  clip w unrestricted count_max v =
      or_fault (clip_unrestricted w count_max (clip_fuel v) v) out_of_fuel

-- The divisor search of each dimension.
unfoldable pub next_divisors : Vec → Vec → Result Vec
unfolding next_divisor_lower_or_equal
next_divisors (g ∷ gs) (b ∷ bs) = do
  assert (leb b g) assertion
  d ← or_fault (next_divisor_lower_or_equal g b) undefined
  rest ← next_divisors gs bs
  done (d ∷ rest)
next_divisors _ _ = done []

unfoldable pub divisor_sets : Vec → Vec → Result (List (List ℕ))
unfolding all_divisors_less_or_equal
divisor_sets (g ∷ gs) (b ∷ bs) = do
  s ← or_fault (all_divisors_less_or_equal g b) assertion
  rest ← divisor_sets gs bs
  done (s ∷ rest)
divisor_sets _ _ = done []

-- The block extent is made to divide the grid thread extent.
unfoldable pub make_divide : Restrictions → Vec → Vec → Result Vec
unfolding all divisor_sets next_divisors max_common_divisor
make_divide equal_extent grid_thread_extent v = do
  sets ← divisor_sets grid_thread_extent v
  d ← or_fault (max_common_divisor sets) undefined
  done (all (length v) d)
make_divide close_to_equal_extent grid_thread_extent v = next_divisors grid_thread_extent v
make_divide unrestricted grid_thread_extent v = next_divisors grid_thread_extent v

module _ (fp : Doubles) (w : ℕ) where
  -- Everything after the grid thread extent is known.
  unfoldable pub sub_divide_threads :
      Vec → Vec → AccDevProps → Bool → Restrictions → Result WorkDivMembers
  unfolding std_min equalize clip make_divide ceil_extent
  sub_divide_threads thread_elem_extent grid_thread_extent p require_divide restrictions = do
    let start = zip_with std_min p.block_thread_extent_max grid_thread_extent
    clipped ← clip fp w restrictions p.block_thread_count_max (equalize w restrictions start)
    block_thread_extent ←
        if require_divide then make_divide restrictions grid_thread_extent clipped else done clipped
    grid_block_extent ← ceil_extent fp grid_thread_extent block_thread_extent
    done (record {
      grid_block_extent = grid_block_extent;
      block_thread_extent = block_thread_extent;
      thread_elem_extent = thread_elem_extent;
    })

  unfoldable pub sub_divide_grid_elems :
      Vec → Vec → AccDevProps → Bool → Restrictions → Result WorkDivMembers
  unfolding inputs_asserted std_min ceil_extent sub_divide_threads
  sub_divide_grid_elems grid_elem_extent thread_elem_extent p require_divide restrictions = do
    assert (inputs_asserted w grid_elem_extent thread_elem_extent p) assertion
    let restricted = zip_with std_min thread_elem_extent grid_elem_extent
    grid_thread_extent ← ceil_extent fp grid_elem_extent restricted
    sub_divide_threads restricted grid_thread_extent p require_divide restrictions

  -- In no dimension there is nothing to subdivide.
  unfoldable pub get_valid_work_div :
      Vec → Vec → AccDevProps → Bool → Restrictions → Result WorkDivMembers
  unfolding sub_divide_grid_elems
  get_valid_work_div [] thread_elem_extent p require_divide restrictions =
      done (record { grid_block_extent = []; block_thread_extent = []; thread_elem_extent = [] })
  get_valid_work_div (g ∷ gs) thread_elem_extent p require_divide restrictions =
      sub_divide_grid_elems (g ∷ gs) thread_elem_extent p require_divide restrictions
