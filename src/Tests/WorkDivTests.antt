-- ===== src/Tests/WorkDivTests.antt =====
-- Runs of the work division.
use alpaka.Base.{ℕ, ◌*◌, ◌≡◌, refl, ◌↔◌, true, [], ◌∷◌, some, arith, zip_with}
use alpaka.Vec.Fold.{Vec}
use alpaka.MapIdx.Spec.{IsPositive}
use alpaka.WorkDiv.Types.{close_to_equal_extent, unrestricted, AccDevProps, WorkDivMembers}
use alpaka.WorkDiv.Valid.{is_valid_work_div}
use alpaka.WorkDiv.Valid.Laws.{Respects, is_valid_work_div_iff}
use alpaka.WorkDiv.Divisors.{next_divisor_lower_or_equal, all_divisors_less_or_equal}
use alpaka.WorkDiv.Divisors.Laws.{IsGreatestDivisor, next_divisor_lem}
use alpaka.WorkDiv.Clip.{clip_close_to_equal, clip_unrestricted}
use alpaka.WorkDiv.Clip.Laws.{clip_close_to_equal-Clipped, clip_unrestricted-Clipped}
use alpaka.WorkDiv.Clip.Halving.{IsBelow, Clipped}
use alpaka.WorkDiv.Subdivide.{
  Doubles, done, inputs_asserted, sub_divide_grid_elems, get_valid_work_div,
}
use alpaka.WorkDiv.Subdivide.Steps.{ceil_div, HasDim}
use alpaka.WorkDiv.Subdivide.Laws.{IsBlocked, sub_divide_grid_elems_lem}
use alpaka.WorkDiv.Subdivide.Accepted.{get_valid_work_div-is_valid_work_div}

abbrev fp : Doubles
fp = record { ceil_quotient = ceil_div; nth_root = λ a n. 1 }

-- A device with at most 16 threads in a block.
abbrev dev : AccDevProps
dev = record {
  grid_block_extent_max = 255 ∷ 255 ∷ [];
  block_thread_extent_max = 8 ∷ 8 ∷ [];
  thread_elem_extent_max = 255 ∷ 255 ∷ [];
  grid_block_count_max = 255;
  block_thread_count_max = 16;
  thread_elem_count_max = 255;
  multi_processor_count = 1;
  shared_mem_size_bytes = 0;
}

abbrev grid : Vec
grid = 12 ∷ 10 ∷ []

abbrev elems : Vec
elems = 2 ∷ 1 ∷ []

dev-HasDim : HasDim 2 dev
dev-HasDim = record { grid_block = refl; block_thread = refl; thread_elem = refl }

dev-asserted : inputs_asserted 8 grid elems dev ≡ true
unfolding inputs_asserted
dev-asserted = refl

sub_divide_grid_elems_lem_example :
    (d : WorkDivMembers) × (threads : Vec) × (sub_divide_grid_elems fp 8 grid elems dev true
        close_to_equal_extent
      ≡ done d)
    × IsBelow d.thread_elem_extent elems
    × IsPositive threads
    × IsBelow threads grid
    × IsBelow grid (zip_with ◌*◌ threads d.thread_elem_extent)
    × IsBlocked threads dev d
sub_divide_grid_elems_lem_example =
    sub_divide_grid_elems_lem fp 8 (omega arith) (λ a b p q r. refl) dev close_to_equal_extent grid
      elems refl dev-HasDim dev-asserted (omega arith) (omega arith) tt

subdivided :
    sub_divide_grid_elems fp 8 grid elems dev true close_to_equal_extent
    ≡ done (record {
      grid_block_extent = 2 ∷ 5 ∷ [];
      block_thread_extent = 3 ∷ 2 ∷ [];
      thread_elem_extent = 2 ∷ 1 ∷ [];
    })
unfolding sub_divide_grid_elems
subdivided = refl

get_valid_work_div-is_valid_work_div_example :
    (d : WorkDivMembers) × (get_valid_work_div fp 8 grid elems dev true unrestricted ≡ done d)
    × (is_valid_work_div 8 dev d ≡ true)
get_valid_work_div-is_valid_work_div_example =
    get_valid_work_div-is_valid_work_div fp 8 dev unrestricted 12 (10 ∷ []) elems (omega arith)
      (λ a b p q r. refl) refl dev-HasDim dev-asserted (omega arith) (omega arith) (omega arith)
      (record {
        grid_extent = omega arith;
        grid_count = omega arith;
        grid_small = omega arith;
        elem_extent = omega arith;
        elem_count = omega arith;
      })

abbrev few : WorkDivMembers
few = record {
  grid_block_extent = 2 ∷ 5 ∷ [];
  block_thread_extent = 3 ∷ 2 ∷ [];
  thread_elem_extent = 1 ∷ 1 ∷ [];
}

is_valid_work_div_iff_example :
    (is_valid_work_div 8 dev few ≡ true) ↔ Respects dev (2 ∷ 5 ∷ []) (3 ∷ 2 ∷ []) (3 ∷ 2 ∷ [])
is_valid_work_div_iff_example =
    is_valid_work_div_iff 8 2 dev few (omega arith) (omega arith) (omega arith) (omega arith)

-- A device that gives each thread one element.
abbrev one_elem : AccDevProps
one_elem = record {
  grid_block_extent_max = 255 ∷ 255 ∷ [];
  block_thread_extent_max = 8 ∷ 8 ∷ [];
  thread_elem_extent_max = 1 ∷ 1 ∷ [];
  grid_block_count_max = 255;
  block_thread_count_max = 16;
  thread_elem_count_max = 1;
  multi_processor_count = 1;
  shared_mem_size_bytes = 0;
}

next_divisor_lem_example :
    (r : ℕ) × (next_divisor_lower_or_equal 12 5 ≡ some r) × IsGreatestDivisor 12 5 r
next_divisor_lem_example = next_divisor_lem 12 5 (omega arith) (omega arith)

divisors_of_twelve : all_divisors_less_or_equal 12 4 ≡ some (3 ∷ 4 ∷ 6 ∷ 12 ∷ [])
unfolding all_divisors_less_or_equal
divisors_of_twelve = refl

clip_close_to_equal-Clipped_example :
    (r : Vec) × (clip_close_to_equal 8 16 20 (8 ∷ 8 ∷ []) ≡ some r) × Clipped 16 (8 ∷ 8 ∷ []) r
clip_close_to_equal-Clipped_example =
    clip_close_to_equal-Clipped 8 16 20 (8 ∷ 8 ∷ []) (omega arith) (omega arith) (omega arith)
      (omega arith) (omega arith)

clip_unrestricted-Clipped_example :
    (r : Vec) × (clip_unrestricted 8 16 20 (8 ∷ 8 ∷ []) ≡ some r) × Clipped 16 (8 ∷ 8 ∷ []) r
clip_unrestricted-Clipped_example =
    clip_unrestricted-Clipped 8 16 20 (8 ∷ 8 ∷ []) (omega arith) (omega arith) (omega arith)
      (omega arith) (omega arith) (omega arith)
