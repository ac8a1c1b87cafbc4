-- ===== src/Tests/SharedMemTests.antt =====
-- Runs of the block shared memory.
use alpaka.Base.{
  ℕ, ◌+◌, ◌%◌, ◌≤◌, ◌<◌, ◌^◌, ◌≡◌, refl, [], ◌∷◌, some, none, arith, ◌==◌, if◌then◌else◌,
}
use alpaka.SharedMem.{
  Layout, Mem, empty_mem, found, null, chunk_align, alloc, latest_var_ptr, get_var_ptr,
}
use alpaka.SharedMem.Dyn.{
  block_shared_mem_dyn_member, dyn_mem_begin, static_mem_begin, static_mem_capacity,
  dyn_member-alloc,
}
use alpaka.SharedMem.Lookup.{or_else, IsWellFormed, empty_mem-IsWellFormed, alloc_lem}

abbrev int : Layout
int = record { size = 4; align = 4 }

abbrev one_int : Mem
one_int = record { allocd_bytes = 20; headers = (0, record { id = 3; offset = 20 }) ∷ [] }

first_variable : alloc 1024 16 64 int 3 empty_mem ≡ some one_int
unfolding alloc
first_variable = refl

lookup_of_first : get_var_ptr 1024 16 int 3 one_int ≡ found 1040
unfolding get_var_ptr
lookup_of_first = refl

no_space : alloc 1024 16 64 (record { size = 64; align = 4 }) 4 one_int ≡ none
unfolding alloc
no_space = refl

align_pos : 0 < chunk_align 16 int
unfolding chunk_align
align_pos = omega arith

fits_meta : 64 + chunk_align 16 (record { size = 8; align = 4 }) + 8 < 2 ^ 32
unfolding chunk_align
fits_meta = omega arith

fits_int : 64 + chunk_align 16 int + 4 < 2 ^ 32
unfolding chunk_align
fits_int = omega arith

alloc_lem_example :
    IsWellFormed 1024 16 64 one_int
    × (12 ≤ 20)
    × (latest_var_ptr 1024 16 int one_int % chunk_align 16 int ≡ 0)
    × ((u : Layout) (k : ℕ)
        → get_var_ptr 1024 16 u k one_int
          ≡ or_else
              (get_var_ptr 1024 16 u k empty_mem)
              (if 3 == k then found (latest_var_ptr 1024 16 u one_int) else null))
alloc_lem_example =
    alloc_lem 1024 16 64 int 3 empty_mem one_int (omega arith) fits_meta align_pos fits_int
      (empty_mem-IsWellFormed 1024 16 64) first_variable

-- An array of 47 KiB, aligned by 16, with 20 bytes of dynamic memory.
dyn_pitch_of_20 : block_shared_mem_dyn_member 16 48128 1024 20 ≡ some 32
unfolding block_shared_mem_dyn_member
dyn_pitch_of_20 = refl

-- The assertion sees the low 32 bits of the size.
too_large_size : block_shared_mem_dyn_member 16 48128 1024 (2 ^ 32) ≡ some 0
unfolding block_shared_mem_dyn_member
too_large_size = refl

behind_dyn : alloc 1056 16 48096 int 3 empty_mem ≡ some one_int
unfolding alloc
behind_dyn = refl

fits_dyn_meta : 48128 + chunk_align 16 (record { size = 8; align = 4 }) + 8 < 2 ^ 32
unfolding chunk_align
fits_dyn_meta = omega arith

fits_dyn_int : 48128 + chunk_align 16 int + 4 < 2 ^ 32
unfolding chunk_align
fits_dyn_int = omega arith

dyn_member-alloc_example :
    (dyn_mem_begin 16 48128 1024 + 20 ≤ latest_var_ptr 1056 16 int one_int)
    × (latest_var_ptr 1056 16 int one_int + 4 ≤ 1024 + 48128)
    × (latest_var_ptr 1056 16 int one_int % chunk_align 16 int ≡ 0)
    × IsWellFormed 1056 16 48096 one_int
unfolding static_mem_begin static_mem_capacity
dyn_member-alloc_example =
    dyn_member-alloc 16 48128 1024 20 32 3008 16 int 3 empty_mem one_int (omega arith) (omega arith)
      fits_dyn_meta fits_dyn_int align_pos (omega arith) (omega arith) dyn_pitch_of_20
      (empty_mem-IsWellFormed 1056 16 48096) behind_dyn
