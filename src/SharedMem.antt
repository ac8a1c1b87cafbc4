-- ===== src/SharedMem.antt =====
-- `BlockSharedMemStMemberImpl` of include/alpaka/block/shared/st/detail/BlockSharedMemStMemberImpl.hpp: variables in
-- a piece of memory, each behind a header with its number and the offset of its end. The headers are a map by
-- offset; the variables themselves belong to the clients. std::size_t has 64 bits.
pub mod Chunk
pub mod Lookup
pub mod Dyn
use alpaka.Base.{
  true, false, ℕ, zero, suc, ◌+◌, ◌-◌, ◌*◌, ◌/◌, ◌^◌, List, [], ◌∷◌, Option, none, some, ltb, leb,
  ◌==◌, if◌then◌else◌, wrap,
}
use alpaka.Vec.Elementwise.{std_max}

-- `sizeof` and `alignof` of a type.
pub record Layout : Type 0 where
  pub size : ℕ
  pub align : ℕ

-- `MetaData` without its place.
pub record Header : Type 0 where
  pub id : ℕ
  pub offset : ℕ

-- Two fields of std::uint32_t.
abbrev pub meta_data : Layout
meta_data = record { size = 8; align = 4 }

-- `m_allocdBytes` and the headers written, the latest first.
pub record Mem : Type 0 where
  pub allocd_bytes : ℕ
  pub headers : List (ℕ × Header)

abbrev pub empty_mem : Mem
empty_mem = record { allocd_bytes = 0; headers = [] }

-- The header at an offset.
unfoldable pub header_at : List (ℕ × Header) → ℕ → Option Header
header_at [] off = none
header_at ((o, h) ∷ hs) off = if o == off then some h else header_at hs off

-- The pointer to a variable, as an address; `nullptr`; or a failed assertion or memory that holds no header.
pub data VarPtr : Type 0 where
  found : ℕ → VarPtr
  null : VarPtr
  fault : VarPtr

-- With `TMinDataAlignBytes`.
unfoldable pub chunk_align : ℕ → Layout → ℕ
unfolding std_max
chunk_align min_align t = std_max min_align t.align

-- `m_mem` as an address.
module _ (base min_align : ℕ) where
  unfoldable pub var_chunk_end : Layout → ℕ → ℕ
  unfolding chunk_align
  var_chunk_end t byte_offset =
      let ptr = wrap 64 (base + byte_offset) in
      let a = chunk_align min_align t in
      let new_ptr = wrap 64 (wrap 64 (ptr + a - 1) / a * a + t.size) in
      wrap 32 (wrap 64 (new_ptr + 2 ^ 64 - base))

  -- With `m_capacity`; `none` is a failed assertion.
  unfoldable pub alloc : ℕ → Layout → ℕ → Mem → Option Mem
  unfolding var_chunk_end
  alloc capacity t id m =
      let after_header = var_chunk_end meta_data m.allocd_bytes in
      let after_var = var_chunk_end t after_header in
      if ltb capacity after_header
      then none
      else if ltb capacity after_var
      then none
      else some (record {
        allocd_bytes = after_var;
        headers =
            (after_header - meta_data.size, record { id = id; offset = after_var }) ∷ m.headers;
      })

  -- `getLatestVarPtr`.
  unfoldable pub latest_var_ptr : Layout → Mem → ℕ
  latest_var_ptr t m = base + m.allocd_bytes - t.size

  unfoldable pub var_ptr_loop : Layout → ℕ → Mem → ℕ → ℕ → VarPtr
  unfolding var_chunk_end header_at
  var_ptr_loop t id m zero off = fault
  var_ptr_loop t id m (suc fuel) off = elim (ltb off m.allocd_bytes) [
    | false ↦ null
    | true ↦ elim (ltb m.allocd_bytes (var_chunk_end meta_data off)) [
      | true ↦ fault
      | false ↦ elim (header_at m.headers (var_chunk_end meta_data off - meta_data.size)) [
        | none ↦ fault
        | some h ↦ elim (h.id == id) [
          | true ↦ found (base + h.offset - t.size)
          | false ↦ var_ptr_loop t id m fuel h.offset
        ]
      ]
    ]
  ]

  -- Each round moves on, so there are at most as many as bytes.
  unfoldable pub get_var_ptr : Layout → ℕ → Mem → VarPtr
  unfolding var_ptr_loop
  get_var_ptr t id m = var_ptr_loop t id m (suc m.allocd_bytes) 0
