-- ===== src/SharedMem/Dyn.antt =====
-- `BlockSharedMemDynMember` of include/alpaka/block/shared/dyn/BlockSharedMemDynMember.hpp: the array whose
-- front is the dynamic shared memory of a block, and whose rest is the static one's. std::size_t has 64 bits.
use native.Mathlib.Nat.{mod-lt, mod-eq_of_lt, add-mod_right, div-add-mod, mul_comm, mul-mod_left}
use native.Mathlib.Decide.{dec_lt}
use alpaka.Base.{
  ℕ, ◌+◌, ◌-◌, ◌*◌, ◌/◌, ◌%◌, ◌^◌, ◌≤◌, ◌<◌, ◌≡◌, refl, ap, ◌∙◌, inl, inr, Bool, true, false,
  Option, none, some, arith, ltb, leb, if◌then◌else◌, wrap, wrap_of_lt, Bool-cases, leb→le,
}
use alpaka.SharedMem.{Layout, meta_data, Mem, chunk_align, alloc, latest_var_ptr}
use alpaka.SharedMem.Lookup.{IsWellFormed, alloc_lem}

-- `defaultAlignment`, `staticAllocBytes()` and the address of `m_mem`.
module _ (alignment static_alloc_bytes mem : ℕ) where
  unfoldable pub get_pitch : ℕ → ℕ
  get_pitch size_bytes =
      let up = if ltb 0 (size_bytes % alignment) then 1 else 0 in
      wrap 32 (wrap 64 (wrap 64 (size_bytes / alignment + up) * alignment))

  -- The constructor gives `m_dynPitch`; `none` is a failed assertion.
  unfoldable pub block_shared_mem_dyn_member : ℕ → Option ℕ
  unfolding get_pitch
  block_shared_mem_dyn_member size_bytes =
      if leb (wrap 32 size_bytes) static_alloc_bytes then some (get_pitch size_bytes) else none

  unfoldable pub dyn_mem_begin : ℕ
  dyn_mem_begin = mem

  unfoldable pub static_mem_begin : ℕ → ℕ
  static_mem_begin dyn_pitch = wrap 64 (mem + dyn_pitch)

  unfoldable pub static_mem_capacity : ℕ → ℕ
  static_mem_capacity dyn_pitch = wrap 32 (static_alloc_bytes + 2 ^ 32 - dyn_pitch)

some_of_if :
    (b : Bool) (x y : ℕ)
    → (let r : Option ℕ = if b then some x else none in r ≡ some y)
    → (b ≡ true) × (x ≡ y)
some_of_if true x y h = (refl, cc)
some_of_if false x y h = absurd (cc)

-- A size rounded up to a multiple of the alignment.
rounded :
    (size a q up : ℕ)
    → 0 < a
    → q ≡ size / a
    → up ≡ (if ltb 0 (size % a) then 1 else 0)
    → (size ≤ (q + up) * a) × ((q + up) * a < size + a)
rounded size a q up pos e f =
    let d = div-add-mod size a in
    let r = mod-lt size pos in
    let c = mul_comm (size / a) a in
    elim (Bool-cases (ltb 0 (size % a))) [
      | inl more ↦
          let g : up ≡ 1 = f ∙ rw more refl in
          let h : (q + up) * a ≡ size / a * a + a = grind (arith, e, g) in
          ground (arith, d, r, c, h, more)
      | inr exact ↦
          let g : up ≡ 0 = f ∙ rw exact refl in
          let h : (q + up) * a ≡ size / a * a = grind (arith, e, g) in
          ground (arith, d, r, c, h, exact)
    ]

add-mul : (x d a : ℕ) → (x + d) * a ≡ x * a + d * a
add-mul x d a = grind arith

-- No multiple of the alignment is between a size and a larger multiple of it.
multiple_le : (x y size a : ℕ) → x * a < size + a → size ≤ y * a → x * a ≤ y * a
multiple_le x y size a h k = elim (dec_lt y x) [
  | yes above ↦
      let d : ℕ = x - y - 1 in
      let e : x ≡ y + 1 + d = omega arith in
      let f : x * a ≡ y * a + a + d * a = grind (arith, e) in absurd (omega (arith, f))
  | no below ↦
      let d : ℕ = y - x in
      let e : y ≡ x + d = omega arith in
      let f : y * a ≡ x * a + d * a = ap (λ (t : ℕ). t * a) e ∙ add-mul x d a in omega (arith, f)
]

module _ (alignment static_alloc_bytes mem : ℕ) where
  get_pitch_lem :
      (size_bytes blocks : ℕ)
      → 0 < alignment
      → static_alloc_bytes ≡ blocks * alignment
      → static_alloc_bytes < 2 ^ 32
      → size_bytes ≤ static_alloc_bytes
      → (let pitch = get_pitch alignment static_alloc_bytes mem size_bytes in
          (size_bytes ≤ pitch)
          × (pitch < size_bytes + alignment)
          × (pitch % alignment ≡ 0)
          × (pitch ≤ static_alloc_bytes))
  unfolding get_pitch
  get_pitch_lem size_bytes blocks pos whole small fits =
      let a = alignment in
      let q : ℕ = size_bytes / a in
      let up : ℕ = if ltb 0 (size_bytes % a) then 1 else 0 in
      let up_le : up ≤ 1 = ground arith in
      let (lo, hi) = rounded size_bytes a q up pos refl refl in
      let le : (q + up) * a ≤ blocks * a =
        multiple_le (q + up) blocks size_bytes a hi (omega (arith, whole)) in
      let q_le : q + up ≤ (q + up) * a = grind (arith, pos) in
      let e : wrap 32 (wrap 64 (wrap 64 (q + up) * a)) ≡ (q + up) * a =
        ap (λ x. wrap 32 (wrap 64 (x * a))) (wrap_of_lt 64 (omega (arith, q_le, le, whole)))
        ∙ ap (wrap 32) (wrap_of_lt 64 (omega (arith, le, whole)))
        ∙ wrap_of_lt 32 (omega (arith, le, whole)) in
      (
        omega (arith, e, lo),
        omega (arith, e, hi),
        ap (λ (x : ℕ). x % a) e ∙ mul-mod_left (q + up) a,
        omega (arith, e, le, whole),
      )

  passed :
      (size_bytes dyn_pitch : ℕ)
      → block_shared_mem_dyn_member alignment static_alloc_bytes mem size_bytes ≡ some dyn_pitch
      → (leb (wrap 32 size_bytes) static_alloc_bytes ≡ true)
        × (get_pitch alignment static_alloc_bytes mem size_bytes ≡ dyn_pitch)
  unfolding block_shared_mem_dyn_member
  passed size_bytes dyn_pitch made =
      some_of_if (leb (wrap 32 size_bytes) static_alloc_bytes)
        (get_pitch alignment static_alloc_bytes mem size_bytes) dyn_pitch made

  -- For a size that the assertion lets pass and that is below 2 ^ 32, and an array whose size is a multiple of
  -- the alignment: the dynamic memory is at the front of the array, and a variable that the static provider of
  -- the rest then allocates lies behind all of it, on an aligned address, and within the array.
  pub dyn_member-alloc :
      (size_bytes dyn_pitch blocks min_align : ℕ) (t : Layout) (id : ℕ) (m m' : Mem)
      → 0 < alignment
      → static_alloc_bytes ≡ blocks * alignment
      → static_alloc_bytes + chunk_align min_align meta_data + 8 < 2 ^ 32
      → static_alloc_bytes + chunk_align min_align t + t.size < 2 ^ 32
      → 0 < chunk_align min_align t
      → mem + static_alloc_bytes + 2 ^ 32 ≤ 2 ^ 64
      → size_bytes < 2 ^ 32
      → block_shared_mem_dyn_member alignment static_alloc_bytes mem size_bytes ≡ some dyn_pitch
      → (let base = static_mem_begin alignment static_alloc_bytes mem dyn_pitch in
          let capacity = static_mem_capacity alignment static_alloc_bytes mem dyn_pitch in
          IsWellFormed base min_align capacity m
          → alloc base min_align capacity t id m ≡ some m'
          → (dyn_mem_begin alignment static_alloc_bytes mem + size_bytes
              ≤ latest_var_ptr base min_align t m')
            × (latest_var_ptr base min_align t m' + t.size ≤ mem + static_alloc_bytes)
            × (latest_var_ptr base min_align t m' % chunk_align min_align t ≡ 0)
            × IsWellFormed base min_align capacity m')
  unfolding block_shared_mem_dyn_member static_mem_begin static_mem_capacity dyn_mem_begin
      latest_var_ptr
  dyn_member-alloc size_bytes dyn_pitch blocks min_align t id m m' pos whole fits_meta fits_t pos_t
        addresses small made formed allocated =
      let base = static_mem_begin alignment static_alloc_bytes mem dyn_pitch in
      let capacity = static_mem_capacity alignment static_alloc_bytes mem dyn_pitch in
      let (passes, pitch_eq) = passed size_bytes dyn_pitch made in
      let le : size_bytes ≤ static_alloc_bytes =
        omega (arith, wrap_of_lt 32 small, leb→le (wrap 32 size_bytes) static_alloc_bytes passes) in
      let (lo, hi, aligned, inside) = get_pitch_lem size_bytes blocks pos whole (omega arith) le in
      let base_eq : base ≡ mem + dyn_pitch = wrap_of_lt 64 (omega (arith, inside, pitch_eq)) in
      let capacity_eq : capacity ≡ static_alloc_bytes - dyn_pitch =
        (let e : static_alloc_bytes + 2 ^ 32 - dyn_pitch
              ≡ (static_alloc_bytes - dyn_pitch) + 2 ^ 32 =
            omega (arith, inside, pitch_eq) in
          ap (wrap 32) e)
        ∙ add-mod_right (static_alloc_bytes - dyn_pitch) (2 ^ 32)
        ∙ mod-eq_of_lt (omega arith) in
      let (formed', behind, at_aligned, lookup) =
        alloc_lem base min_align capacity t id m m' (omega (arith, base_eq, inside, pitch_eq))
          (omega (arith, capacity_eq)) pos_t (omega (arith, capacity_eq)) formed allocated in
      (
        omega (arith, base_eq, lo, pitch_eq, behind),
        omega (arith, base_eq, capacity_eq, formed'.within, behind, inside, pitch_eq),
        at_aligned,
        formed',
      )
