-- ===== src/SharedMem/Lookup.antt =====
-- `alloc` and `getVarPtr` of include/alpaka/block/shared/st/detail/BlockSharedMemStMemberImpl.hpp.
use alpaka.Base.{
  ℕ, zero, suc, ◌+◌, ◌-◌, ◌%◌, ◌^◌, ◌≤◌, ◌<◌, ◌≡◌, refl, sym, ap, subst, ◌∙◌, inl, inr, true, false,
  Bool-cases, List, [], ◌∷◌, ◌++◌, none, some, arith, ltb, ◌==◌, if◌then◌else◌,
}
use alpaka.Vec.Elementwise.{std_max}
use alpaka.SharedMem.{
  Layout, Header, meta_data, Mem, empty_mem, header_at, VarPtr, found, null, fault, chunk_align,
  var_chunk_end, alloc, latest_var_ptr, var_ptr_loop, get_var_ptr,
}
use alpaka.SharedMem.Chunk.{var_chunk_end-IsChunk}

-- The first look-up, or the second where there was no variable.
abbrev pub or_else : VarPtr → VarPtr → VarPtr
or_else (found p) q = found p
or_else null q = q
or_else fault q = fault

-- Both assertions hold where the allocation succeeds.
both_fit :
    (c a b : ℕ) (r m : Mem)
    → (if ltb c a then none else if ltb c b then none else some r) ≡ some m
    → (a ≤ c) × (b ≤ c) × (m ≡ r)
both_fit c a b r m e = elim (Bool-cases (ltb c a)) [
  | inl over ↦ absurd (ground arith)
  | inr fits ↦ elim (Bool-cases (ltb c b)) [
    | inl over ↦ absurd (ground arith)
    | inr fits' ↦
        let k : some r ≡ some m = ground arith in
        let f : m ≡ r = cc in (ground arith, ground arith, f)
  ]
]

module _ (base min_align : ℕ) where
  -- The end of the header behind an offset.
  abbrev header_end : ℕ → ℕ
  header_end off = var_chunk_end base min_align meta_data off

  -- The headers from `off` on, one behind the variable of the other, up to `n`.
  abbrev Chain : List (ℕ × Header) → ℕ → List Header → ℕ → Type 0
  Chain hs off [] n = off ≡ n
  Chain hs off (h ∷ es) n =
      (header_at hs (header_end off - 8) ≡ some h)
      × (header_end off ≤ h.offset)
      × (off + 8 ≤ header_end off)
      × Chain hs h.offset es n

  Chain-le :
      (hs : List (ℕ × Header)) (off : ℕ) (es : List Header) (n : ℕ) → Chain hs off es n → off ≤ n
  Chain-le hs off [] n c = omega (arith, c)
  Chain-le hs off (h ∷ es) n c = omega (arith, c.1, c.2, Chain-le hs h.offset es n c.3)

  abbrev find_in : Layout → ℕ → List Header → VarPtr
  find_in t id [] = null
  find_in t id (h ∷ es) = if h.id == id then found (base + h.offset - t.size) else find_in t id es

  find_in-snoc :
      (t : Layout) (id : ℕ) (es : List Header) (h : Header)
      → find_in t id (es ++ h ∷ []) ≡ or_else (find_in t id es) (find_in t id (h ∷ []))
  find_in-snoc t id [] h = refl
  find_in-snoc t id (e ∷ es) h = elim (Bool-cases (e.id == id)) [
    | inl hit ↦ rw hit refl
    | inr miss ↦ rw miss (find_in-snoc t id es h)
  ]

  var_ptr_loop-find_in :
      (t : Layout) (id : ℕ) (m : Mem) (fuel off : ℕ) (es : List Header)
      → Chain m.headers off es m.allocd_bytes
      → m.allocd_bytes < off + fuel
      → var_ptr_loop base min_align t id m fuel off ≡ find_in t id es
  unfolding var_ptr_loop
  var_ptr_loop-find_in t id m zero off es c enough =
      absurd (omega (arith, Chain-le m.headers off es m.allocd_bytes c))
  var_ptr_loop-find_in t id m (suc fuel) off [] c enough =
      let done : ltb off m.allocd_bytes ≡ false = ground (arith, c) in rw (done, var_ptr_loop) refl
  var_ptr_loop-find_in t id m (suc fuel) off (h ∷ es) c enough =
      let le = Chain-le m.headers h.offset es m.allocd_bytes c.3 in
      let more : ltb off m.allocd_bytes ≡ true = ground (arith, c.1, c.2, le) in
      let inside : ltb m.allocd_bytes (header_end off) ≡ false = ground (arith, c.1, le) in
      let rest =
        var_ptr_loop-find_in t id m fuel h.offset es c.3 (omega (arith, c.1, c.2, enough)) in
      elim (Bool-cases (h.id == id)) [
        | inl hit ↦ rw (more, inside, c.0, hit, var_ptr_loop) refl
        | inr miss ↦ rw (more, inside, c.0, miss, var_ptr_loop) rest
      ]

  Chain-snoc :
      (hs : List (ℕ × Header)) (off : ℕ) (es : List Header) (n : ℕ) (new : Header)
      → Chain hs off es n
      → n + 8 ≤ header_end n
      → header_end n ≤ new.offset
      → Chain ((header_end n - 8, new) ∷ hs) off (es ++ new ∷ []) new.offset
  unfolding header_at
  Chain-snoc hs off [] n new c a b =
      let same : ((header_end n - 8) == (header_end off - 8)) ≡ true = rw c (ground arith) in
      (
        rw (same, header_at) refl,
        subst (λ q. header_end q ≤ new.offset) (sym c) b,
        subst (λ q. q + 8 ≤ header_end q) (sym c) a,
        refl,
      )
  Chain-snoc hs off (h ∷ es) n new c a b =
      let le = Chain-le hs h.offset es n c.3 in
      let differs : ((header_end n - 8) == (header_end off - 8)) ≡ false =
        ground (arith, c.1, c.2, le, a) in
      (rw (differs, header_at) c.0, c.1, c.2, Chain-snoc hs h.offset es n new c.3 a b)

  -- Memory that only `alloc` has written: one header behind the variable of the other, within the capacity.
  pub record IsWellFormed (capacity : ℕ) (m : Mem) : Type 0 where
    entries : List Header
    chain : Chain m.headers 0 entries m.allocd_bytes
    pub within : m.allocd_bytes ≤ capacity

  pub empty_mem-IsWellFormed : (capacity : ℕ) → IsWellFormed capacity empty_mem
  empty_mem-IsWellFormed capacity = record { entries = []; chain = refl; within = omega arith }

  alloc-cases :
      (capacity : ℕ) (t : Layout) (id : ℕ) (m m' : Mem)
      → alloc base min_align capacity t id m ≡ some m'
      → (header_end m.allocd_bytes ≤ capacity)
        × (var_chunk_end base min_align t (header_end m.allocd_bytes) ≤ capacity)
        × (m' ≡ record {
          allocd_bytes = var_chunk_end base min_align t (header_end m.allocd_bytes);
          headers =
              (
                header_end m.allocd_bytes - 8,
                record {
                  id = id;
                  offset = var_chunk_end base min_align t (header_end m.allocd_bytes);
                },
              )
              ∷ m.headers;
        })
  unfolding alloc
  alloc-cases capacity t id m m' e =
      let a : ℕ = header_end m.allocd_bytes in
      let b : ℕ = var_chunk_end base min_align t a in
      both_fit capacity a b
        (record { allocd_bytes = b; headers = (a - 8, record { id = id; offset = b }) ∷ m.headers })
        m' e

  get_var_ptr-find_in :
      (t : Layout) (id capacity : ℕ) (m : Mem) (w : IsWellFormed capacity m)
      → get_var_ptr base min_align t id m ≡ find_in t id w.entries
  unfolding get_var_ptr
  get_var_ptr-find_in t id capacity m w =
      var_ptr_loop-find_in t id m (suc m.allocd_bytes) 0 w.entries w.chain (omega arith)

  -- In memory of less than 2 ^ 32 bytes that does not reach the end of the addresses, for a type that fits: a
  -- successful `alloc` leaves well-formed memory; the new variable lies within the capacity, behind everything
  -- allocated before and a header, on an aligned address; and `getVarPtr` finds each variable that it found
  -- before at the same place, the new number, where it is new, at the new variable, and no other.
  pub alloc_lem :
      (capacity : ℕ) (t : Layout) (id : ℕ) (m m' : Mem)
      → base + 2 ^ 32 ≤ 2 ^ 64
      → capacity + chunk_align min_align meta_data + 8 < 2 ^ 32
      → 0 < chunk_align min_align t
      → capacity + chunk_align min_align t + t.size < 2 ^ 32
      → IsWellFormed capacity m
      → alloc base min_align capacity t id m ≡ some m'
      → IsWellFormed capacity m'
        × (m.allocd_bytes + 8 + t.size ≤ m'.allocd_bytes)
        × (latest_var_ptr base min_align t m' % chunk_align min_align t ≡ 0)
        × ((u : Layout) (k : ℕ)
            → get_var_ptr base min_align u k m'
              ≡ or_else
                  (get_var_ptr base min_align u k m)
                  (if id == k then found (latest_var_ptr base min_align u m') else null))
  unfolding latest_var_ptr
  alloc_lem capacity t id m m' addresses fits_meta pos fits_t w e =
      let (in_a, in_b, same) = alloc-cases capacity t id m m' e in
      let a : ℕ = header_end m.allocd_bytes in
      let b : ℕ = var_chunk_end base min_align t a in
      let new : Header = record { id = id; offset = b } in
      let pos_meta : 0 < chunk_align min_align meta_data =
        unfold chunk_align std_max in ground arith in
      let chunk_a =
        var_chunk_end-IsChunk base min_align meta_data m.allocd_bytes pos_meta addresses
          (omega (arith, w.within, fits_meta)) in
      let chunk_b =
        var_chunk_end-IsChunk base min_align t a pos addresses (omega (arith, in_a, fits_t)) in
      let made : Mem = record { allocd_bytes = b; headers = (a - 8, new) ∷ m.headers } in
      let w' : IsWellFormed capacity made = record {
        entries = w.entries ++ new ∷ [];
        chain =
            Chain-snoc m.headers 0 w.entries m.allocd_bytes new w.chain chunk_a.behind
              (omega (arith, chunk_b.behind));
        within = in_b;
      } in
      rw same (
        w',
        omega (arith, chunk_a.behind, chunk_b.behind),
        chunk_b.aligned,
        λ u k.
            get_var_ptr-find_in u k capacity made w'
            ∙ (find_in-snoc u k w.entries new
                ∙ ap (λ q. or_else q (find_in u k (new ∷ [])))
                    (sym (get_var_ptr-find_in u k capacity m w))),
      )
