-- ===== src/SharedMem/Chunk.antt =====
-- Where the chunks of include/alpaka/block/shared/st/detail/BlockSharedMemStMemberImpl.hpp lie.
use alpaka.Base.{ℕ, ◌+◌, ◌-◌, ◌*◌, ◌/◌, ◌%◌, ◌^◌, ◌≤◌, ◌<◌, ◌≡◌, ap, ◌∙◌, arith, wrap, wrap_of_lt}
use native.Mathlib.Nat.{mod-lt, div-add-mod, mod-eq_of_lt, add-mod_right, mul-mod_left, mul_comm}
use alpaka.SharedMem.{Layout, chunk_align, var_chunk_end}

-- The chunk of a type behind an offset: it starts at or behind the offset, on an aligned address, and the padding
-- before it is less than the alignment.
pub record IsChunk (base a : ℕ) (t : Layout) (off end : ℕ) : Type 0 where
  pub behind : off + t.size ≤ end
  pub near : end < off + a + t.size
  pub aligned : (base + end - t.size) % a ≡ 0

-- The next multiple of `a`.
round_up : (n a : ℕ) → 0 < a → (n ≤ (n + a - 1) / a * a) × ((n + a - 1) / a * a < n + a)
round_up n a pos =
    let e = div-add-mod (n + a - 1) a in
    let r = mod-lt (n + a - 1) pos in
    let c = mul_comm ((n + a - 1) / a) a in (omega (arith, e, r, c), omega (arith, e, r, c))

module _ (base min_align : ℕ) (t : Layout) (off : ℕ) (pos : 0 < chunk_align min_align t)
    (addresses : base + 2 ^ 32 ≤ 2 ^ 64)
    (small : off + chunk_align min_align t + t.size < 2 ^ 32) where
  pub var_chunk_end-IsChunk :
      IsChunk base (chunk_align min_align t) t off (var_chunk_end base min_align t off)
  unfolding var_chunk_end
  var_chunk_end-IsChunk =
      let a : ℕ = chunk_align min_align t in
      let q : ℕ = (base + off + a - 1) / a * a in
      let (lo, hi) = round_up (base + off) a pos in
      let value : var_chunk_end base min_align t off ≡ q + t.size - base =
        rw
          (
            wrap_of_lt 64 (let l : base + off < 2 ^ 64 = omega arith in l),
            wrap_of_lt 64 (let l : base + off + a - 1 < 2 ^ 64 = omega arith in l),
            wrap_of_lt 64 (let l : q + t.size < 2 ^ 64 = omega (arith, hi) in l),
          )
          (ap (wrap 32) (
              ap (λ (x : ℕ). x % 2 ^ 64)
                (let e : q + t.size + 2 ^ 64 - base ≡ (q + t.size - base) + 2 ^ 64 =
                    omega (arith, lo, hi) in
                  e)
              ∙ (add-mod_right (q + t.size - base) (2 ^ 64)
                  ∙ mod-eq_of_lt (let l : q + t.size - base < 2 ^ 64 = omega (arith, lo, hi) in l)))
            ∙ wrap_of_lt 32 (let l : q + t.size - base < 2 ^ 32 = omega (arith, lo, hi) in l)) in
      rw value (record {
        behind = omega (arith, lo, hi);
        near = omega (arith, lo, hi);
        aligned =
            ap (λ (x : ℕ). x % a)
              (let e : base + (q + t.size - base) - t.size ≡ q = omega (arith, lo, hi) in e)
            ∙ mul-mod_left ((base + off + a - 1) / a) a;
      })
