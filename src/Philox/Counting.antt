-- ===== src/Philox/Counting.antt =====
-- How the engines move their counter: include/alpaka/rand/Philox/PhiloxBaseCommon.hpp.
pub mod Laws
use alpaka.Base.{ℕ, ◌+◌, ◌==◌, ltb, if◌then◌else◌, wrap}
use alpaka.Philox.Stateless.{Counter, high32_bits, low32_bits}

-- `++` on std::uint32_t.
unfoldable pub increment : ℕ → ℕ
increment x = wrap 32 (x + 1)

unfoldable pub advance_counter : Counter → Counter
unfolding increment
advance_counter counter =
    let c0' = increment counter.c0 in
    let c1' = if c0' == 0 then increment counter.c1 else counter.c1 in
    let c2' =
      if c0' == 0 then (if c1' == 0 then increment counter.c2 else counter.c2) else counter.c2 in
    let c3' =
      if c0' == 0
      then (if c1' == 0
          then (if c2' == 0 then increment counter.c3 else counter.c3)
          else counter.c3)
      else counter.c3 in
    record { c0 = c0'; c1 = c1'; c2 = c2'; c3 = c3' }

unfoldable pub skip4 : ℕ → Counter → Counter
unfolding high32_bits low32_bits
skip4 offset temp =
    let c0' = wrap 32 (temp.c0 + low32_bits offset) in
    record {
      c0 = c0';
      c1 = wrap 32 (temp.c1 + (high32_bits offset + (if ltb c0' temp.c0 then 1 else 0)));
      c2 = wrap 32 (temp.c2 + (if ltb c0' temp.c1 then 1 else 0));
      c3 = wrap 32 (temp.c3 + (if ltb c0' temp.c2 then 1 else 0));
    }

unfoldable pub skip_subsequence : ℕ → Counter → Counter
unfolding high32_bits low32_bits
skip_subsequence subsequence temp =
    let c2' = wrap 32 (temp.c2 + low32_bits subsequence) in
    record {
      c0 = temp.c0;
      c1 = temp.c1;
      c2 = c2';
      c3 = wrap 32 (temp.c3 + (high32_bits subsequence + (if ltb c2' temp.c2 then 1 else 0)));
    }
