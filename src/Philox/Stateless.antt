-- ===== src/Philox/Stateless.antt =====
-- The rounds: include/alpaka/rand/Philox/PhiloxStateless.hpp, PhiloxStatelessKeyedBase.hpp, PhiloxConstants.hpp and
-- MultiplyAndSplit64to32.hpp. The number of rounds, `TParams::rounds`, is an argument.
pub mod Laws
use Prim.Native.Nat.{bit_xor}
use alpaka.Base.{ℕ, zero, suc, ◌+◌, ◌*◌, ◌/◌, ◌^◌, wrap}

-- The array of four words: the counter, and what the rounds make of it.
pub record Counter : Type 0 where
  pub c0 : ℕ
  pub c1 : ℕ
  pub c2 : ℕ
  pub c3 : ℕ

pub record Key : Type 0 where
  pub k0 : ℕ
  pub k1 : ℕ

-- The shift by 32 and the mask of 32 ones, on std::uint64_t.
unfoldable pub high32_bits : ℕ → ℕ
high32_bits x = wrap 32 (x / 2 ^ 32)

unfoldable pub low32_bits : ℕ → ℕ
low32_bits x = wrap 32 x

-- The high and the low half of the product.
unfoldable pub multiply_and_split : ℕ → ℕ → ℕ × ℕ
unfolding high32_bits low32_bits
multiply_and_split a b = let res64 = wrap 64 (a * b) in (high32_bits res64, low32_bits res64)

abbrev pub weyl_64_0 : ℕ
weyl_64_0 = 0x9E3779B97F4A7C15

abbrev pub weyl_64_1 : ℕ
weyl_64_1 = 0xBB67AE8584CAA73B

unfoldable pub weyl_32_0 : ℕ
unfolding high32_bits
weyl_32_0 = high32_bits weyl_64_0

unfoldable pub weyl_32_1 : ℕ
unfolding high32_bits
weyl_32_1 = high32_bits weyl_64_1

abbrev pub multipliter_4x32_0 : ℕ
multipliter_4x32_0 = 0xCD9E8D57

abbrev pub multipliter_4x32_1 : ℕ
multipliter_4x32_1 = 0xD2511F53

unfoldable pub single_round : Counter → Key → Counter
unfolding multiply_and_split
single_round counter key =
    let (h0, l0) = multiply_and_split counter.c0 multipliter_4x32_0 in
    let (h1, l1) = multiply_and_split counter.c2 multipliter_4x32_1 in
    record {
      c0 = bit_xor (bit_xor h1 counter.c1) key.k0;
      c1 = l1;
      c2 = bit_xor (bit_xor h0 counter.c3) key.k1;
      c3 = l0;
    }

unfoldable pub bump_key : Key → Key
unfolding weyl_32_0 weyl_32_1
bump_key key = record { k0 = wrap 32 (key.k0 + weyl_32_0); k1 = wrap 32 (key.k1 + weyl_32_1) }

-- `for(n = 0; n < numRounds(); ++n)`, by the rounds that are left.
unfoldable pub rounds_loop : ℕ → Counter → Key → Counter
unfolding single_round bump_key
rounds_loop zero counter key = counter
rounds_loop (suc left) counter key =
    rounds_loop left (single_round counter (bump_key key)) (bump_key key)

unfoldable pub n_rounds : ℕ → Counter → Key → Counter
unfolding rounds_loop single_round
n_rounds rounds counter_in key_in = rounds_loop rounds (single_round counter_in key_in) key_in

unfoldable pub generate : ℕ → Counter → Key → Counter
unfolding n_rounds
generate rounds counter key = n_rounds rounds counter key

-- The call operator of `PhiloxStatelessKeyedBase`.
unfoldable pub keyed_call : ℕ → Key → Counter → Counter
unfolding generate
keyed_call rounds m_key counter = generate rounds counter m_key
