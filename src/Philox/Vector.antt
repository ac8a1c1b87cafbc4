-- ===== src/Philox/Vector.antt =====
-- The engine that hands out four numbers at a time, include/alpaka/rand/Philox/PhiloxVector.hpp.
pub mod Laws
use alpaka.Base.{ℕ, zero, suc}
use alpaka.Philox.Stateless.{Counter, Key, high32_bits, low32_bits, n_rounds, generate}
use alpaka.Philox.Counting.{advance_counter, skip4, skip_subsequence}

pub record State : Type 0 where
  pub counter : Counter
  pub key : Key

module _ (rounds : ℕ) where
  -- The vector returned, and the state after the call.
  unfoldable pub next_vector : State → Counter × State
  next_vector s =
      let counter' = advance_counter s.counter in
      (n_rounds rounds counter' s.key, record { counter = counter'; key = s.key })

  -- The constructor.
  unfoldable pub philox_vector : ℕ → ℕ → ℕ → State
  unfolding high32_bits low32_bits next_vector
  philox_vector seed subsequence offset =
      let zeros : Counter = record { c0 = 0; c1 = 0; c2 = 0; c3 = 0 } in
      (next_vector (record {
        counter = skip4 offset (skip_subsequence subsequence zeros);
        key = record { k0 = low32_bits seed; k1 = high32_bits seed };
      })).1

  -- The state after `n` calls of `operator()`.
  unfoldable pub after_vectors : ℕ → State → State
  unfolding next_vector
  after_vectors zero s = s
  after_vectors (suc n) s = (next_vector (after_vectors n s)).1
