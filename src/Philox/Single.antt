-- ===== src/Philox/Single.antt =====
-- The engine that hands out one number at a time: include/alpaka/rand/Philox/PhiloxSingle.hpp.
pub mod Laws
use alpaka.Base.{ℕ, zero, suc, ◌+◌, ◌-◌, ◌/◌, ◌%◌, ◌==◌, ltb, if◌then◌else◌, wrap}
use alpaka.Philox.Stateless.{Counter, Key, high32_bits, low32_bits, n_rounds}
use alpaka.Philox.Counting.{advance_counter, skip4, skip_subsequence}

pub record State : Type 0 where
  pub counter : Counter
  pub key : Key
  pub result : Counter
  pub position : ℕ

-- `result[0] = result[1]; result[1] = result[2]; result[2] = result[3];`
unfoldable pub shift : Counter → Counter
shift result = record { c0 = result.c1; c1 = result.c2; c2 = result.c3; c3 = result.c3 }

unfoldable pub shifts : ℕ → Counter → Counter
unfolding shift
shifts zero result = result
shifts (suc n) result = shifts n (shift result)

-- The number of rounds is `TParams::rounds`.
module _ (rounds : ℕ) where
  unfoldable pub advance_state : State → State
  advance_state s =
      let counter' = advance_counter s.counter in
      record {
        counter = counter';
        key = s.key;
        result = n_rounds rounds counter' s.key;
        position = 0;
      }

  -- The number returned, and the state after the call.
  unfoldable pub next_number : State → ℕ × State
  unfolding shift
  next_number s =
      let moved : State = record {
        counter = s.counter;
        key = s.key;
        result = s.result;
        position = wrap 32 (s.position + 1);
      } in
      (
        s.result.c0,
        if moved.position == 4 then advance_state moved else (record {
          counter = s.counter;
          key = s.key;
          result = shift s.result;
          position = moved.position;
        }),
      )

  -- `offset & 3` is the remainder by 4.
  unfoldable pub skip : ℕ → State → State
  unfolding shifts
  skip offset s =
      let position' = wrap 32 (s.position + offset % 4) in
      let offset' = wrap 64 (offset + (if ltb position' 4 then 0 else 4)) in
      let position'' = position' - (if ltb position' 4 then 0 else 4) in
      record {
        counter = skip4 (offset' / 4) s.counter;
        key = s.key;
        result = shifts position'' s.result;
        position = position'';
      }

  -- The constructor.
  unfoldable pub philox_single : ℕ → ℕ → ℕ → State
  unfolding high32_bits low32_bits
  philox_single seed subsequence offset =
      let zeros : Counter = record { c0 = 0; c1 = 0; c2 = 0; c3 = 0 } in
      advance_state (
        skip offset (record {
          counter = skip_subsequence subsequence zeros;
          key = record { k0 = low32_bits seed; k1 = high32_bits seed };
          result = zeros;
          position = 0;
        }))

  -- The state after `n` calls of `operator()`.
  unfoldable pub after_calls : ℕ → State → State
  unfolding next_number
  after_calls zero s = s
  after_calls (suc n) s = (next_number (after_calls n s)).1
