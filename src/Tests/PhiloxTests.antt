-- ===== src/Tests/PhiloxTests.antt =====
-- Runs of the Philox generator and its engines.
use alpaka.Base.{◌+◌, ◌%◌, ◌^◌, ◌≡◌, refl, arith}
use alpaka.Philox.Stateless.{Counter, Key, generate}
use alpaka.Philox.Stateless.Laws.{IsCounter, generate-injective}
use alpaka.Philox.Counting.{advance_counter, skip4, skip_subsequence}
use alpaka.Philox.Counting.Laws.{number, counter_at, advance_counter-number}
use alpaka.Philox.Single.{next_number, after_calls, philox_single, advance_state, skip}
use alpaka.Philox.Single.Laws.{word, start, key_of, philox_single-generate, philox_single_offset}
use alpaka.Philox.Vector.{next_vector, after_vectors, philox_vector}
use alpaka.Philox.Vector.Laws.{vector_start, philox_vector-generate}

abbrev wrapping : Counter
wrapping = record { c0 = 0xffffffff; c1 = 0xffffffff; c2 = 7; c3 = 0 }

abbrev carried : Counter
carried = record { c0 = 0; c1 = 0; c2 = 8; c3 = 0 }

abbrev some_key : Key
some_key = record { k0 = 12345; k1 = 678 }

advance_carries : advance_counter wrapping ≡ carried
unfolding advance_counter
advance_carries = refl

-- The counter of the engine for subsequence 5 and offset 0 is in subsequence 5 + 2 ^ 32, that for offset 20 in
-- subsequence 5.
stray_subsequence :
    ((philox_single 10 1 5 0).counter ≡ (record { c0 = 1; c1 = 0; c2 = 5; c3 = 1 }))
    × ((philox_single 10 1 5 20).counter ≡ (record { c0 = 6; c1 = 0; c2 = 5; c3 = 0 }))
unfolding philox_single advance_state skip skip4 skip_subsequence advance_counter
stray_subsequence = (refl, refl)

generate-injective_example : carried ≡ carried
generate-injective_example =
    generate-injective 10 carried carried some_key (omega arith) (omega arith) (omega arith) refl

advance_counter-number_example :
    IsCounter (advance_counter wrapping)
    × (number (advance_counter wrapping) ≡ (number wrapping + 1) % 2 ^ 128)
advance_counter-number_example = advance_counter-number wrapping (omega arith)

philox_single-generate_example :
    (next_number 10 (after_calls 10 6 (philox_single 10 1 5 20))).0
    ≡ word 2 (generate 10 (counter_at (start 5 20 + 1)) (key_of 1))
philox_single-generate_example = philox_single-generate 10 1 5 20 6 (omega arith) (omega arith)

philox_single_offset_example : philox_single 10 1 5 7 ≡ philox_single 10 1 5 4
philox_single_offset_example = philox_single_offset 10 1 5 7 (omega arith) (omega arith)

philox_vector-generate_example :
    (next_vector 10 (after_vectors 10 3 (philox_vector 10 1 5 20))).0
    ≡ generate 10 (counter_at (vector_start 5 20 + 3 + 1)) (key_of 1)
philox_vector-generate_example = philox_vector-generate 10 1 5 20 3 (omega arith) (omega arith)
