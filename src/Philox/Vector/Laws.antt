-- ===== src/Philox/Vector/Laws.antt =====
-- The engine of include/alpaka/rand/Philox/PhiloxVector.hpp against `generate` at counters in a row.
use alpaka.Base.{ℕ, zero, suc, ◌+◌, ◌*◌, ◌%◌, ◌^◌, ◌<◌, ◌≡◌, ap, ◌∙◌, arith, ltb, if◌then◌else◌}
use alpaka.Philox.Stateless.{Counter, n_rounds, generate}
use alpaka.Philox.Counting.Laws.{counter_at, advance_counter-counter_at}
use alpaka.Philox.Single.Laws.{key_of, skips-number}
use alpaka.Philox.Vector.{State, next_vector, philox_vector, after_vectors}

abbrev pub at : ℕ → ℕ → State
at seed v = record { counter = counter_at v; key = key_of seed }

abbrev pub vector_start : ℕ → ℕ → ℕ
vector_start subsequence offset =
    2 ^ 64 * subsequence
    + offset
    + 1
    + (if ltb (offset % 2 ^ 32) (subsequence % 2 ^ 32) then 2 ^ 96 else 0)

after_vectors-at : (rounds seed v n : ℕ) → after_vectors rounds n (at seed v) ≡ at seed (v + n)
unfolding after_vectors
after_vectors-at rounds seed v zero = ap (at seed) (omega arith)
after_vectors-at rounds seed v (suc n) =
    ap (λ s. (next_vector rounds s).1) (after_vectors-at rounds seed v n)
    ∙ ap (λ (c : Counter). let s : State = record { counter = c; key = key_of seed } in s)
        (advance_counter-counter_at (v + n)
          ∙ ap counter_at (let e : v + n + 1 ≡ v + suc n = omega arith in e))

-- The `n`-th call returns `generate` at the counter `vector_start subsequence offset + n + 1` modulo 2 ^ 128,
-- with the two halves of the seed as key. `vector_start` is `2 ^ 64 * subsequence + offset + 1`, and 2 ^ 96
-- more where the low word of the offset is below that of `subsequence`. So the constructor skips `offset`
-- vectors of four numbers and one vector more, where its comment says that it skips `offset` numbers.
pub philox_vector-generate :
    (rounds seed subsequence offset n : ℕ)
    → subsequence < 2 ^ 64
    → offset < 2 ^ 64
    → (next_vector rounds (after_vectors rounds n (philox_vector rounds seed subsequence offset))).0
      ≡ generate rounds (counter_at (vector_start subsequence offset + n + 1)) (key_of seed)
unfolding next_vector generate philox_vector
philox_vector-generate rounds seed subsequence offset n h k =
    let first : philox_vector rounds seed subsequence offset
        ≡ at seed (vector_start subsequence offset) =
      ap (λ (c : Counter). let s : State = record { counter = c; key = key_of seed } in s)
        (skips-number subsequence offset h k) in
    ap (λ s. (next_vector rounds (after_vectors rounds n s)).0) first
    ∙ (ap (λ s. (next_vector rounds s).0)
          (after_vectors-at rounds seed (vector_start subsequence offset) n)
        ∙ ap (λ c. n_rounds rounds c (key_of seed))
            (advance_counter-counter_at (vector_start subsequence offset + n)))
