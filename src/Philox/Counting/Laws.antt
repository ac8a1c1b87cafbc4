-- ===== src/Philox/Counting/Laws.antt =====
-- The counter of include/alpaka/rand/Philox/PhiloxBaseCommon.hpp as one number of 128 bits.
use alpaka.Base.{ℕ, ◌+◌, ◌*◌, ◌/◌, ◌%◌, ◌^◌, ◌<◌, ◌≡◌, arith, ltb, if◌then◌else◌}
use alpaka.Philox.Stateless.{Counter}
use alpaka.Philox.Stateless.Laws.{IsCounter, Counter_ext}
use alpaka.Philox.Counting.{advance_counter, skip4, skip_subsequence}

-- The number that the words stand for, the lowest first.
abbrev pub number : Counter → ℕ
number c = c.c0 + 2 ^ 32 * c.c1 + 2 ^ 64 * c.c2 + 2 ^ 96 * c.c3

-- `advanceCounter` adds 1 modulo 2 ^ 128, and keeps words of 32 bits.
pub advance_counter-number :
    (c : Counter)
    → IsCounter c
    → IsCounter (advance_counter c) × (number (advance_counter c) ≡ (number c + 1) % 2 ^ 128)
unfolding advance_counter
advance_counter-number c v = ground arith

-- `skipSubsequence` adds `subsequence * 2 ^ 64` modulo 2 ^ 128.
pub skip_subsequence-number :
    (c : Counter) (n : ℕ)
    → IsCounter c
    → n < 2 ^ 64
    → IsCounter (skip_subsequence n c)
      × (number (skip_subsequence n c) ≡ (number c + 2 ^ 64 * n) % 2 ^ 128)
unfolding skip_subsequence
skip_subsequence-number c n v h = ground arith

-- `skip4`.
pub skip4-number :
    (c : Counter) (n : ℕ)
    → IsCounter c
    → n < 2 ^ 64
    → c.c0 ≡ 0
    → c.c1 ≡ 0
    → IsCounter (skip4 n c)
      × (number (skip4 n c)
          ≡ (number c + n + (if ltb (n % 2 ^ 32) c.c2 then 2 ^ 96 else 0)) % 2 ^ 128)
unfolding skip4
skip4-number c n v h z0 z1 = ground arith

-- The words of a number modulo 2 ^ 128.
abbrev pub counter_at : ℕ → Counter
counter_at v = record {
  c0 = v % 2 ^ 32;
  c1 = v / 2 ^ 32 % 2 ^ 32;
  c2 = v / 2 ^ 64 % 2 ^ 32;
  c3 = v / 2 ^ 96 % 2 ^ 32;
}

pub advance_counter-counter_at : (v : ℕ) → advance_counter (counter_at v) ≡ counter_at (v + 1)
unfolding advance_counter
advance_counter-counter_at v =
    Counter_ext (ground arith) (ground arith) (ground arith) (ground arith)

pub counter_at-number :
    (c : Counter) (v : ℕ) → IsCounter c → number c ≡ v % 2 ^ 128 → c ≡ counter_at v
counter_at-number c v h e = Counter_ext (omega arith) (omega arith) (omega arith) (omega arith)
