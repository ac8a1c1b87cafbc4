-- ===== src/Philox/Single/Laws.antt =====
-- The engine of include/alpaka/rand/Philox/PhiloxSingle.hpp against `generate` at counters in a row.
use alpaka.Base.{
  ℕ, zero, suc, ◌+◌, ◌*◌, ◌/◌, ◌%◌, ◌^◌, ◌<◌, ◌≡◌, refl, sym, ap, ◌∙◌, arith, inl, inr, Bool-cases,
  ◌==◌, ltb, if◌then◌else◌, wrap,
}
use alpaka.Philox.Stateless.{Counter, Key, low32_bits, n_rounds, generate}
use alpaka.Philox.Stateless.Laws.{IsCounter}
use alpaka.Philox.Counting.{advance_counter, skip4, skip_subsequence}
use alpaka.Philox.Counting.Laws.{
  counter_at, advance_counter-counter_at, skip4-number, skip_subsequence-number,
  advance_counter-number, counter_at-number,
}
use alpaka.Philox.Single.{
  State, shift, advance_state, next_number, skip, philox_single, after_calls,
}

-- The words of an array by number.
abbrev pub word : ℕ → Counter → ℕ
word i c = if i == 0 then c.c0 else if i == 1 then c.c1 else if i == 2 then c.c2 else c.c3

word-shift : (i : ℕ) (r : Counter) → word i (shift r) ≡ word (i + 1) r
unfolding shift
word-shift i r = ground arith

module _ (rounds base : ℕ) (key : Key) where
  -- The numbers that the engine is to hand out, by counter.
  abbrev block : ℕ → Counter
  block n = generate rounds (counter_at (base + n / 4)) key

  -- Where the engine stands after `n` numbers.
  record At (n : ℕ) (s : State) : Type 0 where
    pub position_is : s.position ≡ n % 4
    pub counter_is : s.counter ≡ counter_at (base + n / 4)
    pub key_is : s.key ≡ key
    pub result_is : (i : ℕ) → word i s.result ≡ word (n % 4 + i) (block n)

  next_number-At : (n : ℕ) (s : State) → At n s → At (suc n) (next_number rounds s).1
  unfolding next_number generate advance_state
  next_number-At n s a = elim (Bool-cases (wrap 32 (s.position + 1) == 4)) [
    | inl full ↦
        let last : n % 4 ≡ 3 = ground (arith, a.position_is) in
        let moved : advance_counter s.counter ≡ counter_at (base + suc n / 4) =
          ap advance_counter a.counter_is
          ∙ (advance_counter-counter_at (base + n / 4)
              ∙ ap counter_at (let e : base + n / 4 + 1 ≡ base + suc n / 4 = omega arith in e)) in
        rw full (record {
          position_is = omega arith;
          counter_is = moved;
          key_is = a.key_is;
          result_is = λ i.
              ap (λ k. word i (n_rounds rounds (advance_counter s.counter) k)) a.key_is
              ∙ (ap (λ c. word i (n_rounds rounds c key)) moved
                  ∙ ap (λ (j : ℕ). word j (block (suc n)))
                      (let e : i ≡ suc n % 4 + i = omega arith in e));
        })
    | inr left ↦
        let before : n % 4 < 3 = ground (arith, a.position_is) in
        let same : suc n / 4 ≡ n / 4 = omega arith in
        rw left (record {
          position_is = omega (arith, a.position_is);
          counter_is = rw same a.counter_is;
          key_is = a.key_is;
          result_is = λ i.
              word-shift i s.result
              ∙ (a.result_is (i + 1)
                  ∙ (ap (λ (j : ℕ). word j (block n))
                        (let e : n % 4 + (i + 1) ≡ suc n % 4 + i = omega arith in e)
                      ∙ ap
                          (λ (q : ℕ).
                            word (suc n % 4 + i) (generate rounds (counter_at (base + q)) key))
                          (sym same)));
        })
  ]

  after_calls-At : (n : ℕ) (s : State) → At 0 s → At n (after_calls rounds n s)
  unfolding after_calls
  after_calls-At zero s a = a
  after_calls-At (suc n) s a = next_number-At n (after_calls rounds n s) (after_calls-At n s a)

-- The counter that the constructor arrives at, as a number. The last term is a carry that `skip4` makes where
-- there is none.
abbrev pub start : ℕ → ℕ → ℕ
start subsequence offset =
    2 ^ 64 * subsequence
    + offset / 4
    + 1
    + (if ltb (offset / 4 % 2 ^ 32) (subsequence % 2 ^ 32) then 2 ^ 96 else 0)

abbrev pub key_of : ℕ → Key
key_of seed = record { k0 = seed % 2 ^ 32; k1 = seed / 2 ^ 32 % 2 ^ 32 }

abbrev pub zero_counter : Counter
zero_counter = record { c0 = 0; c1 = 0; c2 = 0; c3 = 0 }

-- The counter after the two skips and the step that follow in the constructor.
pub skips-number :
    (subsequence q : ℕ)
    → subsequence < 2 ^ 64
    → q < 2 ^ 64
    → advance_counter (skip4 q (skip_subsequence subsequence zero_counter))
      ≡ counter_at (
          2 ^ 64 * subsequence
          + q
          + 1
          + (if ltb (q % 2 ^ 32) (subsequence % 2 ^ 32) then 2 ^ 96 else 0))
skips-number subsequence q h k =
    let zero_fits : IsCounter zero_counter = omega arith in
    let sub = skip_subsequence-number zero_counter subsequence zero_fits h in
    let low : (skip_subsequence subsequence zero_counter).c2 ≡ subsequence % 2 ^ 32 =
      unfold skip_subsequence low32_bits in omega arith in
    let sk =
      skip4-number (skip_subsequence subsequence zero_counter) q sub.0 k
        (unfold skip_subsequence in refl) (unfold skip_subsequence in refl) in
    let adv = advance_counter-number (skip4 q (skip_subsequence subsequence zero_counter)) sk.0 in
    counter_at-number _ _ adv.0 (ground (arith, low, adv.1, sk.1, sub.1))

skip_counter :
    (rounds offset : ℕ) (c : Counter) (key : Key)
    → offset < 2 ^ 64
    → (skip rounds offset
        (record { counter = c; key = key; result = zero_counter; position = 0 })).counter
      ≡ skip4 (offset / 4) c
unfolding skip
skip_counter rounds offset c key h = ap (λ (q : ℕ). skip4 q c) (ground arith)

-- The constructor leaves nothing but the counter, the key and the first four numbers.
philox_single_state :
    (rounds seed subsequence offset : ℕ)
    → subsequence < 2 ^ 64
    → offset < 2 ^ 64
    → philox_single rounds seed subsequence offset ≡ (record {
      counter = counter_at (start subsequence offset);
      key = key_of seed;
      result = generate rounds (counter_at (start subsequence offset)) (key_of seed);
      position = 0;
    })
unfolding philox_single advance_state skip generate
philox_single_state rounds seed subsequence offset h k =
    let moved : advance_counter (
          (skip rounds offset (record {
            counter = skip_subsequence subsequence zero_counter;
            key = key_of seed;
            result = zero_counter;
            position = 0;
          })).counter)
        ≡ counter_at (start subsequence offset) =
      ap advance_counter
        (skip_counter rounds offset (skip_subsequence subsequence zero_counter) (key_of seed) k)
      ∙ skips-number subsequence (offset / 4) h (omega arith) in
    ap
      (λ (c : Counter).
        let s : State = record {
          counter = c;
          key = key_of seed;
          result = n_rounds rounds c (key_of seed);
          position = 0;
        } in
        s)
      moved

-- The first numbers of the engine for `seed`, `subsequence` and `offset`: the `n`-th call returns word `n % 4` of
-- `generate` at the counter `start subsequence offset + n / 4` modulo 2 ^ 128, with the two halves of the seed as key.
-- `start` is `2 ^ 64 * subsequence + offset / 4 + 1`, and 2 ^ 96 more where the low word of `offset / 4` is below
-- that of `subsequence`.
pub philox_single-generate :
    (rounds seed subsequence offset n : ℕ)
    → subsequence < 2 ^ 64
    → offset < 2 ^ 64
    → (next_number rounds (after_calls rounds n (philox_single rounds seed subsequence offset))).0
      ≡ word (n % 4) (generate rounds (counter_at (start subsequence offset + n / 4)) (key_of seed))
unfolding next_number
philox_single-generate rounds seed subsequence offset n h k =
    let from_start : ℕ = start subsequence offset in
    let zeroth : from_start ≡ from_start + 0 / 4 = omega arith in
    let eq = philox_single_state rounds seed subsequence offset h k in
    let initial : At rounds (start subsequence offset) (key_of seed) 0
        (philox_single rounds seed subsequence offset) =
      rw eq (record {
        position_is = refl;
        counter_is = ap counter_at zeroth;
        key_is = refl;
        result_is = λ i.
            ap (λ (j : ℕ). word j (generate rounds (counter_at from_start) (key_of seed)))
              (let e : i ≡ 0 % 4 + i = omega arith in e)
            ∙ ap (λ (v : ℕ). word (0 % 4 + i) (generate rounds (counter_at v) (key_of seed)))
                zeroth;
      }) in
    let a =
      after_calls-At rounds (start subsequence offset) (key_of seed) n
        (philox_single rounds seed subsequence offset) initial in
    a.result_is 0
    ∙ ap (λ (j : ℕ). word j (block rounds (start subsequence offset) (key_of seed) n))
        (let e : n % 4 + 0 ≡ n % 4 = omega arith in e)

-- The last two bits of the offset are lost: the engine for an offset is the engine for the multiple of 4 below it.
pub philox_single_offset :
    (rounds seed subsequence offset : ℕ)
    → subsequence < 2 ^ 64
    → offset < 2 ^ 64
    → philox_single rounds seed subsequence offset
      ≡ philox_single rounds seed subsequence (offset / 4 * 4)
philox_single_offset rounds seed subsequence offset h k =
    let same : offset / 4 * 4 / 4 ≡ offset / 4 = omega arith in
    philox_single_state rounds seed subsequence offset h k
    ∙ (rw same refl
        ∙ sym (philox_single_state rounds seed subsequence (offset / 4 * 4) h (omega arith)))
