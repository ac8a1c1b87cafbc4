-- ===== src/Philox/Stateless/Laws.antt =====
-- The rounds of include/alpaka/rand/Philox/PhiloxStateless.hpp as a function of the counter.
use Prim.Native.Nat.{bit_xor}
use alpaka.Base.{ℕ, zero, suc, ◌+◌, ◌*◌, ◌^◌, ◌<◌, ◌≡◌, refl, sym, ap, ◌∙◌, arith, wrap}
use alpaka.Base.Xor.{bit_xor-cancel, bit_xor_comm, bit_xor-lt}
use alpaka.Philox.Stateless.{
  Counter, Key, multiply_and_split, multipliter_4x32_0, multipliter_4x32_1, single_round, bump_key,
  rounds_loop, n_rounds, generate, weyl_32_0, weyl_32_1,
}

-- Four words of 32 bits.
pub record IsCounter (c : Counter) : Type 0 where
  pub fits0 : c.c0 < 2 ^ 32
  pub fits1 : c.c1 < 2 ^ 32
  pub fits2 : c.c2 < 2 ^ 32
  pub fits3 : c.c3 < 2 ^ 32

-- The multipliers are odd, so the low half of the product gives the factor back.
abbrev inverse_0 : ℕ
inverse_0 = 1836887655

abbrev inverse_1 : ℕ
inverse_1 = 2568649947

-- The round backwards.
unround : Counter → Key → Counter
unround r key =
    let x0 = wrap 32 (r.c3 * inverse_0) in
    let x2 = wrap 32 (r.c1 * inverse_1) in
    record {
      c0 = x0;
      c1 = bit_xor (multiply_and_split x2 multipliter_4x32_1).0 (bit_xor key.k0 r.c0);
      c2 = x2;
      c3 = bit_xor (multiply_and_split x0 multipliter_4x32_0).0 (bit_xor key.k1 r.c2);
    }

low_half_0 :
    (x : ℕ) → x < 2 ^ 32 → wrap 32 ((multiply_and_split x multipliter_4x32_0).1 * inverse_0) ≡ x
unfolding multiply_and_split
low_half_0 x h = omega arith

low_half_1 :
    (x : ℕ) → x < 2 ^ 32 → wrap 32 ((multiply_and_split x multipliter_4x32_1).1 * inverse_1) ≡ x
unfolding multiply_and_split
low_half_1 x h = omega arith

-- What was mixed in comes out.
unmix : (h c k : ℕ) → bit_xor h (bit_xor k (bit_xor (bit_xor h c) k)) ≡ c
unmix h c k =
    ap (λ (t : ℕ). bit_xor h (bit_xor k t)) (bit_xor_comm (bit_xor h c) k)
    ∙ (ap (bit_xor h) (bit_xor-cancel k (bit_xor h c)) ∙ bit_xor-cancel h c)

pub Counter_ext : {c d : Counter} → c.c0 ≡ d.c0 → c.c1 ≡ d.c1 → c.c2 ≡ d.c2 → c.c3 ≡ d.c3 → c ≡ d
Counter_ext p q r s = cc

unround-single_round :
    (c : Counter) (key : Key) → IsCounter c → unround (single_round c key) key ≡ c
unfolding unround single_round
unround-single_round c key v =
    let x0 = low_half_0 c.c0 v.fits0 in
    let x2 = low_half_1 c.c2 v.fits2 in
    Counter_ext x0 (rw x2 (unmix _ _ _)) x2 (rw x0 (unmix _ _ _))

-- A round gives words of 32 bits.
pub single_round-IsCounter :
    (c : Counter) (key : Key)
    → IsCounter c
    → key.k0 < 2 ^ 32
    → key.k1 < 2 ^ 32
    → IsCounter (single_round c key)
unfolding single_round multiply_and_split
single_round-IsCounter c key v h0 h1 = record {
  fits0 = bit_xor-lt 32 _ _ (bit_xor-lt 32 _ _ (omega arith) v.fits1) h0;
  fits1 = omega arith;
  fits2 = bit_xor-lt 32 _ _ (bit_xor-lt 32 _ _ (omega arith) v.fits3) h1;
  fits3 = omega arith;
}

pub record IsKey (key : Key) : Type 0 where
  pub fits0 : key.k0 < 2 ^ 32
  pub fits1 : key.k1 < 2 ^ 32

bump_key-IsKey : (key : Key) → IsKey (bump_key key)
unfolding bump_key
bump_key-IsKey key = omega arith

rounds_loop-injective :
    (left : ℕ) (c d : Counter) (key : Key)
    → IsCounter c
    → IsCounter d
    → rounds_loop left c key ≡ rounds_loop left d key
    → c ≡ d
unfolding rounds_loop
rounds_loop-injective zero c d key v u h = h
rounds_loop-injective (suc left) c d key v u h =
    let k = bump_key-IsKey key in
    let same : single_round c (bump_key key) ≡ single_round d (bump_key key) =
      rounds_loop-injective left _ _ (bump_key key)
        (single_round-IsCounter c (bump_key key) v k.fits0 k.fits1)
        (single_round-IsCounter d (bump_key key) u k.fits0 k.fits1) h in
    sym (unround-single_round c (bump_key key) v)
    ∙ (ap (λ r. unround r (bump_key key)) same ∙ unround-single_round d (bump_key key) u)

-- For one key, counters that differ give results that differ, whatever the number of rounds: `generate` is
-- injective on arrays of four words of 32 bits.
pub generate-injective :
    (rounds : ℕ) (c d : Counter) (key : Key)
    → IsCounter c
    → IsCounter d
    → IsKey key
    → generate rounds c key ≡ generate rounds d key
    → c ≡ d
unfolding generate n_rounds
generate-injective rounds c d key v u k h =
    let same : single_round c key ≡ single_round d key =
      rounds_loop-injective rounds _ _ key (single_round-IsCounter c key v k.fits0 k.fits1)
        (single_round-IsCounter d key u k.fits0 k.fits1) h in
    sym (unround-single_round c key v)
    ∙ (ap (λ r. unround r key) same ∙ unround-single_round d key u)

-- The key of round `i`, in closed form.
abbrev pub key_at : ℕ → Key → Key
key_at i key = record {
  k0 = wrap 32 (key.k0 + i * 0x9E3779B9);
  k1 = wrap 32 (key.k1 + i * 0xBB67AE85);
}

-- `n` rounds from round `i` on, each with the key of its number.
abbrev pub rounds_from : ℕ → ℕ → Counter → Key → Counter
rounds_from i zero c key = c
rounds_from i (suc n) c key = rounds_from (suc i) n (single_round c (key_at i key)) key

Key_ext : {k l : Key} → k.k0 ≡ l.k0 → k.k1 ≡ l.k1 → k ≡ l
Key_ext p q = cc

bump_key-key_at : (i : ℕ) (key : Key) → bump_key (key_at i key) ≡ key_at (suc i) key
unfolding bump_key weyl_32_0 weyl_32_1
bump_key-key_at i key = Key_ext (omega arith) (omega arith)

rounds_loop-rounds_from :
    (left i : ℕ) (c : Counter) (key : Key)
    → rounds_loop left c (key_at i key) ≡ rounds_from (suc i) left c key
unfolding rounds_loop
rounds_loop-rounds_from zero i c key = refl
rounds_loop-rounds_from (suc left) i c key =
    ap (λ k. rounds_loop left (single_round c k) k) (bump_key-key_at i key)
    ∙ rounds_loop-rounds_from left (suc i) (single_round c (key_at (suc i) key)) key

-- With `rounds` as the parameter, `generate` makes `rounds + 1` rounds: round `i`, from 0 to `rounds`, has the key
-- plus `i` times the Weyl constants, each word modulo 2 ^ 32.
pub generate-rounds_from :
    (rounds : ℕ) (c : Counter) (key : Key)
    → IsKey key
    → generate rounds c key ≡ rounds_from 0 (rounds + 1) c key
unfolding generate n_rounds
generate-rounds_from rounds c key k =
    let first : key ≡ key_at 0 key = Key_ext (omega arith) (omega arith) in
    let count : suc rounds ≡ rounds + 1 = omega arith in
    ap (λ k. rounds_loop rounds (single_round c k) k) first
    ∙ (rounds_loop-rounds_from rounds 0 (single_round c (key_at 0 key)) key
        ∙ ap (λ n. rounds_from 0 n c key) count)
