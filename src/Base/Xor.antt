-- ===== src/Base/Xor.antt =====
-- The exclusive or of binary digits, at any numbers.
use Prim.Native.Nat.{
  ℕ, zero, suc, ◌+◌, ◌*◌, ◌/◌, ◌%◌, ◌^◌, ◌≤◌, ◌<◌, ◌-◌, bit_xor, digits, bit_xor-bitwise, differ,
}
use native.Mathlib.Nat.{le_refl, pow-suc}
use mathlib.Core.Path.{◌≡◌, refl, ap, ◌∙◌, sym}
use native.Mathlib.Omega.{arith}

-- Fuel beyond the left operand changes nothing.
xor_digits_more :
    (fuel x y : ℕ)
    → x ≤ fuel
    → digits (λ b. b) differ (suc fuel) x y ≡ digits (λ b. b) differ fuel x y
xor_digits_more zero zero y h = refl
xor_digits_more zero (suc x) y h = absurd (omega arith)
xor_digits_more (suc fuel) zero y h = refl
xor_digits_more (suc fuel) (suc x) y h =
    ap (λ upper. upper * 2 + differ (suc x % 2) (y % 2))
      (xor_digits_more fuel (suc x / 2) (y / 2) (omega arith))

xor_digits_enough :
    (more x y : ℕ) → digits (λ b. b) differ (more + x) x y ≡ digits (λ b. b) differ x x y
xor_digits_enough zero x y =
    let e : 0 + x ≡ x = omega arith in ap (λ n. digits (λ b. b) differ n x y) e
xor_digits_enough (suc more) x y =
    let e : suc more + x ≡ suc (more + x) = omega arith in
    ap (λ n. digits (λ b. b) differ n x y) e
    ∙ xor_digits_more (more + x) x y (omega arith)
    ∙ xor_digits_enough more x y

zero-bit_xor : (b : ℕ) → bit_xor 0 b ≡ b
zero-bit_xor b = bit_xor-bitwise 0 b

differ_lem : (x y : ℕ) → x < 2 → y < 2 → differ x y ≡ (x + y) % 2
differ_lem zero y h k = omega arith
differ_lem (suc x) zero h k = omega arith
differ_lem (suc zero) (suc zero) h k = omega arith
differ_lem (suc zero) (suc (suc y)) h k = absurd (omega arith)
differ_lem (suc (suc x)) (suc y) h k = absurd (omega arith)

-- The lowest digit is the sum modulo 2.
bit_xor_step : (a b : ℕ) → bit_xor a b ≡ bit_xor (a / 2) (b / 2) * 2 + (a + b) % 2
bit_xor_step zero b = omega (arith, zero-bit_xor b, zero-bit_xor (b / 2))
bit_xor_step (suc a) b =
    let half = suc a / 2 in
    let fuel : (a - half) + half ≡ a = omega arith in
    let upper : digits (λ y. y) differ a half (b / 2) ≡ digits (λ y. y) differ half half (b / 2) =
      ap (λ n. digits (λ y. y) differ n half (b / 2)) (sym fuel)
      ∙ xor_digits_enough (a - half) half (b / 2) in
    omega (
      arith,
      bit_xor-bitwise (suc a) b,
      bit_xor-bitwise half (b / 2),
      upper,
      differ_lem (suc a % 2) (b % 2) (omega arith) (omega arith),
    )

bit_xor-half : (a b : ℕ) → bit_xor a b / 2 ≡ bit_xor (a / 2) (b / 2)
bit_xor-half a b = omega (arith, bit_xor_step a b)

-- By the number of digits of the left operand.
bit_xor-cancel_fuel : (n a b : ℕ) → a ≤ n → bit_xor a (bit_xor a b) ≡ b
bit_xor-cancel_fuel n zero b h = zero-bit_xor _ ∙ zero-bit_xor b
bit_xor-cancel_fuel zero (suc a) b h = absurd (omega arith)
bit_xor-cancel_fuel (suc n) (suc a) b h =
    let inner : bit_xor (suc a / 2) (bit_xor (suc a) b / 2) ≡ b / 2 =
      ap (bit_xor (suc a / 2)) (bit_xor-half (suc a) b)
      ∙ bit_xor-cancel_fuel n (suc a / 2) (b / 2) (omega arith) in
    omega (arith, inner, bit_xor_step (suc a) (bit_xor (suc a) b), bit_xor_step (suc a) b)

pub bit_xor-cancel : (a b : ℕ) → bit_xor a (bit_xor a b) ≡ b
bit_xor-cancel a b = bit_xor-cancel_fuel a a b (le_refl _)

bit_xor_comm_fuel : (n a b : ℕ) → a ≤ n → b ≤ n → bit_xor a b ≡ bit_xor b a
bit_xor_comm_fuel zero a b h k =
    let e : a ≡ 0 = omega arith in let f : b ≡ 0 = omega arith in rw (e, f)
bit_xor_comm_fuel (suc n) a b h k = omega (
  arith,
  bit_xor_step a b,
  bit_xor_step b a,
  bit_xor_comm_fuel n (a / 2) (b / 2) (omega arith) (omega arith),
)

pub bit_xor_comm : (a b : ℕ) → bit_xor a b ≡ bit_xor b a
bit_xor_comm a b = bit_xor_comm_fuel (a + b) a b (omega arith) (omega arith)

pub bit_xor-lt : (w a b : ℕ) → a < 2 ^ w → b < 2 ^ w → bit_xor a b < 2 ^ w
bit_xor-lt zero a b h k =
    let e : a ≡ 0 = omega arith in
    let f : b ≡ 0 = omega arith in rw (e, f) (omega (arith, zero-bit_xor 0))
bit_xor-lt (suc w) a b h k =
    let rec =
      bit_xor-lt w (a / 2) (b / 2) (omega (arith, pow-suc 2 w)) (omega (arith, pow-suc 2 w)) in
    omega (arith, bit_xor_step a b, pow-suc 2 w, rec)
