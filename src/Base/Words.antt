-- ===== src/Base/Words.antt =====
-- Unsigned integers of `w` bits: a value is a number, and arithmetic wraps by `% 2 ^ w`.
use Prim.Native.Nat.{ℕ, zero, suc, ◌+◌, ◌*◌, ◌/◌, ◌%◌, ◌^◌, ◌≤◌, ◌<◌}
use mathlib.Core.Path.{◌≡◌, sym, ap, ◌≡⟨◌⟩◌, ◌∎}
use native.Mathlib.Nat.{
  pow-suc, mod-eq_of_lt, mul-add-mod_self_left, div-add-mod, mul-add, mul_left_comm, add-mod-mod,
  one-le-pow,
}
use native.Mathlib.Omega.{arith}

-- The conversion to an unsigned type of `w` bits.
abbrev pub wrap : ℕ → ℕ → ℕ
wrap w x = x % 2 ^ w

pub wrap_of_lt : (w : ℕ) {x : ℕ} → x < 2 ^ w → wrap w x ≡ x
wrap_of_lt w h = mod-eq_of_lt h

-- A factor may be reduced before or after the product.
pub mul-mod-mod : (m x y : ℕ) → (x * (y % m)) % m ≡ (x * y) % m
mul-mod-mod m x y =
    (x * (y % m)) % m
    ≡⟨ sym (mul-add-mod_self_left m (x * (y / m)) (x * (y % m))) ⟩
      (m * (x * (y / m)) + x * (y % m)) % m
    ≡⟨ ap (λ (t : ℕ). (t + x * (y % m)) % m) (mul_left_comm m x (y / m)) ⟩
      (x * (m * (y / m)) + x * (y % m)) % m
    ≡⟨ ap (λ (t : ℕ). t % m) (sym (mul-add x (m * (y / m)) (y % m))) ⟩
      (x * (m * (y / m) + y % m)) % m
    ≡⟨ ap (λ (t : ℕ). (x * t) % m) (div-add-mod y m) ⟩ (x * y) % m ∎

pub wrap-mul-wrap : (w x y : ℕ) → wrap w (x * wrap w y) ≡ wrap w (x * y)
wrap-mul-wrap w x y = mul-mod-mod (2 ^ w) x y

pub wrap-add-wrap : (w x y : ℕ) → wrap w (x + wrap w y) ≡ wrap w (x + y)
wrap-add-wrap w x y = add-mod-mod x y (2 ^ w)

pub one-le-two-pow : (w : ℕ) → 1 ≤ 2 ^ w
one-le-two-pow w = one-le-pow w 2 (omega arith)

pub one-lt-two-pow : (w : ℕ) → 0 < w → 1 < 2 ^ w
one-lt-two-pow zero h = absurd (omega arith)
one-lt-two-pow (suc w) h = omega (arith, pow-suc 2 w, one-le-two-pow w)
