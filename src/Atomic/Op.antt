-- ===== src/Atomic/Op.antt =====
-- include/alpaka/atomic/Op.hpp on unsigned integers of `w` bits: from the content of the address and the
-- arguments, the old value that is returned and the new content.
pub mod Laws
use Prim.Native.Nat.{bit_and, bit_or, bit_xor}
use alpaka.Base.{ℕ, ◌+◌, ◌-◌, ◌^◌, ◌||◌, ltb, leb, ◌==◌, if◌then◌else◌, wrap}
use alpaka.Vec.Elementwise.{std_min, std_max}

module _ (w : ℕ) where
  unfoldable pub atomic_add : ℕ → ℕ → ℕ × ℕ
  atomic_add value old = (old, wrap w (old + value))

  unfoldable pub atomic_sub : ℕ → ℕ → ℕ × ℕ
  atomic_sub value old = (old, wrap w (old + 2 ^ w - value))

  unfoldable pub atomic_inc : ℕ → ℕ → ℕ × ℕ
  atomic_inc value old = (old, if leb value old then 0 else wrap w (old + 1))

  unfoldable pub atomic_dec : ℕ → ℕ → ℕ × ℕ
  atomic_dec value old =
      (old, if (old == 0) || ltb value old then value else wrap w (old + 2 ^ w - 1))

unfoldable pub atomic_min : ℕ → ℕ → ℕ × ℕ
unfolding std_min
atomic_min value old = (old, std_min old value)

unfoldable pub atomic_max : ℕ → ℕ → ℕ × ℕ
unfolding std_max
atomic_max value old = (old, std_max old value)

unfoldable pub atomic_exch : ℕ → ℕ → ℕ × ℕ
atomic_exch value old = (old, value)

unfoldable pub atomic_and : ℕ → ℕ → ℕ × ℕ
atomic_and value old = (old, bit_and old value)

unfoldable pub atomic_or : ℕ → ℕ → ℕ × ℕ
atomic_or value old = (old, bit_or old value)

unfoldable pub atomic_xor : ℕ → ℕ → ℕ × ℕ
atomic_xor value old = (old, bit_xor old value)

unfoldable pub atomic_cas : ℕ → ℕ → ℕ → ℕ × ℕ
atomic_cas compare_value value old = (old, if old == compare_value then value else old)
