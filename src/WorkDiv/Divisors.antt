-- ===== src/WorkDiv/Divisors.antt =====
-- The divisor searches of include/alpaka/workdiv/WorkDivHelpers.hpp.
pub mod Laws
use alpaka.Base.{
  ℕ, zero, suc, ◌+◌, ◌/◌, ◌%◌, List, [], ◌∷◌, Option, none, some, ltb, ◌==◌, if◌then◌else◌,
}
use alpaka.Vec.Elementwise.{std_min}

-- `while(dividend % divisor != 0) --divisor;`. At divisor 0 the remainder is undefined: `none`.
unfoldable pub next_divisor_loop : ℕ → ℕ → Option ℕ
next_divisor_loop dividend zero = none
next_divisor_loop dividend (suc d) =
    let rest = next_divisor_loop dividend d in if dividend % suc d == 0 then some (suc d) else rest

-- `none` also where the assertion `dividend >= maxDivisor` fails.
unfoldable pub next_divisor_lower_or_equal : ℕ → ℕ → Option ℕ
unfolding next_divisor_loop
next_divisor_lower_or_equal dividend max_divisor =
    if ltb dividend max_divisor then none else next_divisor_loop dividend max_divisor

-- std::set as the ascending list of its elements.
unfoldable pub set_insert : ℕ → List ℕ → List ℕ
set_insert x [] = x ∷ []
set_insert x (y ∷ ys) =
    if ltb x y then x ∷ y ∷ ys else if x == y then y ∷ ys else y ∷ set_insert x ys

-- `left` rounds from `i` on.
unfoldable pub all_divisors_loop : ℕ → ℕ → ℕ → List ℕ → List ℕ
unfolding set_insert
all_divisors_loop val zero i divisor_set = divisor_set
all_divisors_loop val (suc left) i divisor_set =
    all_divisors_loop val left (i + 1)
      (if val % i == 0 then set_insert (val / i) divisor_set else divisor_set)

-- `none` where the assertion `maxDivisor <= val` fails.
unfoldable pub all_divisors_less_or_equal : ℕ → ℕ → Option (List ℕ)
unfolding all_divisors_loop std_min
all_divisors_less_or_equal val max_divisor =
    if ltb val max_divisor
    then none
    else some (all_divisors_loop val (std_min val max_divisor) 1 [])
