-- ===== src/Atomic/Ref.antt =====
-- include/alpaka/atomic/AtomicAtomicRef.hpp: the operations that loop over compare_exchange_weak. What the
-- other threads do between two attempts, and the failures that the library allows without a reason, are a list:
-- the content that each attempt meets, and whether it fails anyhow.
pub mod Laws
use alpaka.Base.{
  ℕ, ◌+◌, ◌-◌, ◌^◌, Bool, true, false, not, ◌&&◌, List, [], ◌∷◌, Option, none, some, leb, ◌==◌,
  if◌then◌else◌, wrap,
}
use alpaka.Vec.Elementwise.{std_min, std_max}

pub record Attempt : Type 0 where
  pub content : ℕ
  pub fails : Bool

-- The value returned, the content that the successful exchange met, and the one it wrote.
pub record Exchange : Type 0 where
  pub returned : ℕ
  pub met : ℕ
  pub written : ℕ

-- `while(!ref.compare_exchange_weak(old, result)) result = compute(old);`. A failure loads the content into
-- `old`. `none` is a loop that has not ended when the attempts are used up.
unfoldable pub exchange_loop : (ℕ → ℕ) → List Attempt → ℕ → Option Exchange
exchange_loop compute [] old = none
exchange_loop compute (a ∷ attempts) old =
    let rest = exchange_loop compute attempts a.content in
    if not a.fails && (a.content == old)
    then some (record { returned = old; met = a.content; written = compute old })
    else rest

unfoldable pub ref_min : ℕ → List Attempt → ℕ → Option Exchange
unfolding exchange_loop std_min
ref_min value attempts old = exchange_loop (λ o. std_min o value) attempts old

unfoldable pub ref_max : ℕ → List Attempt → ℕ → Option Exchange
unfolding exchange_loop std_max
ref_max value attempts old = exchange_loop (λ o. std_max o value) attempts old

unfoldable pub ref_exch : ℕ → List Attempt → ℕ → Option Exchange
unfolding exchange_loop
ref_exch value attempts old = exchange_loop (λ o. value) attempts old

unfoldable pub ref_cas : ℕ → ℕ → List Attempt → ℕ → Option Exchange
unfolding exchange_loop
ref_cas compare_value value attempts old =
    exchange_loop (λ o. if o == compare_value then value else o) attempts old

module _ (w : ℕ) where
  unfoldable pub ref_inc : ℕ → List Attempt → ℕ → Option Exchange
  unfolding exchange_loop
  ref_inc value attempts old =
      exchange_loop (λ o. if leb value o then 0 else wrap w (o + 1)) attempts old

  unfoldable pub dec_result : ℕ → ℕ → ℕ
  dec_result value old = if leb value old then 0 else wrap w (old + 2 ^ w - 1)

  unfoldable pub ref_dec : ℕ → List Attempt → ℕ → Option Exchange
  unfolding exchange_loop dec_result
  ref_dec value attempts old = exchange_loop (dec_result value) attempts old
