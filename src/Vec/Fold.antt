-- ===== src/Vec/Fold.antt =====
-- The constructors and the folds of include/alpaka/vec/Vec.hpp, on meta/Fold.hpp.
pub mod Laws
use alpaka.Base.{
  ℕ, ◌+◌, ◌-◌, ◌*◌, ◌^◌, List, [], ◌∷◌, ◌++◌, Option, replicate, get_elem?, ltb, if◌then◌else◌,
  wrap,
}

-- `m_data`, the components in order.
abbrev pub Vec : Type 0
Vec = List ℕ

unfoldable pub all : ℕ → ℕ → Vec
all dim val = replicate dim val

unfoldable pub zeros : ℕ → Vec
unfolding all
zeros dim = all dim 0

unfoldable pub ones : ℕ → Vec
unfolding all
ones dim = all dim 1

-- `operator[]`: `none` is the index that the assertion refuses.
unfoldable pub index : Vec → ℕ → Option ℕ
index v i = get_elem? v i

module _ {ℓ} {A : Type ℓ} (f : A → A → A) where
  -- `meta::foldr` on the pack `t0, ts...`.
  unfoldable pub foldr_pack : A → List A → A
  foldr_pack t0 [] = t0
  foldr_pack t0 (t1 ∷ ts) = f t0 (foldr_pack t1 ts)

  -- `foldrAll(f, initial)`: the pack is the components and then the initial value.
  unfoldable pub foldr_all : List A → A → A
  unfolding foldr_pack
  foldr_all [] initial = foldr_pack initial []
  foldr_all (x ∷ xs) initial = foldr_pack x (xs ++ initial ∷ [])

unfoldable pub prod : ℕ → Vec → ℕ
unfolding foldr_all
prod w v = foldr_all (λ a b. wrap w (a * b)) v 1

unfoldable pub sum : ℕ → Vec → ℕ
unfolding foldr_all
sum w v = foldr_all (λ a b. wrap w (a + b)) v 0

-- `meta::min` and `meta::max`.
unfoldable pub min_fn : ℕ → ℕ → ℕ
min_fn lhs rhs = if ltb lhs rhs then lhs else rhs

unfoldable pub max_fn : ℕ → ℕ → ℕ
max_fn lhs rhs = if ltb rhs lhs then lhs else rhs

unfoldable pub min : ℕ → Vec → ℕ
unfolding foldr_all
min w v = foldr_all min_fn v (2 ^ w - 1)

-- The smallest value of an unsigned type is 0.
unfoldable pub max : Vec → ℕ
unfolding foldr_all
max v = foldr_all max_fn v 0
