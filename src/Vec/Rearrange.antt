-- ===== src/Vec/Rearrange.antt =====
-- Sub-vectors, reversal and concatenation: include/alpaka/vec/Vec.hpp and vec/Traits.hpp.
pub mod Laws
use alpaka.Base.{
  ℕ, zero, suc, ◌+◌, ◌-◌, List, [], ◌∷◌, map, length, get_or, set, leb, if◌then◌else◌,
}
use alpaka.Vec.Fold.{Vec, zeros}

-- std::integer_sequence of the values `offset, …, offset + n - 1`.
unfoldable pub index_sequence : ℕ → ℕ → List ℕ
index_sequence offset zero = []
index_sequence offset (suc n) = offset ∷ index_sequence (offset + 1) n

unfoldable pub sub_vec_from_indices : List ℕ → Vec → Vec
sub_vec_from_indices indices vec = map (λ i. get_or vec i 0) indices

unfoldable pub sub_vec_begin : ℕ → Vec → Vec
unfolding index_sequence sub_vec_from_indices
sub_vec_begin sub_dim vec = sub_vec_from_indices (index_sequence 0 sub_dim) vec

unfoldable pub sub_vec_end : ℕ → Vec → Vec
unfolding index_sequence sub_vec_from_indices
sub_vec_end sub_dim vec = sub_vec_from_indices (index_sequence (length vec - sub_dim) sub_dim) vec

-- `for(i = i0; i < i0 + left; ++i) r[base + i] = f(i);`
unfoldable pub fill : ℕ → (ℕ → ℕ) → ℕ → ℕ → Vec → Vec
fill base f zero i r = r
fill base f (suc left) i r = fill base f left (i + 1) (set r (base + i) (f i))

unfoldable pub reverse_vec : Vec → Vec
unfolding fill zeros
reverse_vec vec =
    if leb (length vec) 1
    then vec
    else fill 0 (λ i. get_or vec (length vec - 1 - i) 0) (length vec) 0 (zeros (length vec))

unfoldable pub concat_vec : Vec → Vec → Vec
unfolding fill zeros
concat_vec vec_l vec_r =
    let r = fill 0 (λ i. get_or vec_l i 0) (length vec_l) 0 (zeros (length vec_l + length vec_r)) in
    fill (length vec_l) (λ i. get_or vec_r i 0) (length vec_r) 0 r
