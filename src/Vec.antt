-- ===== src/Vec.antt =====
-- include/alpaka/vec/Vec.hpp and vec/Traits.hpp, with the folds of meta/Fold.hpp and the function
-- objects of meta/Functional.hpp. A `Vec<TDim, TVal>` is the list of its `TDim` components, each an
-- unsigned integer of `w` bits; the dimension is the length.
pub mod Fold
pub mod Select
pub mod Elementwise
pub mod Rearrange
