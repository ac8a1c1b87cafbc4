-- ===== src/Mem/Copy.antt =====
-- include/alpaka/mem/buf/cpu/Copy.hpp and Set.hpp: rows of bytes are copied or set at the positions that the pitches
-- give. A memory is a function from addresses to bytes; the pointers are addresses. All index types have `w` bits.
pub mod Rows
pub mod Laws
pub mod Bytes
pub mod Fill
use alpaka.Base.{
  ℕ, zero, suc, ◌+◌, ◌-◌, ◌*◌, Bool, true, false, not, ◌&&◌, ◌||◌, List, [], ◌∷◌, Option, none,
  some, map, length, get_or, leb, ltb, ◌==◌, if◌then◌else◌, wrap,
}
use alpaka.Vec.Fold.{Vec, foldr_pack, prod}
use alpaka.Vec.Elementwise.{mul, le}
use alpaka.Vec.Rearrange.{sub_vec_begin, sub_vec_end}
use alpaka.NdLoop.{nd_loop_inc_idx}

abbrev pub Memory : Type 0
Memory = ℕ → ℕ

-- std::memcpy and std::memset of `count` bytes.
unfoldable pub memcpy : ℕ → ℕ → ℕ → Memory → Memory
memcpy dst src count mem a =
    if leb dst a && ltb a (dst + count) then mem (src + (a - dst)) else mem a

unfoldable pub memset : ℕ → ℕ → ℕ → Memory → Memory
memset dst byte count mem a = if leb dst a && ltb a (dst + count) then byte else mem a

-- `foldrAll(f)` without an initial value; there is at least one component.
unfoldable pub fold_all {ℓ} : {A : Type ℓ} → (A → A → A) → A → List A → A
unfolding foldr_pack
fold_all f d [] = d
fold_all f d (x ∷ xs) = foldr_pack f x xs

unfoldable pub offset_bytes : ℕ → Vec → Vec → ℕ
unfolding fold_all mul
offset_bytes w idx pitch = fold_all (λ a b. wrap w (a + b)) 0 (mul w idx pitch)

-- A view: its extent, its pitches in bytes and its address.
pub record View : Type 0 where
  pub extent : Vec
  pub pitch_bytes : Vec
  pub ptr : ℕ

-- The last component.
abbrev pub innermost : Vec → ℕ
innermost v = get_or v (length v - 1) 0

unfoldable pub extent_width_bytes : ℕ → ℕ → Vec → ℕ
extent_width_bytes w elem_size extent = wrap w (innermost extent * elem_size)

-- The assertions of the constructors, for one view. They are folded with `or`. ALPAKA_ASSERT is `assert`, which
-- does nothing where NDEBUG is defined: then `copy` and `set_bytes` are all that the tasks do, else they are
-- what a task does whose constructor has returned.
unfoldable pub extent_asserted : ℕ → ℕ → Vec → View → Bool
unfolding fold_all le extent_width_bytes
extent_asserted w elem_size extent view =
    fold_all ◌||◌ true (le extent view.extent)
    && leb (extent_width_bytes w elem_size extent) (innermost view.pitch_bytes)

-- The memory after a loop.
abbrev pub final : Option (Vec × Memory) → Option Memory
final none = none
final (some (idx, mem)) = some mem

-- `TaskCopyCpu::operator()` in two or more dimensions.
unfoldable pub copy_rows : ℕ → ℕ → Vec → View → View → Memory → Option Memory
unfolding extent_width_bytes
copy_rows w elem_size extent dst src mem =
    let rows = sub_vec_begin (length extent - 1) extent in
    let dst_pitch = sub_vec_end (length extent - 1) dst.pitch_bytes in
    let src_pitch = sub_vec_end (length extent - 1) src.pitch_bytes in
    if prod w extent == 0
    then some mem
    else final (
        nd_loop_inc_idx w rows
          (λ idx m.
            memcpy (dst.ptr + offset_bytes w idx dst_pitch) (src.ptr + offset_bytes w idx src_pitch)
              (extent_width_bytes w elem_size extent) m)
          mem)

-- `TaskCopyCpu::operator()` without a dimension.
abbrev pub copy_scalar : ℕ → View → View → Memory → Option Memory
copy_scalar elem_size dst src mem = some (memcpy dst.ptr src.ptr elem_size mem)

-- In one dimension, and in any number of them.
unfoldable pub copy : ℕ → ℕ → Vec → View → View → Memory → Option Memory
unfolding copy_rows extent_width_bytes
copy w elem_size [] dst src mem = copy_scalar elem_size dst src mem
copy w elem_size (x ∷ []) dst src mem =
    if prod w (x ∷ []) == 0
    then some mem
    else some (memcpy dst.ptr src.ptr (extent_width_bytes w elem_size (x ∷ [])) mem)
copy w elem_size (x ∷ y ∷ xs) dst src mem = copy_rows w elem_size (x ∷ y ∷ xs) dst src mem

-- `TaskSetCpu::operator()` in two or more dimensions.
unfoldable pub set_rows : ℕ → ℕ → ℕ → Vec → View → Memory → Option Memory
unfolding extent_width_bytes
set_rows w elem_size byte extent dst mem =
    let rows = sub_vec_begin (length extent - 1) extent in
    let dst_pitch = sub_vec_end (length extent - 1) dst.pitch_bytes in
    if prod w extent == 0
    then some mem
    else final (
        nd_loop_inc_idx w rows
          (λ idx m.
            memset (dst.ptr + offset_bytes w idx dst_pitch) byte
              (extent_width_bytes w elem_size extent) m)
          mem)

-- `TaskSetCpu::operator()` without a dimension.
abbrev pub set_scalar : ℕ → ℕ → View → Memory → Option Memory
set_scalar elem_size byte dst mem = some (memset dst.ptr byte elem_size mem)

-- In one dimension, and in any number of them.
unfoldable pub set_bytes : ℕ → ℕ → ℕ → Vec → View → Memory → Option Memory
unfolding set_rows extent_width_bytes
set_bytes w elem_size byte [] dst mem = set_scalar elem_size byte dst mem
set_bytes w elem_size byte (x ∷ []) dst mem =
    if prod w (x ∷ []) == 0
    then some mem
    else some (memset dst.ptr byte (extent_width_bytes w elem_size (x ∷ [])) mem)
set_bytes w elem_size byte (x ∷ y ∷ xs) dst mem = set_rows w elem_size byte (x ∷ y ∷ xs) dst mem
