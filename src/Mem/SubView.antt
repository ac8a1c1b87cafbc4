-- ===== src/Mem/SubView.antt =====
-- include/alpaka/mem/view/ViewSubView.hpp: a part of a view, with the pitches of the view. All index types have
-- `w` bits.
pub mod Laws
use alpaka.Base.{
  ℕ, ◌+◌, ◌*◌, ◌&&◌, true, List, [], ◌∷◌, ◌++◌, Option, none, some, drop, zip_with, if◌then◌else◌,
  wrap,
}
use alpaka.Vec.Fold.{Vec, foldr_all, all, zeros}
use alpaka.Vec.Elementwise.{add, le}
use alpaka.Mem.Copy.{View}

pub record ViewSubView : Type 0 where
  pub view_parent_view : View
  pub extent_elements : Vec
  pub offsets_elements : Vec

-- The constructor; `none` is the assertion, folded with `and`.
unfoldable pub view_sub_view : ℕ → View → Vec → Vec → Option ViewSubView
unfolding foldr_all add le
view_sub_view w view extent_elements offsets_elements =
    if foldr_all ◌&&◌ (le (add w offsets_elements extent_elements) view.extent) true
    then some (record {
      view_parent_view = view;
      extent_elements = extent_elements;
      offsets_elements = offsets_elements;
    })
    else none

-- `getPitchBytes<Tidx + 1>` of each dimension: the last one is the size of an element.
abbrev pub next_pitches : ℕ → View → Vec
next_pitches elem_size view = drop 1 view.pitch_bytes ++ elem_size ∷ []

-- `pitchedOffsetBytes`.
unfoldable pub pitched_offset_bytes : ℕ → ℕ → ViewSubView → ℕ
unfolding foldr_all
pitched_offset_bytes w elem_size v =
    foldr_all (λ a b. wrap w (a + b))
      (zip_with (λ o p. wrap w (o * p)) v.offsets_elements
        (next_pitches elem_size v.view_parent_view))
      0

unfoldable pub ptr_native : ℕ → ℕ → ViewSubView → ℕ
unfolding pitched_offset_bytes
ptr_native w elem_size v = v.view_parent_view.ptr + pitched_offset_bytes w elem_size v
