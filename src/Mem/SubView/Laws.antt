-- ===== src/Mem/SubView/Laws.antt =====
-- The elements of a part of a view, include/alpaka/mem/view/ViewSubView.hpp, among those of the view.
use alpaka.Base.{
  ℕ, ◌+◌, ◌*◌, ◌^◌, ◌≤◌, ◌<◌, ◌≡◌, refl, sym, ap, ◌∙◌, Bool, true, false, ◌&&◌, [], ◌∷◌, none, some,
  arith, length, zip_with, leb, leb→le, if◌then◌else◌, wrap, wrap_of_lt,
}
use alpaka.Vec.Fold.{Vec, foldr_all}
use alpaka.Vec.Fold.Laws.{foldr_all-cons}
use alpaka.Vec.Elementwise.{add, le}
use alpaka.MapIdx.Spec.{IsInside}
use alpaka.Mem.Copy.{View}
use alpaka.Mem.Copy.Rows.{strides}
use alpaka.Mem.Copy.Laws.{IsInside-length}
use alpaka.Mem.SubView.{ViewSubView, view_sub_view, next_pitches, pitched_offset_bytes, ptr_native}

-- The sums of the components.
abbrev pub shifted : Vec → Vec → Vec
shifted offsets idx = zip_with (λ (a b : ℕ). a + b) offsets idx

-- No sum of an offset and an extent wraps.
abbrev pub NoWrap : ℕ → Vec → Vec → Type 0
NoWrap w [] es = Unit
NoWrap w (o ∷ os) [] = ⊥
NoWrap w (o ∷ os) (e ∷ es) = (o + e < 2 ^ w) × NoWrap w os es

and-true : (a b : Bool) → (a && b) ≡ true → (a ≡ true) × (b ≡ true)
and-true a b h = ground arith

foldr_all-and :
    (w : ℕ) (os es ps is : Vec)
    → NoWrap w os es
    → length es ≡ length ps
    → foldr_all ◌&&◌ (le (add w os es) ps) true ≡ true
    → IsInside is es
    → length os ≡ length es
    → IsInside (shifted os is) ps
unfolding foldr_all le add
foldr_all-and w [] [] [] [] n l h k m = tt
foldr_all-and w [] [] (p ∷ ps) is n l h k m = absurd (omega arith)
foldr_all-and w [] [] [] (i ∷ is) n l h k m = absurd k
foldr_all-and w [] (e ∷ es) ps is n l h k m = absurd (omega arith)
foldr_all-and w (o ∷ os) [] ps is n l h k m = absurd n
foldr_all-and w (o ∷ os) (e ∷ es) [] is n l h k m = absurd (omega arith)
foldr_all-and w (o ∷ os) (e ∷ es) (p ∷ ps) [] n l h k m = absurd k
foldr_all-and w (o ∷ os) (e ∷ es) (p ∷ ps) (i ∷ is) n l h k m =
    let (first, rest) =
      and-true (leb (wrap w (o + e)) p) (foldr_all ◌&&◌ (le (add w os es) ps) true)
        (sym (foldr_all-cons ◌&&◌ (leb (wrap w (o + e)) p) true (le (add w os es) ps)) ∙ h) in
    let fits : o + e ≤ p = omega (arith, leb→le (wrap w (o + e)) p first, wrap_of_lt w n.0) in
    (omega (arith, k.0), foldr_all-and w os es ps is n.1 (omega arith) rest k.1 (omega arith))

strides-add :
    (os is ps : Vec)
    → length os ≡ length is
    → strides (shifted os is) ps ≡ strides os ps + strides is ps
strides-add [] [] ps h = omega arith
strides-add [] (i ∷ is) ps h = absurd (omega arith)
strides-add (o ∷ os) [] ps h = absurd (omega arith)
strides-add (o ∷ os) (i ∷ is) [] h = omega arith
strides-add (o ∷ os) (i ∷ is) (p ∷ ps) h =
    let rest = strides-add os is ps (omega arith) in
    let head : (o + i) * p ≡ o * p + i * p = grind arith in omega (arith, rest, head)

-- The fold of the products of offsets and pitches, without a wrap.
folded :
    (w : ℕ) (os ps : Vec)
    → length os ≡ length ps
    → strides os ps < 2 ^ w
    → foldr_all (λ a b. wrap w (a + b)) (zip_with (λ o p. wrap w (o * p)) os ps) 0 ≡ strides os ps
unfolding foldr_all
folded w [] [] l h = refl
folded w [] (p ∷ ps) l h = absurd (omega arith)
folded w (o ∷ os) [] l h = absurd (omega arith)
folded w (o ∷ os) (p ∷ ps) l h =
    foldr_all-cons (λ a b. wrap w (a + b)) (wrap w (o * p)) 0
      (zip_with (λ o p. wrap w (o * p)) os ps)
    ∙ (ap (λ (t : ℕ). wrap w (wrap w (o * p) + t)) (folded w os ps (omega arith) (omega arith))
        ∙ (ap (λ (t : ℕ). wrap w (t + strides os ps)) (wrap_of_lt w (omega arith))
            ∙ wrap_of_lt w h))

if-some {ℓ} :
    {A : Type ℓ} (b : Bool) (x y : A) → (if b then some x else none) ≡ some y → (b ≡ true) × (x ≡ y)
if-some true x y h = (refl, cc)
if-some false x y h = absurd (cc)

-- A part of a view that the constructor accepts, where no sum of an offset and an extent wraps: an index inside
-- the part is, with the offsets added, an index inside the view, and it leads from the native pointer of the
-- part to the same address as that index from the pointer of the view. The position in the view fits the index
-- type.
pub view_sub_view-IsInside :
    (w elem_size : ℕ) (view : View) (extent offsets idx : Vec) (part : ViewSubView)
    → view_sub_view w view extent offsets ≡ some part
    → NoWrap w offsets extent
    → length offsets ≡ length extent
    → length extent ≡ length view.extent
    → length extent ≡ length (next_pitches elem_size view)
    → IsInside idx extent
    → strides (shifted offsets idx) (next_pitches elem_size view) < 2 ^ w
    → IsInside (shifted offsets idx) view.extent
      × (ptr_native w elem_size part + strides idx (next_pitches elem_size view)
          ≡ view.ptr + strides (shifted offsets idx) (next_pitches elem_size view))
unfolding view_sub_view ptr_native pitched_offset_bytes
view_sub_view-IsInside w elem_size view extent offsets idx part made n lo le_ lp h fits =
    let (accepted, same) =
      if-some (foldr_all ◌&&◌ (le (add w offsets extent) view.extent) true)
        (record { view_parent_view = view; extent_elements = extent; offsets_elements = offsets })
        part made in
    let len : length offsets ≡ length idx = omega (arith, IsInside-length idx extent h) in
    let sum = strides-add offsets idx (next_pitches elem_size view) len in
    let at_part : ptr_native w elem_size part
        ≡ view.ptr + strides offsets (next_pitches elem_size view) =
      ap (ptr_native w elem_size) (sym same)
      ∙ ap (λ (t : ℕ). view.ptr + t)
          (folded w offsets (next_pitches elem_size view) (omega arith) (omega arith)) in
    (
      foldr_all-and w offsets extent view.extent idx n (omega arith) accepted h (omega arith),
      omega (arith, at_part, sum),
    )
