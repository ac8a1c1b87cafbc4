-- ===== src/Tests/MemTests.antt =====
-- Runs of the copy and set tasks and of the sub-views.
use alpaka.Base.{◌+◌, ◌*◌, ◌≡◌, refl, inl, [], ◌∷◌, some, arith}
use alpaka.MapIdx.Spec.{IsInside}
use alpaka.Mem.Copy.{Memory, View, copy, set_bytes}
use alpaka.Mem.Copy.Rows.{strides}
use alpaka.Mem.Copy.Laws.{view_of}
use alpaka.Mem.Copy.Bytes.{Rewritten, copy-Rewritten}
use alpaka.Mem.Copy.Fill.{set_bytes-Rewritten}
use alpaka.Mem.SubView.{ViewSubView, view_sub_view, ptr_native}
use alpaka.Mem.SubView.Laws.{view_sub_view-IsInside}

-- Byte `a` is `a`.
abbrev counting : Memory
counting a = a

-- Two rows of three elements of two bytes, with pitches of 8 and 6 bytes.
copy-Rewritten_example :
    (m : Memory) × (copy 32 2
        (2 ∷ 3 ∷ [])
        (view_of (2 ∷ 3 ∷ []) 16 (8 ∷ []) 100)
        (view_of (2 ∷ 3 ∷ []) 12 (6 ∷ []) 200)
        counting
      ≡ some m)
    × Rewritten (3 * 2) 100 (2 ∷ []) (8 ∷ []) (λ idx j. 200 + strides idx (6 ∷ []) + j) counting m
copy-Rewritten_example =
    copy-Rewritten 32 2 2 3 16 12 100 200 [] (8 ∷ []) (6 ∷ []) (2 ∷ 3 ∷ []) (2 ∷ 3 ∷ []) counting
      (omega arith) (omega arith) (omega arith) (omega arith) (omega arith) (omega arith)
      (omega arith) (omega arith) (omega arith) (inl (omega arith))

set_bytes-Rewritten_example :
    (m : Memory) × (set_bytes 32 2 255 (2 ∷ 3 ∷ []) (view_of (2 ∷ 3 ∷ []) 16 (8 ∷ []) 100) counting
      ≡ some m)
    × Rewritten (3 * 2) 100 (2 ∷ []) (8 ∷ []) (λ idx j. 255) counting m
set_bytes-Rewritten_example =
    set_bytes-Rewritten 32 2 255 2 3 16 100 [] (8 ∷ []) (2 ∷ 3 ∷ []) counting (omega arith)
      (omega arith) (omega arith) (omega arith) (omega arith) (omega arith) (omega arith)

abbrev whole : View
whole = record { extent = 4 ∷ 5 ∷ []; pitch_bytes = 64 ∷ 16 ∷ []; ptr = 1000 }

abbrev part : ViewSubView
part = record {
  view_parent_view = whole;
  extent_elements = 2 ∷ 2 ∷ [];
  offsets_elements = 1 ∷ 3 ∷ [];
}

view_sub_view-IsInside_example :
    IsInside (2 ∷ 4 ∷ []) (4 ∷ 5 ∷ [])
    × (ptr_native 32 2 part + strides (1 ∷ 1 ∷ []) (16 ∷ 2 ∷ [])
        ≡ 1000 + strides (2 ∷ 4 ∷ []) (16 ∷ 2 ∷ []))
view_sub_view-IsInside_example =
    view_sub_view-IsInside 32 2 whole (2 ∷ 2 ∷ []) (1 ∷ 3 ∷ []) (1 ∷ 1 ∷ []) part
      (unfold view_sub_view in refl) (omega arith) (omega arith) (omega arith) (omega arith)
      (omega arith) (omega arith)
