-- ===== src/Tests/SegmentTrees.antt =====
-- test/TestSegmentTree/TestSegmentTree.cpp, and the laws of the segment tree on its trees.
use mathlib.Core.List.{map}
use slimmer.Base.{ℕ, ◌+◌, ◌/◌, ◌≡◌, refl, [], ◌∷◌, arith, nat_eq}
use slimmer.SegmentTree.{
  SegmentTree, SegmentType, Segment, empty_segment, covered_segment, empty, new_tree, set, get,
  collect, collect2, set_fuel, max_range,
}
use slimmer.SegmentTree.Midpoint.{midpoint, midpoint_u64, midpoint_u64_exact}
use slimmer.SegmentTree.Shape.{Spans, set-Spans}
use slimmer.SegmentTree.Lookup.{overwrite, get-set}
use slimmer.SegmentTree.Collect.{Collected, collect-Collected}

abbrev merged : SegmentTree ℕ
unfolding new_tree set set_fuel midpoint
merged = set (set (set (new_tree 0) 4 10 1) 12 20 1) 10 12 1

abbrev shown : Segment ℕ → SegmentType × ℕ × ℕ × ℕ
shown s = (s.type, s.value, s.left, s.right)

-- The tree's first printout: one covered segment from 4 to 20.
merged_segments :
    map shown (collect merged 0 max_range)
    ≡ (empty_segment, 0, 0, 4)
      ∷ (covered_segment, 1, 4, 20)
      ∷ (empty_segment, 0, 20, max_range)
      ∷ []
unfolding new_tree set set_fuel midpoint collect collect2
merged_segments = refl

abbrev small : SegmentTree ℕ
small = empty 0 0 8

small-Spans : Spans small 0 8
small-Spans = record { at_left = refl; at_right = refl; shaped = omega arith }

set-Spans_example : Spans (set small 2 5 7) 0 8
set-Spans_example = set-Spans small 2 5 0 8 7 small-Spans (omega arith) (omega arith)

get-set_example : get (set small 2 5 7) 4 ≡ overwrite 2 5 7 4 (get small 4)
get-set_example =
    get-set small 2 5 4 7 (omega arith) (omega arith) (omega arith) (omega arith) (omega arith)

collect-Collected_example : Collected (set small 2 5 7) 1 6 (collect (set small 2 5 7) 1 6)
unfolding set set_fuel midpoint
collect-Collected_example =
    collect-Collected (set small 2 5 7) 1 6 (omega arith) (omega arith) (omega arith) (omega arith)

midpoint_u64_exact_example :
    (midpoint_u64 max_range max_range ≡ midpoint max_range max_range)
    × (midpoint_u64 max_range max_range ≡ (max_range + max_range) / 2)
midpoint_u64_exact_example = midpoint_u64_exact max_range max_range (omega arith) (omega arith)
