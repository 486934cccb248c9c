-- ===== src/MemoryGroups/Trees.antt =====
-- Merging of GroupMemory.cpp on segment trees: the union of some groups.
use slimmer.Base.{ℕ, zero, suc, ◌-◌, ◌^◌, List, [], ◌∷◌, Option, none, some, ◌>>=◌, nat_eq}
use slimmer.SegmentTree.{SegmentTree, empty, covered, partial, left_end, right_end, set}

-- What the loop over the trees finds: a covered one, or the children of the partial ones.
pub data Split : Type 0 where
  whole : (left right : ℕ) → Split
  halved : (l_childs r_childs : List (SegmentTree ℕ)) → Split

abbrev pub add_children : SegmentTree ℕ → SegmentTree ℕ → Split → Split
add_children a b (whole l r) = whole l r
add_children a b (halved ls rs) = halved (a ∷ ls) (b ∷ rs)

unfoldable pub split_trees : List (SegmentTree ℕ) → Split
split_trees [] = halved [] []
split_trees (empty v l r ∷ trees) = split_trees trees
split_trees (covered v l r ∷ trees) = whole l r
split_trees (partial v l r a b ∷ trees) = add_children a b (split_trees trees)

-- The value -1 of a partial node, which nothing reads.
abbrev pub no_group : ℕ
no_group = 2 ^ 32 - 1

-- An empty node over the range of trees[0].
abbrev pub nothing_left :
    List (SegmentTree ℕ) → SegmentTree ℕ → Option (SegmentTree ℕ × SegmentTree ℕ)
nothing_left [] addr_group = none
nothing_left (t ∷ trees) addr_group = some (empty 0 (left_end t) (right_end t), addr_group)

abbrev pub join_halves :
    List (SegmentTree ℕ)
    → SegmentTree ℕ
    → SegmentTree ℕ
    → SegmentTree ℕ
    → Option (SegmentTree ℕ × SegmentTree ℕ)
join_halves [] a b addr_group = none
join_halves (t ∷ trees) a b addr_group =
    some (partial no_group (left_end t) (right_end t) a b, addr_group)

-- The merged tree, and `addr_group` with the new group at its addresses. The left halves come first,
-- which C++ leaves open. It recurs on fuel, the width of the trees, since both halves of a partial
-- node are narrower.
unfoldable pub merge_trees :
    ℕ → List (SegmentTree ℕ) → ℕ → SegmentTree ℕ → Option (SegmentTree ℕ × SegmentTree ℕ)
merge_trees zero trees new_group addr_group = none
merge_trees (suc fuel) trees new_group addr_group = elim (split_trees trees) [
  | whole l r ↦ some (covered 1 l r, set addr_group l r new_group)
  | halved [] rs ↦ nothing_left trees addr_group
  | halved (a ∷ ls) rs ↦ merge_trees fuel (a ∷ ls) new_group addr_group >>= λ below.
      merge_trees fuel rs new_group below.1 >>= λ above. join_halves trees below.0 above.0 above.1
]

abbrev pub width : List (SegmentTree ℕ) → ℕ
width [] = 0
width (t ∷ trees) = right_end t - left_end t
