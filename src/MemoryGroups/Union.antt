-- ===== src/MemoryGroups/Union.antt =====
-- Merging on trees makes their union, and gives the new group to its addresses and to no other.
use slimmer.Base.{
  ℕ, zero, suc, ◌-◌, ◌<◌, ◌≤◌, ◌≡◌, refl, sym, ◌∙◌, ap, Bool, true, false, ◌&&◌, ltb, List, [], ◌∷◌,
  Option, some, ◌>>=◌, if◌then◌else◌, length, nat_eq, Bool-cases, inl, inr, arith,
}
use slimmer.SegmentTree.{
  SegmentTree, empty, covered, partial, left_end, right_end, get, set, max_range,
}
use slimmer.SegmentTree.Midpoint.{midpoint}
use slimmer.SegmentTree.Range.{in_range}
use slimmer.SegmentTree.Shape.{IsShaped-lt, Spans, set-Spans}
use slimmer.SegmentTree.Lookup.{get-set}
use slimmer.MemoryDependency.LastWriter.{IsWhole}
use slimmer.MemoryGroups.Trees.{
  Split, whole, halved, split_trees, no_group, nothing_left, join_halves, merge_trees,
}
use slimmer.MemoryGroups.Splitting.{
  has, any_has, AllSpan, Halved, IsSplit, if_same, split_trees-IsSplit,
}

-- The merged tree and the tree of groups, against the trees and the tree of groups before.
pub record Merges (i j g : ℕ) (trees : List (SegmentTree ℕ)) (old t new : SegmentTree ℕ)
    : Type 0 where
  pub spanned : Spans t i j
  pub kept : IsWhole new
  pub members : (x : ℕ) → in_range i j x ≡ true → has t x ≡ any_has trees x
  pub regrouped :
      (x : ℕ)
      → x < max_range
      → get new x ≡ (if in_range i j x && any_has trees x then some g else get old x)

abbrev Result :
    ℕ
    → ℕ
    → ℕ
    → List (SegmentTree ℕ)
    → SegmentTree ℕ
    → Option (SegmentTree ℕ × SegmentTree ℕ)
    → Type 0
Result i j g trees old m =
    (t : SegmentTree ℕ) × (new : SegmentTree ℕ) × (m ≡ some (t, new)) × Merges i j g trees old t new

and_true : (b c : Bool) → c ≡ true → (b && c) ≡ b
and_true b c h = ground arith

and_false : (b c : Bool) → c ≡ false → (b && c) ≡ false
and_false b c h = ground arith

whole_Merges :
    (i j l r g : ℕ) (trees : List (SegmentTree ℕ)) (old : SegmentTree ℕ)
    → i < j
    → j ≤ max_range
    → IsWhole old
    → IsSplit i j trees (whole l r)
    → Result i j g trees old (some (covered 1 l r, set old l r g))
whole_Merges i j l r g trees old lt le h (p, q, all) = (
  covered 1 l r,
  set old l r g,
  refl,
  record {
    spanned = record { at_left = p; at_right = q; shaped = omega (arith, p, q) };
    kept = set-Spans old l r 0 max_range g h (omega arith) (omega (arith, q));
    members = λ x m. unfold get in sym (all x);
    regrouped = λ x m.
        get-set old l r x g h.shaped (rw h.at_left (omega arith)) (rw h.at_right (omega (arith, q)))
          (rw h.at_left (omega arith)) (rw h.at_right m)
        ∙ rw (p, q, and_true (in_range i j x) (any_has trees x) (all x)) refl;
  },
)

none_has :
    (i j : ℕ) (trees rs : List (SegmentTree ℕ)) (x : ℕ)
    → Halved i j trees [] rs
    → any_has trees x ≡ false
none_has i j trees [] x h = h.member x ∙ sym (if_same (ltb x (midpoint i j)))
none_has i j trees (r ∷ rs) x h = absurd (omega (arith, h.paired))

empty_Merges :
    (i j g : ℕ) (trees rs : List (SegmentTree ℕ)) (old : SegmentTree ℕ)
    → 0 < length trees
    → AllSpan i j trees
    → IsWhole old
    → Halved i j trees [] rs
    → Result i j g trees old (nothing_left trees old)
empty_Merges i j g [] rs old m w h k = absurd (omega arith)
empty_Merges i j g (t ∷ trees) rs old m (s, w) h k = (
  empty 0 (left_end t) (right_end t),
  old,
  refl,
  record {
    spanned = record {
      at_left = s.at_left;
      at_right = s.at_right;
      shaped = IsShaped-lt t s.shaped;
    };
    kept = h;
    members = λ x m. unfold get in sym (none_has i j (t ∷ trees) rs x k);
    regrouped = λ x m.
        rw (and_false (in_range i j x) (any_has (t ∷ trees) x) (none_has i j (t ∷ trees) rs x k))
          refl;
  },
)

-- Two halves of a range, one written after the other.
two_halves :
    (i m j x : ℕ) (p q : Bool) (o : Option ℕ) (g : ℕ)
    → i < m
    → m < j
    → (if in_range m j x && q then some g else if in_range i m x && p then some g else o)
      ≡ (if in_range i j x && (if ltb x m then p else q) then some g else o)
two_halves i m j x p q o g lo hi = ground arith

below_range : (i m j x : ℕ) → in_range i j x ≡ true → ltb x m ≡ true → in_range i m x ≡ true
below_range i m j x h k = ground arith

above_range : (i m j x : ℕ) → in_range i j x ≡ true → ltb x m ≡ false → in_range m j x ≡ true
above_range i m j x h k = ground arith

halves_Merges :
    (i j g : ℕ) (trees ls rs : List (SegmentTree ℕ)) (old a one b two : SegmentTree ℕ)
    → 0 < length trees
    → AllSpan i j trees
    → Halved i j trees ls rs
    → i < midpoint i j
    → midpoint i j < j
    → Merges i (midpoint i j) g ls old a one
    → Merges (midpoint i j) j g rs one b two
    → Result i j g trees old (join_halves trees a b two)
halves_Merges i j g [] ls rs old a one b two m w h lo hi below above = absurd (omega arith)
halves_Merges i j g (t ∷ trees) ls rs old a one b two m (s, w) h lo hi below above = (
  partial no_group (left_end t) (right_end t) a b,
  two,
  refl,
  record {
    spanned = record {
      at_left = s.at_left;
      at_right = s.at_right;
      shaped =
          rw (s.at_left, s.at_right)
            (
              lo, hi, below.spanned.at_left, below.spanned.at_right, above.spanned.at_left,
              above.spanned.at_right, below.spanned.shaped, above.spanned.shaped,
            );
    };
    kept = above.kept;
    members = λ x k.
        unfold get in
        rw (s.at_left, s.at_right)
          (elim (Bool-cases (ltb x (midpoint i j))) [
            | inl c ↦ rw (h.member x, c) (below.members x (below_range i (midpoint i j) j x k c))
            | inr c ↦ rw (h.member x, c) (above.members x (above_range i (midpoint i j) j x k c))
          ]);
    regrouped = λ x k.
        above.regrouped x k
        ∙ ap (λ (o : Option ℕ). if in_range (midpoint i j) j x && any_has rs x then some g else o)
            (below.regrouped x k)
        ∙ two_halves i (midpoint i j) j x (any_has ls x) (any_has rs x) (get old x) g lo hi
        ∙ ap (λ (c : Bool). if in_range i j x && c then some g else get old x) (sym (h.member x));
  },
)

-- On trees of one range, at least one, the merge comes to its end: the new tree has the addresses
-- that one of the trees has, and these have the new group, while all others keep theirs.
pub merge_trees-Merges :
    (fuel i j g : ℕ) (trees : List (SegmentTree ℕ)) (old : SegmentTree ℕ)
    → 0 < length trees
    → AllSpan i j trees
    → IsWhole old
    → i < j
    → j ≤ max_range
    → j - i < fuel
    → (t : SegmentTree ℕ) × (new : SegmentTree ℕ) × (merge_trees fuel trees g old ≡ some (t, new))
      × Merges i j g trees old t new
unfolding merge_trees
merge_trees-Merges zero i j g trees old m w h lt le enough = absurd (omega arith)
merge_trees-Merges (suc fuel) i j g trees old m w h lt le enough =
    by_split (split_trees trees) (split_trees-IsSplit i j trees w)
      (λ ls lo hi some_left below.
        merge_trees-Merges fuel i (midpoint i j) g ls old some_left below h lo (omega (arith, hi))
          (omega (arith, lo, hi)))
      (λ rs one lo hi some_left above kept.
        merge_trees-Merges fuel (midpoint i j) j g rs one some_left above kept hi le
          (omega (arith, lo, hi)))
  where
    by_split :
        (s : Split)
        → IsSplit i j trees s
        → ((ls : List (SegmentTree ℕ))
            → i < midpoint i j
            → midpoint i j < j
            → 0 < length ls
            → AllSpan i (midpoint i j) ls
            → Result i (midpoint i j) g ls old (merge_trees fuel ls g old))
        → ((rs : List (SegmentTree ℕ)) (one : SegmentTree ℕ)
            → i < midpoint i j
            → midpoint i j < j
            → 0 < length rs
            → AllSpan (midpoint i j) j rs
            → IsWhole one
            → Result (midpoint i j) j g rs one (merge_trees fuel rs g one))
        → Result i j g trees old (elim s [
          | whole l r ↦ some (covered 1 l r, set old l r g)
          | halved [] rs ↦ nothing_left trees old
          | halved (a ∷ ls) rs ↦ merge_trees fuel (a ∷ ls) g old >>= λ below.
              merge_trees fuel rs g below.1 >>= λ above. join_halves trees below.0 above.0 above.1
        ])
    by_split (whole l r) split first second = whole_Merges i j l r g trees old lt le h split
    by_split (halved [] rs) split first second = empty_Merges i j g trees rs old m w h split
    by_split (halved (a ∷ ls) rs) split first second =
        let (lo, hi) = split.inside (omega arith) in
        let (t, one, e, below) = first (a ∷ ls) lo hi (omega arith) split.below in
        let (u, two, f, above) =
          second rs one lo hi (omega (arith, split.paired)) split.above below.kept in
        rw (e, f)
          (halves_Merges i j g trees (a ∷ ls) rs old t one u two m w split lo hi below above)
