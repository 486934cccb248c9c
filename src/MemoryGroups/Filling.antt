-- ===== src/MemoryGroups/Filling.antt =====
-- Ranges of addresses are entered into their group, in Addr2Group and in Group2Addr.
use mathlib.Core.Option.{some-injective}
use slimmer.Base.{
  ℕ, ◌<◌, ◌≤◌, ◌≡◌, refl, sym, ◌∙◌, ap, Bool, true, false, ◌||◌, List, [], ◌∷◌, Option, some,
  if◌then◌else◌, map_find, equiv, equiv_iff, All, All-map_set, map_find-All, nat_order, nat_eq,
  AllOf, just, AllOf->>=, AllOf-with, Bool-cases, inl, inr, arith,
}
use slimmer.SegmentTree.{SegmentTree, get, set, max_range}
use slimmer.SegmentTree.Range.{in_range}
use slimmer.SegmentTree.Shape.{set-Spans}
use slimmer.SegmentTree.Lookup.{get-set}
use slimmer.MemoryDependency.{Groups}
use slimmer.MemoryDependency.LastWriter.{IsWhole}
use slimmer.MemoryGroups.Merging.{State}
use slimmer.MemoryGroups.Pass.{fill_range, fill_ranges, fill}
use slimmer.MemoryGroups.Splitting.{has, is_some}
use slimmer.MemoryGroups.Consistent.{some_same}
use slimmer.MemoryGroups.Invariant.{or_right, Consistent, IsEntry, Sound, HoldsIn-set}

overwritten_has :
    (t : SegmentTree ℕ) (l r x : ℕ)
    → IsWhole t
    → r ≤ max_range
    → x < max_range
    → has (set t l r 1) x ≡ in_range l r x || has t x
overwritten_has t l r x w le m =
    ap is_some (
      get-set t l r x 1 w.shaped (rw w.at_left (omega arith)) (rw w.at_right le)
        (rw w.at_left (omega arith)) (rw w.at_right m))
    ∙ picked (in_range l r x) (get t x)
  where
    picked : (c : Bool) (o : Option ℕ) → is_some (if c then some 1 else o) ≡ c || is_some o
    picked true o = refl
    picked false o = refl

same_tree : (t u : SegmentTree ℕ) (x : ℕ) → some t ≡ some u → has u x ≡ true → has t x ≡ true
same_tree t u x e h = ap (λ (v : SegmentTree ℕ). has v x) (some-injective t u e) ∙ h

fill_range-Consistent :
    (last g l r : ℕ) (groups : Groups)
    → r ≤ max_range
    → Consistent last groups
    → AllOf (Consistent last) (fill_range g l r groups)
unfolding fill_range
fill_range-Consistent last g l r groups le h =
    AllOf-with (map_find groups.group2addr g) (λ tree found.
      let (given, whole) = map_find-All (IsEntry last) groups.group2addr g h.entries found in
      just (record {
        spanned = set-Spans groups.addr2group l r 0 max_range g h.spanned (omega arith) le;
        entries =
            All-map_set (IsEntry last) groups.group2addr g (set tree l r 1) h.entries
              (given, set-Spans tree l r 0 max_range 1 whole (omega arith) le);
        held = λ x k m e.
            let now : (if in_range l r x then some g else get groups.addr2group x) ≡ some k =
              sym (
                get-set groups.addr2group l r x g h.spanned.shaped
                  (rw h.spanned.at_left (omega arith)) (rw h.spanned.at_right le)
                  (rw h.spanned.at_left (omega arith)) (rw h.spanned.at_right m))
              ∙ e in
            elim (Bool-cases (in_range l r x)) [
              | inl c ↦
                  let same : g ≡ k = some_same g k (rw c at now) in
                  HoldsIn-set groups.group2addr g (set tree l r 1) k x
                    (λ _. overwritten_has tree l r x whole le m ∙ rw c refl)
                    (λ d. absurd (contra (equiv g k) d ((equiv_iff g k).1 same)))
              | inr c ↦
                  let (t, f, b) = h.held x k m (rw c at now) in
                  HoldsIn-set groups.group2addr g (set tree l r 1) k x
                    (λ same.
                      overwritten_has tree l r x whole le m
                      ∙ or_right (in_range l r x) (has tree x) (
                          same_tree tree t x (sym found ∙ ap (map_find groups.group2addr) same ∙ f)
                            b))
                    (λ d. (t, f, b))
            ];
      }))
  where
    contra : (c : Bool) → c ≡ false → c ≡ true → ⊥
    contra c p q = cc

abbrev pub AllRanges : List (ℕ × ℕ) → Type 0
AllRanges ranges = All (λ range. range.1 ≤ max_range) ranges

fill_ranges-Consistent :
    (last g : ℕ) (ranges : List (ℕ × ℕ)) (groups : Groups)
    → AllRanges ranges
    → Consistent last groups
    → AllOf (Consistent last) (fill_ranges g ranges groups)
unfolding fill_ranges
fill_ranges-Consistent last g [] groups le h = just h
fill_ranges-Consistent last g ((l, r) ∷ ranges) groups (le, les) h =
    AllOf->>= (fill_range-Consistent last g l r groups le h)
      (λ groups' h'. fill_ranges-Consistent last g ranges groups' les h')

pub fill-Sound :
    (g : ℕ) (ranges : List (ℕ × ℕ)) (s : State)
    → AllRanges ranges
    → Sound s
    → AllOf Sound (fill g ranges s)
unfolding fill
fill-Sound g ranges s le h =
    AllOf->>= (fill_ranges-Consistent s.max_group_id g ranges s.groups le h.consistent)
      (λ groups c. just (record { consistent = c; labels = h.labels }))
