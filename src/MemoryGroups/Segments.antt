-- ===== src/MemoryGroups/Segments.antt =====
-- The segments that GroupMemory collects: ranges within the addresses, and groups that are there.
use slimmer.Base.{
  ℕ, ◌<◌, ◌≤◌, ◌≡◌, refl, ◌∙◌, Bool, true, false, leb, le→leb, leb→gt, leb→le, ltb, min, max, List,
  [], ◌∷◌, none, some, if◌then◌else◌, All, All-reverse, All-append, map_find-All, nat_order, nat_eq,
  AllOf, just, nothing, AllOf->>=, Bool-cases, inl, inr, arith,
}
use slimmer.SegmentTree.{
  SegmentTree, empty, covered, partial, Segment, SegmentType, empty_segment, partial_segment,
  covered_segment, get, collect, collect2, push_segment, joins, max_range,
}
use slimmer.SegmentTree.Midpoint.{midpoint}
use slimmer.SegmentTree.Tiles.{Agrees, Tiles}
use slimmer.SegmentTree.Collect.{collect-Collected}
use slimmer.MemoryDependency.{Groups}
use slimmer.MemoryGroups.Pass.{
  clip_last, collect_clipped, Found, sort_segment, sort_segments, find_groups,
}
use slimmer.MemoryGroups.Consistent.{AllGiven}
use slimmer.MemoryGroups.Invariant.{Consistent, IsEntry}
use slimmer.MemoryGroups.Labels.{AllGiven-insert}
use slimmer.MemoryGroups.Filling.{AllRanges}

-- No segment of a collection is a partial one.
abbrev IsLeaf : SegmentType → Type 0
IsLeaf partial_segment = ⊥
IsLeaf _ = Unit {0}

AllLeaves : List (Segment ℕ) → Type 0
AllLeaves segments = All (λ s. IsLeaf s.type) segments

push_segment-AllLeaves :
    (res : List (Segment ℕ)) (s : Segment ℕ)
    → AllLeaves res
    → IsLeaf s.type
    → AllLeaves (push_segment res s)
unfolding AllLeaves
push_segment-AllLeaves [] s h p = (p, tt)
push_segment-AllLeaves (q ∷ res) s (k, h) p = elim (Bool-cases (joins q s)) [
  | inl c ↦ rw (push_segment, c) (k, h)
  | inr c ↦ rw (push_segment, c) (p, (k, h))
]

if_AllLeaves :
    (c : Bool) (xs ys : List (Segment ℕ))
    → AllLeaves xs
    → AllLeaves ys
    → AllLeaves (if c then xs else ys)
if_AllLeaves true xs ys h k = h
if_AllLeaves false xs ys h k = k

collect2-AllLeaves :
    (t : SegmentTree ℕ) (l r : ℕ) (res : List (Segment ℕ))
    → AllLeaves res
    → AllLeaves (collect2 t l r res)
unfolding collect2
collect2-AllLeaves (empty v i j) l r res h =
    if_AllLeaves (leb r l) res _ h (push_segment-AllLeaves res _ h tt)
collect2-AllLeaves (covered v i j) l r res h =
    if_AllLeaves (leb r l) res _ h (push_segment-AllLeaves res _ h tt)
collect2-AllLeaves (partial v i j a b) l r res h =
    let mid = midpoint i j in
    let first =
      if_AllLeaves (ltb l mid) (collect2 a l (min r mid) res) res
        (collect2-AllLeaves a l (min r mid) res h) h in
    if_AllLeaves (leb r l) res _ h
      (if_AllLeaves (ltb mid r) _ _ (collect2-AllLeaves b (max l mid) r _ first) first)

collect-AllLeaves : (t : SegmentTree ℕ) (l r : ℕ) → AllLeaves (collect t l r)
unfolding collect AllLeaves
collect-AllLeaves t l r = All-reverse (λ s. IsLeaf s.type) _ (collect2-AllLeaves t l r [] tt)

collect-empty : (t : SegmentTree ℕ) (l r : ℕ) → r ≤ l → collect t l r ≡ []
unfolding collect collect2
collect-empty (empty v i j) l r h = rw (collect2, le→leb r l h) refl
collect-empty (covered v i j) l r h = rw (collect2, le→leb r l h) refl
collect-empty (partial v i j a b) l r h = rw (collect2, le→leb r l h) refl

-- What the loops over the segments rely on: ends within the addresses, and groups given out.
abbrev FineAs : ℕ → SegmentType → ℕ → ℕ → Type 0
FineAs last empty_segment value right = right ≤ max_range
FineAs last partial_segment value right = ⊥
FineAs last covered_segment value right = value ≤ last

AllFine : ℕ → List (Segment ℕ) → Type 0
AllFine last segments = All (λ s. FineAs last s.type s.value s.right) segments

Tiles-le : (ss : List (Segment ℕ)) (lo hi : ℕ) → Tiles ss lo hi → lo ≤ hi
Tiles-le [] lo hi t = omega (arith, t)
Tiles-le (s ∷ ss) lo hi (a, b, c) = omega (arith, a, b, Tiles-le ss s.right hi c)

fine :
    (last : ℕ) (groups : Groups) (type : SegmentType) (s : Segment ℕ)
    → Consistent last groups
    → s.type ≡ type
    → IsLeaf type
    → s.left < s.right
    → s.right ≤ max_range
    → Agrees (get groups.addr2group) s
    → FineAs last type s.value s.right
fine last groups empty_segment s h e leaf lt le shows = le
fine last groups partial_segment s h e leaf lt le shows = leaf
fine last groups covered_segment s h e leaf lt le shows =
    let at : get groups.addr2group s.left ≡ some s.value =
      shows s.left (omega arith) lt ∙ rw e refl in
    let (t, f, c) = h.held s.left s.value (omega arith) at in
    (map_find-All (IsEntry last) groups.group2addr s.value h.entries f).0

segments-AllFine :
    (last : ℕ) (groups : Groups) (ss : List (Segment ℕ)) (lo hi : ℕ)
    → Consistent last groups
    → Tiles ss lo hi
    → hi ≤ max_range
    → All (Agrees (get groups.addr2group)) ss
    → AllLeaves ss
    → AllFine last ss
unfolding AllFine AllLeaves
segments-AllFine last groups [] lo hi h t le shows leaves = tt
segments-AllFine last groups (s ∷ ss) lo hi h (a, b, c) le (show, shows) (leaf, leaves) = (
  fine last groups s.type s h refl leaf b (omega (arith, Tiles-le ss s.right hi c)) show,
  segments-AllFine last groups ss s.right hi h c le shows leaves,
)

collect-AllFine :
    (last : ℕ) (groups : Groups) (l r : ℕ)
    → Consistent last groups
    → l < r
    → r ≤ max_range
    → AllFine last (collect groups.addr2group l r)
collect-AllFine last groups l r h lt le =
    let c =
      collect-Collected groups.addr2group l r h.spanned.shaped (rw h.spanned.at_left (omega arith))
        lt (rw h.spanned.at_right le) in
    segments-AllFine last groups (collect groups.addr2group l r) c.first c.last h c.tiled
      (omega (arith, c.within, h.spanned.at_right)) c.agreeing
      (collect-AllLeaves groups.addr2group l r)

fine_end :
    (last : ℕ) (type : SegmentType) (value right r : ℕ)
    → r ≤ max_range
    → FineAs last type value right
    → FineAs last type value r
fine_end last empty_segment value right r le h = le
fine_end last partial_segment value right r le h = h
fine_end last covered_segment value right r le h = h

clip_last-AllFine :
    (last r : ℕ) (ss : List (Segment ℕ))
    → r ≤ max_range
    → AllFine last ss
    → AllFine last (clip_last r ss)
unfolding AllFine
clip_last-AllFine last r [] le h = tt
clip_last-AllFine last r (s ∷ []) le (h, _) = (fine_end last s.type s.value s.right r le h, tt)
clip_last-AllFine last r (s ∷ t ∷ rest) le (h, hs) = (h, clip_last-AllFine last r (t ∷ rest) le hs)

clipped-AllFine :
    (last r l : ℕ) (ss : List (Segment ℕ))
    → r ≤ max_range
    → AllFine last ss
    → AllOf
        (AllFine last)
        (elim ss [ [] ↦ none | s ∷ rest ↦ some (clip_last r (record s { left = l } ∷ rest)) ])
clipped-AllFine last r l [] le h = nothing
clipped-AllFine last r l (s ∷ rest) le h =
    just (clip_last-AllFine last r (record s { left = l } ∷ rest) le (unfold AllFine in h))

pub record FineFound (last : ℕ) (found : Found) : Type 0 where
  pub ranges : AllRanges found.0
  pub given : AllGiven last found.1

sort_segments-FineFound :
    (last : ℕ) (ss : List (Segment ℕ)) (found : Found)
    → AllFine last ss
    → FineFound last found
    → FineFound last (sort_segments ss found)
unfolding sort_segments AllFine
sort_segments-FineFound last [] found h k = k
sort_segments-FineFound last (s ∷ ss) found (h, hs) k =
    sort_segments-FineFound last ss (sort_segment s.type s found) hs (one s.type h)
  where
    one :
        (type : SegmentType)
        → FineAs last type s.value s.right
        → FineFound last (sort_segment type s found)
    one empty_segment le = record {
      ranges = All-append (λ (range : ℕ × ℕ). range.1 ≤ max_range) found.0 _ (k.ranges) (le, tt);
      given = k.given;
    }
    one partial_segment le = absurd le
    one covered_segment le = record {
      ranges = k.ranges;
      given = AllGiven-insert last s.value found.1 k.given le;
    }

pub find_groups-FineFound :
    (last : ℕ) (groups : Groups) (l r : ℕ) (found : Found)
    → Consistent last groups
    → r ≤ max_range
    → FineFound last found
    → AllOf (FineFound last) (find_groups groups.addr2group l r found)
unfolding find_groups collect_clipped
find_groups-FineFound last groups l r found h le k = elim (Bool-cases (leb r l)) [
  | inl c ↦ rw (collect_clipped, collect-empty groups.addr2group l r (leb→le r l c)) nothing
  | inr c ↦
      AllOf->>=
        (clipped-AllFine last r l (collect groups.addr2group l r) le
          (collect-AllFine last groups l r h (leb→gt r l c) le))
        (λ ss fine. just (sort_segments-FineFound last ss found fine k))
]
