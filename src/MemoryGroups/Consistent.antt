-- ===== src/MemoryGroups/Consistent.antt =====
-- Addr2Group and Group2Addr stay views of one another: every address of a group is in the group's
-- tree, whatever groups are made, merged or filled.
use slimmer.Base.{
  ℕ, suc, ◌<◌, ◌≤◌, ◌≡◌, refl, sym, ◌∙◌, ap, true, false, ◌==◌, List, [], ◌∷◌, some, ◌>>=◌,
  if◌then◌else◌, All, map_at, map_set, equiv, equiv_iff, map_find-erase, All-map_set, All-map_erase,
  nat_order, pair_order, nat_eq, AllOf, just, nothing, AllOf->>=, Bool-cases, inl, inr, arith,
}
use slimmer.SegmentTree.{SegmentTree, get, max_range}
use slimmer.SegmentTree.Range.{in_range}
use slimmer.MemoryDependency.{Groups}
use slimmer.MemoryGroups.Trees.{split_trees, merge_trees, width}
use slimmer.MemoryGroups.Merging.{
  State, new_group, trees_of, merge_addrs, relabel, absorb, absorb_all, merge_groups,
}
use slimmer.MemoryGroups.Union.{Merges, merge_trees-Merges}
use slimmer.MemoryGroups.Splitting.{any_has, AllSpan}
use slimmer.MemoryGroups.Invariant.{
  IsEntry, HoldsIn, Consistent, IsLabel, Sound, false≢true, HoldsIn-set, new_group-Sound,
  trees_of-AllSpan, is_among, or_right, trees_of-has,
}

-- No address is of a group among `is` but `new`.
abbrev Cleared : ℕ → List ℕ → Groups → Type 0
Cleared new is groups =
    (x k : ℕ)
    → x < max_range
    → get groups.addr2group x ≡ some k
    → is_among is k ≡ true
    → equiv new k ≡ false
    → ⊥

pub some_same : (a b : ℕ) → some a ≡ some b → a ≡ b
some_same a b e = cc

all_addresses : (x : ℕ) → x < max_range → in_range 0 max_range x ≡ true
all_addresses x m = ground arith

self_equiv : (a b : ℕ) → a ≡ b → equiv a b ≡ true
self_equiv a b e = (equiv_iff a b).1 e

merged_Consistent :
    (new last : ℕ) (is : List ℕ) (g : Groups) (trees : List (SegmentTree ℕ)) (t a : SegmentTree ℕ)
    → Consistent last g
    → new ≤ last
    → is_among is new ≡ true
    → ((k x : ℕ) → is_among is k ≡ true → HoldsIn g.group2addr k x → any_has trees x ≡ true)
    → Merges 0 max_range new trees g.addr2group t a
    → (let g' : Groups = record { addr2group = a; group2addr = map_set g.group2addr new t } in
        Consistent last g' × Cleared new is g')
merged_Consistent new last is g trees t a h le among all w = (
  record {
    spanned = w.kept;
    entries = All-map_set (IsEntry last) g.group2addr new t h.entries (le, w.spanned);
    held = held;
  },
  cleared,
)
  where
    at :
        (x k : ℕ)
        → x < max_range
        → get a x ≡ some k
        → (if any_has trees x then some new else get g.addr2group x) ≡ some k
    at x k m e = sym (w.regrouped x m ∙ rw (all_addresses x m) refl) ∙ e

    held : (x k : ℕ) → x < max_range → get a x ≡ some k → HoldsIn (map_set g.group2addr new t) k x
    held x k m e = elim (Bool-cases (any_has trees x)) [
      | inl c ↦
          let same : new ≡ k = some_same new k (rw c at (at x k m e)) in
          HoldsIn-set g.group2addr new t k x (λ _. w.members x (all_addresses x m) ∙ c)
            (λ d. absurd (false≢true (sym d ∙ self_equiv new k same)))
      | inr c ↦
          let holds = h.held x k m (rw c at (at x k m e)) in
          HoldsIn-set g.group2addr new t k x
            (λ same.
              absurd (false≢true (sym c ∙ all k x (ap (is_among is) (sym same) ∙ among) holds)))
            (λ d. holds)
    ]

    cleared : Cleared new is (record { addr2group = a; group2addr = map_set g.group2addr new t })
    cleared x k m e c d = elim (Bool-cases (any_has trees x)) [
      | inl b ↦ false≢true (sym d ∙ self_equiv new k (some_same new k (rw b at (at x k m e))))
      | inr b ↦ false≢true (sym b ∙ all k x c (h.held x k m (rw b at (at x k m e))))
    ]

merge_addrs-Consistent :
    (new last : ℕ) (is : List ℕ) (g : Groups)
    → Consistent last g
    → new ≤ last
    → is_among is new ≡ true
    → AllOf (λ g'. Consistent last g' × Cleared new is g') (merge_addrs new is g)
unfolding merge_addrs
merge_addrs-Consistent new last is g h le among =
    merged (trees_of g.group2addr is) (trees_of-AllSpan g.group2addr is last h.entries)
      (λ k x c holds. trees_of-has g.group2addr is k x c holds)
  where
    merged :
        (trees : List (SegmentTree ℕ))
        → AllSpan 0 max_range trees
        → ((k x : ℕ) → is_among is k ≡ true → HoldsIn g.group2addr k x → any_has trees x ≡ true)
        → AllOf
            (λ g'. Consistent last g' × Cleared new is g')
            (merge_trees (suc (width trees)) trees new g.addr2group >>= λ r.
              some (record { addr2group = r.1; group2addr = map_set g.group2addr new r.0 }))
    merged [] w all = unfold merge_trees split_trees in nothing
    merged (t ∷ ts) (s, w) all =
        let (u, a, e, m) =
          merge_trees-Merges (suc (width (t ∷ ts))) 0 max_range new (t ∷ ts) g.addr2group
            (omega arith) (s, w) h.spanned (omega arith) (omega arith)
            (omega (arith, s.at_left, s.at_right)) in
        rw e (just (merged_Consistent new last is g (t ∷ ts) u a h le among all m))

relabel-labels :
    (new last : ℕ) (inss : List (ℕ × ℕ)) (m : List ((ℕ × ℕ) × ℕ))
    → new ≤ last
    → All (IsLabel last) m
    → All (IsLabel last) (relabel new inss m)
relabel-labels new last [] m le h = h
relabel-labels new last (ins ∷ inss) m le h =
    relabel-labels new last inss (map_set m ins new) le (All-map_set (IsLabel last) m ins new h le)

equiv_test : (i new : ℕ) → (i == new) ≡ false → equiv new i ≡ false
equiv_test i new h = ground arith

absorb-Sound :
    (new i : ℕ) (s : State)
    → Sound s
    → new ≤ s.max_group_id
    → ((x : ℕ) → x < max_range → get s.groups.addr2group x ≡ some i → ⊥)
    → Sound (absorb new i s)
unfolding absorb
absorb-Sound new i s h le clear = record {
  consistent = record {
    spanned = h.consistent.spanned;
    entries = All-map_erase (IsEntry s.max_group_id) s.groups.group2addr i h.consistent.entries;
    held = λ x k m e.
        let (t, f, c) = h.consistent.held x k m e in
        (t, map_find-erase s.groups.group2addr i k (apart x k m e) ∙ f, c);
  };
  labels = relabel-labels new s.max_group_id (map_at [] s.group2ins i) s.ins2group le h.labels;
}
  where
    apart : (x k : ℕ) → x < max_range → get s.groups.addr2group x ≡ some k → equiv i k ≡ false
    apart x k m e = elim (Bool-cases (equiv i k)) [
      | inl c ↦ absurd (clear x m (e ∙ ap some (sym ((equiv_iff i k).0 c))))
      | inr c ↦ c
    ]

among_first : (i : ℕ) (is : List ℕ) → is_among (i ∷ is) i ≡ true
among_first i is = rw (self_equiv i i refl) refl

-- One round of the loop over the groups.
record Absorbed (s t : State) : Type 0 where
  sound : Sound t
  same_max : t.max_group_id ≡ s.max_group_id
  same_addrs : t.groups.addr2group ≡ s.groups.addr2group

absorb_one :
    (new i : ℕ) (s : State)
    → Sound s
    → new ≤ s.max_group_id
    → ((x : ℕ) → x < max_range → get s.groups.addr2group x ≡ some i → equiv new i ≡ false → ⊥)
    → Absorbed s (if i == new then s else absorb new i s)
absorb_one new i s h le clear = elim (Bool-cases (i == new)) [
  | inl c ↦ rw c (record { sound = h; same_max = refl; same_addrs = refl })
  | inr c ↦ rw c (record {
    sound = absorb-Sound new i s h le (λ x m e. clear x m e (equiv_test i new c));
    same_max = unfold absorb in refl;
    same_addrs = unfold absorb in refl;
  })
]

absorb_all-Sound :
    (new : ℕ) (is : List ℕ) (s : State)
    → Sound s
    → new ≤ s.max_group_id
    → Cleared new is s.groups
    → Sound (absorb_all new is s) × ((absorb_all new is s).max_group_id ≡ s.max_group_id)
unfolding absorb_all
absorb_all-Sound new [] s h le clear = (h, refl)
absorb_all-Sound new (i ∷ is) s h le clear =
    let one = absorb_one new i s h le (λ x m e d. clear x i m e (among_first i is) d) in
    let (sound, same) =
      absorb_all-Sound new is _ one.sound (omega (arith, one.same_max)) (λ x k m e a.
        clear x k m (ap (λ (t : SegmentTree ℕ). get t x) (sym one.same_addrs) ∙ e)
          (or_right (equiv i k) (is_among is k) a)) in
    (sound, same ∙ one.same_max)

-- The groups of a set have been given out.
abbrev pub AllGiven : ℕ → List ℕ → Type 0
AllGiven last is = All (λ i. i ≤ last) is

pub record Merged (s : State) (r : ℕ × State) : Type 0 where
  pub sound : Sound r.1
  pub given : r.0 ≤ r.1.max_group_id
  pub grown : s.max_group_id ≤ r.1.max_group_id

pub new_group-Merged : (s : State) → Sound s → Merged s (new_group s)
unfolding new_group
new_group-Merged s h = record {
  sound = new_group-Sound s h;
  given = omega arith;
  grown = omega arith;
}

alone : (g : ℕ) (s : State) → Sound s → g ≤ s.max_group_id → Merged s (g, s)
alone g s h le = record { sound = h; given = le; grown = omega arith }

absorb_all-Merged :
    (g : ℕ) (is : List ℕ) (s : State) (groups : Groups)
    → Consistent s.max_group_id groups
    → All (IsLabel s.max_group_id) s.ins2group
    → g ≤ s.max_group_id
    → Cleared g is groups
    → Merged s (g, absorb_all g is (record s { groups = groups }))
absorb_all-Merged g is s groups c labels le clear =
    let t : State = record s { groups = groups } in
    let (sound, same) =
      absorb_all-Sound g is t (record { consistent = c; labels = labels }) le clear in
    record { sound = sound; given = omega (arith, le, same); grown = omega (arith, same) }

pub merge_groups-Sound :
    (is : List ℕ) (s : State)
    → Sound s
    → AllGiven s.max_group_id is
    → AllOf (Merged s) (merge_groups is s)
unfolding merge_groups
merge_groups-Sound [] s h le = just (new_group-Merged s h)
merge_groups-Sound (g ∷ []) s h le = just (alone g s h le.0)
merge_groups-Sound (g ∷ k ∷ rest) s h le =
    AllOf->>=
      (merge_addrs-Consistent g s.max_group_id (g ∷ k ∷ rest) s.groups h.consistent le.0
        (among_first g (k ∷ rest)))
      (λ groups (c, clear).
        just (absorb_all-Merged g (g ∷ k ∷ rest) s groups c h.labels le.0 clear))
