-- ===== src/MemoryGroups/Walk.antt =====
-- GroupMemory keeps the groups consistent from block to block.
use mathlib.Core.List.{reverse}
use slimmer.Base.{
  ℕ, zero, suc, ◌+◌, ◌-◌, ◌^◌, ◌%◌, ◌<◌, ◌≤◌, ◌≡◌, refl, sym, ◌∙◌, ap, Bool, true, false, not, ◌||◌,
  leb, ltb, ltb→lt, ltb→ge, ge→ltb, List, [], ◌∷◌, some, get_elem?, map_find, All, All-reverse,
  map_find-All, nat_order, nat_eq, AllOf, just, AllOf->>=, AllOf-after, AllOf-if, AllOf-with,
  AllOf-some, Option-cases, Bool-cases, inl, inr, arith,
}
use slimmer.SegmentTree.{SegmentTree, empty, covered, partial, get, max_range, new_tree, right_end}
use slimmer.SegmentTree.Midpoint.{midpoint}
use slimmer.SegmentTree.Shape.{IsShaped}
use slimmer.Program.{
  Program, SmallestBlock, SmallestBlockType, normal_block, memory_access_block, memset_block,
  memmove_block, external_call_block, impactful_call_block, declare_block, inst_info, inst_at,
}
use slimmer.Blocks.{IsValid, HasAddresses}
use slimmer.MemoryDependency.{Groups}
use slimmer.MemoryDependency.LastWriter.{IsWhole, IsGrouped}
use slimmer.MemoryGroups.Merging.{State, new_group}
use slimmer.MemoryGroups.Pass.{
  Found, find_source, group_access, group_declared, group_argument, group_arguments, call_arguments,
  is_call, group_inst, group_insts, group_block, group_blocks, start, group_memory,
}
use slimmer.MemoryGroups.Splitting.{has}
use slimmer.MemoryGroups.Consistent.{some_same, merge_groups-Sound, new_group-Merged}
use slimmer.MemoryGroups.Invariant.{Consistent, IsEntry, Sound, new_tree-IsWhole}
use slimmer.MemoryGroups.Labels.{merge_inst-Sound}
use slimmer.MemoryGroups.Filling.{fill-Sound}
use slimmer.MemoryGroups.Segments.{FineFound, find_groups-FineFound}

-- The types of blocks that carry a range of addresses.
abbrev has_range : SmallestBlockType → Bool
has_range memory_access_block = true
has_range memset_block = true
has_range memmove_block = true
has_range declare_block = true
has_range _ = false

end_bounded :
    (type : SmallestBlockType) (addr : List ℕ) (r : ℕ)
    → has_range type ≡ true
    → HasAddresses type addr
    → get_elem? addr 1 ≡ some r
    → r ≤ max_range
end_bounded memory_access_block (l ∷ r' ∷ []) r c h e = omega (arith, h, some_same r' r e)
end_bounded memset_block (l ∷ r' ∷ []) r c h e = omega (arith, h, some_same r' r e)
end_bounded memmove_block (l ∷ r' ∷ from ∷ to ∷ []) r c h e = omega (arith, h.0, some_same r' r e)
end_bounded declare_block (l ∷ r' ∷ []) r c h e = omega (arith, h, some_same r' r e)
end_bounded normal_block addr r c h e = cc
end_bounded external_call_block addr r c h e = cc
end_bounded impactful_call_block addr r c h e = cc
end_bounded memory_access_block [] r c h e = cc
end_bounded memory_access_block (l ∷ []) r c h e = cc
end_bounded memory_access_block (l ∷ r' ∷ x ∷ xs) r c h e = absurd h
end_bounded memset_block [] r c h e = cc
end_bounded memset_block (l ∷ []) r c h e = cc
end_bounded memset_block (l ∷ r' ∷ x ∷ xs) r c h e = absurd h
end_bounded memmove_block [] r c h e = cc
end_bounded memmove_block (l ∷ []) r c h e = cc
end_bounded memmove_block (l ∷ r' ∷ []) r c h e = absurd h
end_bounded memmove_block (l ∷ r' ∷ x ∷ []) r c h e = absurd h
end_bounded memmove_block (l ∷ r' ∷ x ∷ y ∷ z ∷ zs) r c h e = absurd h
end_bounded declare_block [] r c h e = cc
end_bounded declare_block (l ∷ []) r c h e = cc
end_bounded declare_block (l ∷ r' ∷ x ∷ xs) r c h e = absurd h

source_bounded :
    (addr : List ℕ) (to : ℕ)
    → HasAddresses memmove_block addr
    → get_elem? addr 3 ≡ some to
    → to ≤ max_range
source_bounded (l ∷ r ∷ from ∷ to' ∷ []) to h e = omega (arith, h.1, some_same to' to e)
source_bounded [] to h e = cc
source_bounded (l ∷ []) to h e = cc
source_bounded (l ∷ r ∷ []) to h e = cc
source_bounded (l ∷ r ∷ x ∷ []) to h e = cc
source_bounded (l ∷ r ∷ x ∷ y ∷ z ∷ zs) to h e = absurd h

find_source-FineFound :
    (last : ℕ) (groups : Groups) (type : SmallestBlockType) (addr : List ℕ) (found : Found)
    → Consistent last groups
    → HasAddresses type addr
    → FineFound last found
    → AllOf (FineFound last) (find_source type groups.addr2group addr found)
find_source-FineFound last groups memmove_block addr found h a k =
    AllOf-after (get_elem? addr 2) (λ from.
      AllOf-with (get_elem? addr 3)
        (λ to e. find_groups-FineFound last groups from to found h (source_bounded addr to a e) k))
find_source-FineFound last groups memory_access_block addr found h a k = just k
find_source-FineFound last groups memset_block addr found h a k = just k
find_source-FineFound last groups external_call_block addr found h a k = just k
find_source-FineFound last groups impactful_call_block addr found h a k = just k
find_source-FineFound last groups normal_block addr found h a k = just k
find_source-FineFound last groups declare_block addr found h a k = just k

nothing_found : (last : ℕ) → FineFound last ([], [])
nothing_found last = record { ranges = tt; given = tt }

group_access-Sound :
    (p : Program) (b : SmallestBlock) (s : State)
    → has_range b.type ≡ true
    → HasAddresses b.type b.addr
    → Sound s
    → AllOf Sound (group_access p b s)
unfolding group_access
group_access-Sound p b s c a h = AllOf-after (get_elem? b.addr 0) (λ l.
    AllOf-with (get_elem? b.addr 1) (λ r e. AllOf-if (leb r l) (just h) (
      AllOf-after (inst_at p b.bbid b.start) (λ id.
        AllOf->>=
          (find_groups-FineFound s.max_group_id s.groups l r ([], []) h.consistent
            (end_bounded b.type b.addr r c a e) (nothing_found s.max_group_id))
          (λ first k.
            AllOf->>=
              (find_source-FineFound s.max_group_id s.groups b.type b.addr first h.consistent a k)
              (λ found k'.
                AllOf->>= (merge_inst-Sound p found.1 (b.tid, id) b s h k'.given)
                  (λ merged m. fill-Sound merged.0 found.0 merged.1 k'.ranges m)))))))

group_declared-Sound :
    (b : SmallestBlock) (s : State)
    → has_range b.type ≡ true
    → HasAddresses b.type b.addr
    → Sound s
    → AllOf Sound (group_declared b s)
unfolding group_declared
group_declared-Sound b s c a h = AllOf-after (get_elem? b.addr 0) (λ l.
    AllOf-with (get_elem? b.addr 1) (λ r e.
      AllOf->>=
        (find_groups-FineFound s.max_group_id s.groups l r ([], []) h.consistent
          (end_bounded b.type b.addr r c a e) (nothing_found s.max_group_id))
        (λ found k.
          AllOf->>= (merge_groups-Sound found.1 s h k.given)
            (λ merged m. fill-Sound merged.0 found.0 merged.1 k.ranges m.sound))))

group_argument-Sound : (a : ℕ) (s : State) → Sound s → AllOf Sound (group_argument a s)
unfolding group_argument
group_argument-Sound a s h = elim (Option-cases (get s.groups.addr2group a)) [
  | inl e ↦
      let m = new_group-Merged s h in
      rw (group_argument, e)
        (fill-Sound (new_group s).0 ((a, (a + 1) % 2 ^ 64) ∷ []) (new_group s).1 ((omega arith, tt))
          m.sound)
  | inr (g, e) ↦ rw (group_argument, e) (just h)
]

group_arguments-Sound : (addr : List ℕ) (s : State) → Sound s → AllOf Sound (group_arguments addr s)
unfolding group_arguments
group_arguments-Sound [] s h = just h
group_arguments-Sound (a ∷ rest) s h =
    AllOf->>= (group_argument-Sound a s h) (λ s' h'. group_arguments-Sound rest s' h')

group_insts-Sound :
    (p : Program) (b : SmallestBlock) (n : ℕ) (s : State)
    → Sound s
    → AllOf Sound (group_insts p b n s)
unfolding group_insts group_inst
group_insts-Sound p b zero s h = just h
group_insts-Sound p b (suc n) s h =
    AllOf->>= {P = Sound}
      (AllOf-after (inst_at p b.bbid (b.start + n)) (λ id. AllOf-after (inst_info p id) (λ info.
        AllOf-if (not info.is_pointer || is_call info.type) (just h)
          (AllOf->>= (merge_inst-Sound p [] (b.tid, id) b s h tt) (λ merged m. just m)))))
      (λ s' h'. group_insts-Sound p b n s' h')

group_block-Sound :
    (p : Program) (b : SmallestBlock) (type : SmallestBlockType) (s : State)
    → b.type ≡ type
    → HasAddresses b.type b.addr
    → Sound s
    → AllOf Sound (group_block p b type s)
unfolding group_block
group_block-Sound p b declare_block s e a h = group_declared-Sound b s (ap has_range e) a h
group_block-Sound p b external_call_block s e a h =
    group_arguments-Sound (call_arguments b.addr) s h
group_block-Sound p b impactful_call_block s e a h =
    group_arguments-Sound (call_arguments b.addr) s h
group_block-Sound p b normal_block s e a h = group_insts-Sound p b (b.end - b.start) s h
group_block-Sound p b memory_access_block s e a h = group_access-Sound p b s (ap has_range e) a h
group_block-Sound p b memset_block s e a h = group_access-Sound p b s (ap has_range e) a h
group_block-Sound p b memmove_block s e a h = group_access-Sound p b s (ap has_range e) a h

group_blocks-Sound :
    (p : Program) (bs : List SmallestBlock) (s : State)
    → All (IsValid p) bs
    → Sound s
    → AllOf Sound (group_blocks p bs s)
unfolding group_blocks
group_blocks-Sound p [] s v h = just h
group_blocks-Sound p (b ∷ bs) s (v, vs) h =
    AllOf->>= (group_block-Sound p b b.type s refl v.1 h)
      (λ s' h'. group_blocks-Sound p bs s' vs h')

start-Sound : Sound start
start-Sound = record {
  consistent = record {
    spanned = new_tree-IsWhole;
    entries = tt;
    held = λ x g m e. unfold new_tree get in cc;
  };
  labels = tt;
}

-- The trees span all addresses, and every address that has a group is in the tree of that group.
pub record AreViews (groups : Groups) : Type 0 where
  pub spanned : IsWhole groups.addr2group
  pub held :
      (x g : ℕ)
      → x < max_range
      → get groups.addr2group x ≡ some g
      → (t : SegmentTree ℕ) × (map_find groups.group2addr g ≡ some t) × IsWhole t × (has t x ≡ true)

Consistent-AreViews : (last : ℕ) (groups : Groups) → Consistent last groups → AreViews groups
Consistent-AreViews last groups c = record {
  spanned = c.spanned;
  held = λ x g m e.
      let (t, f, h) = c.held x g m e in
      (t, f, (map_find-All (IsEntry last) groups.group2addr g c.entries f).1, h);
}

-- Where the memory of a valid trace is grouped to the end, the trees span all addresses, and every
-- address that has a group is in the tree of that group.
pub group_memory-AreViews :
    (p : Program) (blocks : List SmallestBlock) (groups : Groups)
    → All (IsValid p) blocks
    → group_memory p blocks ≡ some groups
    → AreViews groups
group_memory-AreViews p blocks groups v = AllOf-some found
  where
    found : AllOf AreViews (group_memory p blocks)
    found =
        unfold group_memory in
        AllOf->>=
          (group_blocks-Sound p (reverse blocks) start (All-reverse (IsValid p) blocks v)
            start-Sound)
          (λ s h. just (Consistent-AreViews s.max_group_id s.groups h.consistent))

-- Beyond the last address Get finds what it finds there.
get_beyond :
    (t : SegmentTree ℕ) (x : ℕ) → IsShaped t → right_end t ≤ x → get t x ≡ get t (right_end t - 1)
unfolding get
get_beyond (empty v l r) x h le = refl
get_beyond (covered v l r) x h le = refl
get_beyond (partial v l r a b) x (lo, hi, _, _, _, at, _, sb) le =
    let later : ltb x (midpoint l r) ≡ false = ge→ltb x (midpoint l r) (omega arith) in
    let last : ltb (r - 1) (midpoint l r) ≡ false = ge→ltb (r - 1) (midpoint l r) (omega arith) in
    rw (later, last) (get_beyond b x sb (omega (arith, at)) ∙ ap (λ (n : ℕ). get b (n - 1)) at)

pub AreViews-IsGrouped : (groups : Groups) → AreViews groups → IsGrouped groups
AreViews-IsGrouped groups h = record {
  spanned = h.spanned;
  listed = λ a g e. elim (Bool-cases (ltb a max_range)) [
    | inl c ↦ let (t, f, w, _) = h.held a g (ltb→lt a max_range c) e in (t, f, w)
    | inr c ↦
        let beyond : right_end groups.addr2group ≤ a =
          rw h.spanned.at_right (ltb→ge a max_range c) in
        let same : get groups.addr2group a ≡ get groups.addr2group (max_range - 1) =
          get_beyond groups.addr2group a h.spanned.shaped beyond
          ∙ ap (λ (n : ℕ). get groups.addr2group (n - 1)) h.spanned.at_right in
        let (t, f, w, _) = h.held (max_range - 1) g (omega arith) (sym same ∙ e) in (t, f, w)
  ];
}
