-- ===== src/MemoryGroups/Invariant.antt =====
-- What holds of the groups between the steps of GroupMemory, and that a new group keeps it.
use slimmer.Base.{
  ℕ, suc, ◌<◌, ◌≤◌, ◌≡◌, refl, ◌∙◌, ap, Bool, true, false, ◌||◌, List, [], ◌∷◌, some, All, map_find,
  map_set, equiv, equiv_iff, map_find-set, All-map_set, map_find-All, nat_order, pair_order, nat_eq,
  Option-cases, Bool-cases, inl, inr, arith,
}
use slimmer.SegmentTree.{SegmentTree, get, new_tree, max_range}
use slimmer.MemoryDependency.{Groups}
use slimmer.MemoryDependency.LastWriter.{IsWhole}
use slimmer.MemoryGroups.Merging.{State, new_group, trees_of}
use slimmer.MemoryGroups.Splitting.{has, any_has, AllSpan}

-- A group's entry: its tree spans all addresses, and its number has been given out.
abbrev pub IsEntry : ℕ → ℕ × SegmentTree ℕ → Type 0
IsEntry last entry = (entry.0 ≤ last) × IsWhole entry.1

-- The tree of group `g` holds the address `x`.
abbrev pub HoldsIn : List (ℕ × SegmentTree ℕ) → ℕ → ℕ → Type 0
HoldsIn group2addr g x = (t : SegmentTree ℕ) × (map_find group2addr g ≡ some t) × (has t x ≡ true)

pub record Consistent (last : ℕ) (groups : Groups) : Type 0 where
  pub spanned : IsWhole groups.addr2group
  pub entries : All (IsEntry last) groups.group2addr
  pub held :
      (x g : ℕ) → x < max_range → get groups.addr2group x ≡ some g → HoldsIn groups.group2addr g x

-- The labels of the variables are groups that have been given out.
abbrev pub IsLabel : ℕ → (ℕ × ℕ) × ℕ → Type 0
IsLabel last entry = entry.1 ≤ last

pub record Sound (s : State) : Type 0 where
  pub consistent : Consistent s.max_group_id s.groups
  pub labels : All (IsLabel s.max_group_id) s.ins2group

pub false≢true : false ≡ true → ⊥
false≢true e = cc

pub new_tree-IsWhole : IsWhole {A = ℕ} (new_tree 0)
unfolding new_tree
new_tree-IsWhole = record { at_left = refl; at_right = refl; shaped = omega arith }

All-weaken :
    (m : List (ℕ × SegmentTree ℕ)) (n k : ℕ) → n ≤ k → All (IsEntry n) m → All (IsEntry k) m
All-weaken [] n k le h = tt
All-weaken (e ∷ m) n k le (h, hs) = ((omega (arith, h.0), h.1), All-weaken m n k le hs)

labels-weaken : (m : List ((ℕ × ℕ) × ℕ)) (n k : ℕ) → n ≤ k → All (IsLabel n) m → All (IsLabel k) m
labels-weaken [] n k le h = tt
labels-weaken (e ∷ m) n k le (h, hs) = (omega arith, labels-weaken m n k le hs)

-- The entry of one group is set: the others' addresses stay held.
pub HoldsIn-set :
    (m : List (ℕ × SegmentTree ℕ)) (k : ℕ) (t : SegmentTree ℕ) (g x : ℕ)
    → (k ≡ g → has t x ≡ true)
    → (equiv k g ≡ false → HoldsIn m g x)
    → HoldsIn (map_set m k t) g x
HoldsIn-set m k t g x own other = elim (Bool-cases (equiv k g)) [
  | inl c ↦ (t, map_find-set m k g t ∙ rw c refl, own ((equiv_iff k g).0 c))
  | inr c ↦ let (u, e, h) = other c in (u, map_find-set m k g t ∙ rw c e, h)
]

differ : (k g : ℕ) → g < k → equiv k g ≡ true → ⊥
differ k g lt c = let same : k ≡ g = (equiv_iff k g).0 c in omega arith

pub new_group-Sound : (s : State) → Sound s → Sound (new_group s).1
unfolding new_group
new_group-Sound s h = record {
  consistent = record {
    spanned = h.consistent.spanned;
    entries =
        All-map_set (IsEntry (suc s.max_group_id)) s.groups.group2addr (suc s.max_group_id)
          (new_tree 0)
          (All-weaken s.groups.group2addr s.max_group_id (suc s.max_group_id) (omega arith)
            h.consistent.entries)
          (omega arith, new_tree-IsWhole);
    held = λ x g m e.
        let (t, f, k) = h.consistent.held x g m e in
        let given : g ≤ s.max_group_id =
          (map_find-All (IsEntry s.max_group_id) s.groups.group2addr g h.consistent.entries f).0 in
        HoldsIn-set s.groups.group2addr (suc s.max_group_id) (new_tree 0) g x
          (λ same. absurd (omega (arith, given, same))) (λ c. (t, f, k));
  };
  labels = labels-weaken s.ins2group s.max_group_id (suc s.max_group_id) (omega arith) h.labels;
}

pub trees_of-AllSpan :
    (m : List (ℕ × SegmentTree ℕ)) (is : List ℕ) (last : ℕ)
    → All (IsEntry last) m
    → AllSpan 0 max_range (trees_of m is)
trees_of-AllSpan m [] last h = tt
trees_of-AllSpan m (i ∷ is) last h = elim (Option-cases (map_find m i)) [
  | inl e ↦ rw (trees_of, e) (trees_of-AllSpan m is last h)
  | inr (t, e) ↦
      rw (trees_of, e) ((map_find-All (IsEntry last) m i h e).1, trees_of-AllSpan m is last h)
]

-- A group among those that are merged.
abbrev pub is_among : List ℕ → ℕ → Bool
is_among [] g = false
is_among (i ∷ is) g = equiv i g || is_among is g

pub or_right : (a b : Bool) → b ≡ true → (a || b) ≡ true
or_right a b h = ground arith

pub trees_of-has :
    (m : List (ℕ × SegmentTree ℕ)) (is : List ℕ) (g x : ℕ)
    → is_among is g ≡ true
    → HoldsIn m g x
    → any_has (trees_of m is) x ≡ true
trees_of-has m [] g x c h = cc
trees_of-has m (i ∷ is) g x c (t, e, k) = elim (Bool-cases (equiv i g)) [
  | inl d ↦
      let found : map_find m i ≡ some t = ap (map_find m) ((equiv_iff i g).0 d) ∙ e in
      rw (trees_of, found) (rw k refl)
  | inr d ↦
      let later = trees_of-has m is g x (rw d at c) (t, e, k) in
      elim (Option-cases (map_find m i)) [
        | inl f ↦ rw (trees_of, f) later
        | inr (u, f) ↦ rw (trees_of, f) (or_right (has u x) _ later)
      ]
]
