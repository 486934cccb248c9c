-- ===== src/MemoryGroups/Merging.antt =====
-- The globals of GroupMemory.cpp, and Merging on a set of groups.
use slimmer.Base.{
  ℕ, suc, ◌==◌, List, [], ◌∷◌, Option, none, some, ◌>>=◌, if◌then◌else◌, map_find, map_at, map_set,
  map_erase, set_insert_all, nat_order, pair_order,
}
use slimmer.SegmentTree.{SegmentTree, new_tree}
use slimmer.MemoryDependency.{Groups}
use slimmer.MemoryGroups.Trees.{merge_trees, width}

-- MaxGroupID, Ins2Group, Group2Ins, Addr2Group with Group2Addr, and the local labeled_args.
pub record State : Type 0 where
  pub max_group_id : ℕ
  pub ins2group : List ((ℕ × ℕ) × ℕ)
  pub group2ins : List (ℕ × List (ℕ × ℕ))
  pub groups : Groups
  pub labeled_args : List (ℕ × List ℕ)

-- ++MaxGroupID with a new tree.
unfoldable pub new_group : State → ℕ × State
new_group s = (
  suc s.max_group_id,
  record s {
    max_group_id = suc s.max_group_id;
    groups = record s.groups {
      group2addr = map_set s.groups.group2addr (suc s.max_group_id) (new_tree 0);
    };
  },
)

abbrev pub trees_of : List (ℕ × SegmentTree ℕ) → List ℕ → List (SegmentTree ℕ)
trees_of group2addr [] = []
trees_of group2addr (i ∷ is) = elim (map_find group2addr i) [
  | none ↦ trees_of group2addr is
  | some t ↦ t ∷ trees_of group2addr is
]

-- Group2Addr[new_group] = Merging(trees, new_group, Addr2Group)
unfoldable pub merge_addrs : ℕ → List ℕ → Groups → Option Groups
merge_addrs new is g = do
  let trees = trees_of g.group2addr is
  merged ← merge_trees (suc (width trees)) trees new g.addr2group
  some (record { addr2group = merged.1; group2addr = map_set g.group2addr new merged.0 })

abbrev pub relabel : ℕ → List (ℕ × ℕ) → List ((ℕ × ℕ) × ℕ) → List ((ℕ × ℕ) × ℕ)
relabel new [] ins2group = ins2group
relabel new (ins ∷ inss) ins2group = relabel new inss (map_set ins2group ins new)

-- One group goes over into another.
unfoldable pub absorb : ℕ → ℕ → State → State
absorb new i s =
    let inss = map_at [] s.group2ins i in
    record s {
      ins2group = relabel new inss s.ins2group;
      group2ins =
          map_erase (map_set s.group2ins new (set_insert_all (map_at [] s.group2ins new) inss)) i;
      groups = record s.groups { group2addr = map_erase s.groups.group2addr i };
    }

unfoldable pub absorb_all : ℕ → List ℕ → State → State
absorb_all new [] s = s
absorb_all new (i ∷ is) s = absorb_all new is (if i == new then s else absorb new i s)

-- Merging on a set of groups: its first element takes the others in.
unfoldable pub merge_groups : List ℕ → State → Option (ℕ × State)
merge_groups [] s = some (new_group s)
merge_groups (g ∷ []) s = some (g, s)
merge_groups (g ∷ h ∷ rest) s = merge_addrs g (g ∷ h ∷ rest) s.groups >>= λ groups.
    some (g, absorb_all g (g ∷ h ∷ rest) (record s { groups = groups }))
