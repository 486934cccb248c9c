-- ===== src/MemoryGroups/Pass.antt =====
-- GroupMemory: the walk over the block trace, the last block first.
use mathlib.Core.List.{reverse}
use slimmer.Base.{
  ℕ, zero, suc, ◌+◌, ◌-◌, ◌^◌, ◌%◌, Bool, true, false, not, ◌||◌, leb, List, [], ◌∷◌, ◌++◌, Option,
  none, some, ◌>>=◌, if◌then◌else◌, get_elem?, map_find, map_set, set_insert, nat_order, nat_eq,
}
use slimmer.SegmentTree.{
  SegmentTree, Segment, SegmentType, empty_segment, get, set, collect, new_tree,
}
use slimmer.Program.{
  Program, InstType, call_inst, SmallestBlock, SmallestBlockType, normal_block, memmove_block,
  external_call_block, impactful_call_block, declare_block, inst_info, inst_at,
}
use slimmer.MemoryDependency.{Groups}
use slimmer.MemoryGroups.Merging.{State, new_group, merge_groups}
use slimmer.MemoryGroups.Insts.{merge_inst}

-- segments[segments.size() - 1].right = r
abbrev pub clip_last : ℕ → List (Segment ℕ) → List (Segment ℕ)
clip_last r [] = []
clip_last r (s ∷ []) = record s { right = r } ∷ []
clip_last r (s ∷ t ∷ rest) = s ∷ clip_last r (t ∷ rest)

-- Collect of GroupMemory.cpp: clipped at both ends. An empty range has no segment to clip.
unfoldable pub collect_clipped : SegmentTree ℕ → ℕ → ℕ → Option (List (Segment ℕ))
collect_clipped addr_group l r = elim (collect addr_group l r) [
  | [] ↦ none
  | s ∷ rest ↦ some (clip_last r (record s { left = l } ∷ rest))
]

-- `ranges` and `shoud_merge`.
abbrev pub Found : Type 0
Found = List (ℕ × ℕ) × List ℕ

abbrev pub sort_segment : SegmentType → Segment ℕ → Found → Found
sort_segment empty_segment s (ranges, shoud_merge) = (ranges ++ (s.left, s.right) ∷ [], shoud_merge)
sort_segment _ s (ranges, shoud_merge) = (ranges, set_insert shoud_merge s.value)

unfoldable pub sort_segments : List (Segment ℕ) → Found → Found
sort_segments [] found = found
sort_segments (s ∷ rest) found = sort_segments rest (sort_segment s.type s found)

unfoldable pub find_groups : SegmentTree ℕ → ℕ → ℕ → Found → Option Found
find_groups addr_group l r found = do
  segments ← collect_clipped addr_group l r
  some (sort_segments segments found)

-- Group2Addr[g]->Set(l, r, 1) and Addr2Group->Set(l, r, g). A group that is not there is a null
-- pointer.
unfoldable pub fill_range : ℕ → ℕ → ℕ → Groups → Option Groups
fill_range g l r groups = do
  tree ← map_find groups.group2addr g
  some (record {
    addr2group = set groups.addr2group l r g;
    group2addr = map_set groups.group2addr g (set tree l r 1);
  })

unfoldable pub fill_ranges : ℕ → List (ℕ × ℕ) → Groups → Option Groups
fill_ranges g [] groups = some groups
fill_ranges g ((l, r) ∷ ranges) groups =
    fill_range g l r groups >>= λ groups'. fill_ranges g ranges groups'

unfoldable pub fill : ℕ → List (ℕ × ℕ) → State → Option State
fill g ranges s = do groups ← fill_ranges g ranges s.groups; some (record s { groups = groups })

-- The second range of a memmove.
abbrev pub find_source : SmallestBlockType → SegmentTree ℕ → List ℕ → Found → Option Found
find_source memmove_block addr_group addr found = do
  from ← get_elem? addr 2
  to ← get_elem? addr 3
  find_groups addr_group from to found
find_source _ addr_group addr found = some found

unfoldable pub group_access : Program → SmallestBlock → State → Option State
group_access p b s = do
  l ← get_elem? b.addr 0
  r ← get_elem? b.addr 1
  if leb r l
      then some s
      else (inst_at p b.bbid b.start >>= λ id.
          find_groups s.groups.addr2group l r ([], []) >>= λ first.
          find_source b.type s.groups.addr2group b.addr first >>= λ found.
          merge_inst p found.1 (b.tid, id) b s >>= λ merged. fill merged.0 found.0 merged.1)

unfoldable pub group_declared : SmallestBlock → State → Option State
group_declared b s = do
  l ← get_elem? b.addr 0
  r ← get_elem? b.addr 1
  found ← find_groups s.groups.addr2group l r ([], [])
  merged ← merge_groups found.1 s
  fill merged.0 found.0 merged.1

-- A pointer argument that is in no group gets its own.
unfoldable pub group_argument : ℕ → State → Option State
group_argument a s = elim (get s.groups.addr2group a) [
  | some g ↦ some s
  | none ↦ let added = new_group s in fill added.0 ((a, (a + 1) % 2 ^ 64) ∷ []) added.1
]

unfoldable pub group_arguments : List ℕ → State → Option State
group_arguments [] s = some s
group_arguments (a ∷ rest) s = group_argument a s >>= λ s'. group_arguments rest s'

-- The vector's elements from the second on.
abbrev pub call_arguments : List ℕ → List ℕ
call_arguments [] = []
call_arguments (fun ∷ rest) = rest

abbrev pub is_call : InstType → Bool
is_call call_inst = true
is_call _ = false

-- An instruction of a normal block.
unfoldable pub group_inst : Program → SmallestBlock → ℕ → State → Option State
group_inst p b index s = do
  id ← inst_at p b.bbid index
  info ← inst_info p id
  if not info.is_pointer || is_call info.type
      then some s
      else (merge_inst p [] (b.tid, id) b s >>= λ merged. some merged.1)

-- The `n` instructions from `b.Start` on, the last first.
unfoldable pub group_insts : Program → SmallestBlock → ℕ → State → Option State
group_insts p b zero s = some s
group_insts p b (suc n) s = group_inst p b (b.start + n) s >>= λ s'. group_insts p b n s'

unfoldable pub group_block : Program → SmallestBlock → SmallestBlockType → State → Option State
group_block p b declare_block s = group_declared b s
group_block p b external_call_block s = group_arguments (call_arguments b.addr) s
group_block p b impactful_call_block s = group_arguments (call_arguments b.addr) s
group_block p b normal_block s = group_insts p b (b.end - b.start) s
group_block p b _ s = group_access p b s

unfoldable pub group_blocks : Program → List SmallestBlock → State → Option State
group_blocks p [] s = some s
group_blocks p (b ∷ bs) s = group_block p b b.type s >>= λ s'. group_blocks p bs s'

-- The globals as the program's start leaves them.
abbrev pub start : State
start = record {
  max_group_id = 0;
  ins2group = [];
  group2ins = [];
  groups = record { addr2group = new_tree 0; group2addr = [] };
  labeled_args = [];
}

unfoldable pub group_memory : Program → List SmallestBlock → Option Groups
group_memory p block_trace = do s ← group_blocks p (reverse block_trace) start; some s.groups
