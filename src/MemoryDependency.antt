-- ===== src/MemoryDependency.antt =====
-- tools/PrintBug/ExtractMemoryDependency.cpp: which dynamic stores each dynamic load, memmove and
-- external call depends on. `Addr2Group` and `Group2Addr` are arguments here.
pub mod Values
pub mod LastWriter
pub mod Refinement
pub mod Precision
use slimmer.Base.{
  ℕ, suc, ◌+◌, ◌-◌, ℤ, pos, ◌-ℤ◌, Bool, true, false, List, [], ◌∷◌, ◌++◌, Option, none, some, leb,
  if◌then◌else◌, get_elem?, map_find, map_set, map_at, set_insert, ◌>>=◌, pair_order, nat_order,
  nat_eq,
}
use slimmer.SegmentTree.{
  SegmentTree, Segment, SegmentType, covered_segment, get, set, collect, new_tree, max_range,
}
use slimmer.Program.{
  Program, InstInfo, InstType, store_inst, load_inst, atomic_inst, DynamicInst, dynamic_order,
  dynamic_eq, SmallestBlock, SmallestBlockType, memory_access_block, memset_block, memmove_block,
  external_call_block, normal_block, declare_block, impactful_call_block, inst_info, inst_at,
}

pub record Groups : Type 0 where
  pub addr2group : SegmentTree ℕ
  pub group2addr : List (ℕ × SegmentTree ℕ)

pub record State : Type 0 where
  pub last_store : SegmentTree DynamicInst
  pub ins_count : List ((ℕ × ℕ) × ℕ)
  pub mem_dep : List (DynamicInst × List DynamicInst)

unfoldable pub init : State
init = record {
  last_store = new_tree (record { tid = 0; id = 0; cnt = pos 0 });
  ins_count = [];
  mem_dep = [];
}

-- DynamicInst(b.TID, ins_id, ins_count[I(b.TID, ins_id)]++)
unfoldable pub next_execution : State → ℕ → ℕ → DynamicInst × State
next_execution s tid id =
    let n = map_at 0 s.ins_count (tid, id) in
    (
      record { tid = tid; id = id; cnt = pos n },
      record s { ins_count = map_set s.ins_count (tid, id) (n + 1) },
    )

-- last_store->Set(l, r, dyn_inst)
unfoldable pub store : State → DynamicInst → ℕ → ℕ → State
store s d l r = record s { last_store = set s.last_store l r d }

-- _mem_dep[d].insert(v) for a covered segment.
abbrev pub depend_on :
    List (DynamicInst × List DynamicInst)
    → DynamicInst
    → SegmentType
    → DynamicInst
    → List (DynamicInst × List DynamicInst)
depend_on m d covered_segment v = map_set m d (set_insert (map_at [] m d) v)
depend_on m d _ v = m

unfoldable pub depend_all :
    List (DynamicInst × List DynamicInst)
    → DynamicInst
    → List (Segment DynamicInst)
    → List (DynamicInst × List DynamicInst)
depend_all m d [] = m
depend_all m d (j ∷ js) = depend_all (depend_on m d j.type j.value) d js

-- All the last writes of [l, r) become dependencies of `d`.
unfoldable pub depend : State → DynamicInst → ℕ → ℕ → State
depend s d l r = record s { mem_dep = depend_all s.mem_dep d (collect s.last_store l r) }

abbrev store_if_atomic : InstType → State → DynamicInst → ℕ → ℕ → State
store_if_atomic atomic_inst s d l r = store s d l r
store_if_atomic _ s d l r = s

-- The chain of tests on the instruction's type. The test for an atomic instruction stands inside the
-- branch for loads.
unfoldable pub access : InstType → State → DynamicInst → ℕ → ℕ → State
access store_inst s d l r = store s d l r
access load_inst s d l r = store_if_atomic load_inst (depend s d l r) d l r
access _ s d l r = s

-- One pass of the loop over a group's segments.
unfoldable pub use_segment : DynamicInst → State → SegmentType → ℕ → ℕ → State
use_segment d s covered_segment l r = store (depend s d l r) d l r
use_segment d s _ l r = s

unfoldable pub use_group : DynamicInst → State → List (Segment ℕ) → State
use_group d s [] = s
use_group d s (i ∷ is) = use_group d (use_segment d s i.type i.left i.right) is

-- A pointer argument: the whole group of its address is read and written.
unfoldable pub use_argument : Groups → DynamicInst → State → ℕ → Option State
use_argument g d s a = elim (get g.addr2group a) [
  | none ↦ some s
  | some group ↦ do
    tree ← map_find g.group2addr group
    some (use_group d s (collect tree 0 max_range))
]

unfoldable pub use_arguments : Groups → DynamicInst → State → List ℕ → Option State
use_arguments g d s [] = some s
use_arguments g d s (a ∷ rest) = use_argument g d s a >>= λ s'. use_arguments g d s' rest

-- The vector's elements from the second on.
abbrev pub pointer_args : List ℕ → List ℕ
pointer_args [] = []
pointer_args (fun ∷ rest) = rest

abbrev pub access_inst : Program → ℕ → State → DynamicInst → ℕ → ℕ → Option State
access_inst p id s d l r = do info ← inst_info p id; some (access info.type s d l r)

-- What a block does once its dynamic instruction is counted.
unfoldable pub run_counted :
    Program → Groups → List ℕ → SmallestBlockType → ℕ → DynamicInst → State → Option State
run_counted p g addr memory_access_block id d s = do
  l ← get_elem? addr 0
  r ← get_elem? addr 1
  if leb r l then some s else access_inst p id s d l r
run_counted p g addr memset_block id d s = do
  l ← get_elem? addr 0
  r ← get_elem? addr 1
  some (if leb r l then s else store s d l r)
run_counted p g addr memmove_block id d s = do
  l ← get_elem? addr 0
  r ← get_elem? addr 1
  from ← get_elem? addr 2
  to ← get_elem? addr 3
  some (if leb r l then s else store (depend s d from to) d l r)
run_counted p g addr external_call_block id d s = use_arguments g d s (pointer_args addr)
run_counted p g addr impactful_call_block id d s = use_arguments g d s (pointer_args addr)
run_counted p g addr _ id d s = some s

abbrev pub counts : SmallestBlockType → Bool
counts normal_block = false
counts declare_block = false
counts _ = true

count_and_run : Program → Groups → SmallestBlock → State → Option State
count_and_run p g b s = do
  id ← inst_at p b.bbid b.start
  let next = next_execution s b.tid id
  run_counted p g b.addr b.type id next.0 next.1

unfoldable pub run_block : Program → Groups → SmallestBlock → State → Option State
unfolding count_and_run
run_block p g b s = if counts b.type then count_and_run p g b s else some s

unfoldable pub run_blocks : Program → Groups → List SmallestBlock → State → Option State
run_blocks p g [] s = some s
run_blocks p g (b ∷ bs) s = run_block p g b s >>= λ s'. run_blocks p g bs s'

-- tmp.Cnt -= (ins_count[I(tmp.TID, tmp.ID)] - 1)
unfoldable pub from_the_end : List ((ℕ × ℕ) × ℕ) → DynamicInst → DynamicInst
from_the_end counts d = record d { cnt = d.cnt -ℤ (pos (map_at 0 counts (d.tid, d.id)) -ℤ pos 1) }

abbrev pub push_deps :
    List ((ℕ × ℕ) × ℕ)
    → DynamicInst
    → List DynamicInst
    → List (DynamicInst × List DynamicInst)
    → List (DynamicInst × List DynamicInst)
push_deps counts a [] m = m
push_deps counts a (j ∷ js) m =
    push_deps counts a js (map_set m a (map_at [] m a ++ from_the_end counts j ∷ []))

unfoldable pub renumber :
    List ((ℕ × ℕ) × ℕ)
    → List (DynamicInst × List DynamicInst)
    → List (DynamicInst × List DynamicInst)
    → List (DynamicInst × List DynamicInst)
renumber counts [] m = m
renumber counts ((a, deps) ∷ rest) m =
    renumber counts rest (push_deps counts (from_the_end counts a) deps m)

-- ExtractMemoryDependency, on the map `mem_dep` that the caller passes in.
unfoldable pub extract_memory_dependency :
    Program
    → Groups
    → List SmallestBlock
    → List (DynamicInst × List DynamicInst)
    → Option (List (DynamicInst × List DynamicInst))
extract_memory_dependency p g blocks mem_dep = do
  s ← run_blocks p g blocks init
  some (renumber s.ins_count s.mem_dep mem_dep)
