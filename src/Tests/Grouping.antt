-- ===== src/Tests/Grouping.antt =====
-- Runs of GroupMemory: the groups of a small trace, and an argument whose group is merged away.
use slimmer.Base.{
  ℕ, ◌+◌, ◌^◌, ◌<◌, ◌≡◌, refl, pos, negsuc, Bool, true, false, List, [], ◌∷◌, none, some, All,
  nat_order, nat_eq, arith,
}
use slimmer.Program.{
  Program, InstInfo, InstType, DepType, normal_inst, store_inst, load_inst, call_inst, return_inst,
  inst, pointer_arg, SmallestBlock, SmallestBlockType, normal_block, memory_access_block,
}
use slimmer.Blocks.{IsProgram, IsValid}
use slimmer.SegmentTree.{
  SegmentTree, empty, get, set, set_fuel, collect, collect2, new_tree, max_range,
}
use slimmer.SegmentTree.Midpoint.{midpoint}
use slimmer.SegmentTree.Shape.{set-Spans}
use slimmer.MemoryDependency.{Groups, State, init, run_blocks}
use slimmer.MemoryDependency.LastWriter.{IsWhole}
use slimmer.MemoryDependency.Refinement.{last_writer}
use slimmer.Trace.Event.{Event, basic_block, memory, end_event}
use slimmer.Merge.Frames.{set_stack, set_first, push_block, emit, close_block}
use slimmer.Merge.Drain.{scan, past_call, last_bb, advance, rest_at, drain}
use slimmer.Merge.Events.{
  is_impactful_function, enter, step_inst, forget_args, call_returned, handle, add_arg, run_event,
  run_events,
}
use slimmer.Merge.Flush.{close_frames, close_threads, merge_trace}
use slimmer.Merge.Validity.{merge_trace-IsValid}
use slimmer.MemoryGroups.Trees.{split_trees, merge_trees}
use slimmer.MemoryGroups.Merging.{new_group, merge_addrs, absorb, absorb_all, merge_groups}
use slimmer.MemoryGroups.Insts.{
  add_dep_groups, forget_ins, label_ins, note_arg, label_deps, merge_arg, pass_arg, bind_arg,
  bind_args, enter_function, merge_inst,
}
use slimmer.MemoryGroups.Pass.{
  collect_clipped, sort_segments, find_groups, fill_range, fill_ranges, fill, group_access,
  group_inst, group_insts, group_block, group_blocks, group_memory,
}
use slimmer.MemoryGroups.Union.{Merges, merge_trees-Merges}
use slimmer.MemoryGroups.Walk.{AreViews, group_memory-AreViews}
use slimmer.Pipeline.{HasNoAtomics, grouped_trace_depends}

abbrev plain : ℕ → InstType → Bool → List (DepType × ℕ) → InstInfo
plain id type is_pointer deps = record {
  id = id;
  bb = 0;
  is_pointer = is_pointer;
  loc = pos 0;
  file = [];
  code = [];
  ssa_dependencies = deps;
  type = type;
  fun = [];
  successors = [];
  phi_dependencies = [];
}

-- A pointer is passed to a function that stores through it, and is read afterwards.
abbrev program : Program
program = record {
  ins =
      plain 0 normal_inst true []
      ∷ plain 1 call_inst false ((inst, 0) ∷ [])
      ∷ plain 2 load_inst false ((inst, 0) ∷ [])
      ∷ plain 3 return_inst false []
      ∷ plain 4 store_inst false ((pointer_arg, 0) ∷ [])
      ∷ plain 5 return_inst false []
      ∷ [];
  bb2ins = (0 ∷ 1 ∷ 2 ∷ 3 ∷ []) ∷ (4 ∷ 5 ∷ []) ∷ [];
}

abbrev events : ℕ → ℕ → List (ℕ × Event)
events stored loaded =
    (7, basic_block 7 0)
    ∷ (7, basic_block 7 1)
    ∷ (7, memory 7 4 stored 8)
    ∷ (7, memory 7 2 loaded 8)
    ∷ (7, end_event)
    ∷ []

abbrev block : SmallestBlockType → ℕ → ℕ → ℕ → List ℕ → ℕ → ℕ → ℕ → SmallestBlock
block type bbid start end addr is_first is_last caller = record {
  type = type;
  tid = 7;
  bbid = bbid;
  start = start;
  end = end;
  addr = addr;
  is_first = is_first;
  is_last = is_last;
  caller = caller;
  last_bbid = negsuc 0;
}

abbrev blocks : ℕ → ℕ → List SmallestBlock
blocks stored loaded =
    block normal_block 0 0 2 [] 2 0 0
    ∷ block memory_access_block 1 0 1 (stored ∷ (stored + 8) ∷ []) 1 0 1
    ∷ block normal_block 1 1 2 [] 0 1 1
    ∷ block memory_access_block 0 2 3 (loaded ∷ (loaded + 8) ∷ []) 0 0 0
    ∷ block normal_block 0 3 4 [] 0 2 0
    ∷ []

merged : merge_trace program [] (events 100 100) ≡ some (blocks 100 100)
unfolding merge_trace run_events run_event handle call_returned forget_args step_inst add_arg enter
    is_impactful_function drain rest_at advance last_bb past_call scan close_block emit push_block
    set_first set_stack close_threads close_frames
merged = refl

-- The store and the load meet, and their addresses are one group.
abbrev tree : SegmentTree ℕ
unfolding set set_fuel midpoint
tree = set (empty 0 0 max_range) 100 108 1

abbrev groups : Groups
groups = record { addr2group = tree; group2addr = (1, tree) ∷ [] }

grouped : group_memory program (blocks 100 100) ≡ some groups
unfolding group_memory group_blocks group_block group_access group_insts group_inst find_groups
    collect_clipped sort_segments collect collect2 new_tree set set_fuel midpoint merge_inst
    add_dep_groups merge_groups merge_addrs absorb_all absorb merge_trees split_trees new_group
    forget_ins label_deps label_ins note_arg enter_function bind_args bind_arg pass_arg merge_arg
    fill fill_ranges fill_range
grouped = refl

-- The store goes elsewhere: its new group is merged into that of the passed pointer when the argument
-- is bound, and then asked for in vain.
merged_elsewhere : merge_trace program [] (events 300 100) ≡ some (blocks 300 100)
unfolding merge_trace run_events run_event handle call_returned forget_args step_inst add_arg enter
    is_impactful_function drain rest_at advance last_bb past_call scan close_block emit push_block
    set_first set_stack close_threads close_frames
merged_elsewhere = refl

stale_group : group_memory program (blocks 300 100) ≡ none
unfolding group_memory group_blocks group_block group_access group_insts group_inst find_groups
    collect_clipped sort_segments collect collect2 new_tree set set_fuel midpoint merge_inst
    add_dep_groups merge_groups merge_addrs absorb_all absorb merge_trees split_trees new_group
    forget_ins label_deps label_ins note_arg enter_function bind_args bind_arg pass_arg merge_arg
    fill fill_ranges fill_range get
stale_group = refl

program-IsProgram : IsProgram program
program-IsProgram = (
  ((_, refl, λ e. cc), ((_, refl, λ e. cc), ((_, refl, λ e. cc), ((_, refl, λ e. refl), tt)))),
  (((_, refl, λ e. cc), ((_, refl, λ e. refl), tt)), tt),
)

blocks-IsValid : All (IsValid program) (blocks 100 100)
blocks-IsValid =
    merge_trace-IsValid program [] (events 100 100) (blocks 100 100) program-IsProgram merged

group_memory-AreViews_example : AreViews groups
group_memory-AreViews_example =
    group_memory-AreViews program (blocks 100 100) groups blocks-IsValid grouped

program-HasNoAtomics : HasNoAtomics program
program-HasNoAtomics = (refl, (refl, (refl, (refl, (refl, (refl, tt))))))

grouped_trace_depends_example :
    (s : State) × (run_blocks program groups (blocks 100 100) init ≡ some s)
    × ((x : ℕ)
        → x < max_range
        → get s.last_store x ≡ last_writer program groups (blocks 100 100) [] (λ y. none) x)
grouped_trace_depends_example =
    grouped_trace_depends program groups [] (events 100 100) (blocks 100 100) program-IsProgram
      program-HasNoAtomics merged grouped

-- Two groups of which one holds [100, 108) and the other [300, 308).
abbrev two_trees : List (SegmentTree ℕ)
two_trees = set (new_tree 0) 100 108 1 ∷ set (new_tree 0) 300 308 1 ∷ []

new_tree-IsWhole : IsWhole {A = ℕ} (new_tree 0)
unfolding new_tree
new_tree-IsWhole = record { at_left = refl; at_right = refl; shaped = omega arith }

merge_trees-Merges_example :
    (t : SegmentTree ℕ) × (new : SegmentTree ℕ) × (merge_trees (2 ^ 64) two_trees 1 (new_tree 0)
      ≡ some (t, new))
    × Merges 0 max_range 1 two_trees (new_tree 0) t new
merge_trees-Merges_example =
    merge_trees-Merges (2 ^ 64) 0 max_range 1 two_trees (new_tree 0) (omega arith)
      (
        set-Spans (new_tree 0) 100 108 0 max_range 1 new_tree-IsWhole (omega arith) (omega arith),
        (
          set-Spans (new_tree 0) 300 308 0 max_range 1 new_tree-IsWhole (omega arith) (omega arith),
          tt,
        ),
      )
      new_tree-IsWhole (omega arith) (omega arith) (omega arith)
