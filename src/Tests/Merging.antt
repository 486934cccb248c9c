-- ===== src/Tests/Merging.antt =====
-- Runs of MergeTrace: a call of an instrumented function, and a trace that ends while a thread is
-- unfinished.
use slimmer.Base.{ℕ, ◌<◌, ◌≡◌, refl, pos, negsuc, false, List, [], ◌∷◌, none, some, All, arith}
use slimmer.Program.{
  Program, InstInfo, InstType, store_inst, load_inst, call_inst, external_call_inst, return_inst,
  SmallestBlock, SmallestBlockType, normal_block, memory_access_block, external_call_block,
  DynamicInst, Text,
}
use slimmer.Blocks.{IsProgram, IsValid, IsNestedTrace}
use slimmer.SegmentTree.{get, max_range, empty}
use slimmer.MemoryDependency.{Groups, State, init, run_blocks}
use slimmer.MemoryDependency.LastWriter.{IsGrouped}
use slimmer.MemoryDependency.Refinement.{last_writer}
use slimmer.Trace.Event.{Event, basic_block, memory, return, argument, end_event}
use slimmer.Unneeded.Instruction.{Facts}
use slimmer.Unneeded.Pass.{extract_uneeded_operation}
use slimmer.Unneeded.Totality.{extract_uneeded_operation-succeeds}
use slimmer.Merge.Frames.{set_stack, set_first, push_block, emit, close_block}
use slimmer.Merge.Drain.{scan, past_call, last_bb, advance, rest_at, drain}
use slimmer.Merge.Events.{
  is_impactful_function, enter, step_inst, forget_args, call_returned, handle, add_arg, run_event,
  run_events,
}
use slimmer.Merge.Flush.{close_frames, close_threads, merge_trace}
use slimmer.Merge.Nesting.{merge_trace-IsNestedTrace}
use slimmer.Merge.Validity.{merge_trace-IsValid}
use slimmer.Pipeline.{HasNoAtomics, merged_trace_analysed, merged_trace_depends}

abbrev inst : ℕ → InstType → Text → InstInfo
inst id type fun = record {
  id = id;
  bb = 0;
  is_pointer = false;
  loc = pos 0;
  file = [];
  code = [];
  ssa_dependencies = [];
  type = type;
  fun = fun;
  successors = [];
  phi_dependencies = [];
}

-- The first basic block calls the function "f", which is the second, and "puts".
abbrev program : Program
program = record {
  ins =
      inst 0 call_inst (102 ∷ [])
      ∷ inst 1 external_call_inst (112 ∷ 117 ∷ 116 ∷ 115 ∷ [])
      ∷ inst 2 store_inst []
      ∷ inst 3 return_inst []
      ∷ inst 4 load_inst []
      ∷ inst 5 return_inst []
      ∷ [];
  bb2ins = (0 ∷ 1 ∷ 2 ∷ 3 ∷ []) ∷ (4 ∷ 5 ∷ []) ∷ [];
}

abbrev events : List (ℕ × Event)
events =
    (7, basic_block 7 0)
    ∷ (7, basic_block 7 1)
    ∷ (7, memory 7 4 100 8)
    ∷ (7, argument 7 64)
    ∷ (7, return 7 1 500)
    ∷ (7, memory 7 2 200 8)
    ∷ (7, end_event)
    ∷ []

abbrev block : SmallestBlockType → ℕ → ℕ → ℕ → List ℕ → ℕ → ℕ → ℕ → SmallestBlock
block type bbid start end addr is_first is_last caller = record {
  type = type;
  tid = 7;
  bbid = bbid;
  start = start;
  end = end;
  addr = addr;
  is_first = is_first;
  is_last = is_last;
  caller = caller;
  last_bbid = negsuc 0;
}

abbrev blocks : List SmallestBlock
blocks =
    block normal_block 0 0 1 [] 2 0 0
    ∷ block memory_access_block 1 0 1 (100 ∷ 108 ∷ []) 1 0 0
    ∷ block normal_block 1 1 2 [] 0 1 0
    ∷ block external_call_block 0 1 2 (500 ∷ 64 ∷ []) 0 0 0
    ∷ block memory_access_block 0 2 3 (200 ∷ 208 ∷ []) 0 0 0
    ∷ block normal_block 0 3 4 [] 0 2 0
    ∷ []

merged : merge_trace program [] events ≡ some blocks
unfolding merge_trace run_events run_event handle call_returned forget_args step_inst add_arg enter
    is_impactful_function drain rest_at advance last_bb past_call scan close_block emit push_block
    set_first set_stack close_threads close_frames
merged = refl

-- Thread 3 has returned when the trace ends and thread 5 has not: the frame on top of thread 3 is
-- asked for in vain.
wrong_thread :
    merge_trace program []
      ((5, basic_block 5 0) ∷ (3, basic_block 3 1) ∷ (3, memory 3 4 100 8) ∷ (3, end_event) ∷ [])
    ≡ none
unfolding merge_trace run_events run_event handle call_returned forget_args step_inst add_arg enter
    is_impactful_function drain rest_at advance last_bb past_call scan close_block emit push_block
    set_first set_stack close_threads close_frames
wrong_thread = refl

program-IsProgram : IsProgram program
program-IsProgram = (
  ((_, refl, λ e. cc), ((_, refl, λ e. cc), ((_, refl, λ e. cc), ((_, refl, λ e. refl), tt)))),
  (((_, refl, λ e. cc), ((_, refl, λ e. refl), tt)), tt),
)

merge_trace-IsNestedTrace_example : IsNestedTrace blocks
merge_trace-IsNestedTrace_example = merge_trace-IsNestedTrace program [] events blocks merged

merge_trace-IsValid_example : All (IsValid program) blocks
merge_trace-IsValid_example = merge_trace-IsValid program [] events blocks program-IsProgram merged

abbrev facts : Facts
facts = record { program = program; mem_dependencies = []; post_dominator = [] }

extract_uneeded_operation-succeeds_example :
    (r : List DynamicInst × List (ℕ × List ℕ)) × (extract_uneeded_operation facts blocks []
      ≡ some r)
extract_uneeded_operation-succeeds_example =
    extract_uneeded_operation-succeeds facts blocks [] program-IsProgram
      (merge_trace-IsValid program [] events blocks program-IsProgram merged)
      (merge_trace-IsNestedTrace program [] events blocks merged)

merged_trace_analysed_example :
    (r : List DynamicInst × List (ℕ × List ℕ)) × (extract_uneeded_operation facts blocks []
      ≡ some r)
merged_trace_analysed_example =
    merged_trace_analysed facts [] events blocks [] program-IsProgram merged

abbrev no_groups : Groups
no_groups = record { addr2group = empty 0 0 max_range; group2addr = [] }

no_groups-IsGrouped : IsGrouped no_groups
unfolding get
no_groups-IsGrouped = record {
  spanned = record { at_left = refl; at_right = refl; shaped = omega arith };
  listed = λ a group e. cc;
}

program-HasNoAtomics : HasNoAtomics program
program-HasNoAtomics = (refl, (refl, (refl, (refl, (refl, (refl, tt))))))

merged_trace_depends_example :
    (s : State) × (run_blocks program no_groups blocks init ≡ some s)
    × ((x : ℕ)
        → x < max_range
        → get s.last_store x ≡ last_writer program no_groups blocks [] (λ y. none) x)
merged_trace_depends_example =
    merged_trace_depends program no_groups [] events blocks program-IsProgram program-HasNoAtomics
      no_groups-IsGrouped merged
