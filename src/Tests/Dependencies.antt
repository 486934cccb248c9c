-- ===== src/Tests/Dependencies.antt =====
-- The memory dependencies of small block traces.
use slimmer.Base.{
  ℕ, ◌<◌, ◌≡◌, refl, ◌⊎◌, true, false, List, [], ◌∷◌, none, some, pos, All, arith, equiv,
  pair_order, nat_order, nat_eq, ◌-ℤ◌,
}
use slimmer.SegmentTree.{new_tree, get, set, set_fuel, collect, collect2, max_range, empty}
use slimmer.SegmentTree.Midpoint.{midpoint}
use slimmer.Program.{
  Program, InstInfo, InstType, store_inst, load_inst, atomic_inst, DynamicInst, SmallestBlock,
  memory_access_block, dynamic_eq, dynamic_order,
}
use slimmer.MemoryDependency.{
  Groups, State, init, next_execution, store, depend, depend_all, access, run_counted, run_block,
  run_blocks, from_the_end, renumber, extract_memory_dependency,
}
use slimmer.MemoryDependency.LastWriter.{IsGrouped, IsWhole}
use slimmer.MemoryDependency.Refinement.{IsBlock, last_writer, run_blocks-last_writer}
use slimmer.MemoryDependency.Precision.{WroteIn, depends, depend_exact}

abbrev inst : ℕ → InstType → InstInfo
inst id t = record {
  id = id;
  bb = 0;
  is_pointer = false;
  loc = pos 1;
  file = [];
  code = [];
  ssa_dependencies = [];
  type = t;
  fun = [];
  successors = [];
  phi_dependencies = [];
}

-- store; an atomic read-modify-write; load
abbrev program : Program
program = record {
  ins = inst 0 store_inst ∷ inst 1 atomic_inst ∷ inst 2 load_inst ∷ [];
  bb2ins = (0 ∷ 1 ∷ 2 ∷ []) ∷ [];
}

abbrev block : ℕ → List ℕ → SmallestBlock
block i addr = record {
  type = memory_access_block;
  tid = 9;
  bbid = 0;
  start = i;
  end = i;
  addr = addr;
  is_first = 0;
  is_last = 0;
  caller = 0;
  last_bbid = pos 0;
}

abbrev trace : List SmallestBlock
trace = block 0 (100 ∷ 108 ∷ []) ∷ block 1 (100 ∷ 108 ∷ []) ∷ block 2 (104 ∷ 108 ∷ []) ∷ []

abbrev no_groups : Groups
no_groups = record { addr2group = empty 0 0 max_range; group2addr = [] }

abbrev last : ℕ → DynamicInst
last id = record { tid = 9; id = id; cnt = pos 0 }

-- The load is said to depend on the plain store, although the atomic instruction wrote the same
-- bytes in between.
atomic_skipped :
    extract_memory_dependency program no_groups trace [] ≡ some ((last 2, last 0 ∷ []) ∷ [])
unfolding extract_memory_dependency run_blocks run_block run_counted access depend store
    next_execution renumber from_the_end init ◌-ℤ◌ depend_all set set_fuel collect collect2 midpoint
    new_tree
atomic_skipped = refl

-- The trace without the atomic instruction.
abbrev plain_trace : List SmallestBlock
plain_trace = block 0 (100 ∷ 108 ∷ []) ∷ block 2 (104 ∷ 108 ∷ []) ∷ []

plain_trace-IsBlock : All (IsBlock program) plain_trace
plain_trace-IsBlock = (
  λ c. (0, inst 0 store_inst, refl, refl, refl, omega arith),
  (λ c. (2, inst 2 load_inst, refl, refl, refl, omega arith), tt),
)

no_groups-IsGrouped : IsGrouped no_groups
unfolding get
no_groups-IsGrouped = record {
  spanned = record { at_left = refl; at_right = refl; shaped = omega arith };
  listed = λ a group e. cc;
}

run_blocks-last_writer_example :
    (s : State) × (run_blocks program no_groups plain_trace init ≡ some s)
    × ((x : ℕ)
        → x < max_range
        → get s.last_store x ≡ last_writer program no_groups plain_trace [] (λ y. none) x)
run_blocks-last_writer_example =
    run_blocks-last_writer program no_groups plain_trace plain_trace-IsBlock no_groups-IsGrouped

abbrev written : State
unfolding init new_tree store set set_fuel midpoint
written = store init (last 0) 100 108

written-IsWhole : IsWhole written.last_store
unfolding init new_tree store set set_fuel midpoint
written-IsWhole = record { at_left = refl; at_right = refl; shaped = omega arith }

depend_exact_example :
    (WroteIn written 104 108 (last 0)
      → depends (depend written (last 2) 104 108) (last 2) (last 0) ≡ true)
    × (depends (depend written (last 2) 104 108) (last 2) (last 0) ≡ true
        → (depends written (last 2) (last 0) ≡ true) ⊎ WroteIn written 104 108 (last 0))
    × ((c : DynamicInst)
        → equiv (last 2) c ≡ false
        → depends (depend written (last 2) 104 108) c (last 0) ≡ depends written c (last 0))
depend_exact_example =
    depend_exact written (last 2) (last 0) 104 108 written-IsWhole (omega arith) (omega arith)
