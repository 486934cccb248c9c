-- ===== src/Tests/Operations.antt =====
-- A run of the backward pass on the trace of one function: a store and an addition that nothing
-- needs around a call that the environment sees.
use mathlib.Core.List.{reverse}
use slimmer.Base.{
  ℕ, ◌<◌, ◌≡◌, refl, pos, negsuc, ◌-ℤ◌, true, false, List, [], ◌∷◌, some, set_count, equiv,
  pair_order, not, ◌&&◌, ◌||◌, ◌>>=◌,
}
use slimmer.Program.{
  InstInfo, InstType, normal_inst, store_inst, external_call_inst, return_inst, inst, constant,
  DynamicInst, dynamic_order, SmallestBlock, SmallestBlockType, normal_block, memory_access_block,
  impactful_call_block, external_call_block, Text,
}
use slimmer.Unneeded.Stacks.{stack_of, push, top, set_top, pop}
use slimmer.Unneeded.Instruction.{Facts, one_instruction, is_return_void}
use slimmer.Unneeded.Pass.{
  State, count, this_execution, count_one, need, block_insts, one_block, open_frame,
  finish_terminator, finish_block, next_block, start_block, mark_fun, passed, add_unneeded,
  note_address, need_or_not, run_impactful, run_access, run_terminator, return_needed, classify,
  settle, run_inst, run_insts, run_body, passed_over, use_block, need_caller, last_terminator,
  close_frame, leave_function, end_block, run_started, run_block, run_back, start,
  extract_uneeded_operation,
}
use slimmer.Unneeded.Dependencies.{dep_insts, taken, one_instruction_exact}
use slimmer.Unneeded.Reported.{reported_numbered, impactful_never_reported}

abbrev plain : ℕ → InstType → Text → InstInfo
plain id type code = record {
  id = id;
  bb = 0;
  is_pointer = false;
  loc = pos 0;
  file = [];
  code = code;
  ssa_dependencies = [];
  type = type;
  fun = [];
  successors = [];
  phi_dependencies = [];
}

-- "  ret void"
abbrev ret_void : Text
ret_void = 32 ∷ 32 ∷ 114 ∷ 101 ∷ 116 ∷ 32 ∷ 118 ∷ 111 ∷ 105 ∷ 100 ∷ []

void_return : is_return_void ret_void ≡ true
unfolding is_return_void
void_return = refl

abbrev facts : Facts
facts = record {
  program = record {
    ins =
        plain 0 store_inst []
        ∷ plain 1 external_call_inst []
        ∷ plain 2 normal_inst []
        ∷ plain 3 return_inst ret_void
        ∷ [];
    bb2ins = (0 ∷ 1 ∷ 2 ∷ 3 ∷ []) ∷ [];
  };
  mem_dependencies = [];
  post_dominator = [];
}

abbrev block : SmallestBlockType → ℕ → ℕ → List ℕ → ℕ → ℕ → SmallestBlock
block type start end addr is_first is_last = record {
  type = type;
  tid = 1;
  bbid = 0;
  start = start;
  end = end;
  addr = addr;
  is_first = is_first;
  is_last = is_last;
  caller = 0;
  last_bbid = negsuc 0;
}

abbrev stored : SmallestBlock
stored = block memory_access_block 0 1 (64 ∷ 72 ∷ []) 2 0

abbrev called : SmallestBlock
called = block impactful_call_block 1 2 [] 0 0

abbrev returned : SmallestBlock
returned = block normal_block 2 4 [] 0 2

abbrev execution : ℕ → DynamicInst
execution id = record { tid = 1; id = id; cnt = pos 0 }

abbrev reported : List DynamicInst × List (ℕ × List ℕ)
reported = (execution 0 ∷ execution 2 ∷ [], (64, 0 ∷ []) ∷ [])

small_run : extract_uneeded_operation facts (stored ∷ called ∷ returned ∷ []) [] ≡ some reported
unfolding extract_uneeded_operation run_back start run_block run_started start_block open_frame
    next_block finish_block finish_terminator one_block block_insts need one_instruction count_one
    mark_fun passed add_unneeded note_address need_or_not run_impactful run_access run_terminator
    return_needed classify settle run_inst run_insts run_body passed_over use_block need_caller
    last_terminator close_frame leave_function end_block push top set_top pop is_return_void ◌-ℤ◌
small_run = refl

impactful_never_reported_example :
    (s : State) × (run_back facts (reverse (returned ∷ [])) (start []) ≡ some s)
    × (set_count reported.0 (this_execution s 1 1) ≡ false)
impactful_never_reported_example =
    impactful_never_reported facts (stored ∷ []) (returned ∷ []) called 1 [] reported refl refl
      small_run

reported_numbered_example :
    (s : State) × (run_back facts (reverse (stored ∷ called ∷ returned ∷ [])) (start []) ≡ some s)
    × (n : ℕ) × (n < count s 1 2)
    × (pos 0 ≡ pos 0 -ℤ pos n)
reported_numbered_example =
    reported_numbered facts (stored ∷ called ∷ returned ∷ []) [] reported (execution 2) small_run
      refl

-- A phi node whose first operand comes from block 7.
abbrev phi : InstInfo
phi = record (plain 0 normal_inst []) {
  ssa_dependencies = (inst, 5) ∷ (constant, 0) ∷ [];
  phi_dependencies = (7, inst, 8) ∷ (9, inst, 6) ∷ [];
}

abbrev linked : Facts
linked = record {
  program = record { ins = phi ∷ []; bb2ins = [] };
  mem_dependencies = [];
  post_dominator = [];
}

one_instruction_exact_example :
    (r : List (ℕ × ℕ) × List DynamicInst) × (one_instruction linked
        (execution 0)
        (pos 7)
        ((1, 0) ∷ [], [])
      ≡ some r)
    × ((k : ℕ × ℕ)
        → set_count r.0 k ≡ (
            set_count (dep_insts 1 (taken (pos 7) ((7, inst, 8) ∷ (9, inst, 6) ∷ []))) k
            || (set_count (dep_insts 1 ((inst, 5) ∷ (constant, 0) ∷ [])) k
                || (not (equiv {K = ℕ × ℕ} (1, 0) k) && set_count {K = ℕ × ℕ} ((1, 0) ∷ []) k))))
    × ((x : DynamicInst)
        → set_count r.1 x ≡ (
            set_count {K = DynamicInst} [] x
            || (not (equiv (execution 0) x) && set_count {K = DynamicInst} [] x)))
one_instruction_exact_example =
    one_instruction_exact linked (execution 0) (pos 7) ((1, 0) ∷ []) [] phi refl

-- A function that calls free and returns: its frame is still there when its first block is past.
abbrev freeing : Facts
freeing = record {
  program = record {
    ins =
        record (plain 0 external_call_inst []) { fun = 102 ∷ 114 ∷ 101 ∷ 101 ∷ [] }
        ∷ plain 1 return_inst ret_void
        ∷ [];
    bb2ins = (0 ∷ 1 ∷ []) ∷ [];
  };
  mem_dependencies = [];
  post_dominator = [];
}

frame_after_free :
    (run_back freeing
        (block normal_block 1 2 [] 0 2 ∷ block external_call_block 0 1 (64 ∷ []) 2 0 ∷ [])
        (start [])
      >>= λ s. some (stack_of s.fun_used 1))
    ≡ some (true ∷ [])
unfolding run_back start run_block run_started start_block open_frame next_block finish_block
    finish_terminator one_block block_insts need one_instruction count_one mark_fun passed
    add_unneeded note_address need_or_not run_impactful run_access run_terminator return_needed
    classify settle run_inst run_insts run_body passed_over use_block need_caller last_terminator
    close_frame leave_function end_block push top set_top pop is_return_void ◌-ℤ◌
frame_after_free = refl
