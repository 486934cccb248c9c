-- ===== src/Unneeded/Pass.antt =====
-- ExtractUneededOperation of tools/PrintBug/PrintBug.cpp with OneInstruction, IsReturnVoid and
-- OneBlock: the trace is walked from its last block to its first, and what nothing needs is
-- collected.
use mathlib.Core.List.{reverse}
use slimmer.Base.{
  ℕ, zero, suc, ◌+◌, ◌-◌, ◌^◌, ℤ, pos, ◌+ℤ◌, ◌-ℤ◌, Bool, true, false, not, ◌&&◌, ◌||◌, ◌==◌, ltb,
  leb, List, [], ◌∷◌, Option, none, some, ◌>>=◌, if◌then◌else◌, get_elem?, length, map_set, map_at,
  set_count, set_insert, set_insert_all, set_erase, pair_order, nat_order,
}
use slimmer.Program.{
  is_text, InstInfo, InstType, terminator_inst, return_inst, DynamicInst, dynamic_order,
  SmallestBlock, SmallestBlockType, normal_block, memory_access_block, external_call_block,
  impactful_call_block, declare_block, inst_info, inst_at, Text,
}
use slimmer.Unneeded.Stacks.{push, top, set_top, pop, stack_of}
use slimmer.Unneeded.Instruction.{Facts, one_instruction, is_return_void}

-- The tuple of a terminator stack: the block, its terminator and whether that is used.
pub record Terminator : Type 0 where
  pub bb : ℕ
  pub inst : DynamicInst
  pub used : Bool

-- make_tuple(bb, DynamicInst(0, 0, 0), true)
abbrev pub no_terminator : ℕ → Terminator
no_terminator bb = record { bb = bb; inst = record { tid = 0; id = 0; cnt = pos 0 }; used = true }

-- "free", "va_start" and "va_end".
abbrev free : Text
free = 102 ∷ 114 ∷ 101 ∷ 101 ∷ []

abbrev va_start : Text
va_start = 118 ∷ 97 ∷ 95 ∷ 115 ∷ 116 ∷ 97 ∷ 114 ∷ 116 ∷ []

abbrev va_end : Text
va_end = 118 ∷ 97 ∷ 95 ∷ 101 ∷ 110 ∷ 100 ∷ []

abbrev pub is_memory_access : SmallestBlockType → Bool
is_memory_access memory_access_block = true
is_memory_access _ = false

abbrev pub is_declare : SmallestBlockType → Bool
is_declare declare_block = true
is_declare _ = false

abbrev pub is_terminator : InstType → Bool
is_terminator terminator_inst = true
is_terminator _ = false

pub record State : Type 0 where
  pub inst_count : List ((ℕ × ℕ) × ℕ)
  pub needed : List (ℕ × ℕ)
  pub mem_depended : List DynamicInst
  pub fun_used : List (ℕ × List Bool)
  pub next_bb_used : List (ℕ × List (ℕ × Bool))
  pub terminator_stack : List (ℕ × List Terminator)
  pub addr2unneeded : List (ℕ × List ℕ)
  pub unneeded_di : List DynamicInst

abbrev pub count : State → ℕ → ℕ → ℕ
count s tid id = map_at 0 s.inst_count (tid, id)

-- DynamicInst(tid, id, -inst_count[I(tid, id)])
abbrev pub this_execution : State → ℕ → ℕ → DynamicInst
this_execution s tid id = record { tid = tid; id = id; cnt = pos 0 -ℤ pos (count s tid id) }

-- inst_count[I(tid, id)]++
unfoldable pub count_one : State → ℕ → ℕ → State
count_one s tid id = record s { inst_count = map_set s.inst_count (tid, id) (count s tid id + 1) }

-- OneInstruction on the sets of the whole pass.
unfoldable pub need : Facts → DynamicInst → ℤ → State → Option State
need f d last_bb_id s = do
  sets ← one_instruction f d last_bb_id (s.needed, s.mem_depended)
  some (record s { needed = sets.0; mem_depended = sets.1 })

-- The loop of OneBlock over the block's instructions, the last first. `sets` is `this_needed` and
-- `mem_depended`; the set of unneeded instructions comes last.
unfoldable pub block_insts :
    Facts
    → SmallestBlock
    → ℤ
    → State
    → List ℕ
    → (List (ℕ × ℕ) × List DynamicInst) × List DynamicInst
    → Option ((List (ℕ × ℕ) × List DynamicInst) × List DynamicInst)
block_insts f b cnt_diff s [] acc = some acc
block_insts f b cnt_diff s (id ∷ ids) (sets, unneeded_di) =
    let d : DynamicInst = record {
      tid = b.tid;
      id = id;
      cnt = cnt_diff -ℤ pos (count s b.tid id);
    } in
    if set_count sets.0 (b.tid, id) || set_count sets.1 d
    then (one_instruction f d b.last_bbid sets >>= λ sets'.
        block_insts f b cnt_diff s ids (sets', set_erase unneeded_di d))
    else block_insts f b cnt_diff s ids (sets, unneeded_di)

unfoldable pub one_block : Facts → DynamicInst → SmallestBlock → ℕ → State → Option State
one_block f d b next_bb_id s = do
  let cnt_diff = d.cnt +ℤ pos (count s b.tid d.id)
  sets ← one_instruction f d b.last_bbid ([], s.mem_depended)
  ids ← get_elem? f.program.bb2ins next_bb_id
  acc ← block_insts f b cnt_diff s (reverse ids) (sets, set_erase s.unneeded_di d)
  some (record s {
    needed = set_insert_all s.needed acc.0.0;
    mem_depended = acc.0.1;
    unneeded_di = acc.1;
  })

-- `if (b.IsLast > 0) ... else if ...`: a frame is opened, or a block that has just been finished
-- gives its terminator away.
unfoldable pub open_frame : SmallestBlock → State → State
open_frame b s = record s {
  fun_used = push s.fun_used b.tid false;
  next_bb_used = push s.next_bb_used b.tid (b.bbid, false);
  terminator_stack = push s.terminator_stack b.tid (no_terminator b.bbid);
}

unfoldable pub finish_terminator : Facts → SmallestBlock → ℕ → State → Option State
finish_terminator f b next_bb_id s = do
  t ← top s.terminator_stack b.tid
  if t.used then some s else one_block f t.inst b next_bb_id s

unfoldable pub finish_block : Facts → SmallestBlock → ℕ → State → Option State
finish_block f b next_bb_id s = do
  s' ← finish_terminator f b next_bb_id s
  terminators ← set_top s'.terminator_stack b.tid (no_terminator b.bbid)
  some (record s' { terminator_stack = terminators })

unfoldable pub next_block : Facts → SmallestBlock → List (ℕ × Bool) → State → Option State
next_block f b [] s = some s
next_block f b ((bb, used) ∷ rest) s =
    if not (bb == b.bbid) && used then finish_block f b bb s else some s

unfoldable pub start_block : Facts → SmallestBlock → State → Option State
start_block f b s =
    if ltb 0 b.is_last
    then some (open_frame b s)
    else next_block f b (stack_of s.next_bb_used b.tid) s

-- fun_used[b.TID].top() |= is_needed
unfoldable pub mark_fun : ℕ → Bool → State → Option State
mark_fun tid is_needed s = do
  used ← top s.fun_used tid
  stacks ← set_top s.fun_used tid (used || is_needed)
  some (record s { fun_used = stacks })

-- An instruction is counted, and its function is used if it is needed.
unfoldable pub passed : ℕ → ℕ → Bool → State → Option State
passed tid id is_needed s = mark_fun tid is_needed (count_one s tid id)

unfoldable pub add_unneeded : DynamicInst → State → State
add_unneeded d s = record s { unneeded_di = set_insert s.unneeded_di d }

-- A memory access that nothing needs is noted with its address.
unfoldable pub note_address : SmallestBlock → ℕ → State → Option State
note_address b id s =
    if is_memory_access b.type
    then (do
      l ← get_elem? b.addr 0
      r ← get_elem? b.addr 1
      let ids = map_at [] s.addr2unneeded l
      some (
          if ltb l r
          then record s { addr2unneeded = map_set s.addr2unneeded l (set_insert ids id) }
          else s))
    else some s

unfoldable pub need_or_not : Facts → SmallestBlock → DynamicInst → Bool → State → Option State
need_or_not f b d true s = need f d b.last_bbid s
need_or_not f b d false s = do s' ← note_address b d.id s; some (add_unneeded d s')

abbrev pub is_needed : State → DynamicInst → Bool
is_needed s d = set_count s.needed (d.tid, d.id) || set_count s.mem_depended d

unfoldable pub run_impactful : Facts → SmallestBlock → State → Option (State × Bool)
run_impactful f b s = do
  id ← inst_at f.program b.bbid b.start
  s1 ← need f (this_execution s b.tid id) b.last_bbid s
  s2 ← passed b.tid id true s1
  some (s2, true)

unfoldable pub run_access : Facts → SmallestBlock → State → Option (State × Bool)
run_access f b s = do
  id ← inst_at f.program b.bbid b.start
  let d = this_execution s b.tid id
  s1 ← need_or_not f b d (is_needed s d) s
  s2 ← passed b.tid id (is_needed s d) s1
  some (s2, is_needed s d)

-- A terminator is needed if the next block is used and does not post-dominate this one.
unfoldable pub run_terminator :
    Facts → SmallestBlock → DynamicInst → Bool → State → Option (State × Bool)
run_terminator f b d was_needed s = do
  next ← top s.next_bb_used b.tid
  let forced = not (set_count (map_at [] f.post_dominator b.bbid) next.0) && next.1
  let used = was_needed || forced
  terminators ← set_top s.terminator_stack b.tid (record { bb = b.bbid; inst = d; used = used })
  some (record s { terminator_stack = terminators }, used)

-- A return is needed if it is `ret void`, if it ends the thread, or if its caller is needed. Where
-- the block ends neither a function nor a thread the assertion fails.
unfoldable pub return_needed : SmallestBlock → InstInfo → Bool → State → Option Bool
return_needed b info was_needed s =
    if is_return_void info.code
    then some true
    else if b.is_last == 2
    then some true
    else if b.is_last == 1
    then some (was_needed || set_count s.needed (b.tid, b.caller))
    else none

unfoldable pub classify :
    Facts → SmallestBlock → DynamicInst → InstInfo → InstType → Bool → State → Option (State × Bool)
classify f b d info terminator_inst was_needed s = run_terminator f b d was_needed s
classify f b d info return_inst was_needed s =
    return_needed b info was_needed s >>= λ used. some (s, used)
classify f b d info _ was_needed s = some (s, was_needed)

-- An instruction that nothing needs is collected, unless it is a jump to an only successor.
unfoldable pub settle : Facts → SmallestBlock → DynamicInst → InstInfo → Bool → State → Option State
settle f b d info true s = need f d b.last_bbid s
settle f b d info false s =
    some (if is_terminator info.type && leb (length info.successors) 1 then s else add_unneeded d s)

unfoldable pub run_inst : Facts → SmallestBlock → ℕ → State → Option (State × Bool)
run_inst f b index s = do
  id ← inst_at f.program b.bbid index
  info ← inst_info f.program id
  let d = this_execution s b.tid id
  marked ← classify f b d info info.type (set_count s.needed (b.tid, id)) s
  s1 ← settle f b d info marked.1 marked.0
  s2 ← passed b.tid id marked.1 s1
  some (s2, marked.1)

-- The `n` instructions from `b.Start` on, the last first.
unfoldable pub run_insts : Facts → SmallestBlock → ℕ → State × Bool → Option (State × Bool)
run_insts f b zero acc = some acc
run_insts f b (suc n) (s, used) =
    run_inst f b (b.start + n) s >>= λ r. run_insts f b n (r.0, used || r.1)

unfoldable pub run_body : Facts → SmallestBlock → SmallestBlockType → State → Option (State × Bool)
run_body f b impactful_call_block s = run_impactful f b s
run_body f b normal_block s = run_insts f b (b.end - b.start) (s, false)
run_body f b declare_block s = some (s, false)
run_body f b _ s = run_access f b s

-- An external call of free, va_start or va_end is passed over, the end of its block included.
unfoldable pub passed_over : Facts → SmallestBlock → SmallestBlockType → Option Bool
passed_over f b external_call_block = do
  id ← inst_at f.program b.bbid b.start
  info ← inst_info f.program id
  some (is_text info.fun free || is_text info.fun va_start || is_text info.fun va_end)
passed_over f b _ = some false

-- next_bb_used[b.TID].top() after the block.
unfoldable pub use_block : SmallestBlock → Bool → State → Option State
use_block b used s = do
  next ← top s.next_bb_used b.tid
  let used' = if next.0 == b.bbid then next.1 || used else used
  stacks ← set_top s.next_bb_used b.tid (b.bbid, used')
  some (record s { next_bb_used = stacks })

unfoldable pub need_caller : SmallestBlock → State → Option State
need_caller b s = do
  used ← top s.fun_used b.tid
  some (
      if (b.is_first == 1) && used && not (b.caller == 2 ^ 32 - 1)
      then record s { needed = set_insert s.needed (b.tid, b.caller) }
      else s)

unfoldable pub last_terminator : Facts → SmallestBlock → State → Option State
last_terminator f b s = do
  next ← top s.next_bb_used b.tid
  if next.1 then finish_terminator f b b.bbid s else some s

unfoldable pub close_frame : SmallestBlock → State → Option State
close_frame b s = do
  fun_used ← pop s.fun_used b.tid
  next_bb_used ← pop s.next_bb_used b.tid
  terminators ← pop s.terminator_stack b.tid
  some (record s {
    fun_used = fun_used;
    next_bb_used = next_bb_used;
    terminator_stack = terminators;
  })

unfoldable pub leave_function : Facts → SmallestBlock → State → Option State
leave_function f b s = do s1 ← need_caller b s; s2 ← last_terminator f b s1; close_frame b s2

unfoldable pub end_block : Facts → SmallestBlock → Bool → State → Option State
end_block f b used s = do
  s1 ← use_block b used s
  if ltb 0 b.is_first then leave_function f b s1 else some s1

unfoldable pub run_started : Facts → SmallestBlock → State → Option State
run_started f b s = do r ← run_body f b b.type s; end_block f b r.1 r.0

unfoldable pub run_block : Facts → SmallestBlock → State → Option State
run_block f b s =
    if is_declare b.type
    then some s
    else (start_block f b s >>= λ s1.
        passed_over f b b.type >>= λ over. if over then some s1 else run_started f b s1)

-- The loop over the trace, which is given with its last block first.
unfoldable pub run_back : Facts → List SmallestBlock → State → Option State
run_back f [] s = some s
run_back f (b ∷ bs) s = run_block f b s >>= λ s'. run_back f bs s'

unfoldable pub start : List (ℕ × List ℕ) → State
start addr2unneeded = record {
  inst_count = [];
  needed = [];
  mem_depended = [];
  fun_used = [];
  next_bb_used = [];
  terminator_stack = [];
  addr2unneeded = addr2unneeded;
  unneeded_di = [];
}

-- The unneeded instructions, and the global map that is extended on the way.
unfoldable pub extract_uneeded_operation :
    Facts → List SmallestBlock → List (ℕ × List ℕ) → Option (List DynamicInst × List (ℕ × List ℕ))
extract_uneeded_operation f block_trace addr2unneeded = do
  s ← run_back f (reverse block_trace) (start addr2unneeded)
  some (s.unneeded_di, s.addr2unneeded)
