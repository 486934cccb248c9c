-- ===== src/Merge/Events.antt =====
-- One round of MergeTrace for each event, and IsImpactfulFunction of lib/SlimmerUtil/Routines.cpp.
use slimmer.Base.{
  ℕ, ◌+◌, ◌-◌, ◌^◌, negsuc, Bool, false, ◌==◌, ◌&&◌, ◌||◌, leb, List, [], ◌∷◌, ◌++◌, Option, none,
  some, ◌>>=◌, if◌then◌else◌, length, take, get_elem?, map_at, map_set, set_insert, set_count,
  nat_order, pair_order,
}
use slimmer.Program.{
  Program, SmallestBlockType, memory_access_block, external_call_block, impactful_call_block,
  memset_block, memmove_block, declare_block, inst_info, inst_at, Text, is_text, to_int32,
}
use slimmer.Trace.Event.{Event, basic_block, memory, return, argument, memset, memmove}
use slimmer.Merge.Frames.{
  State, StackInfo, stack, first_of, set_stack, set_first, push_block, emit, make_block, range,
  declare_of, inst_before,
}
use slimmer.Merge.Drain.{drain}

-- The names, and the prefix "pthread_".
abbrev impactful_names : List Text
impactful_names =
    (112 ∷ 111 ∷ 108 ∷ 108 ∷ [])
    ∷ (102 ∷ 99 ∷ 110 ∷ 116 ∷ 108 ∷ [])
    ∷ (102 ∷ 99 ∷ 108 ∷ 111 ∷ 115 ∷ 101 ∷ [])
    ∷ (119 ∷ 114 ∷ 105 ∷ 116 ∷ 101 ∷ [])
    ∷ (103 ∷ 101 ∷ 116 ∷ 112 ∷ 105 ∷ 100 ∷ [])
    ∷ (108 ∷ 105 ∷ 115 ∷ 116 ∷ 101 ∷ 110 ∷ [])
    ∷ (99 ∷ 108 ∷ 111 ∷ 115 ∷ 101 ∷ [])
    ∷ (102 ∷ 102 ∷ 108 ∷ 117 ∷ 115 ∷ 104 ∷ [])
    ∷ (115 ∷ 105 ∷ 103 ∷ 110 ∷ 97 ∷ 108 ∷ [])
    ∷ (102 ∷ 115 ∷ 116 ∷ 97 ∷ 116 ∷ 101 ∷ [])
    ∷ (101 ∷ 120 ∷ 105 ∷ 116 ∷ [])
    ∷ []

abbrev pthread_ : Text
pthread_ = 112 ∷ 116 ∷ 104 ∷ 114 ∷ 101 ∷ 97 ∷ 100 ∷ 95 ∷ []

abbrev is_one_of : List Text → Text → Bool
is_one_of [] name = false
is_one_of (t ∷ ts) name = is_text name t || is_one_of ts name

unfoldable pub is_impactful_function : Text → Bool
is_impactful_function name = is_one_of impactful_names name || is_text (take 8 name) pthread_

-- A basic block is entered: by the first function of a thread, by the function that runs, or by a
-- function that it has called.
unfoldable pub enter : Program → ℕ → ℕ → List StackInfo → State → Option State
enter p tid id [] s = some (
    set_stack tid (record { bbid = id; last_bbid = negsuc 0; cur_index = 0 } ∷ [])
      (set_first tid (2, 0) s))
enter p tid id (info ∷ rest) s = do
  insts ← get_elem? p.bb2ins info.bbid
  if leb (length insts) info.cur_index
      then some (
          set_stack tid (record { bbid = id; last_bbid = to_int32 info.bbid; cur_index = 0 } ∷ rest)
            (set_first tid (0, 0) s))
      else (inst_before insts info.cur_index >>= λ caller. some (
          set_stack tid (record { bbid = id; last_bbid = negsuc 0; cur_index = 0 } ∷ info ∷ rest)
            (set_first tid (1, caller) s)))

-- An event of the instruction at which the frame rests: its block, and the frame behind it. Another
-- instruction fails the assertion.
unfoldable pub step_inst :
    Program → SmallestBlockType → List ℕ → ℕ → ℕ → List StackInfo → State → Option State
step_inst p type addr tid id [] s = none
step_inst p type addr tid id (info ∷ rest) s = do
  ins_id ← inst_at p info.bbid info.cur_index
  let b = record (make_block type tid info info.cur_index (info.cur_index + 1) (first_of s tid)) {
    addr = addr;
  }
  if id == ins_id
      then some
          (set_stack tid (record info { cur_index = info.cur_index + 1 } ∷ rest) (emit tid b s))
      else none

-- The arguments of a call are handed to its block, and the call is counted.
unfoldable pub forget_args : ℕ → ℕ → State → State
forget_args tid fun s = record s {
  args = map_set s.args tid [];
  fun_counter = map_set s.fun_counter (tid, fun) (map_at 0 s.fun_counter (tid, fun) + 1);
}

unfoldable pub call_returned : Program → List ℕ → ℕ → ℕ → ℕ → State → Option State
call_returned p impactful_fun_call tid id fun s = do
  info ← inst_info p id
  let is_impactful = set_count impactful_fun_call fun || is_impactful_function info.fun
  let type = if is_impactful then impactful_call_block else external_call_block
  s' ← step_inst p type (fun ∷ map_at [] s.args tid) tid id (stack s tid) s
  some (forget_args tid fun s')

-- The handlers of the events; `no_id` is (uint32_t) -1.
abbrev pub no_id : ℕ
no_id = 2 ^ 32 - 1

unfoldable pub handle : Program → List ℕ → ℕ → Event → State → Option State
handle p impactful tid (basic_block _ id) s = enter p tid id (stack s tid) s
handle p impactful tid (memory _ id addr len) s =
    if id == no_id
    then some (push_block (declare_of declare_block addr len) s)
    else step_inst p memory_access_block (range addr len) tid id (stack s tid) s
handle p impactful tid (return _ id fun) s = call_returned p impactful tid id fun s
handle p impactful tid (memset _ id addr len) s =
    step_inst p memset_block (range addr len) tid id (stack s tid) s
handle p impactful tid (memmove _ id dest src len) s =
    step_inst p memmove_block (range dest len ++ range src len) tid id (stack s tid) s
handle p impactful tid _ s = some s

-- args[tid].insert(addr)
unfoldable pub add_arg : ℕ → ℕ → State → State
add_arg tid addr s = record s { args = map_set s.args tid (set_insert (map_at [] s.args tid) addr) }

-- A round of the loop. `tid` is what `*tid_ptr` holds, for an event without a thread what it still
-- holds.
abbrev pub is_global : ℕ → ℕ → Bool
is_global tid id = (id == no_id) && (tid == 0)

unfoldable pub run_event : Program → List ℕ → ℕ → Event → State → Option State
run_event p impactful tid (argument _ addr) s = some (add_arg tid addr s)
run_event p impactful tid (memory t id addr len) s =
    if is_global tid id
    then some (push_block (declare_of declare_block addr len) s)
    else (handle p impactful tid (memory t id addr len) s >>= λ s'. drain p tid (stack s' tid) s')
run_event p impactful tid event s =
    handle p impactful tid event s >>= λ s'. drain p tid (stack s' tid) s'

unfoldable pub run_events : Program → List ℕ → List (ℕ × Event) → State → Option State
run_events p impactful [] s = some s
run_events p impactful ((tid, event) ∷ events) s =
    run_event p impactful tid event s >>= λ s'. run_events p impactful events s'
