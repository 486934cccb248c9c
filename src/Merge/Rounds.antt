-- ===== src/Merge/Rounds.antt =====
-- A round of MergeTrace keeps the number of open frames and the blocks in step.
use slimmer.Base.{
  ℕ, suc, ◌+◌, ◌-◌, ◌≤◌, ◌≡◌, refl, ap, Bool, true, false, ltb, leb, ◌==◌, if◌then◌else◌, List, [],
  ◌∷◌, none, ◌>>=◌, AllOf, nothing, just, AllOf->>=, AllOf-after, AllOf-if, length, get_elem?,
  map_at-set, equiv, nat_order, pair_order, arith, Bool-cases, inl, inr,
}
use slimmer.Program.{
  Program, SmallestBlock, SmallestBlockType, declare_block, memory_access_block, memset_block,
  memmove_block, external_call_block, impactful_call_block, inst_info, inst_at,
}
use slimmer.Trace.Event.{Event, basic_block, memory, return, argument, memset, memmove}
use slimmer.Blocks.{flag, declares}
use slimmer.Merge.Frames.{
  State, StackInfo, stack, set_stack, set_first, push_block, emit, declare_of, inst_before,
  close_block,
}
use slimmer.Merge.Drain.{advance, next_block, rest_at, drain}
use slimmer.Merge.Events.{
  enter, step_inst, forget_args, call_returned, handle, add_arg, is_global, run_event, run_events,
  no_id,
}
use slimmer.Merge.Depth.{
  Nests-mono, Nests-declare, depth_with, depth, Kept, KeptWith, Kept-with, set_stack-Kept,
  emit-Kept, close_block-Closed,
}

if_KeptWith :
    (c : Bool) (s t : State) (tid n : ℕ)
    → KeptWith s tid n
    → KeptWith t tid n
    → KeptWith (if c then s else t) tid n
if_KeptWith true s t tid n p q = p
if_KeptWith false s t tid n p q = q

-- A frame that is left, given what the loop makes of the frames below.
leave-Kept :
    (p : Program) (tid : ℕ) (info : StackInfo) (rest : List StackInfo) (s : State) (e : ℕ)
    (c : Bool)
    → KeptWith s tid (suc (length rest))
    → ((b : SmallestBlock)
        → KeptWith (emit tid b s) tid (length rest)
        → AllOf Kept (drain p tid rest (emit tid b s)))
    → AllOf Kept (elim c [
      | false ↦ none
      | true ↦ close_block p rest (next_block tid info e s) >>= λ b. drain p tid rest (emit tid b s)
    ])
leave-Kept p tid info rest s e false k again = nothing
leave-Kept p tid info rest s e true k again =
    AllOf->>= (close_block-Closed p rest (next_block tid info e s)) (λ b c. again b (
      emit-Kept tid b s (suc (length rest)) (length rest) (ap declares c.type) c.tid c.is_first
        (omega arith) (omega (arith, c.is_last)) k))

drain-Kept :
    (p : Program) (tid : ℕ) (frames : List StackInfo) (s : State)
    → KeptWith s tid (length frames)
    → AllOf Kept (drain p tid frames s)
unfolding drain rest_at
drain-Kept p tid [] s k = just (set_stack-Kept tid [] s k)
drain-Kept p tid (info ∷ rest) s k = AllOf-after (advance p info) (λ moved.
    elim (Bool-cases moved.1) [
      | inl c ↦ rw c (
          leave-Kept p tid info rest s moved.0 (ltb info.cur_index moved.0) k
            (λ b k'. drain-Kept p tid rest (emit tid b s) k'))
      | inr c ↦ rw c (
          just (
            set_stack-Kept tid (record info { cur_index = moved.0 } ∷ rest) _ (
              if_KeptWith (ltb info.cur_index moved.0) (emit tid (next_block tid info moved.0 s) s)
                s tid (suc (length rest))
                (emit-Kept tid (next_block tid info moved.0 s) s (suc (length rest))
                  (suc (length rest)) refl refl refl (omega arith) (omega arith) k)
                k)))
    ])

step_inst-Kept :
    (p : Program) (type : SmallestBlockType) (addr : List ℕ) (tid id : ℕ) (frames : List StackInfo)
    (s : State)
    → declares type ≡ false
    → KeptWith s tid (length frames)
    → AllOf Kept (step_inst p type addr tid id frames s)
unfolding step_inst
step_inst-Kept p type addr tid id [] s d k = nothing
step_inst-Kept p type addr tid id (info ∷ rest) s d k =
    AllOf-after (inst_at p info.bbid info.cur_index) (λ ins_id.
      AllOf-if (id == ins_id)
        (just (
          set_stack-Kept tid (record info { cur_index = info.cur_index + 1 } ∷ rest) _ (
            emit-Kept tid _ s (suc (length rest)) (suc (length rest)) d refl refl (omega arith)
              (omega arith) k)))
        nothing)

-- A frame that is entered or replaced, with the mark that its first block will carry.
enter_frames :
    (tid n : ℕ) (frames : List StackInfo) (first : ℕ × ℕ) (s : State)
    → n ≤ length frames - flag first.0
    → KeptWith s tid n
    → Kept (set_stack tid frames (set_first tid first s))
unfolding set_first
enter_frames tid n frames first s le k = set_stack-Kept tid frames (set_first tid first s) (
    Nests-mono (depth_with s tid n) (depth_with (set_first tid first s) tid (length frames))
      s.block_trace
      (λ t. elim (Bool-cases (equiv tid t)) [
        | inl c ↦ rw (c, map_at-set (0, 0) s.is_first tid t first, c) (omega (arith, le))
        | inr c ↦ rw (c, map_at-set (0, 0) s.is_first tid t first, c) (omega arith)
      ])
      k)

enter-Kept :
    (p : Program) (tid id : ℕ) (frames : List StackInfo) (s : State)
    → KeptWith s tid (length frames)
    → AllOf Kept (enter p tid id frames s)
unfolding enter
enter-Kept p tid id [] s k = just (enter_frames tid 0 _ (2, 0) s (omega arith) k)
enter-Kept p tid id (info ∷ rest) s k = AllOf-after (get_elem? p.bb2ins info.bbid) (λ insts.
    AllOf-if (leb (length insts) info.cur_index)
      (just (enter_frames tid (suc (length rest)) _ (0, 0) s (omega arith) k))
      (AllOf-after (inst_before insts info.cur_index)
        (λ caller. just (enter_frames tid (suc (length rest)) _ (1, caller) s (omega arith) k))))

push_declare-Kept :
    (addr len : ℕ) (s : State) → Kept s → Kept (push_block (declare_of declare_block addr len) s)
unfolding push_block
push_declare-Kept addr len s = Nests-declare (depth s) s.block_trace _ refl

call_returned-Kept :
    (p : Program) (impactful : List ℕ) (tid id fun : ℕ) (s : State)
    → Kept s
    → AllOf Kept (call_returned p impactful tid id fun s)
unfolding call_returned forget_args
call_returned-Kept p impactful tid id fun s k = AllOf-after (inst_info p id) (λ info.
    AllOf->>= (step_inst-Kept p _ _ tid id (stack s tid) s (calls _) (Kept-with s tid k))
      (λ s' k'. just k'))
  where
    calls : (c : Bool) → declares (if c then impactful_call_block else external_call_block) ≡ false
    calls true = refl
    calls false = refl

handle-Kept :
    (p : Program) (impactful : List ℕ) (tid : ℕ) (event : Event) (s : State)
    → Kept s
    → AllOf Kept (handle p impactful tid event s)
unfolding handle
handle-Kept p impactful tid (basic_block t id) s k =
    enter-Kept p tid id (stack s tid) s (Kept-with s tid k)
handle-Kept p impactful tid (memory t id addr len) s k =
    AllOf-if (id == no_id) (just (push_declare-Kept addr len s k))
      (step_inst-Kept p memory_access_block _ tid id (stack s tid) s refl (Kept-with s tid k))
handle-Kept p impactful tid (return t id fun) s k = call_returned-Kept p impactful tid id fun s k
handle-Kept p impactful tid (memset t id addr len) s k =
    step_inst-Kept p memset_block _ tid id (stack s tid) s refl (Kept-with s tid k)
handle-Kept p impactful tid (memmove t id dest src len) s k =
    step_inst-Kept p memmove_block _ tid id (stack s tid) s refl (Kept-with s tid k)
handle-Kept p impactful tid _ s k = just k

-- A handler and the loop behind it.
handled-Kept :
    (p : Program) (impactful : List ℕ) (tid : ℕ) (event : Event) (s : State)
    → Kept s
    → AllOf Kept (handle p impactful tid event s >>= λ s'. drain p tid (stack s' tid) s')
handled-Kept p impactful tid event s k =
    AllOf->>= (handle-Kept p impactful tid event s k)
      (λ s' k'. drain-Kept p tid (stack s' tid) s' (Kept-with s' tid k'))

run_event-Kept :
    (p : Program) (impactful : List ℕ) (tid : ℕ) (event : Event) (s : State)
    → Kept s
    → AllOf Kept (run_event p impactful tid event s)
unfolding run_event add_arg
run_event-Kept p impactful tid (argument t addr) s k = just k
run_event-Kept p impactful tid (memory t id addr len) s k =
    AllOf-if (is_global tid id) (just (push_declare-Kept addr len s k))
      (handled-Kept p impactful tid (memory t id addr len) s k)
run_event-Kept p impactful tid event s k = handled-Kept p impactful tid event s k

pub run_events-Kept :
    (p : Program) (impactful : List ℕ) (events : List (ℕ × Event)) (s : State)
    → Kept s
    → AllOf Kept (run_events p impactful events s)
unfolding run_events
run_events-Kept p impactful [] s k = just k
run_events-Kept p impactful ((tid, event) ∷ events) s k =
    AllOf->>= (run_event-Kept p impactful tid event s k)
      (λ s' k'. run_events-Kept p impactful events s' k')
