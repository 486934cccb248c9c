-- ===== src/Merge/Validity.antt =====
-- The blocks of MergeTrace name instructions of the program and carry their addresses.
use mathlib.Core.Option.{some-injective}
use mathlib.Core.Path.{subst}
use slimmer.Base.{
  ℕ, ℤ, zero, suc, ◌+◌, ◌%◌, ◌^◌, ◌<◌, ◌≤◌, ◌≡◌, refl, sym, ◌∙◌, ap, Bool, true, false, ltb, leb,
  ◌==◌, if◌then◌else◌, List, [], ◌∷◌, ◌++◌, none, some, ◌>>=◌, AllOf, nothing, just, AllOf->>=,
  AllOf-after, AllOf-with, AllOf-if, AllOf-some, All, All-append, length, get_elem?, map_at-set,
  equiv, equiv_iff, nat_order, arith, Bool-cases, inl, inr, ◌⊎◌, >>=-eq-some,
}
use slimmer.Program.{
  Program, SmallestBlock, SmallestBlockType, normal_block, declare_block, memory_access_block,
  memset_block, memmove_block, external_call_block, impactful_call_block, inst_info, inst_at,
}
use slimmer.Trace.Event.{Event, basic_block, memory, return, argument, memset, memmove}
use slimmer.Blocks.{IsProgram, IsSingle, HasAddresses, NamesInsts, IsValid, inst_at_known}
use slimmer.Merge.Frames.{
  State, StackInfo, stack, first_of, start, set_stack, set_first, push_block, emit, make_block,
  range, declare_of, inst_before, close_block,
}
use slimmer.Merge.Drain.{next_block, rest_at, drain}
use slimmer.Merge.Events.{
  enter, step_inst, forget_args, call_returned, handle, add_arg, is_global, run_event, run_events,
  no_id,
}
use slimmer.Merge.Flush.{
  left_block, top_frame, close_frames, close_threads, last_tid_of, threads, merge_trace,
}
use slimmer.Merge.Advance.{Advanced, advance_lem}

module _ (p : Program) (w : IsProgram p) where
  -- A frame that rests in a basic block of the program.
  record Rests (info : StackInfo) : Type 0 where
    insts : List ℕ
    body : get_elem? p.bb2ins info.bbid ≡ some insts
    within : info.cur_index ≤ length insts

  -- A frame whose basic block need not be one of the program's.
  abbrev Enters : StackInfo → Type 0
  Enters info =
      (insts : List ℕ) → get_elem? p.bb2ins info.bbid ≡ some insts → info.cur_index ≤ length insts

  abbrev Ready : List StackInfo → Type 0
  Ready [] = Unit {0}
  Ready (info ∷ rest) = Enters info × All Rests rest

  abbrev Blocks : State → Type 0
  Blocks s = All (IsValid p) s.block_trace

  abbrev Others : ℕ → State → Type 0
  Others tid s = (t : ℕ) → equiv tid t ≡ false → All Rests (stack s t)

  record Sound (s : State) : Type 0 where
    blocks : Blocks s
    frames : (t : ℕ) → All Rests (stack s t)

  -- Between an event and the loop behind it.
  record Between (tid : ℕ) (s : State) : Type 0 where
    blocks : Blocks s
    ready : Ready (stack s tid)
    others : Others tid s

  Rests-Enters : (info : StackInfo) → Rests info → Enters info
  Rests-Enters info r insts e =
      let same : r.insts ≡ insts = some-injective r.insts insts (sym r.body ∙ e) in
      subst (λ (l : List ℕ). info.cur_index ≤ length l) same r.within

  Rests-Ready : (frames : List StackInfo) → All Rests frames → Ready frames
  Rests-Ready [] h = tt
  Rests-Ready (f ∷ fs) (h, hs) = (Rests-Enters f h, hs)

  self_equiv : (tid : ℕ) → equiv tid tid ≡ true
  self_equiv tid = (equiv_iff tid tid).1 refl

  set_stack-Sound :
      (tid : ℕ) (frames : List StackInfo) (s : State)
      → Blocks s
      → All Rests frames
      → Others tid s
      → Sound (set_stack tid frames s)
  unfolding set_stack
  set_stack-Sound tid frames s b f o = record {
    blocks = b;
    frames = λ t.
        rw (map_at-set [] s.call_stack tid t frames)
          (elim (Bool-cases (equiv tid t)) [ inl c ↦ rw c f | inr c ↦ rw c (o t c) ]);
  }

  set_stack-Between :
      (tid : ℕ) (frames : List StackInfo) (s : State)
      → Blocks s
      → Ready frames
      → Others tid s
      → Between tid (set_stack tid frames s)
  unfolding set_stack
  set_stack-Between tid frames s b f o = record {
    blocks = b;
    ready = rw (map_at-set [] s.call_stack tid tid frames, self_equiv tid) f;
    others = λ t c. rw (map_at-set [] s.call_stack tid t frames, c) (o t c);
  }

  Sound-Between : (tid : ℕ) (s : State) → Sound s → Between tid s
  Sound-Between tid s h = record {
    blocks = h.blocks;
    ready = Rests-Ready (stack s tid) (h.frames tid);
    others = λ t c. h.frames t;
  }

  push-Blocks : (b : SmallestBlock) (s : State) → IsValid p b → Blocks s → Blocks (push_block b s)
  unfolding push_block
  push-Blocks b s v h = All-append (IsValid p) s.block_trace (b ∷ []) h (v, tt)

  emit-Blocks :
      (tid : ℕ) (b : SmallestBlock) (s : State) → IsValid p b → Blocks s → Blocks (emit tid b s)
  unfolding emit set_first
  emit-Blocks tid b s v h = push-Blocks b s v h

  emit-Others : (tid t : ℕ) (b : SmallestBlock) (s : State) → Others tid s → Others tid (emit t b s)
  unfolding emit set_first push_block
  emit-Others tid t b s o = o

  -- A closed block is a stretch like the one it was, and is marked as a last one.
  record Marked (b c : SmallestBlock) : Type 0 where
    type : c.type ≡ b.type
    bbid : c.bbid ≡ b.bbid
    from : c.start ≡ b.start
    to : c.end ≡ b.end
    last : (c.is_last ≡ 1) ⊎ (c.is_last ≡ 2)

  close_block-Marked :
      (rest : List StackInfo) (b : SmallestBlock) → AllOf (Marked b) (close_block p rest b)
  unfolding close_block
  close_block-Marked [] b =
      just (record { type = refl; bbid = refl; from = refl; to = refl; last = inr refl })
  close_block-Marked (f ∷ rest) b = AllOf-after (get_elem? p.bb2ins f.bbid) (λ insts.
      AllOf-if (leb (length insts) f.cur_index) nothing (
        AllOf-after (inst_before insts f.cur_index) (λ id. AllOf-after (inst_info p id) (λ info.
          just (record { type = refl; bbid = refl; from = refl; to = refl; last = inl refl })))))

  -- A stretch of a frame that is closed.
  Marked-IsValid :
      (b c : SmallestBlock) (insts : List ℕ)
      → b.type ≡ normal_block
      → get_elem? p.bb2ins b.bbid ≡ some insts
      → b.start ≤ b.end
      → b.end ≤ length insts
      → Marked b c
      → IsValid p c
  Marked-IsValid b c insts n body le within m =
      subst (λ (t : SmallestBlockType). NamesInsts p c t × HasAddresses t c.addr) (sym (m.type ∙ n))
        (
          record {
            insts = insts;
            body = ap (get_elem? p.bb2ins) m.bbid ∙ body;
            ordered = omega (arith, le, m.from, m.to);
            within = omega (arith, within, m.to);
            marked = λ i id info a at k t. m.last;
          },
          tt,
        )

  next_block-IsValid :
      (tid : ℕ) (info : StackInfo) (s : State) (moved : ℕ × Bool)
      → Advanced p info moved
      → moved.1 ≡ false
      → IsValid p (next_block tid info moved.0 s)
  next_block-IsValid tid info s moved a stay = (
    record {
      insts = a.insts;
      body = a.body;
      ordered = a.forward;
      within = a.within;
      marked = λ i id inf less at k t. absurd (a.stays stay i id inf less at k t);
    },
    tt,
  )

  if_Blocks : (c : Bool) (s t : State) → Blocks s → Blocks t → Blocks (if c then s else t)
  if_Blocks true s t p q = p
  if_Blocks false s t p q = q

  if_Others :
      (c : Bool) (tid : ℕ) (s t : State)
      → Others tid s
      → Others tid t
      → Others tid (if c then s else t)
  if_Others true tid s t p q = p
  if_Others false tid s t p q = q

  -- The frame comes to rest.
  rest_at-Sound :
      (tid : ℕ) (info : StackInfo) (rest : List StackInfo) (s : State) (moved : ℕ × Bool)
      → Advanced p info moved
      → moved.1 ≡ false
      → Blocks s
      → All Rests rest
      → Others tid s
      → Sound (rest_at tid info rest moved.0 s)
  unfolding rest_at
  rest_at-Sound tid info rest s moved a stay b r o =
      let block = next_block tid info moved.0 s in
      let go = ltb info.cur_index moved.0 in
      set_stack-Sound tid (record info { cur_index = moved.0 } ∷ rest) _
        (if_Blocks go (emit tid block s) s
          (emit-Blocks tid block s (next_block-IsValid tid info s moved a stay) b) b)
        (record { insts = a.insts; body = a.body; within = a.within }, r)
        (if_Others go tid (emit tid block s) s (emit-Others tid tid block s o) o)

  leave-Sound :
      (tid : ℕ) (info : StackInfo) (rest : List StackInfo) (s : State) (moved : ℕ × Bool) (c : Bool)
      → Advanced p info moved
      → ((b : SmallestBlock) → IsValid p b → AllOf Sound (drain p tid rest (emit tid b s)))
      → AllOf Sound (elim c [
        | false ↦ none
        | true ↦ close_block p rest (next_block tid info moved.0 s) >>= λ b.
            drain p tid rest (emit tid b s)
      ])
  leave-Sound tid info rest s moved false a again = nothing
  leave-Sound tid info rest s moved true a again =
      AllOf->>= (close_block-Marked rest (next_block tid info moved.0 s)) (λ b m.
        again b (
          Marked-IsValid (next_block tid info moved.0 s) b a.insts refl a.body a.forward a.within
            m))

  drain-Sound :
      (tid : ℕ) (frames : List StackInfo) (s : State)
      → Blocks s
      → Ready frames
      → Others tid s
      → AllOf Sound (drain p tid frames s)
  unfolding drain
  drain-Sound tid [] s b r o = just (set_stack-Sound tid [] s b tt o)
  drain-Sound tid (info ∷ rest) s b (r, rs) o = AllOf->>= (advance_lem p info w r) (λ moved a.
      elim (Bool-cases moved.1) [
        | inl c ↦ rw c (
            leave-Sound tid info rest s moved (ltb info.cur_index moved.0) a (λ c v.
              drain-Sound tid rest (emit tid c s) (emit-Blocks tid c s v b) (Rests-Ready rest rs)
                (emit-Others tid tid c s o)))
        | inr c ↦ rw c (just (rest_at-Sound tid info rest s moved a c b rs o))
      ])

  word : (addr len : ℕ) → (addr + len) % 2 ^ 64 < 2 ^ 64
  word addr len = omega arith

  -- A block of one instruction.
  step_inst-Between :
      (type : SmallestBlockType) (addr : List ℕ) (tid id : ℕ) (frames : List StackInfo) (s : State)
      → ((b : SmallestBlock) → IsSingle p b → NamesInsts p b type)
      → HasAddresses type addr
      → All Rests frames
      → Blocks s
      → Others tid s
      → AllOf (Between tid) (step_inst p type addr tid id frames s)
  unfolding step_inst
  step_inst-Between type addr tid id [] s single has f b o = nothing
  step_inst-Between type addr tid id (info ∷ rest) s single has (r, rs) b o =
      AllOf-with (inst_at p info.bbid info.cur_index) (λ ins_id at.
        let block =
          record (make_block type tid info info.cur_index (info.cur_index + 1) (first_of s tid)) {
            addr = addr;
          } in
        let (inf, known) = inst_at_known p info.bbid info.cur_index ins_id w at in
        let valid : IsValid p block =
          (single block (record { id = ins_id; info = inf; at = at; known = known }), has) in
        AllOf-if (id == ins_id)
          (just (
            set_stack-Between tid (record info { cur_index = info.cur_index + 1 } ∷ rest)
              (emit tid block s) (emit-Blocks tid block s valid b)
              ((λ insts body. in_body info.bbid info.cur_index ins_id insts at body), rs)
              (emit-Others tid tid block s o)))
          nothing)
    where
      lt-length : (insts : List ℕ) (i id : ℕ) → get_elem? insts i ≡ some id → i + 1 ≤ length insts
      lt-length [] i id h = cc
      lt-length (x ∷ xs) zero id h = omega arith
      lt-length (x ∷ xs) (suc i) id h = omega (arith, lt-length xs i id h)

      in_body :
          (bb i id : ℕ) (insts : List ℕ)
          → inst_at p bb i ≡ some id
          → get_elem? p.bb2ins bb ≡ some insts
          → i + 1 ≤ length insts
      in_body bb i id insts at body =
          let (insts', body', at') =
            >>=-eq-some (get_elem? p.bb2ins bb) (λ insts. get_elem? insts i) at in
          let same : insts' ≡ insts = some-injective insts' insts (sym body' ∙ body) in
          subst (λ (l : List ℕ). i + 1 ≤ length l) same (lt-length insts' i id at')

  -- A frame that is entered or replaced.
  entered :
      (tid id : ℕ) (last : ℤ) (below : List StackInfo) (first : ℕ × ℕ) (s : State)
      → Blocks s
      → All Rests below
      → Others tid s
      → Between tid (
          set_stack tid
            (record { bbid = id; last_bbid = last; cur_index = 0 } ∷ below)
            (set_first tid first s))
  unfolding set_first
  entered tid id last below first s b r o =
      set_stack-Between tid _ (set_first tid first s) b ((λ insts body. omega arith), r) o

  enter-Between :
      (tid id : ℕ) (frames : List StackInfo) (s : State)
      → All Rests frames
      → Blocks s
      → Others tid s
      → AllOf (Between tid) (enter p tid id frames s)
  unfolding enter
  enter-Between tid id [] s f b o = just (entered tid id _ [] (2, 0) s b tt o)
  enter-Between tid id (info ∷ rest) s (r, rs) b o =
      AllOf-after (get_elem? p.bb2ins info.bbid) (λ insts.
        AllOf-if (leb (length insts) info.cur_index) (just (entered tid id _ rest (0, 0) s b rs o))
          (AllOf-after (inst_before insts info.cur_index)
            (λ caller. just (entered tid id _ (info ∷ rest) (1, caller) s b (r, rs) o))))

  push_declare-Sound :
      (addr len : ℕ) (s : State)
      → Sound s
      → Sound (push_block (declare_of declare_block addr len) s)
  unfolding push_block
  push_declare-Sound addr len s h = record {
    blocks = All-append (IsValid p) s.block_trace _ h.blocks ((tt, word addr len), tt);
    frames = h.frames;
  }

  module _ (tid : ℕ) (s : State) (h : Sound s) where
    stepped :
        (type : SmallestBlockType) (addr : List ℕ) (id : ℕ)
        → ((b : SmallestBlock) → IsSingle p b → NamesInsts p b type)
        → HasAddresses type addr
        → AllOf (Between tid) (step_inst p type addr tid id (stack s tid) s)
    stepped type addr id single has =
        step_inst-Between type addr tid id (stack s tid) s single has (h.frames tid) h.blocks
          (λ t c. h.frames t)

    call_returned-Between :
        (impactful : List ℕ) (id fun : ℕ)
        → AllOf (Between tid) (call_returned p impactful tid id fun s)
    unfolding call_returned forget_args
    call_returned-Between impactful id fun = AllOf-after (inst_info p id) (λ info.
        AllOf->>= {P = Between tid} (by_type _ _ id)
          (λ s' k. just (record { blocks = k.blocks; ready = k.ready; others = k.others })))
      where
        by_type :
            (c : Bool) (args : List ℕ) (id : ℕ)
            → AllOf (Between tid) (
                step_inst p
                  (if c then impactful_call_block else external_call_block)
                  (fun ∷ args)
                  tid
                  id
                  (stack s tid)
                  s)
        by_type true args id = stepped impactful_call_block (fun ∷ args) id (λ b k. k) tt
        by_type false args id = stepped external_call_block (fun ∷ args) id (λ b k. k) tt

    handle-Between :
        (impactful : List ℕ) (event : Event) → AllOf (Between tid) (handle p impactful tid event s)
    unfolding handle
    handle-Between impactful (basic_block t id) =
        enter-Between tid id (stack s tid) s (h.frames tid) h.blocks (λ t c. h.frames t)
    handle-Between impactful (memory t id addr len) =
        AllOf-if (id == no_id) (just (Sound-Between tid _ (push_declare-Sound addr len s h)))
          (stepped memory_access_block (range addr len) id (λ b k. k) (word addr len))
    handle-Between impactful (return t id fun) = call_returned-Between impactful id fun
    handle-Between impactful (memset t id addr len) =
        stepped memset_block (range addr len) id (λ b k. k) (word addr len)
    handle-Between impactful (memmove t id dest src len) =
        stepped memmove_block (range dest len ++ range src len) id (λ b k. k)
          (word dest len, word src len)
    handle-Between impactful _ = just (Sound-Between tid s h)

    handled-Sound :
        (impactful : List ℕ) (event : Event)
        → AllOf Sound (handle p impactful tid event s >>= λ s'. drain p tid (stack s' tid) s')
    handled-Sound impactful event =
        AllOf->>= (handle-Between impactful event)
          (λ s' k. drain-Sound tid (stack s' tid) s' k.blocks k.ready k.others)

    run_event-Sound :
        (impactful : List ℕ) (event : Event) → AllOf Sound (run_event p impactful tid event s)
    unfolding run_event add_arg
    run_event-Sound impactful (argument t addr) =
        just (record { blocks = h.blocks; frames = h.frames })
    run_event-Sound impactful (memory t id addr len) =
        AllOf-if (is_global tid id) (just (push_declare-Sound addr len s h))
          (handled-Sound impactful (memory t id addr len))
    run_event-Sound impactful event = handled-Sound impactful event

  run_events-Sound :
      (impactful : List ℕ) (events : List (ℕ × Event)) (s : State)
      → Sound s
      → AllOf Sound (run_events p impactful events s)
  unfolding run_events
  run_events-Sound impactful [] s h = just h
  run_events-Sound impactful ((tid, event) ∷ events) s h =
      AllOf->>= (run_event-Sound tid s h impactful event)
        (λ s' k. run_events-Sound impactful events s' k)

  close_frames-Sound :
      (last_tid tid : ℕ) (frames : List StackInfo) (s : State)
      → All Rests frames
      → Sound s
      → AllOf Sound (close_frames p last_tid tid frames s)
  unfolding close_frames
  close_frames-Sound last_tid tid [] s f h = just h
  close_frames-Sound last_tid tid (info ∷ rest) s (r, rs) h =
      AllOf-after (top_frame (stack s last_tid)) (λ shown.
        AllOf->>= (close_block-Marked rest (left_block tid info shown)) (λ b m.
          close_frames-Sound last_tid tid rest (push_block b (set_stack tid rest s)) rs (
            closed b (
              Marked-IsValid (left_block tid info shown) b r.insts refl r.body (omega arith)
                r.within m))))
    where
      closed : (b : SmallestBlock) → IsValid p b → Sound (push_block b (set_stack tid rest s))
      closed b v =
          let left = set_stack-Sound tid rest s h.blocks rs (λ t c. h.frames t) in
          unfold push_block in
          record {
            blocks = push-Blocks b (set_stack tid rest s) v left.blocks;
            frames = left.frames;
          }

  close_threads-Sound :
      (last_tid : ℕ) (tids : List ℕ) (s : State)
      → Sound s
      → AllOf Sound (close_threads p last_tid tids s)
  unfolding close_threads
  close_threads-Sound last_tid [] s h = just h
  close_threads-Sound last_tid (tid ∷ tids) s h =
      AllOf->>= (close_frames-Sound last_tid tid (stack s tid) s (h.frames tid) h)
        (λ s' k. close_threads-Sound last_tid tids s' k)

-- Over a program whose basic blocks name its instructions and return at their ends only, every block
-- that MergeTrace makes carries the addresses of its type and, but for a declare block, which names no
-- instruction, is one instruction of the program or a stretch of a basic block that is marked as a
-- last one if it returns.
pub merge_trace-IsValid :
    (p : Program) (impactful : List ℕ) (events : List (ℕ × Event)) (blocks : List SmallestBlock)
    → IsProgram p
    → merge_trace p impactful events ≡ some blocks
    → All (IsValid p) blocks
merge_trace-IsValid p impactful events blocks w = AllOf-some valid
  where
    valid : AllOf (All (IsValid p)) (merge_trace p impactful events)
    valid =
        unfold merge_trace in
        AllOf->>=
          (run_events-Sound p w impactful events start (record { blocks = tt; frames = λ t. tt }))
          (λ s h.
            AllOf->>= (close_threads-Sound p w (last_tid_of 0 events) (threads s) s h)
              (λ s' k. just k.blocks))
