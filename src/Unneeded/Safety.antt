-- ===== src/Unneeded/Safety.antt =====
-- The steps of the backward pass succeed where the blocks name instructions and the stacks are high
-- enough.
use mathlib.Core.List.{reverse}
use mathlib.Core.Option.{some-injective}
use mathlib.Core.Path.{subst}
use slimmer.Base.{
  ℕ, zero, suc, ◌+◌, ◌<◌, ◌≤◌, ◌≡◌, refl, sym, ◌∙◌, ap, ℤ, pos, ◌+ℤ◌, ◌-ℤ◌, Bool, true, false, not,
  ◌&&◌, ◌||◌, ◌==◌, ltb, leb, List, [], ◌∷◌, some, if◌then◌else◌, All, All-reverse, length,
  get_elem?, set_count, set_erase, equiv, nat_order, pair_order, Gives, gives, Gives->>=, Gives-imp,
  Gives-if, Gives-eq, ◌⊎◌, inl, inr, Bool-cases, arith,
}
use slimmer.Program.{
  InstInfo, InstType, terminator_inst, return_inst, DynamicInst, dynamic_order, SmallestBlock,
  SmallestBlockType, normal_block, memory_access_block, external_call_block, impactful_call_block,
  memset_block, memmove_block, declare_block, inst_info, inst_at,
}
use slimmer.Blocks.{flag, IsProgram, IsBody, IsStretch, IsSingle, HasAddresses, inst_known}
use slimmer.Unneeded.Stacks.{stack_of}
use slimmer.Unneeded.Instruction.{Facts, one_instruction, is_return_void}
use slimmer.Unneeded.Pass.{
  State, Terminator, no_terminator, count, this_execution, count_one, need, block_insts, one_block,
  open_frame, finish_terminator, finish_block, next_block, start_block, mark_fun, passed,
  add_unneeded, note_address, is_memory_access, need_or_not, is_needed, run_impactful, run_access,
  run_terminator, return_needed, classify, settle, is_terminator, run_inst, run_insts,
}
use slimmer.Unneeded.Heights.{
  raise, HasHeight, HasHeight-mono, top-Gives, set_top-Gives, push-HasHeight,
}

module _ (f : Facts) (w : IsProgram f.program) where
  abbrev pub Known : ℕ → Type 0
  Known id = (info : InstInfo) × (inst_info f.program id ≡ some info)

  abbrev pub HasBody : ℕ → Type 0
  HasBody bb = (insts : List ℕ) × (get_elem? f.program.bb2ins bb ≡ some insts)

  abbrev pub AnyUse : Bool → Type 0
  AnyUse used = Unit {0}

  abbrev pub OkNext : ℕ × Bool → Type 0
  OkNext next = HasBody next.0

  abbrev pub OkTerminator : Terminator → Type 0
  OkTerminator t = t.used ≡ false → Known t.inst.id

  pub record Safe (h : ℕ → ℕ) (s : State) : Type 0 where
    pub funs : HasHeight AnyUse h s.fun_used
    pub nexts : HasHeight OkNext h s.next_bb_used
    pub terminators : HasHeight OkTerminator h s.terminator_stack

  pub Safe-mono : (h k : ℕ → ℕ) {s : State} → ((t : ℕ) → k t ≤ h t) → Safe h s → Safe k s
  Safe-mono h k {s} le p = record {
    funs = HasHeight-mono AnyUse h k s.fun_used le p.funs;
    nexts = HasHeight-mono OkNext h k s.next_bb_used le p.nexts;
    terminators = HasHeight-mono OkTerminator h k s.terminator_stack le p.terminators;
  }

  body-Known : (insts : List ℕ) → IsBody f.program insts → All Known insts
  body-Known [] b = tt
  body-Known (id ∷ ids) ((info, known, _), b) = ((info, known), body-Known ids b)

  bodies-Known :
      (bodies : List (List ℕ)) (bb : ℕ) {insts : List ℕ}
      → All (IsBody f.program) bodies
      → get_elem? bodies bb ≡ some insts
      → All Known insts
  bodies-Known [] bb b e = cc
  bodies-Known (x ∷ xs) zero b e = subst (All Known) (some-injective x _ e) (body-Known x b.0)
  bodies-Known (x ∷ xs) (suc bb) b e = bodies-Known xs bb b.1 e

  one_instruction-Gives :
      (d : DynamicInst) (last : ℤ) (sets : List (ℕ × ℕ) × List DynamicInst)
      → Known d.id
      → Gives (λ r. Unit {0}) (one_instruction f d last sets)
  unfolding one_instruction
  one_instruction-Gives d last (a, b) (info, known) =
      Gives->>= (Gives-eq {P = λ (x : InstInfo). Unit {0}} known tt) (λ info' _. gives tt)

  need-Gives :
      (h : ℕ → ℕ) (d : DynamicInst) (last : ℤ) (s : State)
      → Known d.id
      → Safe h s
      → Gives (Safe h) (need f d last s)
  unfolding need
  need-Gives h d last s k p =
      Gives->>= (one_instruction-Gives d last (s.needed, s.mem_depended) k)
        (λ sets _. gives (record { funs = p.funs; nexts = p.nexts; terminators = p.terminators }))

  block_insts-Gives :
      (b : SmallestBlock) (diff : ℤ) (s : State) (ids : List ℕ)
      (acc : (List (ℕ × ℕ) × List DynamicInst) × List DynamicInst)
      → All Known ids
      → Gives (λ r. Unit {0}) (block_insts f b diff s ids acc)
  unfolding block_insts
  block_insts-Gives b diff s [] acc k = gives tt
  block_insts-Gives b diff s (id ∷ ids) (sets, l) (k, ks) =
      let d : DynamicInst = record { tid = b.tid; id = id; cnt = diff -ℤ pos (count s b.tid id) } in
      Gives-if (set_count sets.0 (b.tid, id) || set_count sets.1 d)
        (λ c.
          Gives->>= (one_instruction-Gives d b.last_bbid sets k)
            (λ sets' _. block_insts-Gives b diff s ids (sets', set_erase l d) ks))
        (λ c. block_insts-Gives b diff s ids (sets, l) ks)

  one_block-Gives :
      (h : ℕ → ℕ) (d : DynamicInst) (b : SmallestBlock) (bb : ℕ) (s : State)
      → Known d.id
      → HasBody bb
      → Safe h s
      → Gives (Safe h) (one_block f d b bb s)
  unfolding one_block
  one_block-Gives h d b bb s k (insts, body) p =
      Gives->>= (one_instruction-Gives d b.last_bbid ([], s.mem_depended) k) (λ sets _.
        Gives->>=
          (Gives-eq {P = λ ids. All Known ids} body (bodies-Known f.program.bb2ins bb w body))
          (λ ids ks.
            Gives->>=
              (block_insts-Gives b (d.cnt +ℤ pos (count s b.tid d.id)) s (reverse ids)
                (sets, set_erase s.unneeded_di d) (All-reverse Known ids ks))
              (λ acc _.
                gives (record { funs = p.funs; nexts = p.nexts; terminators = p.terminators }))))

  pub finish_terminator-Gives :
      (h : ℕ → ℕ) (b : SmallestBlock) (bb : ℕ) (s : State)
      → 0 < h b.tid
      → HasBody bb
      → Safe h s
      → Gives (Safe h) (finish_terminator f b bb s)
  unfolding finish_terminator
  finish_terminator-Gives h b bb s high body p =
      Gives->>= (top-Gives OkTerminator h s.terminator_stack b.tid p.terminators high) (λ t ok.
        Gives-if t.used (λ c. gives p) (λ c. one_block-Gives h t.inst b bb s (ok c) body p))

  used_up : (bb : ℕ) → OkTerminator (no_terminator bb)
  used_up bb e = absurd (true≢false e)
    where
      true≢false : true ≡ false → ⊥
      true≢false e = cc

  finish_block-Gives :
      (h : ℕ → ℕ) (b : SmallestBlock) (bb : ℕ) (s : State)
      → 0 < h b.tid
      → HasBody bb
      → Safe h s
      → Gives (Safe h) (finish_block f b bb s)
  unfolding finish_block
  finish_block-Gives h b bb s high body p =
      Gives->>= (finish_terminator-Gives h b bb s high body p) (λ s' q.
        Gives->>=
          (set_top-Gives OkTerminator h s'.terminator_stack b.tid (no_terminator b.bbid)
            q.terminators high (used_up b.bbid))
          (λ stacks ok. gives (record { funs = q.funs; nexts = q.nexts; terminators = ok })))

  next_block-Gives :
      (h : ℕ → ℕ) (b : SmallestBlock) (l : List (ℕ × Bool)) (s : State)
      → 0 < h b.tid
      → All OkNext l
      → Safe h s
      → Gives (Safe h) (next_block f b l s)
  unfolding next_block
  next_block-Gives h b [] s high a p = gives p
  next_block-Gives h b ((bb, used) ∷ rest) s high a p =
      Gives-if (not (bb == b.bbid) && used) (λ c. finish_block-Gives h b bb s high a.0 p)
        (λ c. gives p)

  open_frame-Safe :
      (h : ℕ → ℕ) (b : SmallestBlock) (s : State)
      → HasBody b.bbid
      → Safe h s
      → Safe (raise h b.tid) (open_frame b s)
  unfolding open_frame
  open_frame-Safe h b s body p = record {
    funs = push-HasHeight AnyUse h s.fun_used b.tid false p.funs tt;
    nexts = push-HasHeight OkNext h s.next_bb_used b.tid (b.bbid, false) p.nexts body;
    terminators =
        push-HasHeight OkTerminator h s.terminator_stack b.tid (no_terminator b.bbid) p.terminators
          (used_up b.bbid);
  }

  -- The frames that are open at a block.
  abbrev pub at_block : (ℕ → ℕ) → SmallestBlock → ℕ → ℕ
  at_block h b t = if equiv b.tid t then h t + flag b.is_last else h t

  pub start_block-Gives :
      (h : ℕ → ℕ) (b : SmallestBlock) (s : State)
      → HasBody b.bbid
      → 0 < h b.tid + flag b.is_last
      → Safe h s
      → Gives (Safe (at_block h b)) (start_block f b s)
  unfolding start_block
  start_block-Gives h b s body high p =
      Gives-if (ltb 0 b.is_last)
        (λ c. gives (
          Safe-mono (raise h b.tid) (at_block h b)
            (λ t. elim (Bool-cases (equiv b.tid t)) [
              | inl d ↦ rw (d, c) (omega arith)
              | inr d ↦ rw d (omega arith)
            ])
            (open_frame-Safe h b s body p)))
        (λ c.
          let none_closed : flag b.is_last ≡ 0 = rw c refl in
          Gives-imp
            (next_block-Gives h b (stack_of s.next_bb_used b.tid) s (omega arith) (p.nexts b.tid).1
              p)
            (λ t q.
              Safe-mono h (at_block h b)
                (λ t. elim (Bool-cases (equiv b.tid t)) [
                  | inl d ↦ rw d (omega (arith, none_closed))
                  | inr d ↦ rw d (omega arith)
                ])
                q))

  passed-Gives :
      (h : ℕ → ℕ) (tid id : ℕ) (used : Bool) (s : State)
      → 0 < h tid
      → Safe h s
      → Gives (Safe h) (passed tid id used s)
  unfolding passed mark_fun count_one
  passed-Gives h tid id used s high p =
      Gives->>= (top-Gives AnyUse h s.fun_used tid p.funs high) (λ x _.
        Gives->>= (set_top-Gives AnyUse h s.fun_used tid (x || used) p.funs high tt)
          (λ stacks ok. gives (record { funs = ok; nexts = p.nexts; terminators = p.terminators })))

  add_unneeded-Safe :
      (h : ℕ → ℕ) (d : DynamicInst) (s : State) → Safe h s → Safe h (add_unneeded d s)
  unfolding add_unneeded
  add_unneeded-Safe h d s p = record { funs = p.funs; nexts = p.nexts; terminators = p.terminators }

  if_Safe : (h : ℕ → ℕ) (c : Bool) (s t : State) → Safe h s → Safe h t → Safe h (if c then s else t)
  if_Safe h true s t p q = p
  if_Safe h false s t p q = q

  note_address-Gives :
      (h : ℕ → ℕ) (b : SmallestBlock) (id : ℕ) (s : State)
      → HasAddresses b.type b.addr
      → Safe h s
      → Gives (Safe h) (note_address b id s)
  unfolding note_address
  note_address-Gives h b id s has p =
      Gives-if (is_memory_access b.type)
        (λ c.
          let (l, r, first, second) = two b.type b.addr c has in
          Gives->>= (Gives-eq {P = λ (x : ℕ). Unit {0}} first tt) (λ l' _.
            Gives->>= (Gives-eq {P = λ (x : ℕ). Unit {0}} second tt) (λ r' _. gives (
              if_Safe h (ltb l' r') _ s
                (record { funs = p.funs; nexts = p.nexts; terminators = p.terminators }) p))))
        (λ c. gives p)
    where
      two :
          (type : SmallestBlockType) (addr : List ℕ)
          → is_memory_access type ≡ true
          → HasAddresses type addr
          → (l : ℕ) × (r : ℕ) × (get_elem? addr 0 ≡ some l) × (get_elem? addr 1 ≡ some r)
      two memory_access_block (l ∷ r ∷ []) c has = (l, r, refl, refl)
      two memory_access_block [] c has = absurd has
      two memory_access_block (l ∷ []) c has = absurd has
      two memory_access_block (l ∷ r ∷ x ∷ xs) c has = absurd has
      two memset_block addr c has = cc
      two memmove_block addr c has = cc
      two external_call_block addr c has = cc
      two impactful_call_block addr c has = cc
      two normal_block addr c has = cc
      two declare_block addr c has = cc

  need_or_not-Gives :
      (h : ℕ → ℕ) (b : SmallestBlock) (d : DynamicInst) (used : Bool) (s : State)
      → Known d.id
      → HasAddresses b.type b.addr
      → Safe h s
      → Gives (Safe h) (need_or_not f b d used s)
  unfolding need_or_not
  need_or_not-Gives h b d true s k has p = need-Gives h d b.last_bbid s k p
  need_or_not-Gives h b d false s k has p =
      Gives->>= (note_address-Gives h b d.id s has p) (λ t q. gives (add_unneeded-Safe h d t q))

  abbrev pub SafeState : (ℕ → ℕ) → State × Bool → Type 0
  SafeState h r = Safe h r.0

  pub run_impactful-Gives :
      (h : ℕ → ℕ) (b : SmallestBlock) (s : State)
      → 0 < h b.tid
      → IsSingle f.program b
      → Safe h s
      → Gives (SafeState h) (run_impactful f b s)
  unfolding run_impactful
  run_impactful-Gives h b s high one p =
      Gives->>= (Gives-eq {P = Known} one.at (one.info, one.known)) (λ id k.
        Gives->>= (need-Gives h (this_execution s b.tid id) b.last_bbid s k p)
          (λ s1 q. Gives->>= (passed-Gives h b.tid id true s1 high q) (λ s2 r. gives r)))

  pub run_access-Gives :
      (h : ℕ → ℕ) (b : SmallestBlock) (s : State)
      → 0 < h b.tid
      → IsSingle f.program b
      → HasAddresses b.type b.addr
      → Safe h s
      → Gives (SafeState h) (run_access f b s)
  unfolding run_access
  run_access-Gives h b s high one has p =
      Gives->>= (Gives-eq {P = Known} one.at (one.info, one.known)) (λ id k.
        let d = this_execution s b.tid id in
        Gives->>= (need_or_not-Gives h b d (is_needed s d) s k has p)
          (λ s1 q. Gives->>= (passed-Gives h b.tid id (is_needed s d) s1 high q) (λ s2 r. gives r)))

  run_terminator-Gives :
      (h : ℕ → ℕ) (b : SmallestBlock) (d : DynamicInst) (was : Bool) (s : State)
      → 0 < h b.tid
      → Known d.id
      → Safe h s
      → Gives (SafeState h) (run_terminator f b d was s)
  unfolding run_terminator
  run_terminator-Gives h b d was s high k p =
      Gives->>= (top-Gives OkNext h s.next_bb_used b.tid p.nexts high) (λ next _.
        Gives->>=
          (set_top-Gives OkTerminator h s.terminator_stack b.tid _ p.terminators high (λ c. k))
          (λ stacks ok. gives (record { funs = p.funs; nexts = p.nexts; terminators = ok })))

  return_needed-Gives :
      (b : SmallestBlock) (info : InstInfo) (was : Bool) (s : State)
      → (b.is_last ≡ 1) ⊎ (b.is_last ≡ 2)
      → Gives (λ used. Unit {0}) (return_needed b info was s)
  unfolding return_needed
  return_needed-Gives b info was s last =
      Gives-if (is_return_void info.code) (λ c. gives tt)
        (λ c.
          Gives-if (b.is_last == 2) (λ d. gives tt)
            (λ d.
              Gives-if (b.is_last == 1) (λ e. gives tt) (λ e. absurd (neither b.is_last last d e))))
    where
      neither : (n : ℕ) → (n ≡ 1) ⊎ (n ≡ 2) → (n == 2) ≡ false → (n == 1) ≡ false → ⊥
      neither n l d e = ground arith

  classify-Gives :
      (h : ℕ → ℕ) (b : SmallestBlock) (d : DynamicInst) (info : InstInfo) (type : InstType)
      (was : Bool) (s : State)
      → 0 < h b.tid
      → Known d.id
      → (type ≡ return_inst → (b.is_last ≡ 1) ⊎ (b.is_last ≡ 2))
      → Safe h s
      → Gives (SafeState h) (classify f b d info type was s)
  unfolding classify
  classify-Gives h b d info terminator_inst was s high k last p =
      run_terminator-Gives h b d was s high k p
  classify-Gives h b d info return_inst was s high k last p =
      Gives->>= (return_needed-Gives b info was s (last refl)) (λ used _. gives p)
  classify-Gives h b d info _ was s high k last p = gives p

  settle-Gives :
      (h : ℕ → ℕ) (b : SmallestBlock) (d : DynamicInst) (info : InstInfo) (used : Bool) (s : State)
      → Known d.id
      → Safe h s
      → Gives (Safe h) (settle f b d info used s)
  unfolding settle
  settle-Gives h b d info true s k p = need-Gives h d b.last_bbid s k p
  settle-Gives h b d info false s k p = gives (
      if_Safe h (is_terminator info.type && leb (length info.successors) 1) s (add_unneeded d s) p
        (add_unneeded-Safe h d s p))

  run_inst-Gives :
      (h : ℕ → ℕ) (b : SmallestBlock) (i : ℕ) (s : State)
      → 0 < h b.tid
      → IsStretch f.program b
      → i < b.end
      → Safe h s
      → Gives (SafeState h) (run_inst f b i s)
  unfolding run_inst
  run_inst-Gives h b i s high st less p =
      let (id, at) = elem_at st.insts i (omega (arith, st.within)) in
      let (info, known, _) = inst_known f.program b.bbid i id w st.body at in
      let there : inst_at f.program b.bbid i ≡ some id = rw st.body at in
      Gives->>= (Gives-eq {P = λ x. x ≡ id} there refl) (λ id' same.
        Gives->>= (Gives-eq {P = λ x. x ≡ info} (ap (inst_info f.program) same ∙ known) refl)
          (λ info' same_info.
            let k : Known id' = (info, ap (inst_info f.program) same ∙ known) in
            let d = this_execution s b.tid id' in
            Gives->>=
              (classify-Gives h b d info' info'.type (set_count s.needed (b.tid, id')) s high k
                (λ t.
                  st.marked i id info less at known
                    (ap (λ (x : InstInfo). x.type) (sym same_info) ∙ t))
                p)
              (λ marked q. Gives->>= (settle-Gives h b d info' marked.1 marked.0 k q) (λ s1 r.
                Gives->>= (passed-Gives h b.tid id' marked.1 s1 high r) (λ s2 u. gives u)))))
    where
      elem_at : (xs : List ℕ) (i : ℕ) → i < length xs → (id : ℕ) × (get_elem? xs i ≡ some id)
      elem_at [] i m = absurd (omega arith)
      elem_at (x ∷ xs) zero m = (x, refl)
      elem_at (x ∷ xs) (suc i) m = elem_at xs i (omega arith)

  pub run_insts-Gives :
      (h : ℕ → ℕ) (b : SmallestBlock) (n : ℕ) (s : State) (used : Bool)
      → 0 < h b.tid
      → IsStretch f.program b
      → b.start + n ≤ b.end
      → Safe h s
      → Gives (SafeState h) (run_insts f b n (s, used))
  unfolding run_insts
  run_insts-Gives h b zero s used high st le p = gives p
  run_insts-Gives h b (suc n) s used high st le p =
      Gives->>= (run_inst-Gives h b (b.start + n) s high st (omega arith) p)
        (λ r q. run_insts-Gives h b n r.0 (used || r.1) high st (omega arith) q)
