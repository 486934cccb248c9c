-- ===== src/Unneeded/Totality.antt =====
-- The backward pass comes to its end on every trace whose blocks name instructions of the program
-- and stand in frames that are opened before they are closed.
use mathlib.Core.List.{reverse}
use slimmer.Base.{
  ℕ, ◌+◌, ◌-◌, ◌<◌, ◌≤◌, ◌≡◌, ◌∙◌, refl, Bool, true, false, not, ◌&&◌, ◌==◌, ltb, ◌^◌, List, [],
  ◌∷◌, some, All, All-reverse, nat_order, pair_order, equiv, equiv_iff, Gives, gives, Gives->>=,
  Gives-imp, Gives-if, Gives-eq, result, >>=-eq-some, get_elem?, inl, inr, Bool-cases, arith,
}
use slimmer.Program.{
  InstInfo, DynamicInst, SmallestBlock, SmallestBlockType, normal_block, memory_access_block,
  external_call_block, impactful_call_block, memset_block, memmove_block, declare_block, inst_info,
}
use slimmer.Blocks.{
  flag, declares, in_front, IsNested, IsNestedTrace, IsProgram, IsSingle, HasAddresses, NamesInsts,
  IsValid,
}
use slimmer.Unneeded.Instruction.{Facts}
use slimmer.Unneeded.Pass.{
  State, is_declare, run_body, passed_over, use_block, need_caller, last_terminator, close_frame,
  leave_function, end_block, run_started, run_block, run_back, start, extract_uneeded_operation,
}
use slimmer.Unneeded.Heights.{lower, top-Gives, set_top-Gives, pop-Gives}
use slimmer.Unneeded.Safety.{
  AnyUse, OkNext, OkTerminator, Safe, Safe-mono, SafeState, HasBody, at_block, start_block-Gives,
  finish_terminator-Gives, run_impactful-Gives, run_access-Gives, run_insts-Gives,
}

module _ (f : Facts) (w : IsProgram f.program) where
  use_block-Gives :
      (h : ℕ → ℕ) (b : SmallestBlock) (used : Bool) (s : State)
      → 0 < h b.tid
      → HasBody f w b.bbid
      → Safe f w h s
      → Gives (Safe f w h) (use_block b used s)
  unfolding use_block
  use_block-Gives h b used s high body p =
      Gives->>= (top-Gives (OkNext f w) h s.next_bb_used b.tid p.nexts high) (λ next _.
        Gives->>= (set_top-Gives (OkNext f w) h s.next_bb_used b.tid _ p.nexts high body)
          (λ stacks ok. gives (record { funs = p.funs; nexts = ok; terminators = p.terminators })))

  need_caller-Gives :
      (h : ℕ → ℕ) (b : SmallestBlock) (s : State)
      → 0 < h b.tid
      → Safe f w h s
      → Gives (Safe f w h) (need_caller b s)
  unfolding need_caller
  need_caller-Gives h b s high p =
      Gives->>= (top-Gives (AnyUse f w) h s.fun_used b.tid p.funs high) (λ used _.
        elim (Bool-cases ((b.is_first == 1) && used && not (b.caller == 2 ^ 32 - 1))) [
          | inl c ↦
              rw c (gives (record { funs = p.funs; nexts = p.nexts; terminators = p.terminators }))
          | inr c ↦ rw c (gives p)
        ])

  last_terminator-Gives :
      (h : ℕ → ℕ) (b : SmallestBlock) (s : State)
      → 0 < h b.tid
      → HasBody f w b.bbid
      → Safe f w h s
      → Gives (Safe f w h) (last_terminator f b s)
  unfolding last_terminator
  last_terminator-Gives h b s high body p =
      Gives->>= (top-Gives (OkNext f w) h s.next_bb_used b.tid p.nexts high) (λ next _.
        Gives-if next.1 (λ c. finish_terminator-Gives f w h b b.bbid s high body p) (λ c. gives p))

  close_frame-Gives :
      (h : ℕ → ℕ) (b : SmallestBlock) (s : State)
      → 0 < h b.tid
      → Safe f w h s
      → Gives (Safe f w (lower h b.tid)) (close_frame b s)
  unfolding close_frame
  close_frame-Gives h b s high p =
      Gives->>= (pop-Gives (AnyUse f w) h s.fun_used b.tid p.funs high) (λ funs a.
        Gives->>= (pop-Gives (OkNext f w) h s.next_bb_used b.tid p.nexts high) (λ nexts c.
          Gives->>= (pop-Gives (OkTerminator f w) h s.terminator_stack b.tid p.terminators high)
            (λ terminators d. gives (record { funs = a; nexts = c; terminators = d }))))

  leave_function-Gives :
      (h : ℕ → ℕ) (b : SmallestBlock) (s : State)
      → 0 < h b.tid
      → HasBody f w b.bbid
      → Safe f w h s
      → Gives (Safe f w (lower h b.tid)) (leave_function f b s)
  unfolding leave_function
  leave_function-Gives h b s high body p = Gives->>= (need_caller-Gives h b s high p) (λ s1 q.
      Gives->>= (last_terminator-Gives h b s1 high body q)
        (λ s2 r. close_frame-Gives h b s2 high r))

  end_block-Gives :
      (h : ℕ → ℕ) (b : SmallestBlock) (used : Bool) (s : State)
      → declares b.type ≡ false
      → 0 < at_block f w h b b.tid
      → HasBody f w b.bbid
      → Safe f w (at_block f w h b) s
      → Gives (Safe f w (in_front h b)) (end_block f b used s)
  unfolding end_block
  end_block-Gives h b used s plain high body p =
      let k = at_block f w h b in
      Gives->>= (use_block-Gives k b used s high body p) (λ s1 q.
        Gives-if (ltb 0 b.is_first)
          (λ c.
            Gives-imp (leave_function-Gives k b s1 high body q)
              (λ t r. Safe-mono f w (lower k b.tid) (in_front h b) (λ u. closed c u) r))
          (λ c. gives (Safe-mono f w k (in_front h b) (λ u. kept c u) q)))
    where
      closed : ltb 0 b.is_first ≡ true → (u : ℕ) → in_front h b u ≤ lower (at_block f w h b) b.tid u
      closed c u = elim (Bool-cases (equiv b.tid u)) [
        | inl d ↦ rw (plain, d, c) (omega arith)
        | inr d ↦ rw (plain, d) (omega arith)
      ]

      kept : ltb 0 b.is_first ≡ false → (u : ℕ) → in_front h b u ≤ at_block f w h b u
      kept c u = elim (Bool-cases (equiv b.tid u)) [
        | inl d ↦ rw (plain, d, c) (omega arith)
        | inr d ↦ rw (plain, d) (omega arith)
      ]

  single_body : (b : SmallestBlock) → IsSingle f.program b → HasBody f w b.bbid
  single_body b one =
      let (insts, body, _) =
        >>=-eq-some (get_elem? f.program.bb2ins b.bbid) (λ insts. get_elem? insts b.start) one.at in
      (insts, body)

  names_body :
      (b : SmallestBlock) (type : SmallestBlockType)
      → declares type ≡ false
      → NamesInsts f.program b type
      → HasBody f w b.bbid
  names_body b normal_block c n = (n.insts, n.body)
  names_body b declare_block c n = cc
  names_body b memory_access_block c n = single_body b n
  names_body b memset_block c n = single_body b n
  names_body b memmove_block c n = single_body b n
  names_body b external_call_block c n = single_body b n
  names_body b impactful_call_block c n = single_body b n

  run_body-Gives :
      (h : ℕ → ℕ) (b : SmallestBlock) (type : SmallestBlockType) (s : State)
      → b.type ≡ type
      → 0 < h b.tid
      → NamesInsts f.program b type
      → HasAddresses b.type b.addr
      → Safe f w h s
      → Gives (SafeState f w h) (run_body f b type s)
  unfolding run_body
  run_body-Gives h b impactful_call_block s e high n a p = run_impactful-Gives f w h b s high n p
  run_body-Gives h b normal_block s e high n a p =
      run_insts-Gives f w h b (b.end - b.start) s false high n (omega (arith, n.ordered)) p
  run_body-Gives h b declare_block s e high n a p = gives p
  run_body-Gives h b memory_access_block s e high n a p = run_access-Gives f w h b s high n a p
  run_body-Gives h b memset_block s e high n a p = run_access-Gives f w h b s high n a p
  run_body-Gives h b memmove_block s e high n a p = run_access-Gives f w h b s high n a p
  run_body-Gives h b external_call_block s e high n a p = run_access-Gives f w h b s high n a p

  passed_over-Gives :
      (b : SmallestBlock) (type : SmallestBlockType)
      → NamesInsts f.program b type
      → Gives (λ over. Unit {0}) (passed_over f b type)
  unfolding passed_over
  passed_over-Gives b external_call_block n =
      Gives->>=
        (Gives-eq {P = λ id. (info : InstInfo) × (inst_info f.program id ≡ some info)} n.at
          (n.info, n.known))
        (λ id (info, known).
          Gives->>= (Gives-eq {P = λ (x : InstInfo). Unit {0}} known tt) (λ info' _. gives tt))
  passed_over-Gives b normal_block n = gives tt
  passed_over-Gives b declare_block n = gives tt
  passed_over-Gives b memory_access_block n = gives tt
  passed_over-Gives b memset_block n = gives tt
  passed_over-Gives b memmove_block n = gives tt
  passed_over-Gives b impactful_call_block n = gives tt

  run_started-Gives :
      (h : ℕ → ℕ) (b : SmallestBlock) (s : State)
      → declares b.type ≡ false
      → 0 < at_block f w h b b.tid
      → IsValid f.program b
      → Safe f w (at_block f w h b) s
      → Gives (Safe f w (in_front h b)) (run_started f b s)
  unfolding run_started
  run_started-Gives h b s plain high (names, has) p =
      Gives->>= (run_body-Gives (at_block f w h b) b b.type s refl high names has p)
        (λ r q. end_block-Gives h b r.1 r.0 plain high (names_body b b.type plain names) q)

  -- A block that is passed over leaves its frames behind, which does no harm.
  left_open : (h : ℕ → ℕ) (b : SmallestBlock) (t : ℕ) → in_front h b t ≤ at_block f w h b t
  left_open h b t = elim (Bool-cases (declares b.type)) [
    | inl c ↦ rw c (elim (Bool-cases (equiv b.tid t)) [
      | inl d ↦ rw d (omega arith)
      | inr d ↦ rw d (omega arith)
    ])
    | inr c ↦ rw c (elim (Bool-cases (equiv b.tid t)) [
      | inl d ↦ rw d (omega arith)
      | inr d ↦ rw d (omega arith)
    ])
  ]

  is_declare_lem : (type : SmallestBlockType) → is_declare type ≡ declares type
  is_declare_lem declare_block = refl
  is_declare_lem normal_block = refl
  is_declare_lem memory_access_block = refl
  is_declare_lem memset_block = refl
  is_declare_lem memmove_block = refl
  is_declare_lem external_call_block = refl
  is_declare_lem impactful_call_block = refl

  plain_block-Gives :
      (h : ℕ → ℕ) (b : SmallestBlock) (s : State)
      → declares b.type ≡ false
      → 0 < h b.tid + flag b.is_last
      → IsValid f.program b
      → Safe f w h s
      → Gives (Safe f w (in_front h b)) (run_block f b s)
  unfolding run_block
  plain_block-Gives h b s plain inside (names, has) p = rw (is_declare_lem b.type ∙ plain) (
      Gives->>= (start_block-Gives f w h b s (names_body b b.type plain names) inside p) (λ s1 q.
        Gives->>= (passed_over-Gives b b.type names) (λ over _.
          Gives-if over
            (λ c. gives (Safe-mono f w (at_block f w h b) (in_front h b) (left_open h b) q))
            (λ c. run_started-Gives h b s1 plain high (names, has) q))))
    where
      high : 0 < at_block f w h b b.tid
      high = rw ((equiv_iff b.tid b.tid).1 refl) inside

  declare_block-Gives :
      (h : ℕ → ℕ) (b : SmallestBlock) (s : State)
      → declares b.type ≡ true
      → Safe f w h s
      → Gives (Safe f w (in_front h b)) (run_block f b s)
  unfolding run_block
  declare_block-Gives h b s c p =
      rw (is_declare_lem b.type ∙ c) (gives (Safe-mono f w h (in_front h b) (λ t. same t) p))
    where
      same : (t : ℕ) → in_front h b t ≤ h t
      same t = rw c (omega arith)

  run_block-Gives :
      (h : ℕ → ℕ) (b : SmallestBlock) (s : State)
      → (declares b.type ≡ false → 0 < h b.tid + flag b.is_last)
      → IsValid f.program b
      → Safe f w h s
      → Gives (Safe f w (in_front h b)) (run_block f b s)
  run_block-Gives h b s inside valid p = elim (Bool-cases (declares b.type)) [
    | inl c ↦ declare_block-Gives h b s c p
    | inr c ↦ plain_block-Gives h b s c (inside c) valid p
  ]

  run_back-Gives :
      (h : ℕ → ℕ) (blocks : List SmallestBlock) (s : State)
      → IsNested h blocks
      → All (IsValid f.program) blocks
      → Safe f w h s
      → Gives (λ t. Unit {0}) (run_back f blocks s)
  unfolding run_back
  run_back-Gives h [] s n valid p = gives tt
  run_back-Gives h (b ∷ bs) s (inside, n) (valid, rest) p =
      Gives->>= (run_block-Gives h b s inside valid p)
        (λ t q. run_back-Gives (in_front h b) bs t n rest q)

-- Where the basic blocks name the program's instructions and return at their ends only, a trace of
-- valid and nested blocks is analysed to its end: no instruction is looked up in vain, no empty stack
-- is read or popped and no assertion fails.
pub extract_uneeded_operation-succeeds :
    (f : Facts) (blocks : List SmallestBlock) (addr2unneeded : List (ℕ × List ℕ))
    → IsProgram f.program
    → All (IsValid f.program) blocks
    → IsNestedTrace blocks
    → (r : List DynamicInst × List (ℕ × List ℕ)) × (extract_uneeded_operation f blocks addr2unneeded
        ≡ some r)
unfolding extract_uneeded_operation start
extract_uneeded_operation-succeeds f blocks addr2unneeded w valid nested =
    let (r, e, _) = result {P = λ (r : List DynamicInst × List (ℕ × List ℕ)). Unit {0}} (
      Gives->>=
        (run_back-Gives f w (λ t. 0) (reverse blocks) (start addr2unneeded) nested
          (All-reverse (IsValid f.program) blocks valid) empty)
        (λ s _. gives tt)) in
    (r, e)
  where
    empty : Safe f w (λ t. 0) (start addr2unneeded)
    empty = record {
      funs = λ t. (omega arith, tt);
      nexts = λ t. (omega arith, tt);
      terminators = λ t. (omega arith, tt);
    }
