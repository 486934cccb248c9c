-- ===== src/Unneeded/Numbers.antt =====
-- The numbers of the executions that the pass collects: each execution is met once, so that what has
-- been passed is not collected later.
use mathlib.Core.List.{reverse}
use mathlib.Core.Path.{subst}
use slimmer.Base.{
  ℕ, ◌≤◌, ◌<◌, ◌≡◌, refl, ◌∙◌, ℤ, pos, ◌+ℤ◌, ◌-ℤ◌, Bool, true, false, ◌||◌, ◌==◌, ltb, List, [],
  ◌∷◌, AllOf, just, AllOf->>=, AllOf-after, AllOf-imp, AllOf-if, if◌then◌else◌, get_elem?,
  set_count, set_erase, set_count-erase, pair_order, nat_order, ◌⊎◌, inl, inr, arith,
}
use slimmer.Program.{DynamicInst, dynamic_order, SmallestBlock}
use slimmer.Unneeded.Stacks.{top, set_top, pop, stack_of}
use slimmer.Unneeded.Instruction.{Facts, one_instruction}
use slimmer.Unneeded.Pass.{
  State, no_terminator, count, need, block_insts, one_block, open_frame, finish_terminator,
  finish_block, next_block, start_block, use_block, need_caller, last_terminator, close_frame,
  leave_function, end_block,
}

-- The counts stay and nothing is collected.
pub record Keeps (s s' : State) : Type 0 where
  pub counts : s'.inst_count ≡ s.inst_count
  pub unneeded :
      (x : DynamicInst) → set_count s'.unneeded_di x ≡ true → set_count s.unneeded_di x ≡ true

pub Keeps-refl : (s : State) → Keeps s s
Keeps-refl s = record { counts = refl; unneeded = λ x h. h }

pub Keeps-trans : {s t u : State} → Keeps s t → Keeps t u → Keeps s u
Keeps-trans p q = record {
  counts = q.counts ∙ p.counts;
  unneeded = λ x h. p.unneeded x (q.unneeded x h);
}

-- An execution whose number was given out between two states.
abbrev pub IsBetween : State → State → DynamicInst → Type 0
IsBetween s s' x =
    (n : ℕ) × (count s x.tid x.id ≤ n) × (n < count s' x.tid x.id) × (x.cnt ≡ pos 0 -ℤ pos n)

-- The counts grow, and only executions counted on the way are collected.
pub record Grows (s s' : State) : Type 0 where
  pub counts : (tid id : ℕ) → count s tid id ≤ count s' tid id
  pub unneeded :
      (x : DynamicInst)
      → set_count s'.unneeded_di x ≡ true
      → (set_count s.unneeded_di x ≡ true) ⊎ IsBetween s s' x

pub Keeps-Grows : {s s' : State} → Keeps s s' → Grows s s'
Keeps-Grows {s} {s'} p = record {
  counts = λ tid id. rw (p.counts) (omega arith);
  unneeded = λ x h. inl (p.unneeded x h);
}

pub Grows-trans : {s t u : State} → Grows s t → Grows t u → Grows s u
Grows-trans {s} {t} {u} p q = record {
  counts = λ tid id. omega (arith, p.counts tid id, q.counts tid id);
  unneeded = λ x h. elim (q.unneeded x h) [
    | inl k ↦ elim (p.unneeded x k) [
      | inl l ↦ inl l
      | inr (n, a, b, c) ↦ inr (n, a, omega (arith, b, q.counts x.tid x.id), c)
    ]
    | inr (n, a, b, c) ↦ inr (n, omega (arith, a, p.counts x.tid x.id), b, c)
  ];
}

pub same_count :
    (s t : State) → t.inst_count ≡ s.inst_count → t.unneeded_di ≡ s.unneeded_di → Keeps s t
same_count s t p q = record {
  counts = p;
  unneeded = λ x h. subst (λ (l : List DynamicInst). set_count l x ≡ true) q h;
}

pub need-Keeps :
    (f : Facts) (d : DynamicInst) (last : ℤ) (s : State) → AllOf (Keeps s) (need f d last s)
unfolding need
need-Keeps f d last s =
    AllOf-after (one_instruction f d last (s.needed, s.mem_depended))
      (λ sets. just (same_count s _ refl refl))

-- What is taken out of a set was in it.
erase_less :
    (l : List DynamicInst) (d x : DynamicInst)
    → set_count (set_erase l d) x ≡ true
    → set_count l x ≡ true
erase_less l d x h = let e = set_count-erase l d x in ground arith

abbrev Less : List DynamicInst → (List (ℕ × ℕ) × List DynamicInst) × List DynamicInst → Type 0
Less l acc = (x : DynamicInst) → set_count acc.1 x ≡ true → set_count l x ≡ true

block_insts-Less :
    (f : Facts) (b : SmallestBlock) (diff : ℤ) (s : State) (ids : List ℕ)
    (sets : List (ℕ × ℕ) × List DynamicInst) (l : List DynamicInst)
    → AllOf (Less l) (block_insts f b diff s ids (sets, l))
unfolding block_insts
block_insts-Less f b diff s [] sets l = just (λ x h. h)
block_insts-Less f b diff s (id ∷ ids) sets l =
    let d : DynamicInst = record { tid = b.tid; id = id; cnt = diff -ℤ pos (count s b.tid id) } in
    AllOf-if (set_count sets.0 (b.tid, id) || set_count sets.1 d)
      (AllOf-after (one_instruction f d b.last_bbid sets) (λ sets'.
        AllOf-imp (block_insts-Less f b diff s ids sets' (set_erase l d))
          (λ acc p x h. erase_less l d x (p x h))))
      (block_insts-Less f b diff s ids sets l)

one_block-Keeps :
    (f : Facts) (d : DynamicInst) (b : SmallestBlock) (bb : ℕ) (s : State)
    → AllOf (Keeps s) (one_block f d b bb s)
unfolding one_block
one_block-Keeps f d b bb s =
    AllOf-after (one_instruction f d b.last_bbid ([], s.mem_depended)) (λ sets.
      AllOf-after (get_elem? f.program.bb2ins bb) (λ ids.
        AllOf->>=
          (block_insts-Less f b (d.cnt +ℤ pos (count s b.tid d.id)) s (reverse ids) sets
            (set_erase s.unneeded_di d))
          (λ acc p.
            just
              (record { counts = refl; unneeded = λ x h. erase_less s.unneeded_di d x (p x h) }))))

finish_terminator-Keeps :
    (f : Facts) (b : SmallestBlock) (bb : ℕ) (s : State)
    → AllOf (Keeps s) (finish_terminator f b bb s)
unfolding finish_terminator
finish_terminator-Keeps f b bb s =
    AllOf-after (top s.terminator_stack b.tid)
      (λ t. AllOf-if t.used (just (Keeps-refl s)) (one_block-Keeps f t.inst b bb s))

finish_block-Keeps :
    (f : Facts) (b : SmallestBlock) (bb : ℕ) (s : State) → AllOf (Keeps s) (finish_block f b bb s)
unfolding finish_block
finish_block-Keeps f b bb s = AllOf->>= (finish_terminator-Keeps f b bb s) (λ s' p.
    AllOf-after (set_top s'.terminator_stack b.tid (no_terminator b.bbid))
      (λ stacks. just (Keeps-trans p (same_count s' _ refl refl))))

next_block-Keeps :
    (f : Facts) (b : SmallestBlock) (l : List (ℕ × Bool)) (s : State)
    → AllOf (Keeps s) (next_block f b l s)
unfolding next_block
next_block-Keeps f b [] s = just (Keeps-refl s)
next_block-Keeps f b ((bb, used) ∷ rest) s =
    AllOf-if _ (finish_block-Keeps f b bb s) (just (Keeps-refl s))

pub start_block-Keeps :
    (f : Facts) (b : SmallestBlock) (s : State) → AllOf (Keeps s) (start_block f b s)
unfolding start_block open_frame
start_block-Keeps f b s =
    AllOf-if (ltb 0 b.is_last) (just (same_count s _ refl refl))
      (next_block-Keeps f b (stack_of s.next_bb_used b.tid) s)

use_block-Keeps :
    (b : SmallestBlock) (used : Bool) (s : State) → AllOf (Keeps s) (use_block b used s)
unfolding use_block
use_block-Keeps b used s = AllOf-after (top s.next_bb_used b.tid) (λ next.
    AllOf-after
      (set_top s.next_bb_used b.tid (b.bbid, if next.0 == b.bbid then next.1 || used else used))
      (λ stacks. just (same_count s _ refl refl)))

if_Keeps : (s t u : State) (c : Bool) → Keeps s t → Keeps s u → Keeps s (if c then t else u)
if_Keeps s t u true p q = p
if_Keeps s t u false p q = q

need_caller-Keeps : (b : SmallestBlock) (s : State) → AllOf (Keeps s) (need_caller b s)
unfolding need_caller
need_caller-Keeps b s =
    AllOf-after (top s.fun_used b.tid)
      (λ used. just (if_Keeps s _ s _ (same_count s _ refl refl) (Keeps-refl s)))

leave_function-Keeps :
    (f : Facts) (b : SmallestBlock) (s : State) → AllOf (Keeps s) (leave_function f b s)
unfolding leave_function last_terminator close_frame
leave_function-Keeps f b s = AllOf->>= (need_caller-Keeps b s) (λ s1 p.
    AllOf->>= {P = Keeps s1}
      (AllOf-after (top s1.next_bb_used b.tid)
        (λ next. AllOf-if next.1 (finish_terminator-Keeps f b b.bbid s1) (just (Keeps-refl s1))))
      (λ s2 q. AllOf-after (pop s2.fun_used b.tid) (λ a.
        AllOf-after (pop s2.next_bb_used b.tid) (λ c.
          AllOf-after (pop s2.terminator_stack b.tid)
            (λ e. just (Keeps-trans p (Keeps-trans q (same_count s2 _ refl refl))))))))

pub end_block-Keeps :
    (f : Facts) (b : SmallestBlock) (used : Bool) (s : State)
    → AllOf (Keeps s) (end_block f b used s)
unfolding end_block
end_block-Keeps f b used s = AllOf->>= (use_block-Keeps b used s) (λ s1 p.
    AllOf-if (ltb 0 b.is_first) (AllOf-imp (leave_function-Keeps f b s1) (λ t q. Keeps-trans p q))
      (just p))
