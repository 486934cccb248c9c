-- ===== src/Unneeded/Reported.antt =====
-- What the pass reports: executions of the trace, and never one that an impactful call made.
use mathlib.Core.List.{reverse, reverse-append, reverse-cons, append_assoc}
use mathlib.Core.Path.{subst}
use slimmer.Base.{
  ℕ, zero, suc, ◌+◌, ◌-◌, ◌<◌, ◌≡◌, refl, sym, ◌∙◌, ap, pos, neg_part, ◌-ℤ◌, Bool, true, false,
  ◌||◌, List, [], ◌∷◌, ◌++◌, Option, none, some, ◌>>=◌, >>=-eq-some, AllOf, just, AllOf->>=,
  AllOf-after, AllOf-imp, AllOf-if, AllOf-some, if◌then◌else◌, map_at, set_count, pair_order,
  nat_order, ◌≢◌, inl, inr, arith,
}
use slimmer.Program.{
  DynamicInst, dynamic_order, SmallestBlock, SmallestBlockType, normal_block, memory_access_block,
  external_call_block, impactful_call_block, memset_block, memmove_block, declare_block, inst_at,
  inst_info,
}
use slimmer.Unneeded.Instruction.{Facts}
use slimmer.Unneeded.Pass.{
  State, count, this_execution, run_impactful, run_access, run_inst, run_insts, run_body,
  passed_over, run_started, start_block, end_block, run_block, run_back, is_needed, is_declare,
  start, extract_uneeded_operation,
}
use slimmer.Unneeded.Numbers.{
  Keeps, Keeps-refl, Grows, Keeps-Grows, Grows-trans, need-Keeps, start_block-Keeps,
  end_block-Keeps,
}
use slimmer.Unneeded.Growth.{
  Keeps-Adds-trans, need_or_not-Adds, settle-Adds, classify-Keeps, Counts, passed-Counts,
  Counts-more, Counts-grow, Adds-Counts,
}

Grows-refl : (s : State) → Grows s s
Grows-refl s = Keeps-Grows (Keeps-refl s)

run_access-Grows :
    (f : Facts) (b : SmallestBlock) (s : State) → AllOf (λ r. Grows s r.0) (run_access f b s)
unfolding run_access
run_access-Grows f b s = AllOf-after (inst_at f.program b.bbid b.start) (λ id.
    let d = this_execution s b.tid id in
    AllOf->>= (need_or_not-Adds f b d (is_needed s d) s) (λ s1 p.
      AllOf->>= (passed-Counts b.tid id (is_needed s d) s1) (λ s2 q. just (Adds-Counts p q))))

-- An instruction is classified, then settled as the execution that it was before.
run_inst-Grows :
    (f : Facts) (b : SmallestBlock) (i : ℕ) (s : State)
    → AllOf (λ r. Grows s r.0) (run_inst f b i s)
unfolding run_inst
run_inst-Grows f b i s = AllOf-after (inst_at f.program b.bbid i) (λ id.
    AllOf-after (inst_info f.program id) (λ info.
      let d = this_execution s b.tid id in
      AllOf->>= (classify-Keeps f b d info info.type (set_count s.needed (b.tid, id)) s)
        (λ marked k. AllOf->>= (settle-Adds f b d info marked.1 marked.0) (λ s1 p.
          AllOf->>= (passed-Counts b.tid id marked.1 s1)
            (λ s2 q. just (Adds-Counts (Keeps-Adds-trans k p) q))))))

run_insts-Grows :
    (f : Facts) (b : SmallestBlock) (n : ℕ) (s : State) (used : Bool)
    → AllOf (λ r. Grows s r.0) (run_insts f b n (s, used))
unfolding run_insts
run_insts-Grows f b zero s used = just (Grows-refl s)
run_insts-Grows f b (suc n) s used =
    AllOf->>= (run_inst-Grows f b (b.start + n) s)
      (λ r p. AllOf-imp (run_insts-Grows f b n r.0 (used || r.1)) (λ t q. Grows-trans p q))

-- One execution is counted and none collected.
record Passes (tid id : ℕ) (s t : State) : Type 0 where
  grows : Grows s t
  one_more : count s tid id < count t tid id
  unneeded : (x : DynamicInst) → set_count t.unneeded_di x ≡ true → set_count s.unneeded_di x ≡ true

Keeps-Counts : {tid id : ℕ} {s t u : State} → Keeps s t → Counts tid id t u → Passes tid id s u
Keeps-Counts {tid} {id} {s} {t} {u} p q =
    let same : (a b : ℕ) → count t a b ≡ count s a b =
      λ a b. ap (λ (m : List ((ℕ × ℕ) × ℕ)). map_at 0 m (a, b)) p.counts in
    let less : (x : DynamicInst)
        → set_count u.unneeded_di x ≡ true
        → set_count s.unneeded_di x ≡ true =
      λ x h. p.unneeded x (subst (λ (l : List DynamicInst). set_count l x ≡ true) q.unneeded h) in
    record {
      grows = record {
        counts = λ a b. omega (arith, same a b, Counts-grow a b q);
        unneeded = λ x h. inl (less x h);
      };
      one_more = omega (arith, same tid id, Counts-more q);
      unneeded = less;
    }

Passes-around :
    {tid id : ℕ} {s t u v : State} → Keeps s t → Passes tid id t u → Keeps u v → Passes tid id s v
Passes-around {tid} {id} {s} {t} {u} {v} p q r =
    let before : count t tid id ≡ count s tid id =
      ap (λ (m : List ((ℕ × ℕ) × ℕ)). map_at 0 m (tid, id)) p.counts in
    let after : count v tid id ≡ count u tid id =
      ap (λ (m : List ((ℕ × ℕ) × ℕ)). map_at 0 m (tid, id)) r.counts in
    record {
      grows = Grows-trans (Keeps-Grows p) (Grows-trans q.grows (Keeps-Grows r));
      one_more = omega (arith, before, after, q.one_more);
      unneeded = λ x h. p.unneeded x (q.unneeded x (r.unneeded x h));
    }

run_impactful-Passes :
    (f : Facts) (b : SmallestBlock) (s : State) (id : ℕ)
    → inst_at f.program b.bbid b.start ≡ some id
    → AllOf (λ r. Passes b.tid id s r.0) (run_impactful f b s)
unfolding run_impactful
run_impactful-Passes f b s id e = rw e (
    AllOf->>= (need-Keeps f (this_execution s b.tid id) b.last_bbid s)
      (λ s1 p. AllOf->>= (passed-Counts b.tid id true s1) (λ s2 q. just (Keeps-Counts p q))))

run_impactful-Grows :
    (f : Facts) (b : SmallestBlock) (s : State) → AllOf (λ r. Grows s r.0) (run_impactful f b s)
unfolding run_impactful
run_impactful-Grows f b s = AllOf-after (inst_at f.program b.bbid b.start) (λ id.
    AllOf->>= (need-Keeps f (this_execution s b.tid id) b.last_bbid s)
      (λ s1 p. AllOf->>= (passed-Counts b.tid id true s1) (λ s2 q. just (Keeps-Counts p q).grows)))

run_body-Grows :
    (f : Facts) (b : SmallestBlock) (type : SmallestBlockType) (s : State)
    → AllOf (λ r. Grows s r.0) (run_body f b type s)
unfolding run_body
run_body-Grows f b impactful_call_block s = run_impactful-Grows f b s
run_body-Grows f b normal_block s = run_insts-Grows f b (b.end - b.start) s false
run_body-Grows f b declare_block s = just (Grows-refl s)
run_body-Grows f b memory_access_block s = run_access-Grows f b s
run_body-Grows f b external_call_block s = run_access-Grows f b s
run_body-Grows f b memset_block s = run_access-Grows f b s
run_body-Grows f b memmove_block s = run_access-Grows f b s

run_block-Grows : (f : Facts) (b : SmallestBlock) (s : State) → AllOf (Grows s) (run_block f b s)
unfolding run_block run_started
run_block-Grows f b s = AllOf-if (is_declare b.type) (just (Grows-refl s)) (
    AllOf->>= (start_block-Keeps f b s) (λ s1 p. AllOf-after (passed_over f b b.type) (λ over.
      AllOf-if over (just (Keeps-Grows p)) (
        AllOf->>= (run_body-Grows f b b.type s1) (λ r q.
          AllOf-imp (end_block-Keeps f b r.1 r.0)
            (λ t k. Grows-trans (Keeps-Grows p) (Grows-trans q (Keeps-Grows k))))))))

run_back-Grows :
    (f : Facts) (bs : List SmallestBlock) (s : State) → AllOf (Grows s) (run_back f bs s)
unfolding run_back
run_back-Grows f [] s = just (Grows-refl s)
run_back-Grows f (b ∷ bs) s =
    AllOf->>= (run_block-Grows f b s)
      (λ s' p. AllOf-imp (run_back-Grows f bs s') (λ t q. Grows-trans p q))

run_block-Passes :
    (f : Facts) (b : SmallestBlock) (s : State) (id : ℕ)
    → b.type ≡ impactful_call_block
    → inst_at f.program b.bbid b.start ≡ some id
    → AllOf (Passes b.tid id s) (run_block f b s)
unfolding run_block run_started passed_over run_body
run_block-Passes f b s id c e =
    subst
      (λ (type : SmallestBlockType). AllOf (Passes b.tid id s) (
        if is_declare type
        then some s
        else (start_block f b s >>= λ s1. passed_over f b type >>= λ over.
            if over then some s1 else (run_body f b type s1 >>= λ r. end_block f b r.1 r.0))))
      (sym c)
      (AllOf->>= (start_block-Keeps f b s) (λ s1 p.
        AllOf->>= (run_impactful-Passes f b s1 id e)
          (λ r q. AllOf-imp (end_block-Keeps f b r.1 r.0) (λ t k. Passes-around p q k))))

run_back-append :
    (f : Facts) (xs ys : List SmallestBlock) (s : State)
    → run_back f (xs ++ ys) s ≡ (run_back f xs s >>= λ s'. run_back f ys s')
unfolding run_back
run_back-append f [] ys s = refl
run_back-append f (x ∷ xs) ys s =
    elim (run_block f x s)
      as (λ (m : Option State).
        (m >>= λ s'. run_back f (xs ++ ys) s')
        ≡ ((m >>= λ s'. run_back f xs s') >>= λ s'. run_back f ys s')) [
          | none ↦ refl
          | some s' ↦ run_back-append f xs ys s'
        ]

neg_part-minus : (n : ℕ) → neg_part (pos 0 -ℤ pos n) ≡ n
unfolding ◌-ℤ◌
neg_part-minus zero = refl
neg_part-minus (suc n) = ground arith

negative_number : (m n : ℕ) → pos 0 -ℤ pos m ≡ pos 0 -ℤ pos n → m ≡ n
negative_number m n e = sym (neg_part-minus m) ∙ ap neg_part e ∙ neg_part-minus n

not_true : (b : Bool) → (b ≡ true → ⊥) → b ≡ false
not_true true h = absurd (h refl)
not_true false h = refl

-- The pass in three parts: what follows a block in the trace, the block, and what precedes it.
split_run :
    (f : Facts) (first rest : List SmallestBlock) (b : SmallestBlock) (s t : State)
    → run_back f (reverse (first ++ b ∷ rest)) s ≡ some t
    → (s1 : State) × (s2 : State) × (run_back f (reverse rest) s ≡ some s1)
      × (run_block f b s1 ≡ some s2)
      × (run_back f (reverse first) s2 ≡ some t)
unfolding run_back
split_run f first rest b s t h =
    let turned : reverse (first ++ b ∷ rest) ≡ reverse rest ++ b ∷ reverse first =
      reverse-append first (b ∷ rest)
      ∙ ap (λ (l : List SmallestBlock). l ++ reverse first) (reverse-cons b rest)
      ∙ append_assoc (reverse rest) (b ∷ []) (reverse first) in
    let (s1, e1, h1) =
      >>=-eq-some (run_back f (reverse rest) s) (λ s'. run_back f (b ∷ reverse first) s')
        (sym (run_back-append f (reverse rest) (b ∷ reverse first) s)
          ∙ subst (λ (l : List SmallestBlock). run_back f l s ≡ some t) turned h) in
    let (s2, e2, h2) = >>=-eq-some (run_block f b s1) (λ s'. run_back f (reverse first) s') h1 in
    (s1, s2, e1, e2, h2)

true≢false : true ≢ false
true≢false e = cc

-- What is in the result is in the state that the run ends with.
collected :
    (t : State) {r : List DynamicInst × List (ℕ × List ℕ)} (x : DynamicInst)
    → some (t.unneeded_di, t.addr2unneeded) ≡ some r
    → set_count r.0 x ≡ true
    → set_count t.unneeded_di x ≡ true
collected t {r} x out c =
    let same : r.0 ≡ t.unneeded_di =
      AllOf-some {P = λ (q : List DynamicInst × List (ℕ × List ℕ)). q.0 ≡ t.unneeded_di} (just refl)
        out in
    subst (λ (l : List DynamicInst). set_count l x ≡ true) same c

-- Every execution that the pass reports was counted by it: with n executions of the instruction by
-- the thread, its number is -(n - 1) at the least.
pub reported_numbered :
    (f : Facts) (trace : List SmallestBlock) (addr2unneeded : List (ℕ × List ℕ))
    (r : List DynamicInst × List (ℕ × List ℕ)) (x : DynamicInst)
    → extract_uneeded_operation f trace addr2unneeded ≡ some r
    → set_count r.0 x ≡ true
    → (s : State) × (run_back f (reverse trace) (start addr2unneeded) ≡ some s)
      × (n : ℕ) × (n < count s x.tid x.id)
      × (x.cnt ≡ pos 0 -ℤ pos n)
unfolding extract_uneeded_operation start
reported_numbered f trace a r x h c =
    let (t, run, out) =
      >>=-eq-some (run_back f (reverse trace) (start a))
        (λ s. some (s.unneeded_di, s.addr2unneeded)) h in
    let all : Grows (start a) t = AllOf-some (run_back-Grows f (reverse trace) (start a)) run in
    elim (all.unneeded x (collected t x out c)) [
      | inl k ↦ absurd (true≢false (sym k))
      | inr (n, _, less, number) ↦ (t, run, n, less, number)
    ]

-- On a trace for which the pass succeeds, the execution of an impactful call is never reported: its
-- number is the negated number of executions of the same instruction by the same thread that the
-- pass counted in the blocks behind it.
pub impactful_never_reported :
    (f : Facts) (first rest : List SmallestBlock) (b : SmallestBlock) (id : ℕ)
    (addr2unneeded : List (ℕ × List ℕ)) (r : List DynamicInst × List (ℕ × List ℕ))
    → b.type ≡ impactful_call_block
    → inst_at f.program b.bbid b.start ≡ some id
    → extract_uneeded_operation f (first ++ b ∷ rest) addr2unneeded ≡ some r
    → (s : State) × (run_back f (reverse rest) (start addr2unneeded) ≡ some s)
      × (set_count r.0 (this_execution s b.tid id) ≡ false)
unfolding extract_uneeded_operation start
impactful_never_reported f first rest b id a r c e h =
    let (t, run, out) =
      >>=-eq-some (run_back f (reverse (first ++ b ∷ rest)) (start a))
        (λ s. some (s.unneeded_di, s.addr2unneeded)) h in
    let (s1, s2, e1, e2, e3) = split_run f first rest b (start a) t run in
    let before : Grows (start a) s1 = AllOf-some (run_back-Grows f (reverse rest) (start a)) e1 in
    let here : Passes b.tid id s1 s2 = AllOf-some (run_block-Passes f b s1 id c e) e2 in
    let after : Grows s2 t = AllOf-some (run_back-Grows f (reverse first) s2) e3 in
    let d = this_execution s1 b.tid id in
    let was_not : set_count s1.unneeded_di d ≡ true → ⊥ = λ k. elim (before.unneeded d k) [
      | inl j ↦ true≢false (sym j)
      | inr (n, _, less, number) ↦ omega (arith, negative_number (count s1 b.tid id) n number)
    ] in
    (
      s1,
      e1,
      not_true _ (λ k. elim (after.unneeded d (collected t d out k)) [
        | inl j ↦ was_not (here.unneeded d j)
        | inr (n, more, _, number) ↦
            omega (arith, here.one_more, negative_number (count s1 b.tid id) n number)
      ]),
    )
