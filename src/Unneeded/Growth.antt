-- ===== src/Unneeded/Growth.antt =====
-- The pass collects an execution only when it counts it.
use mathlib.Core.Path.{subst}
use slimmer.Base.{
  ℕ, ◌+◌, ◌≤◌, ◌<◌, ◌≡◌, refl, ◌∙◌, ap, Bool, true, false, ◌&&◌, ◌||◌, leb, List, AllOf, just,
  AllOf->>=, AllOf-after, AllOf-imp, AllOf-if, if◌then◌else◌, length, map_at, map_set, map_at-set,
  set_count, set_count-insert, equiv, equiv_iff, pair_order, nat_order, ◌⊎◌, inl, inr, Bool-cases,
  arith, get_elem?, ltb,
}
use slimmer.Program.{
  InstInfo, InstType, terminator_inst, return_inst, DynamicInst, dynamic_order, SmallestBlock,
}
use slimmer.Unneeded.Stacks.{top, set_top}
use slimmer.Unneeded.Instruction.{Facts}
use slimmer.Unneeded.Pass.{
  State, count, this_execution, count_one, mark_fun, passed, add_unneeded, note_address,
  need_or_not, run_terminator, classify, settle, is_terminator, is_memory_access, return_needed,
}
use slimmer.Unneeded.Numbers.{Keeps, Keeps-refl, Grows, same_count, need-Keeps, IsBetween}

-- At most `d` is collected, and nothing is counted.
pub record Adds (d : DynamicInst) (s t : State) : Type 0 where
  pub counts : t.inst_count ≡ s.inst_count
  pub unneeded :
      (x : DynamicInst)
      → set_count t.unneeded_di x ≡ true
      → (d ≡ x) ⊎ (set_count s.unneeded_di x ≡ true)

pub Keeps-Adds : (d : DynamicInst) {s t : State} → Keeps s t → Adds d s t
Keeps-Adds d p = record { counts = p.counts; unneeded = λ x h. inr (p.unneeded x h) }

pub Keeps-Adds-trans : {d : DynamicInst} {s t u : State} → Keeps s t → Adds d t u → Adds d s u
Keeps-Adds-trans p q = record {
  counts = q.counts ∙ p.counts;
  unneeded = λ x h. elim (q.unneeded x h) [ inl e ↦ inl e | inr k ↦ inr (p.unneeded x k) ];
}

add_unneeded-Adds : (d : DynamicInst) (s : State) → Adds d s (add_unneeded d s)
unfolding add_unneeded
add_unneeded-Adds d s = record {
  counts = refl;
  unneeded = λ x h.
      let e = set_count-insert s.unneeded_di d x in
      elim (Bool-cases (equiv d x)) [
        | inl c ↦ inl ((equiv_iff d x).0 c)
        | inr c ↦ inr (ground arith)
      ];
}

note_address-Keeps :
    (b : SmallestBlock) (id : ℕ) (s : State) → AllOf (Keeps s) (note_address b id s)
unfolding note_address
note_address-Keeps b id s =
    AllOf-if (is_memory_access b.type)
      (AllOf-after (get_elem? b.addr 0) (λ l. AllOf-after (get_elem? b.addr 1) (λ r.
        just (elim (Bool-cases (ltb l r)) [
          | inl c ↦ rw c (same_count s _ refl refl)
          | inr c ↦ rw c (Keeps-refl s)
        ]))))
      (just (Keeps-refl s))

pub need_or_not-Adds :
    (f : Facts) (b : SmallestBlock) (d : DynamicInst) (used : Bool) (s : State)
    → AllOf (Adds d s) (need_or_not f b d used s)
unfolding need_or_not
need_or_not-Adds f b d true s = AllOf-imp (need-Keeps f d b.last_bbid s) (λ t p. Keeps-Adds d p)
need_or_not-Adds f b d false s =
    AllOf->>= (note_address-Keeps b d.id s)
      (λ t p. just (Keeps-Adds-trans p (add_unneeded-Adds d t)))

pub settle-Adds :
    (f : Facts) (b : SmallestBlock) (d : DynamicInst) (info : InstInfo) (used : Bool) (s : State)
    → AllOf (Adds d s) (settle f b d info used s)
unfolding settle
settle-Adds f b d info true s = AllOf-imp (need-Keeps f d b.last_bbid s) (λ t p. Keeps-Adds d p)
settle-Adds f b d info false s =
    just (elim (Bool-cases (is_terminator info.type && leb (length info.successors) 1)) [
      | inl c ↦ rw c (Keeps-Adds d (Keeps-refl s))
      | inr c ↦ rw c (add_unneeded-Adds d s)
    ])

pub classify-Keeps :
    (f : Facts) (b : SmallestBlock) (d : DynamicInst) (info : InstInfo) (type : InstType)
    (was : Bool) (s : State)
    → AllOf (λ r. Keeps s r.0) (classify f b d info type was s)
unfolding classify run_terminator
classify-Keeps f b d info terminator_inst was s = AllOf-after (top s.next_bb_used b.tid) (λ next.
    AllOf-after (set_top s.terminator_stack b.tid _) (λ stacks. just (same_count s _ refl refl)))
classify-Keeps f b d info return_inst was s =
    AllOf-after (return_needed b info was s) (λ used. just (Keeps-refl s))
classify-Keeps f b d info _ was s = just (Keeps-refl s)

-- What counting an execution changes.
pub record Counts (tid id : ℕ) (s t : State) : Type 0 where
  pub counts : t.inst_count ≡ map_set s.inst_count (tid, id) (count s tid id + 1)
  pub unneeded : t.unneeded_di ≡ s.unneeded_di

pub passed-Counts :
    (tid id : ℕ) (used : Bool) (s : State) → AllOf (Counts tid id s) (passed tid id used s)
unfolding passed mark_fun count_one
passed-Counts tid id used s = AllOf-after (top s.fun_used tid) (λ x.
    AllOf-after (set_top s.fun_used tid (x || used))
      (λ stacks. just (record { counts = refl; unneeded = refl })))

Counts-count :
    {tid id : ℕ} {s t : State} (tid' id' : ℕ)
    → Counts tid id s t
    → count t tid' id'
      ≡ (if equiv {K = ℕ × ℕ} (tid, id) (tid', id') then count s tid id + 1 else count s tid' id')
Counts-count {tid} {id} {s} tid' id' p =
    rw p.counts (map_at-set 0 s.inst_count (tid, id) (tid', id') (count s tid id + 1))

pub Counts-more : {tid id : ℕ} {s t : State} → Counts tid id s t → count s tid id < count t tid id
Counts-more {tid} {id} p =
    rw (Counts-count tid id p, (equiv_iff {K = ℕ × ℕ} (tid, id) (tid, id)).1 refl) (omega arith)

pub Counts-grow :
    {tid id : ℕ} {s t : State} (tid' id' : ℕ)
    → Counts tid id s t
    → count s tid' id' ≤ count t tid' id'
Counts-grow {tid} {id} {s} tid' id' p =
    elim (Bool-cases (equiv {K = ℕ × ℕ} (tid, id) (tid', id'))) [
      | inl c ↦
          let (same_tid, same_id) : (tid ≡ tid') × (id ≡ id') =
            let e = (equiv_iff {K = ℕ × ℕ} (tid, id) (tid', id')).0 c in
            (ap (λ (q : ℕ × ℕ). q.0) e, ap (λ (q : ℕ × ℕ). q.1) e) in
          rw (← same_tid, ← same_id) (omega (arith, Counts-more p))
      | inr c ↦ rw (Counts-count tid' id' p, c) (omega arith)
    ]

-- An execution that is settled and then counted.
pub Adds-Counts :
    {tid id : ℕ} {s t u : State}
    → Adds (this_execution s tid id) s t
    → Counts tid id t u
    → Grows s u
Adds-Counts {tid} {id} {s} {t} {u} p q =
    let same : (a b : ℕ) → count t a b ≡ count s a b =
      λ a b. ap (λ (m : List ((ℕ × ℕ) × ℕ)). map_at 0 m (a, b)) p.counts in
    record {
      counts = λ a b. omega (arith, same a b, Counts-grow a b q);
      unneeded = λ x h.
          elim (p.unneeded x
            (subst (λ (l : List DynamicInst). set_count l x ≡ true) q.unneeded h)) [
              | inl e ↦ inr (
                  subst (IsBetween s u) e
                    (count s tid id, omega arith, omega (arith, same tid id, Counts-more q), refl))
              | inr k ↦ inl k
            ];
    }
