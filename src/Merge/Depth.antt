-- ===== src/Merge/Depth.antt =====
-- How many frames of a trace's threads have a block, and what a block does to that number.
use mathlib.Core.List.{reverse, reverse-append}
use mathlib.Core.Path.{subst}
use slimmer.Base.{
  ℕ, ◌+◌, ◌-◌, ◌<◌, ◌≤◌, ◌≡◌, refl, sym, ◌∙◌, ap, true, false, leb, if◌then◌else◌, List, [], ◌∷◌,
  ◌++◌, AllOf, nothing, just, AllOf-after, AllOf-if, length, get_elem?, map_at-set, equiv,
  equiv_iff, nat_order, pair_order, arith, Bool-cases, inl, inr,
}
use slimmer.Program.{Program, SmallestBlock, inst_info}
use slimmer.Blocks.{flag, declares, in_front, IsNested}
use slimmer.Merge.Frames.{
  State, StackInfo, stack, first_of, set_stack, set_first, push_block, emit, inst_before,
  close_block,
}

pub true≢false : true ≡ false → ⊥
true≢false e = cc

-- Whatever opens at least `d` frames behind the blocks nests them.
abbrev pub Nests : (ℕ → ℕ) → List SmallestBlock → Type 0
Nests d bs = (h : ℕ → ℕ) → ((t : ℕ) → d t ≤ h t) → IsNested h (reverse bs)

pub Nests-mono :
    (d e : ℕ → ℕ) (bs : List SmallestBlock) → ((t : ℕ) → d t ≤ e t) → Nests d bs → Nests e bs
Nests-mono d e bs le n h more = n h (λ t. omega (arith, le t, more t))

reverse-snoc :
    (bs : List SmallestBlock) (b : SmallestBlock) → reverse (bs ++ b ∷ []) ≡ b ∷ reverse bs
reverse-snoc bs b = reverse-append bs (b ∷ [])

-- A block behind the others.
pub Nests-snoc :
    (d e : ℕ → ℕ) (bs : List SmallestBlock) (b : SmallestBlock)
    → declares b.type ≡ false
    → ((t : ℕ) → equiv b.tid t ≡ false → d t ≤ e t)
    → 0 < e b.tid + flag b.is_last
    → d b.tid ≤ e b.tid + flag b.is_last - flag b.is_first
    → Nests d bs
    → Nests e (bs ++ b ∷ [])
Nests-snoc d e bs b no_declare others inside here n h more =
    subst (IsNested h) (sym (reverse-snoc bs b)) (
      (λ c. omega (arith, inside, more b.tid)),
      n (in_front h b) (λ t. rw no_declare (elim (Bool-cases (equiv b.tid t)) [
        | inl c ↦
            let same : b.tid ≡ t = (equiv_iff b.tid t).0 c in
            rw (c, ← same) (omega (arith, here, more b.tid))
        | inr c ↦ rw c (omega (arith, others t c, more t))
      ])),
    )

pub Nests-declare :
    (d : ℕ → ℕ) (bs : List SmallestBlock) (b : SmallestBlock)
    → declares b.type ≡ true
    → Nests d bs
    → Nests d (bs ++ b ∷ [])
Nests-declare d bs b declare n h more =
    subst (IsNested h) (sym (reverse-snoc bs b))
      ((λ c. absurd (true≢false (sym declare ∙ c))), n (in_front h b) (λ t. rw declare (more t)))

-- The frames of which a block has been made, where the stack of `tid` has `n` frames.
abbrev pub depth_with : State → ℕ → ℕ → ℕ → ℕ
depth_with s tid n t = (if equiv tid t then n else length (stack s t)) - flag (first_of s t).0

abbrev pub depth : State → ℕ → ℕ
depth s t = length (stack s t) - flag (first_of s t).0

abbrev pub Kept : State → Type 0
Kept s = Nests (depth s) s.block_trace

abbrev pub KeptWith : State → ℕ → ℕ → Type 0
KeptWith s tid n = Nests (depth_with s tid n) s.block_trace

depth-with : (s : State) (tid t : ℕ) → depth_with s tid (length (stack s tid)) t ≡ depth s t
depth-with s tid t = elim (Bool-cases (equiv tid t)) [
  | inl c ↦ rw (c, ← (equiv_iff tid t).0 c) refl
  | inr c ↦ rw c refl
]

pub Kept-with : (s : State) (tid : ℕ) → Kept s → KeptWith s tid (length (stack s tid))
Kept-with s tid = Nests-mono _ _ s.block_trace (λ t. rw (depth-with s tid t) (omega arith))

pub set_stack-Kept :
    (tid : ℕ) (frames : List StackInfo) (s : State)
    → KeptWith s tid (length frames)
    → Kept (set_stack tid frames s)
unfolding set_stack
set_stack-Kept tid frames s = Nests-mono _ _ s.block_trace (λ t.
    rw (map_at-set [] s.call_stack tid t frames)
      (elim (Bool-cases (equiv tid t)) [ inl c ↦ rw c (omega arith) | inr c ↦ rw c (omega arith) ]))

pub self_equiv : (tid : ℕ) → equiv tid tid ≡ true
self_equiv tid = (equiv_iff tid tid).1 refl

first-emit :
    (tid t : ℕ) (b : SmallestBlock) (s : State)
    → first_of (emit tid b s) t ≡ (if equiv tid t then (0, 0) else first_of s t)
unfolding emit push_block set_first
first-emit tid t b s = map_at-set (0, 0) s.is_first tid t (0, 0)

depth_self : (tid n : ℕ) (s : State) → depth_with s tid n tid ≡ n - flag (first_of s tid).0
depth_self tid n s = rw (self_equiv tid) refl

depth-emit : (tid n : ℕ) (b : SmallestBlock) (s : State) → depth_with (emit tid b s) tid n tid ≡ n
depth-emit tid n b s =
    let spent : first_of (emit tid b s) tid ≡ (0, 0) =
      first-emit tid tid b s ∙ rw (self_equiv tid) refl in
    depth_self tid n (emit tid b s) ∙ ap (λ (q : ℕ × ℕ). n - flag q.0) spent ∙ minus_zero n
  where
    minus_zero : (n : ℕ) → n - 0 ≡ n
    minus_zero n = omega arith

depth-emit_other :
    (tid t m n : ℕ) (b : SmallestBlock) (s : State)
    → equiv tid t ≡ false
    → depth_with s tid m t ≡ depth_with (emit tid b s) tid n t
unfolding emit push_block set_first
depth-emit_other tid t m n b s c = rw (c, map_at-set (0, 0) s.is_first tid t (0, 0), c) refl

-- A block of the frame on top, which may close it.
pub emit-Kept :
    (tid : ℕ) (b : SmallestBlock) (s : State) (m n : ℕ)
    → declares b.type ≡ false
    → b.tid ≡ tid
    → b.is_first ≡ (first_of s tid).0
    → 0 < m
    → m ≤ n + flag b.is_last
    → KeptWith s tid m
    → KeptWith (emit tid b s) tid n
unfolding emit push_block set_first
emit-Kept tid b s m n no_declare same first pos more =
    let now : depth_with (emit tid b s) tid n b.tid ≡ n =
      ap (depth_with (emit tid b s) tid n) same ∙ depth-emit tid n b s in
    let before : depth_with s tid m b.tid ≡ m - flag b.is_first =
      ap (depth_with s tid m) same ∙ depth_self tid m s ∙ ap (λ (k : ℕ). m - flag k) (sym first) in
    Nests-snoc (depth_with s tid m) (depth_with (emit tid b s) tid n) s.block_trace b no_declare
      (λ t c.
        let other : equiv tid t ≡ false = subst (λ (u : ℕ). equiv u t ≡ false) same c in
        omega (arith, depth-emit_other tid t m n b s other))
      (omega (arith, now, pos, more)) (omega (arith, now, before, more))

-- What close_block leaves of its block.
pub record Closed (b c : SmallestBlock) : Type 0 where
  pub type : c.type ≡ b.type
  pub tid : c.tid ≡ b.tid
  pub is_first : c.is_first ≡ b.is_first
  pub is_last : flag c.is_last ≡ 1

pub close_block-Closed :
    (p : Program) (rest : List StackInfo) (b : SmallestBlock)
    → AllOf (Closed b) (close_block p rest b)
unfolding close_block
close_block-Closed p [] b =
    just (record { type = refl; tid = refl; is_first = refl; is_last = refl })
close_block-Closed p (f ∷ rest) b = AllOf-after (get_elem? p.bb2ins f.bbid) (λ insts.
    AllOf-if (leb (length insts) f.cur_index) nothing (
      AllOf-after (inst_before insts f.cur_index) (λ id.
        AllOf-after (inst_info p id)
          (λ info. just (record { type = refl; tid = refl; is_first = refl; is_last = refl })))))
