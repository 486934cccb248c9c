-- ===== src/Merge/Nesting.antt =====
-- MergeTrace opens the frames that it closes.
use mathlib.Core.List.{map}
use mathlib.Core.Path.{subst}
use slimmer.Base.{
  ℕ, suc, ◌-◌, ◌≡◌, refl, sym, ◌∙◌, ap, Bool, false, ◌||◌, if◌then◌else◌, List, [], ◌∷◌, some,
  AllOf, just, AllOf->>=, AllOf-after, AllOf-imp, AllOf-some, length, map_at, map_at-set, equiv,
  equiv_iff, nat_order, pair_order, arith, Bool-cases, inl, inr,
}
use slimmer.Program.{Program, SmallestBlock}
use slimmer.Trace.Event.{Event}
use slimmer.Blocks.{flag, declares, IsNestedTrace}
use slimmer.Merge.Frames.{State, StackInfo, stack, first_of, start, set_stack, push_block}
use slimmer.Merge.Flush.{
  left_block, top_frame, close_frames, close_threads, last_tid_of, threads, merge_trace,
}
use slimmer.Merge.Depth.{true≢false, Nests-snoc, depth, Kept, self_equiv, close_block-Closed}
use slimmer.Merge.Rounds.{run_events-Kept}

-- The stack of `tid` is emptied and the others are left alone.
record Empties (tid : ℕ) (s s' : State) : Type 0 where
  own : length (stack s' tid) ≡ 0
  others : (t : ℕ) → equiv tid t ≡ false → stack s' t ≡ stack s t

stack-set :
    (tid t : ℕ) (frames : List StackInfo) (s : State)
    → stack (set_stack tid frames s) t ≡ (if equiv tid t then frames else stack s t)
unfolding set_stack
stack-set tid t frames s = map_at-set [] s.call_stack tid t frames

-- The step of close_frames: a block that closes the frame on top without having opened it.
close_frame-Kept :
    (tid : ℕ) (info : StackInfo) (rest : List StackInfo) (b : SmallestBlock) (s : State)
    → stack s tid ≡ info ∷ rest
    → declares b.type ≡ false
    → b.tid ≡ tid
    → b.is_first ≡ 0
    → flag b.is_last ≡ 1
    → Kept s
    → Kept (push_block b (set_stack tid rest s))
unfolding push_block set_stack
close_frame-Kept tid info rest b s top no_declare same first last =
    let s' = set_stack tid rest s in
    let fl = flag (first_of s tid).0 in
    let now : depth s' tid ≡ length rest - fl =
      ap (λ (l : List StackInfo). length l - fl)
        (stack-set tid tid rest s ∙ rw (self_equiv tid) refl) in
    let before : depth s tid ≡ suc (length rest) - fl =
      ap (λ (l : List StackInfo). length l - fl) top in
    let now_b : depth s' b.tid ≡ length rest - fl = ap (depth s') same ∙ now in
    let before_b : depth s b.tid ≡ suc (length rest) - fl = ap (depth s) same ∙ before in
    let opens : flag b.is_first ≡ 0 = ap flag first in
    Nests-snoc (depth s) (depth s') s.block_trace b no_declare
      (λ t c.
        let other : equiv tid t ≡ false = subst (λ (u : ℕ). equiv u t ≡ false) same c in
        let kept : stack s' t ≡ stack s t = stack-set tid t rest s ∙ rw other refl in
        let less : depth s t ≡ depth s' t =
          ap (λ (l : List StackInfo). length l - flag (first_of s t).0) (sym kept) in
        omega (arith, less))
      (omega (arith, last)) (omega (arith, now_b, before_b, last, opens))

close_frames-Kept :
    (p : Program) (last_tid tid : ℕ) (frames : List StackInfo) (s : State)
    → stack s tid ≡ frames
    → Kept s
    → AllOf (λ s'. Kept s' × Empties tid s s') (close_frames p last_tid tid frames s)
unfolding close_frames push_block set_stack
close_frames-Kept p last_tid tid [] s e k =
    just (k, record { own = ap length e; others = λ t c. refl })
close_frames-Kept p last_tid tid (info ∷ rest) s e k =
    AllOf-after (top_frame (stack s last_tid)) (λ shown.
      AllOf->>= (close_block-Closed p rest (left_block tid info shown)) (λ b c.
        let below : stack (set_stack tid rest s) tid ≡ rest =
          stack-set tid tid rest s ∙ rw (self_equiv tid) refl in
        AllOf-imp
          (close_frames-Kept p last_tid tid rest (push_block b (set_stack tid rest s)) below (
            close_frame-Kept tid info rest b s e (ap declares c.type) c.tid c.is_first c.is_last k))
          (λ s' (k', m). (
            k',
            record {
              own = m.own;
              others = λ t o.
                  let kept : stack (set_stack tid rest s) t ≡ stack s t =
                    stack-set tid t rest s ∙ rw o refl in
                  m.others t o ∙ kept;
            },
          ))))

-- Threads that are not listed have no frames.
abbrev listed : List ℕ → ℕ → Bool
listed [] t = false
listed (tid ∷ tids) t = equiv tid t || listed tids t

abbrev Listed : List ℕ → State → Type 0
Listed tids s = (t : ℕ) → listed tids t ≡ false → length (stack s t) ≡ 0

close_threads-Kept :
    (p : Program) (last_tid : ℕ) (tids : List ℕ) (s : State)
    → Listed tids s
    → Kept s
    → AllOf (λ s'. Kept s' × Listed [] s') (close_threads p last_tid tids s)
unfolding close_threads
close_threads-Kept p last_tid [] s l k = just (k, l)
close_threads-Kept p last_tid (tid ∷ tids) s l k =
    AllOf->>= (close_frames-Kept p last_tid tid (stack s tid) s refl k) (λ s' (k', m).
      close_threads-Kept p last_tid tids s'
        (λ t c. elim (Bool-cases (equiv tid t)) [
          | inl d ↦ ap (λ (u : ℕ). length (stack s' u)) (sym ((equiv_iff tid t).0 d)) ∙ m.own
          | inr d ↦ ap length (m.others t d) ∙ l t (rw (d, c) refl)
        ])
        k')

keys_listed :
    (m : List (ℕ × List StackInfo)) (t : ℕ)
    → listed (map (λ entry. entry.0) m) t ≡ false
    → length (map_at [] m t) ≡ 0
keys_listed [] t c = refl
keys_listed ((tid, frames) ∷ m) t c = elim (Bool-cases (equiv tid t)) [
  | inl d ↦ absurd (true≢false (sym (rw d refl) ∙ c))
  | inr d ↦ rw d (keys_listed m t (rw d at c))
]

start-Kept : Kept start
start-Kept h more = tt

-- The blocks that MergeTrace makes are nested: read from the last to the first, every block stands in
-- a frame that a block behind it closes and no block between them opens.
pub merge_trace-IsNestedTrace :
    (p : Program) (impactful : List ℕ) (events : List (ℕ × Event)) (blocks : List SmallestBlock)
    → merge_trace p impactful events ≡ some blocks
    → IsNestedTrace blocks
merge_trace-IsNestedTrace p impactful events blocks = AllOf-some nested
  where
    nested : AllOf IsNestedTrace (merge_trace p impactful events)
    nested =
        unfold merge_trace in
        AllOf->>= (run_events-Kept p impactful events start start-Kept) (λ s k.
          AllOf->>=
            (close_threads-Kept p (last_tid_of 0 events) (threads s) s (keys_listed s.call_stack) k)
            (λ s' (k', l). just (k' (λ t. 0) (λ t. omega (arith, l t refl)))))
