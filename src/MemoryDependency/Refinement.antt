-- ===== src/MemoryDependency/Refinement.antt =====
-- The run over a whole block trace against an abstract account of who wrote each address last.
use slimmer.Base.{
  ℕ, ◌+◌, ◌<◌, ◌≡◌, refl, sym, ◌∙◌, ap, Bool, true, false, List, [], ◌∷◌, Option, none, some, pos,
  if◌then◌else◌, map_at, map_set, ◌>>=◌, All, arith, Bool-cases, inl, inr, pair_order,
}
use slimmer.SegmentTree.{get, max_range, new_tree}
use slimmer.Program.{
  Program, InstInfo, DynamicInst, SmallestBlock, SmallestBlockType, normal_block, declare_block,
  inst_info, inst_at, dynamic_eq, dynamic_order,
}
use slimmer.MemoryDependency.{Groups, State, init, next_execution, counts, run_block, run_blocks}
use slimmer.MemoryDependency.LastWriter.{
  IsWhole, IsGrouped, IsRunnable, block_writes, atomic_access, run_counted-RunsTo,
}

abbrev pub Counts : Type 0
Counts = List ((ℕ × ℕ) × ℕ)

-- What is known of each address: the dynamic instruction that wrote it last.
abbrev pub Memory : Type 0
Memory = ℕ → Option DynamicInst

-- The instruction that a counted block runs.
abbrev pub block_inst : Program → SmallestBlock → Option (ℕ × InstInfo)
block_inst p b = do id ← inst_at p b.bbid b.start; info ← inst_info p id; some (id, info)

abbrev pub execution : Counts → SmallestBlock → ℕ → DynamicInst
execution c b id = record { tid = b.tid; id = id; cnt = pos (map_at 0 c (b.tid, id)) }

abbrev pub write_block : Groups → SmallestBlock → Option (ℕ × InstInfo) → Counts → Memory → Memory
write_block g b none c w x = w x
write_block g b (some (id, info)) c w x =
    if block_writes g b.type info.type b.addr x then some (execution c b id) else w x

abbrev pub count_block : SmallestBlock → Option (ℕ × InstInfo) → Counts → Counts
count_block b none c = c
count_block b (some (id, info)) c =
    if counts b.type then map_set c (b.tid, id) (map_at 0 c (b.tid, id) + 1) else c

-- The last writer of each address after a trace.
pub last_writer : Program → Groups → List SmallestBlock → Counts → Memory → Memory
last_writer p g [] c w = w
last_writer p g (b ∷ bs) c w =
    last_writer p g bs (count_block b (block_inst p b) c) (write_block g b (block_inst p b) c w)

-- A block that names an instruction of the program, if its type is a counted one, and has its
-- addresses; it is no access of an atomic instruction.
abbrev pub IsBlock : Program → SmallestBlock → Type 0
IsBlock p b =
    counts b.type ≡ true
    → (id : ℕ) × (info : InstInfo) × (inst_at p b.bbid b.start ≡ some id)
      × (inst_info p id ≡ some info)
      × (atomic_access b.type info.type ≡ false)
      × IsRunnable b.type b.addr

-- One block against one step of the abstract account.
pub record Refines (c : Counts) (w : Memory) (s : State) : Type 0 where
  pub tree : IsWhole s.last_store
  pub same_counts : s.ins_count ≡ c
  pub same_writers : (x : ℕ) → x < max_range → get s.last_store x ≡ w x

not_writing :
    (g : Groups) (info : InstInfo) (t : SmallestBlockType) (addr : List ℕ) (x : ℕ)
    → counts t ≡ false
    → block_writes g t info.type addr x ≡ false
not_writing g info normal_block addr x h = refl
not_writing g info declare_block addr x h = refl
not_writing g info _ addr x h = cc

same_write :
    {c c' : Counts} {o o' : Option DynamicInst} (t : Bool) (b : SmallestBlock) (id : ℕ)
    → c ≡ c'
    → o ≡ o'
    → (if t then some (execution c b id) else o) ≡ (if t then some (execution c' b id) else o')
same_write t b id e f = rw (e, f)

write_nothing :
    (g : Groups) (b : SmallestBlock) (inst : Option (ℕ × InstInfo)) (c : Counts) (w : Memory)
    (x : ℕ)
    → counts b.type ≡ false
    → write_block g b inst c w x ≡ w x
write_nothing g b none c w x t = refl
write_nothing g b (some (id, info)) c w x t = rw (not_writing g info b.type b.addr x t) refl

count_nothing :
    (b : SmallestBlock) (inst : Option (ℕ × InstInfo)) (c : Counts)
    → counts b.type ≡ false
    → count_block b inst c ≡ c
count_nothing b none c t = refl
count_nothing b (some (id, info)) c t = rw t refl

run_block-Refines :
    (p : Program) (g : Groups) (b : SmallestBlock) (c : Counts) (w : Memory) (s : State)
    → IsBlock p b
    → IsGrouped g
    → Refines c w s
    → (s' : State) × (run_block p g b s ≡ some s')
      × Refines (count_block b (block_inst p b) c) (write_block g b (block_inst p b) c w) s'
unfolding run_block next_execution
run_block-Refines p g b c w s valid v h = elim (Bool-cases (counts b.type)) [
  | inl t ↦
      let (id, info, e, f, n, ok) = valid t in
      let next = next_execution s b.tid id in
      let (s', r, wr) =
        run_counted-RunsTo p g b.type b.addr id info next.0 next.1 f n ok v h.tree in
      (
        s',
        rw (t, e) r,
        record {
          tree = wr.whole;
          same_counts =
              rw (e, f, t)
                (wr.counted
                  ∙ ap (λ (m : Counts). map_set m (b.tid, id) (map_at 0 m (b.tid, id) + 1))
                      h.same_counts);
          same_writers = λ x q.
              rw (e, f)
                (wr.at x q
                  ∙ same_write (block_writes g b.type info.type b.addr x) b id h.same_counts
                      (h.same_writers x q));
        },
      )
  | inr t ↦ (
    s,
    rw t,
    record {
      tree = h.tree;
      same_counts = h.same_counts ∙ sym (count_nothing b (block_inst p b) c t);
      same_writers = λ x q. h.same_writers x q ∙ sym (write_nothing g b (block_inst p b) c w x t);
    },
  )
]

run_blocks-Refines :
    (p : Program) (g : Groups) (bs : List SmallestBlock) (c : Counts) (w : Memory) (s : State)
    → All (IsBlock p) bs
    → IsGrouped g
    → Refines c w s
    → (s' : State) × (run_blocks p g bs s ≡ some s')
      × ((x : ℕ) → x < max_range → get s'.last_store x ≡ last_writer p g bs c w x)
unfolding run_blocks last_writer
run_blocks-Refines p g [] c w s ok v h = (s, refl, h.same_writers)
run_blocks-Refines p g (b ∷ bs) c w s (k, ks) v h =
    let (s', e, h') = run_block-Refines p g b c w s k v h in
    let (s'', e', q) = run_blocks-Refines p g bs _ _ s' ks v h' in (s'', rw e e', q)

init-Refines : Refines [] (λ x. none) init
unfolding init new_tree get
init-Refines = record {
  tree = record { at_left = refl; at_right = refl; shaped = omega arith };
  same_counts = refl;
  same_writers = λ x q. refl;
}

-- On blocks that name instructions of the program and carry their addresses, where no memory access
-- is of an atomic instruction, the run of the trace succeeds, and afterwards the tree holds at each address the dynamic instruction that wrote it last
-- by the abstract account.
pub run_blocks-last_writer :
    (p : Program) (g : Groups) (bs : List SmallestBlock)
    → All (IsBlock p) bs
    → IsGrouped g
    → (s : State) × (run_blocks p g bs init ≡ some s)
      × ((x : ℕ) → x < max_range → get s.last_store x ≡ last_writer p g bs [] (λ y. none) x)
run_blocks-last_writer p g bs ok v = run_blocks-Refines p g bs [] (λ x. none) init ok v init-Refines
