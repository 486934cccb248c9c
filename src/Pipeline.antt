-- ===== src/Pipeline.antt =====
-- The stages of tools/PrintBug one after the other: on the blocks that MergeTrace makes, the analyses
-- of the memory and of the operations come to their ends.
use slimmer.Base.{ℕ, ◌<◌, ◌≡◌, refl, true, false, List, [], ◌∷◌, none, some, All, arith}
use slimmer.Program.{
  Program, InstType, DynamicInst, SmallestBlock, SmallestBlockType, memory_access_block,
  memset_block, memmove_block, external_call_block, impactful_call_block, normal_block,
  declare_block,
}
use slimmer.Blocks.{All-at, IsProgram, IsValid, IsSingle, HasAddresses, NamesInsts}
use slimmer.Trace.Event.{Event}
use slimmer.SegmentTree.{get, max_range}
use slimmer.MemoryDependency.{Groups, State, init, counts, run_blocks}
use slimmer.MemoryDependency.LastWriter.{IsGrouped, IsRunnable, is_atomic, atomic_access}
use slimmer.MemoryDependency.Refinement.{IsBlock, last_writer, run_blocks-last_writer}
use slimmer.Merge.Flush.{merge_trace}
use slimmer.Merge.Nesting.{merge_trace-IsNestedTrace}
use slimmer.Merge.Validity.{merge_trace-IsValid}
use slimmer.MemoryGroups.Pass.{group_memory}
use slimmer.MemoryGroups.Walk.{group_memory-AreViews, AreViews-IsGrouped}
use slimmer.Unneeded.Instruction.{Facts}
use slimmer.Unneeded.Pass.{extract_uneeded_operation}
use slimmer.Unneeded.Totality.{extract_uneeded_operation-succeeds}

-- Over a program whose basic blocks name its instructions and return at their ends only, the backward
-- pass comes to its end on every trace that MergeTrace makes, whatever the other facts are: no
-- instruction is looked up in vain, no empty stack is read or popped and no assertion fails.
pub merged_trace_analysed :
    (f : Facts) (impactful : List ℕ) (events : List (ℕ × Event)) (blocks : List SmallestBlock)
    (addr2unneeded : List (ℕ × List ℕ))
    → IsProgram f.program
    → merge_trace f.program impactful events ≡ some blocks
    → (r : List DynamicInst × List (ℕ × List ℕ)) × (extract_uneeded_operation f blocks addr2unneeded
        ≡ some r)
merged_trace_analysed f impactful events blocks addr2unneeded w merged =
    extract_uneeded_operation-succeeds f blocks addr2unneeded w
      (merge_trace-IsValid f.program impactful events blocks w merged)
      (merge_trace-IsNestedTrace f.program impactful events blocks merged)

runnable :
    (type : SmallestBlockType) (addr : List ℕ) → HasAddresses type addr → IsRunnable type addr
runnable memory_access_block (l ∷ r ∷ []) h = omega (arith, h)
runnable memset_block (l ∷ r ∷ []) h = omega (arith, h)
runnable memmove_block (l ∷ r ∷ from ∷ to ∷ []) h = omega (arith, h.0)
runnable external_call_block addr h = tt
runnable impactful_call_block addr h = tt
runnable normal_block addr h = tt
runnable declare_block addr h = tt
runnable memory_access_block [] h = absurd h
runnable memory_access_block (l ∷ []) h = absurd h
runnable memory_access_block (l ∷ r ∷ x ∷ xs) h = absurd h
runnable memset_block [] h = absurd h
runnable memset_block (l ∷ []) h = absurd h
runnable memset_block (l ∷ r ∷ x ∷ xs) h = absurd h
runnable memmove_block [] h = absurd h
runnable memmove_block (l ∷ []) h = absurd h
runnable memmove_block (l ∷ r ∷ []) h = absurd h
runnable memmove_block (l ∷ r ∷ x ∷ []) h = absurd h
runnable memmove_block (l ∷ r ∷ x ∷ y ∷ z ∷ zs) h = absurd h

named :
    (p : Program) (b : SmallestBlock) (type : SmallestBlockType)
    → counts type ≡ true
    → NamesInsts p b type
    → IsSingle p b
named p b memory_access_block c n = n
named p b memset_block c n = n
named p b memmove_block c n = n
named p b external_call_block c n = n
named p b impactful_call_block c n = n
named p b normal_block c n = cc
named p b declare_block c n = cc

-- A program without atomic instructions, which the code takes for loads.
abbrev pub HasNoAtomics : Program → Type 0
HasNoAtomics p = All (λ info. is_atomic info.type ≡ false) p.ins

no_atomic_access :
    (type : SmallestBlockType) (t : InstType) → is_atomic t ≡ false → atomic_access type t ≡ false
no_atomic_access memory_access_block t h = h
no_atomic_access _ t h = refl

IsValid-IsBlock : (p : Program) (b : SmallestBlock) → HasNoAtomics p → IsValid p b → IsBlock p b
IsValid-IsBlock p b plain (names, has) c =
    let one = named p b b.type c names in
    (
      one.id,
      one.info,
      one.at,
      one.known,
      no_atomic_access b.type one.info.type
          (All-at (λ info. is_atomic info.type ≡ false) p.ins one.id plain one.known),
      runnable b.type b.addr has,
    )

All-IsBlock :
    (p : Program) (bs : List SmallestBlock)
    → HasNoAtomics p
    → All (IsValid p) bs
    → All (IsBlock p) bs
All-IsBlock p [] plain v = tt
All-IsBlock p (b ∷ bs) plain (v, vs) = (IsValid-IsBlock p b plain v, All-IsBlock p bs plain vs)

-- Over a program without atomic instructions, whose basic blocks name its instructions and return at
-- their ends only, and on groups whose trees are listed and span all addresses, the dependencies of every trace that MergeTrace makes
-- are extracted to the end, and afterwards the tree holds at each address the dynamic instruction that
-- wrote it last by the abstract account.
pub merged_trace_depends :
    (p : Program) (g : Groups) (impactful : List ℕ) (events : List (ℕ × Event))
    (blocks : List SmallestBlock)
    → IsProgram p
    → HasNoAtomics p
    → IsGrouped g
    → merge_trace p impactful events ≡ some blocks
    → (s : State) × (run_blocks p g blocks init ≡ some s)
      × ((x : ℕ) → x < max_range → get s.last_store x ≡ last_writer p g blocks [] (λ y. none) x)
merged_trace_depends p g impactful events blocks w plain grouped merged =
    run_blocks-last_writer p g blocks
      (All-IsBlock p blocks plain (merge_trace-IsValid p impactful events blocks w merged)) grouped

-- Over a program without atomic instructions, whose basic blocks name its instructions and return at
-- their ends only, where the memory of a trace that MergeTrace makes is grouped to the end, its dependencies are extracted to the
-- end, and afterwards the tree holds at each address the dynamic instruction that wrote it last by the
-- abstract account.
pub grouped_trace_depends :
    (p : Program) (g : Groups) (impactful : List ℕ) (events : List (ℕ × Event))
    (blocks : List SmallestBlock)
    → IsProgram p
    → HasNoAtomics p
    → merge_trace p impactful events ≡ some blocks
    → group_memory p blocks ≡ some g
    → (s : State) × (run_blocks p g blocks init ≡ some s)
      × ((x : ℕ) → x < max_range → get s.last_store x ≡ last_writer p g blocks [] (λ y. none) x)
grouped_trace_depends p g impactful events blocks w plain merged grouped =
    let valid = merge_trace-IsValid p impactful events blocks w merged in
    merged_trace_depends p g impactful events blocks w plain
      (AreViews-IsGrouped g (group_memory-AreViews p blocks g valid grouped)) merged
