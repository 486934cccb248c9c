-- ===== src/MemoryDependency/LastWriter.antt =====
-- `last_store` holds at each address the dynamic instruction that wrote it last, where no atomic
-- instruction writes.
use slimmer.Base.{
  ℕ, ◌≤◌, ◌<◌, ◌≡◌, refl, ◌∙◌, Bool, true, false, ◌||◌, ◌&&◌, List, [], ◌∷◌, Option, none, some,
  leb, if◌then◌else◌, map_find, arith, Bool-cases, Option-cases, inl, inr, pair_order, nat_order,
  nat_eq,
}
use slimmer.SegmentTree.{
  SegmentTree, Segment, SegmentType, empty_segment, partial_segment, covered_segment, get, set,
  collect, max_range,
}
use slimmer.SegmentTree.Range.{in_range}
use slimmer.SegmentTree.Shape.{Spans, set_fuel-Spans}
use slimmer.SegmentTree.Lookup.{get-set}
use slimmer.SegmentTree.Tiles.{Tiles, is_covered, is_some, covered_at, covered_at-is_some}
use slimmer.SegmentTree.Collect.{collect-Collected}
use slimmer.Program.{
  Program, InstInfo, InstType, store_inst, load_inst, atomic_inst, DynamicInst, dynamic_order,
  dynamic_eq, SmallestBlockType, memory_access_block, memset_block, memmove_block,
  external_call_block, impactful_call_block, normal_block, declare_block, inst_info,
}
use slimmer.MemoryDependency.{
  Groups, State, store, depend, access, use_segment, use_group, use_argument, use_arguments,
  run_counted, pointer_args,
}

-- A segment tree over all addresses.
abbrev pub IsWhole {ℓ} : {A : Type ℓ} → SegmentTree A → Type 0
IsWhole t = Spans t 0 max_range

-- From `s` to `s'` the addresses that `w` picks are written by `d`, and no other; the counts stay.
pub record Writes (s s' : State) (d : DynamicInst) (w : ℕ → Bool) : Type 0 where
  pub whole : IsWhole s'.last_store
  pub counted : s'.ins_count ≡ s.ins_count
  pub at :
      (x : ℕ) → x < max_range → get s'.last_store x ≡ (if w x then some d else get s.last_store x)

pub Writes-none : (s : State) (d : DynamicInst) → IsWhole s.last_store → Writes s s d (λ _. false)
Writes-none s d h = record { whole = h; counted = refl; at = λ x p. refl }

if_or :
    (a b : Bool) (o p q : Option DynamicInst) (d : DynamicInst)
    → q ≡ (if b then some d else p)
    → p ≡ (if a then some d else o)
    → q ≡ (if a || b then some d else o)
if_or a b o p q d e f = ground arith

Writes-trans :
    {s t u : State} {d : DynamicInst} {v w : ℕ → Bool}
    → Writes s t d v
    → Writes t u d w
    → Writes s u d (λ x. v x || w x)
Writes-trans {s} {t} {u} {d} {v} {w} a b = record {
  whole = b.whole;
  counted = b.counted ∙ a.counted;
  at = λ x p.
      if_or (v x) (w x) (get s.last_store x) (get t.last_store x) (get u.last_store x) d (b.at x p)
        (a.at x p);
}

pub store-Writes :
    (s : State) (d : DynamicInst) (l r : ℕ)
    → IsWhole s.last_store
    → r ≤ max_range
    → Writes s (store s d l r) d (in_range l r)
unfolding store
store-Writes s d l r h p = record {
  whole = set-Spans s.last_store;
  counted = refl;
  at = λ x q.
      get-set s.last_store l r x d h.shaped (rw h.at_left (omega arith)) (rw h.at_right p)
        (rw h.at_left (omega arith)) (rw h.at_right q);
}
  where
    set-Spans : (t : SegmentTree DynamicInst) → Spans (set s.last_store l r d) 0 max_range
    set-Spans t = unfold set in set_fuel-Spans _ s.last_store l r 0 max_range d h (omega arith) p

-- Reading leaves the tree alone.
pub depend_last_store :
    (s : State) (d : DynamicInst) (l r : ℕ) → (depend s d l r).last_store ≡ s.last_store
unfolding depend
depend_last_store s d l r = refl

store-depend-Writes :
    (s : State) (d : DynamicInst) (from to l r : ℕ)
    → IsWhole s.last_store
    → r ≤ max_range
    → Writes s (store (depend s d from to) d l r) d (in_range l r)
unfolding depend store
store-depend-Writes s d from to l r h p =
    let w = store-Writes (depend s d from to) d l r h p in
    record { whole = w.whole; counted = refl; at = w.at }

use_segment-Writes :
    (d : DynamicInst) (s : State) (t : SegmentType) (l r : ℕ)
    → IsWhole s.last_store
    → r ≤ max_range
    → Writes s (use_segment d s t l r) d (λ x. is_covered t && in_range l r x)
unfolding use_segment
use_segment-Writes d s empty_segment l r h p = Writes-none s d h
use_segment-Writes d s partial_segment l r h p = Writes-none s d h
use_segment-Writes d s covered_segment l r h p = store-depend-Writes s d l r l r h p

Tiles-right_end :
    (s : Segment ℕ) (ss : List (Segment ℕ)) (lo hi : ℕ) → Tiles (s ∷ ss) lo hi → s.right ≤ hi
Tiles-right_end s [] lo hi h = omega arith
Tiles-right_end s (t ∷ ss) lo hi (a, b, c) = omega (arith, Tiles-right_end t ss s.right hi c)

use_group-Writes :
    (d : DynamicInst) (ss : List (Segment ℕ)) (s : State) (lo hi : ℕ)
    → IsWhole s.last_store
    → Tiles ss lo hi
    → hi ≤ max_range
    → Writes s (use_group d s ss) d (covered_at ss)
unfolding use_group
use_group-Writes d [] s lo hi h ts p = Writes-none s d h
use_group-Writes d (i ∷ is) s lo hi h ts p =
    let first =
      use_segment-Writes d s i.type i.left i.right h
        (omega (arith, Tiles-right_end i is lo hi ts)) in
    Writes-trans first (use_group-Writes d is _ i.right hi first.whole ts.2 p)

-- The trees of the groups span all addresses, and every group that an address has is in the map.
pub record IsGrouped (g : Groups) : Type 0 where
  pub spanned : IsWhole g.addr2group
  pub listed :
      (a group : ℕ)
      → get g.addr2group a ≡ some group
      → (tree : SegmentTree ℕ) × (map_find g.group2addr group ≡ some tree) × IsWhole tree

-- Whether `x` is in the memory group of address `a`.
abbrev pub in_tree : Option (SegmentTree ℕ) → ℕ → Bool
in_tree none x = false
in_tree (some tree) x = is_some (get tree x)

abbrev pub group_tree : Groups → Option ℕ → Option (SegmentTree ℕ)
group_tree g none = none
group_tree g (some group) = map_find g.group2addr group

abbrev pub same_group : Groups → ℕ → ℕ → Bool
same_group g a x = in_tree (group_tree g (get g.addr2group a)) x

abbrev pub any_same_group : Groups → List ℕ → ℕ → Bool
any_same_group g [] x = false
any_same_group g (a ∷ rest) x = same_group g a x || any_same_group g rest x

-- The code returns a state, and between the two `d` writes what `w` picks.
abbrev pub RunsTo : State → Option State → DynamicInst → (ℕ → Bool) → Type 0
RunsTo s o d w = (s' : State) × (o ≡ some s') × Writes s s' d w

Writes-eq :
    {s s' : State} {d : DynamicInst} {v w : ℕ → Bool}
    → ((x : ℕ) → x < max_range → v x ≡ w x)
    → Writes s s' d v
    → Writes s s' d w
Writes-eq e a = record { whole = a.whole; counted = a.counted; at = λ x p. rw (← e x p) (a.at x p) }

use_tree-Writes :
    (d : DynamicInst) (tree : SegmentTree ℕ) (s : State)
    → IsWhole s.last_store
    → IsWhole tree
    → Writes s (use_group d s (collect tree 0 max_range)) d (λ x. is_some (get tree x))
use_tree-Writes d tree s h k =
    let c =
      collect-Collected tree 0 max_range k.shaped (rw k.at_left (omega arith)) (omega arith)
        (rw k.at_right (omega arith)) in
    let w =
      use_group-Writes d (collect tree 0 max_range) s c.first c.last h c.tiled
        (omega (arith, c.within, k.at_right)) in
    Writes-eq
      (λ x p.
        covered_at-is_some (get tree) (collect tree 0 max_range) c.first c.last x c.tiled c.agreeing
          (omega (arith, c.from)) (omega (arith, c.to)))
      w

use_argument-RunsTo :
    (g : Groups) (d : DynamicInst) (s : State) (a : ℕ)
    → IsGrouped g
    → IsWhole s.last_store
    → RunsTo s (use_argument g d s a) d (same_group g a)
unfolding use_argument
use_argument-RunsTo g d s a v h = elim (Option-cases (get g.addr2group a)) [
  | inl e ↦ rw (e, use_argument) (s, refl, Writes-eq (λ x p. rw e) (Writes-none s d h))
  | inr (group, e) ↦
      let (tree, found, k) = v.listed a group e in
      rw (e, use_argument, found)
        (
          use_group d s (collect tree 0 max_range),
          refl,
          Writes-eq (λ x p. rw (e, found)) (use_tree-Writes d tree s h k),
        )
]

use_arguments-RunsTo :
    (g : Groups) (d : DynamicInst) (args : List ℕ) (s : State)
    → IsGrouped g
    → IsWhole s.last_store
    → RunsTo s (use_arguments g d s args) d (any_same_group g args)
unfolding use_arguments
use_arguments-RunsTo g d [] s v h = (s, refl, Writes-none s d h)
use_arguments-RunsTo g d (a ∷ rest) s v h =
    let (s', e, w) = use_argument-RunsTo g d s a v h in
    let (s'', e', w') = use_arguments-RunsTo g d rest s' v w.whole in
    (s'', rw e e', Writes-trans w w')

-- What instructions write through their addresses; an atomic instruction reads, changes and writes.
abbrev pub stores : InstType → Bool
stores store_inst = true
stores atomic_inst = true
stores _ = false

-- The atomic instructions, whose writes the code leaves out.
abbrev pub is_atomic : InstType → Bool
is_atomic atomic_inst = true
is_atomic _ = false

abbrev pub atomic_access : SmallestBlockType → InstType → Bool
atomic_access memory_access_block t = is_atomic t
atomic_access _ t = false

abbrev pub range_of : List ℕ → ℕ → Bool
range_of (l ∷ r ∷ rest) x = in_range l r x
range_of _ x = false

-- The addresses that a block writes when it runs an instruction of type `t`.
abbrev pub block_writes : Groups → SmallestBlockType → InstType → List ℕ → ℕ → Bool
block_writes g memory_access_block t addr x = stores t && range_of addr x
block_writes g memset_block t addr x = range_of addr x
block_writes g memmove_block t addr x = range_of addr x
block_writes g external_call_block t addr x = any_same_group g (pointer_args addr) x
block_writes g impactful_call_block t addr x = any_same_group g (pointer_args addr) x
block_writes g normal_block t addr x = false
block_writes g declare_block t addr x = false

-- The blocks that the merged trace may hold: ranges of 64-bit addresses in their places.
abbrev pub IsRunnable : SmallestBlockType → List ℕ → Type 0
IsRunnable memory_access_block (l ∷ r ∷ rest) = r ≤ max_range
IsRunnable memset_block (l ∷ r ∷ rest) = r ≤ max_range
IsRunnable memmove_block (l ∷ r ∷ from ∷ to ∷ rest) = r ≤ max_range
IsRunnable external_call_block addr = Unit {0}
IsRunnable impactful_call_block addr = Unit {0}
IsRunnable normal_block addr = Unit {0}
IsRunnable declare_block addr = Unit {0}
IsRunnable _ _ = ⊥

no_range : (l r x : ℕ) → leb r l ≡ true → in_range l r x ≡ false
no_range l r x h = ground arith

-- A guarded write: an empty range is left out by the code, and holds no address anyway.
guarded-Writes :
    (s t : State) (d : DynamicInst) (l r : ℕ) (c : Bool)
    → IsWhole s.last_store
    → Writes s t d (λ x. c && in_range l r x)
    → Writes s (if leb r l then s else t) d (λ x. c && in_range l r x)
guarded-Writes s t d l r c h w = elim (Bool-cases (leb r l)) [
  | inl e ↦ rw e (Writes-eq (λ x p. rw (no_range l r x e) (and_false c)) (Writes-none s d h))
  | inr e ↦ rw e w
]
  where
    and_false : (b : Bool) → false ≡ b && false
    and_false b = ground arith

if_some : (s t : State) (c : Bool) → (if c then some s else some t) ≡ some (if c then s else t)
if_some s t true = refl
if_some s t false = refl

access-Writes :
    (t : InstType) (s : State) (d : DynamicInst) (l r : ℕ)
    → is_atomic t ≡ false
    → IsWhole s.last_store
    → r ≤ max_range
    → Writes s (access t s d l r) d (λ x. stores t && in_range l r x)
unfolding access depend
access-Writes store_inst s d l r n h p = store-Writes s d l r h p
access-Writes load_inst s d l r n h p = record { whole = h; counted = refl; at = λ x q. refl }
access-Writes atomic_inst s d l r n h p = cc
access-Writes _ s d l r n h p = Writes-none s d h

-- One block that is no access of an atomic instruction, once its dynamic instruction `d` is counted:
-- the run succeeds, the addresses that the
-- block writes belong to `d`, and the others keep their last writer.
pub run_counted-RunsTo :
    (p : Program) (g : Groups) (t : SmallestBlockType) (addr : List ℕ) (id : ℕ) (info : InstInfo)
    (d : DynamicInst) (s : State)
    → inst_info p id ≡ some info
    → atomic_access t info.type ≡ false
    → IsRunnable t addr
    → IsGrouped g
    → IsWhole s.last_store
    → RunsTo s (run_counted p g addr t id d s) d (block_writes g t info.type addr)
unfolding run_counted
run_counted-RunsTo p g memory_access_block (l ∷ r ∷ rest) id info d s e n ok v h = rw e (
  _,
  if_some s (access info.type s d l r) (leb r l),
  guarded-Writes s (access info.type s d l r) d l r (stores info.type) h
      (access-Writes info.type s d l r n h ok),
)
run_counted-RunsTo p g memset_block (l ∷ r ∷ rest) id info d s e n ok v h =
    (_, refl, guarded-Writes s (store s d l r) d l r true h (store-Writes s d l r h ok))
run_counted-RunsTo p g memmove_block (l ∷ r ∷ from ∷ to ∷ rest) id info d s e n ok v h = (
  _,
  refl,
  guarded-Writes s (store (depend s d from to) d l r) d l r true h
      (store-depend-Writes s d from to l r h ok),
)
run_counted-RunsTo p g external_call_block addr id info d s e n ok v h =
    use_arguments-RunsTo g d (pointer_args addr) s v h
run_counted-RunsTo p g impactful_call_block addr id info d s e n ok v h =
    use_arguments-RunsTo g d (pointer_args addr) s v h
run_counted-RunsTo p g normal_block addr id info d s e n ok v h = (s, refl, Writes-none s d h)
run_counted-RunsTo p g declare_block addr id info d s e n ok v h = (s, refl, Writes-none s d h)
run_counted-RunsTo p g memory_access_block [] id info d s e n ok v h = elim ok [ ]
run_counted-RunsTo p g memory_access_block (l ∷ []) id info d s e n ok v h = elim ok [ ]
run_counted-RunsTo p g memset_block [] id info d s e n ok v h = elim ok [ ]
run_counted-RunsTo p g memset_block (l ∷ []) id info d s e n ok v h = elim ok [ ]
run_counted-RunsTo p g memmove_block [] id info d s e n ok v h = elim ok [ ]
run_counted-RunsTo p g memmove_block (l ∷ []) id info d s e n ok v h = elim ok [ ]
run_counted-RunsTo p g memmove_block (l ∷ r ∷ []) id info d s e n ok v h = elim ok [ ]
run_counted-RunsTo p g memmove_block (l ∷ r ∷ m ∷ []) id info d s e n ok v h = elim ok [ ]
