-- ===== src/MemoryDependency/Precision.antt =====
-- A dependency is recorded for just the dynamic instructions that wrote the range read.
use slimmer.Base.{
  ℕ, ◌≤◌, ◌<◌, Bool, true, false, List, [], ◌∷◌, some, ◌≡◌, refl, ◌∙◌, ◌⊎◌, inl, inr, set_insert,
  set_count, equiv, equiv_iff, map_at, map_at-set, arith, Bool-cases, if◌then◌else◌,
}
use slimmer.SegmentTree.{
  Segment, SegmentType, empty_segment, partial_segment, covered_segment, get, collect, max_range,
}
use slimmer.SegmentTree.Collect.{collect-Collected}
use slimmer.Program.{DynamicInst, dynamic_order, dynamic_eq}
use slimmer.MemoryDependency.{State, depend_on, depend_all, depend}
use slimmer.MemoryDependency.Values.{
  insert_value, insert_values, insert_values_complete, insert_values_sound,
}
use slimmer.MemoryDependency.LastWriter.{IsWhole}

abbrev pub Deps : Type 0
Deps = List (DynamicInst × List DynamicInst)

if_same {ℓ} : {A : Type ℓ} {x : A} (c : Bool) → x ≡ (if c then x else x)
if_same true = refl
if_same false = refl

depend_on_at :
    (m : Deps) (d : DynamicInst) (t : SegmentType) (v c : DynamicInst)
    → map_at [] (depend_on m d t v) c
      ≡ (if equiv d c then insert_value (map_at [] m c) t v else map_at [] m c)
depend_on_at m d empty_segment v c = if_same (equiv d c)
depend_on_at m d partial_segment v c = if_same (equiv d c)
depend_on_at m d covered_segment v c =
    map_at-set [] m d c (set_insert (map_at [] m d) v) ∙ elim (Bool-cases (equiv d c)) [
      | inl e ↦ let same : d ≡ c = (equiv_iff d c).0 e in rw same
      | inr e ↦ rw e
    ]

depend_all_self :
    (m : Deps) (d : DynamicInst) (js : List (Segment DynamicInst))
    → map_at [] (depend_all m d js) d ≡ insert_values (map_at [] m d) js
unfolding depend_all
depend_all_self m d [] = refl
depend_all_self m d (j ∷ js) =
    depend_all_self (depend_on m d j.type j.value) d js
    ∙ rw (depend_on_at m d j.type j.value d, (equiv_iff d d).1 refl)

depend_all_other :
    (m : Deps) (d c : DynamicInst) (js : List (Segment DynamicInst))
    → equiv d c ≡ false
    → map_at [] (depend_all m d js) c ≡ map_at [] m c
unfolding depend_all
depend_all_other m d c [] h = refl
depend_all_other m d c (j ∷ js) h =
    depend_all_other (depend_on m d j.type j.value) d c js h
    ∙ rw (depend_on_at m d j.type j.value c, h)

-- What an instruction is recorded to depend on.
abbrev pub depends : State → DynamicInst → DynamicInst → Bool
depends s d j = set_count (map_at [] s.mem_dep d) j

-- Whether some address of [l, r) was last written by `j`.
abbrev pub WroteIn : State → ℕ → ℕ → DynamicInst → Type 0
WroteIn s l r j = (x : ℕ) × (l ≤ x) × (x < r) × (get s.last_store x ≡ some j)

-- Reading [l, r) as `d` adds the last writers of the addresses in [l, r) to what `d` depends on, and
-- nothing else; no other instruction's dependencies change.
pub depend_exact :
    (s : State) (d j : DynamicInst) (l r : ℕ)
    → IsWhole s.last_store
    → l < r
    → r ≤ max_range
    → (WroteIn s l r j → depends (depend s d l r) d j ≡ true)
      × (depends (depend s d l r) d j ≡ true → (depends s d j ≡ true) ⊎ WroteIn s l r j)
      × ((c : DynamicInst) → equiv d c ≡ false → depends (depend s d l r) c j ≡ depends s c j)
unfolding depend
depend_exact s d j l r h w p =
    let segments = collect s.last_store l r in
    let c =
      collect-Collected s.last_store l r h.shaped (rw h.at_left (omega arith)) w
        (rw h.at_right p) in
    (
      (λ (x, lo, hi, e). rw (depend_all_self s.mem_dep d segments) (
          insert_values_complete (get s.last_store) _ segments c.first c.last x j c.tiled c.agreeing
            (omega (arith, c.from)) (omega (arith, c.to)) e)),
      (λ found.
          insert_values_sound (get s.last_store) _ segments c.first c.last l r j c.tiled c.agreeing
            c.touching w (rw (depend_all_self s.mem_dep d segments) at found)),
      (λ b e. rw (depend_all_other s.mem_dep d b segments e)),
    )
