-- ===== src/MemoryGroups/Labels.antt =====
-- MergeInst keeps the groups consistent and the labels among the groups that have been given out.
use slimmer.Base.{
  ℕ, ◌-◌, ◌^◌, ◌≤◌, ◌≡◌, refl, ◌∙◌, Bool, true, false, not, ◌&&◌, ◌||◌, ◌==◌, leb, List, [], ◌∷◌,
  if◌then◌else◌, length, get_elem?, map_find, map_at, set_insert, All-map_set, All-map_erase,
  map_find-All, nat_order, pair_order, AllOf, just, nothing, AllOf->>=, AllOf-after, AllOf-if,
  AllOf-imp, Option-cases, Bool-cases, inl, inr, arith,
}
use slimmer.Program.{Program, DepType, SmallestBlock, inst_info}
use slimmer.MemoryGroups.Merging.{State}
use slimmer.MemoryGroups.Insts.{
  is_pointer_dep, is_arg, variable_of, add_group_of, add_dep_groups, forget_ins, label_ins,
  note_arg, label_deps, merge_arg, pass_arg, bind_arg, bind_args, enter_function, merge_inst,
}
use slimmer.MemoryGroups.Consistent.{AllGiven, merge_groups-Sound}
use slimmer.MemoryGroups.Invariant.{Sound, IsLabel}

pub AllGiven-insert :
    (last g : ℕ) (is : List ℕ) → AllGiven last is → g ≤ last → AllGiven last (set_insert is g)
AllGiven-insert last g [] h le = (le, tt)
AllGiven-insert last g (i ∷ is) (h, hs) le = elim (Bool-cases (nat_order.less g i)) [
  | inl c ↦ rw c (le, (h, hs))
  | inr c ↦ rw c (elim (Bool-cases (nat_order.less i g)) [
    | inl d ↦ rw d (h, AllGiven-insert last g is hs le)
    | inr d ↦ rw d (h, hs)
  ])
]

add_group_of-AllGiven :
    (s : State) (ins : ℕ × ℕ) (is : List ℕ)
    → Sound s
    → AllGiven s.max_group_id is
    → AllGiven s.max_group_id (add_group_of s ins is)
add_group_of-AllGiven s ins is h all = elim (Option-cases (map_find s.ins2group ins)) [
  | inl e ↦ rw (add_group_of, e) all
  | inr (g, e) ↦
      rw (add_group_of, e)
        (AllGiven-insert s.max_group_id g is all
          (map_find-All (IsLabel s.max_group_id) s.ins2group ins h.labels e))
]

if_Given :
    (c : Bool) (last : ℕ) (xs ys : List ℕ)
    → AllGiven last xs
    → AllGiven last ys
    → AllGiven last (if c then xs else ys)
if_Given true last xs ys h k = h
if_Given false last xs ys h k = k

add_dep_groups-AllGiven :
    (p : Program) (tid : ℕ) (s : State) (deps : List (DepType × ℕ)) (is : List ℕ)
    → Sound s
    → AllGiven s.max_group_id is
    → AllOf (AllGiven s.max_group_id) (add_dep_groups p tid s deps is)
unfolding add_dep_groups
add_dep_groups-AllGiven p tid s [] is h all = just all
add_dep_groups-AllGiven p tid s (dep ∷ deps) is h all = AllOf-after (is_pointer_dep p dep) (λ c.
    add_dep_groups-AllGiven p tid s deps _ h (
      if_Given c s.max_group_id (add_group_of s (variable_of p tid dep) is) is
        (add_group_of-AllGiven s (variable_of p tid dep) is h all) all))

-- A step that keeps the groups sound and the last number.
pub record Keeps (s t : State) : Type 0 where
  pub sound : Sound t
  pub same_max : t.max_group_id ≡ s.max_group_id

Keeps-refl : (s : State) → Sound s → Keeps s s
Keeps-refl s h = record { sound = h; same_max = refl }

forget_ins-Keeps : (ins : ℕ × ℕ) (s : State) → Sound s → Keeps s (forget_ins ins s)
unfolding forget_ins
forget_ins-Keeps ins s h = elim (Option-cases (map_find s.ins2group ins)) [
  | inl e ↦ rw (forget_ins, e) (Keeps-refl s h)
  | inr (g, e) ↦
      rw (forget_ins, e)
        (record {
          sound = record {
            consistent = h.consistent;
            labels = All-map_erase (IsLabel s.max_group_id) s.ins2group ins h.labels;
          };
          same_max = refl;
        })
]

label_ins-Keeps :
    (ins : ℕ × ℕ) (g : ℕ) (s : State) → g ≤ s.max_group_id → Sound s → Keeps s (label_ins ins g s)
unfolding label_ins
label_ins-Keeps ins g s le h = record {
  sound = record {
    consistent = h.consistent;
    labels = All-map_set (IsLabel s.max_group_id) s.ins2group ins g h.labels le;
  };
  same_max = refl;
}

note_arg-Keeps :
    (type : DepType) (ins : ℕ × ℕ) (s : State) → Sound s → Keeps s (note_arg type ins s)
unfolding note_arg
note_arg-Keeps type ins s h = elim (Bool-cases (is_arg type)) [
  | inl c ↦
      rw c (record {
        sound = record { consistent = h.consistent; labels = h.labels };
        same_max = refl;
      })
  | inr c ↦ rw c (Keeps-refl s h)
]

label_dep-Keeps :
    (c : Bool) (ins : ℕ × ℕ) (type : DepType) (g : ℕ) (s : State)
    → g ≤ s.max_group_id
    → Sound s
    → Keeps s (if c then label_ins ins g (note_arg type ins s) else s)
label_dep-Keeps true ins type g s le h =
    let noted = note_arg-Keeps type ins s h in
    let labelled =
      label_ins-Keeps ins g (note_arg type ins s) (omega (arith, le, noted.same_max)) noted.sound in
    record { sound = labelled.sound; same_max = labelled.same_max ∙ noted.same_max }
label_dep-Keeps false ins type g s le h = Keeps-refl s h

label_deps-Keeps :
    (p : Program) (tid g : ℕ) (deps : List (DepType × ℕ)) (s : State)
    → g ≤ s.max_group_id
    → Sound s
    → AllOf (Keeps s) (label_deps p tid g deps s)
unfolding label_deps
label_deps-Keeps p tid g [] s le h = just (Keeps-refl s h)
label_deps-Keeps p tid g (dep ∷ deps) s le h = AllOf-after (is_pointer_dep p dep) (λ c.
    let one = label_dep-Keeps c (variable_of p tid dep) dep.0 g s le h in
    AllOf-imp (label_deps-Keeps p tid g deps _ (omega (arith, le, one.same_max)) one.sound)
      (λ t k. record { sound = k.sound; same_max = k.same_max ∙ one.same_max }))

-- A group with a sound state in which it has been given out.
pub record GroupIn (r : ℕ × State) : Type 0 where
  pub sound : Sound r.1
  pub given : r.0 ≤ r.1.max_group_id

merge_arg-GroupIn :
    (arg_group : ℕ) (ins : ℕ × ℕ) (s : State)
    → arg_group ≤ s.max_group_id
    → Sound s
    → AllOf GroupIn (merge_arg arg_group ins s)
unfolding merge_arg
merge_arg-GroupIn arg_group ins s le h = elim (Option-cases (map_find s.ins2group ins)) [
  | inl e ↦ rw (merge_arg, e) (just (record { sound = h; given = le }))
  | inr (g, e) ↦
      rw (merge_arg, e)
        (AllOf-imp
          (merge_groups-Sound (set_insert (set_insert [] arg_group) g) s h (
            AllGiven-insert s.max_group_id g (set_insert [] arg_group)
              (AllGiven-insert s.max_group_id arg_group [] tt le)
              (map_find-All (IsLabel s.max_group_id) s.ins2group ins h.labels e)))
          (λ r m. record { sound = m.sound; given = m.given }))
]

pass_arg-Sound :
    (p : Program) (b : SmallestBlock) (i arg_group : ℕ) (s : State)
    → arg_group ≤ s.max_group_id
    → Sound s
    → AllOf Sound (pass_arg p b i arg_group s)
unfolding pass_arg
pass_arg-Sound p b i arg_group s le h = AllOf-after (inst_info p b.caller) (λ info.
    AllOf-if (leb (length p.ins) i)
      (AllOf-after (get_elem? info.ssa_dependencies (i - length p.ins)) (λ used_arg.
        AllOf-after (is_pointer_dep p used_arg) (λ c.
          AllOf-if c
            (let ins = variable_of p b.tid used_arg in
              let noted = note_arg-Keeps used_arg.0 ins s h in
              AllOf->>=
                (merge_arg-GroupIn arg_group ins (note_arg used_arg.0 ins s)
                  (omega (arith, le, noted.same_max)) noted.sound)
                (λ r m. just (label_ins-Keeps ins r.0 r.1 m.given m.sound).sound))
            (just h))))
      nothing)

bind_arg-Sound :
    (p : Program) (b : SmallestBlock) (i : ℕ) (s : State) → Sound s → AllOf Sound (bind_arg p b i s)
unfolding bind_arg
bind_arg-Sound p b i s h = elim (Option-cases (map_find s.ins2group (b.tid, i))) [
  | inl e ↦ rw (bind_arg, e) (just h)
  | inr (g, e) ↦
      let gone = forget_ins-Keeps (b.tid, i) s h in
      let given : g ≤ s.max_group_id =
        map_find-All (IsLabel s.max_group_id) s.ins2group (b.tid, i) h.labels e in
      rw (bind_arg, e)
        (AllOf-if ((b.is_first == 1) && not (b.caller == 2 ^ 32 - 1))
          (pass_arg-Sound p b i g (forget_ins (b.tid, i) s) (omega (arith, given, gone.same_max))
            gone.sound)
          (just gone.sound))
]

bind_args-Sound :
    (p : Program) (b : SmallestBlock) (is : List ℕ) (s : State)
    → Sound s
    → AllOf Sound (bind_args p b is s)
unfolding bind_args
bind_args-Sound p b [] s h = just h
bind_args-Sound p b (i ∷ is) s h =
    AllOf->>= (bind_arg-Sound p b i s h) (λ s' h'. bind_args-Sound p b is s' h')

enter_function-Sound :
    (p : Program) (b : SmallestBlock) (s : State) → Sound s → AllOf Sound (enter_function p b s)
unfolding enter_function
enter_function-Sound p b s h =
    AllOf-if ((b.is_first == 1) || (b.is_first == 2))
      (bind_args-Sound p b (map_at [] s.labeled_args b.tid) _
        (record { consistent = h.consistent; labels = h.labels }))
      (just h)

pub merge_inst-Sound :
    (p : Program) (is : List ℕ) (ins : ℕ × ℕ) (b : SmallestBlock) (s : State)
    → Sound s
    → AllGiven s.max_group_id is
    → AllOf (λ r. Sound r.1) (merge_inst p is ins b s)
unfolding merge_inst
merge_inst-Sound p is ins b s h all = AllOf-after (inst_info p ins.1) (λ info.
    AllOf->>=
      (add_dep_groups-AllGiven p b.tid s info.ssa_dependencies (add_group_of s ins is) h
        (add_group_of-AllGiven s ins is h all))
      (λ gs given. AllOf->>= (merge_groups-Sound gs s h given) (λ r m.
        let gone = forget_ins-Keeps ins r.1 m.sound in
        AllOf->>=
          (label_deps-Keeps p b.tid r.0 info.ssa_dependencies (forget_ins ins r.1)
            (omega (arith, m.given, gone.same_max)) gone.sound)
          (λ t k. AllOf->>= (enter_function-Sound p b t k.sound) (λ u v. just v)))))
