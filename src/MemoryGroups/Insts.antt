-- ===== src/MemoryGroups/Insts.antt =====
-- MergeInst: all the addresses that an instruction uses are merged into one group.
use slimmer.Base.{
  ℕ, ◌+◌, ◌-◌, ◌^◌, ◌%◌, Bool, true, false, not, ◌&&◌, ◌||◌, ◌==◌, leb, List, [], ◌∷◌, Option, none,
  some, ◌>>=◌, if◌then◌else◌, length, get_elem?, map_find, map_at, map_set, map_erase, set_insert,
  set_erase, nat_order, pair_order,
}
use slimmer.Program.{Program, DepType, inst, pointer_arg, SmallestBlock, inst_info}
use slimmer.MemoryGroups.Merging.{State, merge_groups}

-- A dependency that is a pointer, and the variable that stands for it: arguments are numbered behind
-- the instructions.
abbrev pub is_pointer_dep : Program → DepType × ℕ → Option Bool
is_pointer_dep p (inst, id) = do info ← inst_info p id; some info.is_pointer
is_pointer_dep p (pointer_arg, id) = some true
is_pointer_dep p (_, id) = some false

abbrev pub is_arg : DepType → Bool
is_arg pointer_arg = true
is_arg _ = false

abbrev pub variable_of : Program → ℕ → DepType × ℕ → ℕ × ℕ
variable_of p tid (type, id) = (tid, if is_arg type then (id + length p.ins) % 2 ^ 32 else id)

-- shoud_merge.insert(Ins2Group[ins]) if there is one.
abbrev pub add_group_of : State → ℕ × ℕ → List ℕ → List ℕ
add_group_of s ins shoud_merge = elim (map_find s.ins2group ins) [
  | none ↦ shoud_merge
  | some g ↦ set_insert shoud_merge g
]

unfoldable pub add_dep_groups : Program → ℕ → State → List (DepType × ℕ) → List ℕ → Option (List ℕ)
add_dep_groups p tid s [] shoud_merge = some shoud_merge
add_dep_groups p tid s (dep ∷ deps) shoud_merge = is_pointer_dep p dep >>= λ is_pointer.
    add_dep_groups p tid s deps
      (if is_pointer then add_group_of s (variable_of p tid dep) shoud_merge else shoud_merge)

-- Ins2Group.erase(ins) with its entry in Group2Ins.
unfoldable pub forget_ins : ℕ × ℕ → State → State
forget_ins ins s = elim (map_find s.ins2group ins) [
  | none ↦ s
  | some g ↦ record s {
    group2ins = map_set s.group2ins g (set_erase (map_at [] s.group2ins g) ins);
    ins2group = map_erase s.ins2group ins;
  }
]

-- Ins2Group[ins] = g with its entry in Group2Ins.
unfoldable pub label_ins : ℕ × ℕ → ℕ → State → State
label_ins ins g s = record s {
  ins2group = map_set s.ins2group ins g;
  group2ins = map_set s.group2ins g (set_insert (map_at [] s.group2ins g) ins);
}

-- labeled_args[tid].insert(id) for an argument.
unfoldable pub note_arg : DepType → ℕ × ℕ → State → State
note_arg type ins s =
    if is_arg type
    then record s {
      labeled_args =
          map_set s.labeled_args ins.0 (set_insert (map_at [] s.labeled_args ins.0) ins.1);
    }
    else s

unfoldable pub label_deps : Program → ℕ → ℕ → List (DepType × ℕ) → State → Option State
label_deps p tid g [] s = some s
label_deps p tid g (dep ∷ deps) s = is_pointer_dep p dep >>= λ is_pointer. label_deps p tid g deps (
    if is_pointer
    then label_ins (variable_of p tid dep) g (note_arg dep.0 (variable_of p tid dep) s)
    else s)

-- The argument's group merged with that of the variable that the caller passed, if it has one.
unfoldable pub merge_arg : ℕ → ℕ × ℕ → State → Option (ℕ × State)
merge_arg arg_group ins s = elim (map_find s.ins2group ins) [
  | none ↦ some (arg_group, s)
  | some g ↦ merge_groups (set_insert (set_insert [] arg_group) g) s
]

unfoldable pub pass_arg : Program → SmallestBlock → ℕ → ℕ → State → Option State
pass_arg p b i arg_group s = do
  info ← inst_info p b.caller
  let index = i - length p.ins
  if leb (length p.ins) i
      then (get_elem? info.ssa_dependencies index >>= λ used_arg.
          is_pointer_dep p used_arg >>= λ is_pointer.
          if is_pointer
          then (let ins = variable_of p b.tid used_arg in
              merge_arg arg_group ins (note_arg used_arg.0 ins s) >>= λ merged.
              some (label_ins ins merged.0 merged.1))
          else some s)
      else none

-- One argument that has a group, at the first block of its function.
unfoldable pub bind_arg : Program → SmallestBlock → ℕ → State → Option State
bind_arg p b i s = elim (map_find s.ins2group (b.tid, i)) [
  | none ↦ some s
  | some arg_group ↦
      if (b.is_first == 1) && not (b.caller == 2 ^ 32 - 1)
      then pass_arg p b i arg_group (forget_ins (b.tid, i) s)
      else some (forget_ins (b.tid, i) s)
]

unfoldable pub bind_args : Program → SmallestBlock → List ℕ → State → Option State
bind_args p b [] s = some s
bind_args p b (i ∷ is) s = bind_arg p b i s >>= λ s'. bind_args p b is s'

unfoldable pub enter_function : Program → SmallestBlock → State → Option State
enter_function p b s =
    if (b.is_first == 1) || (b.is_first == 2)
    then bind_args p b (map_at [] s.labeled_args b.tid)
        (record s { labeled_args = map_set s.labeled_args b.tid [] })
    else some s

-- The group that is returned is the one of the first merge, also where the arguments' merges have
-- taken it into another.
unfoldable pub merge_inst : Program → List ℕ → ℕ × ℕ → SmallestBlock → State → Option (ℕ × State)
merge_inst p shoud_merge ins b s = do
  info ← inst_info p ins.1
  all ← add_dep_groups p b.tid s info.ssa_dependencies (add_group_of s ins shoud_merge)
  merged ← merge_groups all s
  labelled ← label_deps p b.tid merged.0 info.ssa_dependencies (forget_ins ins merged.1)
  s' ← enter_function p b labelled
  some (merged.0, s')
