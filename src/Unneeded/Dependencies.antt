-- ===== src/Unneeded/Dependencies.antt =====
-- What OneInstruction leaves in the two sets of things that are still needed.
use slimmer.Base.{
  ℕ, ◌≡◌, refl, ℤ, Bool, not, ◌&&◌, ◌||◌, List, [], ◌∷◌, some, if◌then◌else◌, map_at, set_count,
  set_insert, set_insert_all, set_erase, set_count-insert, set_count-erase, set_count-insert_all,
  equiv, pair_order, Bool-cases, inl, inr, arith,
}
use slimmer.Program.{
  to_int32, InstInfo, DepType, inst, arg, pointer_arg, constant, DynamicInst, dynamic_order,
  inst_info,
}
use slimmer.Unneeded.Instruction.{Facts, same_int, need_dep, need_ssa, need_phi, one_instruction}

-- The instructions among the dependencies.
abbrev pub dep_insts : ℕ → List (DepType × ℕ) → List (ℕ × ℕ)
dep_insts tid [] = []
dep_insts tid ((inst, id) ∷ deps) = (tid, id) ∷ dep_insts tid deps
dep_insts tid ((_, id) ∷ deps) = dep_insts tid deps

-- What a phi node takes when it is entered from the given block.
abbrev pub taken : ℤ → List (ℕ × DepType × ℕ) → List (DepType × ℕ)
taken last [] = []
taken last ((bb, type, id) ∷ deps) =
    if same_int (to_int32 bb) last then (type, id) ∷ [] else taken last deps

or_move : (a b c : Bool) → a || (b || c) ≡ (b || a) || c
or_move a b c = ground arith

need_dep_lem :
    (tid id : ℕ) (type : DepType) (s : List (ℕ × ℕ)) (k : ℕ × ℕ)
    → set_count (need_dep tid type id s) k
      ≡ set_count (dep_insts tid ((type, id) ∷ [])) k || set_count s k
need_dep_lem tid id inst s k = rw (set_count-insert s (tid, id) k) (ground arith)
need_dep_lem tid id arg s k = refl
need_dep_lem tid id pointer_arg s k = refl
need_dep_lem tid id constant s k = refl

need_ssa_lem :
    (tid : ℕ) (deps : List (DepType × ℕ)) (s : List (ℕ × ℕ)) (k : ℕ × ℕ)
    → set_count (need_ssa tid deps s) k ≡ set_count (dep_insts tid deps) k || set_count s k
need_ssa_lem tid [] s k = refl
need_ssa_lem tid ((inst, id) ∷ deps) s k =
    rw (need_ssa_lem tid deps (set_insert s (tid, id)) k, set_count-insert s (tid, id) k)
      (or_move (set_count (dep_insts tid deps) k) (equiv {K = ℕ × ℕ} (tid, id) k) (set_count s k))
need_ssa_lem tid ((arg, id) ∷ deps) s k = need_ssa_lem tid deps s k
need_ssa_lem tid ((pointer_arg, id) ∷ deps) s k = need_ssa_lem tid deps s k
need_ssa_lem tid ((constant, id) ∷ deps) s k = need_ssa_lem tid deps s k

need_phi_lem :
    (tid : ℕ) (last : ℤ) (deps : List (ℕ × DepType × ℕ)) (s : List (ℕ × ℕ)) (k : ℕ × ℕ)
    → set_count (need_phi tid last deps s) k
      ≡ set_count (dep_insts tid (taken last deps)) k || set_count s k
need_phi_lem tid last [] s k = refl
need_phi_lem tid last ((bb, type, id) ∷ deps) s k =
    elim (Bool-cases (same_int (to_int32 bb) last)) [
      | inl c ↦ rw c (need_dep_lem tid id type s k)
      | inr c ↦ rw c (need_phi_lem tid last deps s k)
    ]

-- Processing an instruction that the program knows leaves exactly these: in `needed`, the SSA
-- dependencies on instructions, the one of the phi node's that the last executed block selects, and
-- what was there but for the instruction itself; in `mem_depended`, the memory dependencies and what
-- was there but for the execution itself.
pub one_instruction_exact :
    (f : Facts) (d : DynamicInst) (last_bb_id : ℤ) (needed : List (ℕ × ℕ))
    (mem_depended : List DynamicInst) (info : InstInfo)
    → inst_info f.program d.id ≡ some info
    → (r : List (ℕ × ℕ) × List DynamicInst) × (one_instruction f d last_bb_id (needed, mem_depended)
        ≡ some r)
      × ((k : ℕ × ℕ)
          → set_count r.0 k ≡ (
              set_count (dep_insts d.tid (taken last_bb_id info.phi_dependencies)) k
              || (set_count (dep_insts d.tid info.ssa_dependencies) k
                  || (not (equiv (d.tid, d.id) k) && set_count needed k))))
      × ((x : DynamicInst)
          → set_count r.1 x ≡ (
              set_count (map_at [] f.mem_dependencies d) x
              || (not (equiv d x) && set_count mem_depended x)))
unfolding one_instruction
one_instruction_exact f d last needed mem info e = (
  (
    need_phi d.tid last info.phi_dependencies
        (need_ssa d.tid info.ssa_dependencies (set_erase needed (d.tid, d.id))),
    set_insert_all (set_erase mem d) (map_at [] f.mem_dependencies d),
  ),
  rw e refl,
  λ k.
      rw
        (
          need_phi_lem d.tid last info.phi_dependencies
              (need_ssa d.tid info.ssa_dependencies (set_erase needed (d.tid, d.id))) k,
          need_ssa_lem d.tid info.ssa_dependencies (set_erase needed (d.tid, d.id)) k,
          set_count-erase needed (d.tid, d.id) k,
        )
        refl,
  λ x.
      rw
        (
          set_count-insert_all (set_erase mem d) (map_at [] f.mem_dependencies d) x,
          set_count-erase mem d x,
        )
        refl,
)
