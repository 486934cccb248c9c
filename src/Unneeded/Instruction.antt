-- ===== src/Unneeded/Instruction.antt =====
-- OneInstruction and IsReturnVoid of tools/PrintBug/PrintBug.cpp.
use slimmer.Base.{
  ℕ, ℤ, pos_part, neg_part, Bool, ◌&&◌, ◌||◌, ◌==◌, leb, List, [], ◌∷◌, Option, some, ◌>>=◌,
  if◌then◌else◌, take, map_at, set_insert, set_insert_all, set_erase, pair_order,
}
use slimmer.Program.{
  Program, DepType, inst, DynamicInst, dynamic_order, inst_info, Text, to_int32, is_text,
}

-- The globals that the pass reads: the program, `MemDependencies` and `PostDominator`. An `[]` that
-- adds an empty entry to one of the two maps is a lookup with the empty default.
pub record Facts : Type 0 where
  pub program : Program
  pub mem_dependencies : List (DynamicInst × List DynamicInst)
  pub post_dominator : List (ℕ × List ℕ)

abbrev pub same_int : ℤ → ℤ → Bool
same_int a b = (pos_part a == pos_part b) && (neg_part a == neg_part b)

-- needed.insert(I(tid, id)) for a dependency on an instruction.
abbrev pub need_dep : ℕ → DepType → ℕ → List (ℕ × ℕ) → List (ℕ × ℕ)
need_dep tid inst id needed = set_insert needed (tid, id)
need_dep tid _ id needed = needed

abbrev pub need_ssa : ℕ → List (DepType × ℕ) → List (ℕ × ℕ) → List (ℕ × ℕ)
need_ssa tid [] needed = needed
need_ssa tid ((type, id) ∷ deps) needed = need_ssa tid deps (need_dep tid type id needed)

-- The phi dependency of the block that was executed last, the first that fits.
abbrev pub need_phi : ℕ → ℤ → List (ℕ × DepType × ℕ) → List (ℕ × ℕ) → List (ℕ × ℕ)
need_phi tid last_bb_id [] needed = needed
need_phi tid last_bb_id ((bb, type, id) ∷ deps) needed =
    if same_int (to_int32 bb) last_bb_id
    then need_dep tid type id needed
    else need_phi tid last_bb_id deps needed

unfoldable pub one_instruction :
    Facts
    → DynamicInst
    → ℤ
    → List (ℕ × ℕ) × List DynamicInst
    → Option (List (ℕ × ℕ) × List DynamicInst)
one_instruction f d last_bb_id (needed, mem_depended) = do
  info ← inst_info f.program d.id
  some (
    need_phi d.tid last_bb_id info.phi_dependencies
        (need_ssa d.tid info.ssa_dependencies (set_erase needed (d.tid, d.id))),
    set_insert_all (set_erase mem_depended d) (map_at [] f.mem_dependencies d),
  )

-- isspace in the C locale.
abbrev pub is_space : ℕ → Bool
is_space c = (c == 32) || (leb 9 c && leb c 13)

abbrev pub skip_spaces : Text → Text
skip_spaces [] = []
skip_spaces (c ∷ cs) = if is_space c then skip_spaces cs else c ∷ cs

-- code.substr(i, 8) == "ret void"
unfoldable pub is_return_void : Text → Bool
is_return_void code =
    is_text (take 8 (skip_spaces code)) (114 ∷ 101 ∷ 116 ∷ 32 ∷ 118 ∷ 111 ∷ 105 ∷ 100 ∷ [])
