-- ===== src/Merge/Drain.antt =====
-- The loop at the end of a round of MergeTrace: the instructions that need no event are put into a
-- block, and a function that has returned leaves its frame.
use slimmer.Base.{
  ℕ, suc, Bool, true, false, ◌==◌, ltb, List, [], ◌∷◌, Option, none, some, ◌>>=◌, if◌then◌else◌,
  length, take, drop, get_elem?,
}
use slimmer.Program.{
  Program, InstInfo, InstType, normal_inst, return_inst, terminator_inst, phi_node, var_arg,
  call_inst, SmallestBlock, normal_block, inst_info, is_text,
}
use slimmer.Merge.Frames.{State, StackInfo, first_of, set_stack, emit, make_block, close_block}

-- The types of instructions that are always executed with the one before.
abbrev pub runs_on : InstType → Bool
runs_on normal_inst = true
runs_on return_inst = true
runs_on terminator_inst = true
runs_on phi_node = true
runs_on var_arg = true
runs_on _ = false

-- The for loop, on the instructions from `end_index` on.
unfoldable pub scan : Program → ℕ → List ℕ → Option ℕ
scan p end_index [] = some end_index
scan p end_index (id ∷ ids) = inst_info p id >>= λ info. elim (runs_on info.type) [
  | true ↦ scan p (suc end_index) ids
  | false ↦ some end_index
]

-- A call of an instrumented function belongs to the block; a call of an intrinsic does not.
abbrev pub is_own_call : InstInfo → InstType → Bool
is_own_call info call_inst = elim (is_text (take 5 info.fun) (108 ∷ 108 ∷ 118 ∷ 109 ∷ 46 ∷ [])) [
  | true ↦ false
  | false ↦ true
]
is_own_call info _ = false

unfoldable pub past_call : Program → List ℕ → ℕ → Option ℕ
past_call p insts end_index = elim (get_elem? insts end_index) [
  | none ↦ some end_index
  | some id ↦ do
    info ← inst_info p id
    some (if is_own_call info info.type then suc end_index else end_index)
]

abbrev pub is_return : InstType → Bool
is_return return_inst = true
is_return _ = false

-- BB2Ins[info.BBID].back()
abbrev pub last_elem : List ℕ → Option ℕ
last_elem [] = none
last_elem (id ∷ []) = some id
last_elem (id ∷ j ∷ ids) = last_elem (j ∷ ids)

-- Whether the block's end is that of its function.
unfoldable pub last_bb : Program → List ℕ → ℕ → Option Bool
last_bb p insts end_index =
    if end_index == length insts
    then (last_elem insts >>= λ id. inst_info p id >>= λ info. some (is_return info.type))
    else some false

-- Where the frame comes to rest, and whether its function ends there.
unfoldable pub advance : Program → StackInfo → Option (ℕ × Bool)
advance p info = do
  insts ← get_elem? p.bb2ins info.bbid
  rest ← scan p info.cur_index (drop info.cur_index insts)
  end_index ← past_call p insts rest
  last ← last_bb p insts end_index
  some (end_index, last)

-- The block from where the frame stood to where it comes to rest.
abbrev pub next_block : ℕ → StackInfo → ℕ → State → SmallestBlock
next_block tid info end_index s =
    make_block normal_block tid info info.cur_index end_index (first_of s tid)

-- The frame comes to rest, with a block if it has moved.
unfoldable pub rest_at : ℕ → StackInfo → List StackInfo → ℕ → State → State
rest_at tid info rest end_index s =
    set_stack tid (record info { cur_index = end_index } ∷ rest)
      (if ltb info.cur_index end_index then emit tid (next_block tid info end_index s) s else s)

-- The loop over the frames of a thread. A frame that stands behind the last instruction of its
-- function is neither moved nor removed, so that the loop would go on for ever: no result.
unfoldable pub drain : Program → ℕ → List StackInfo → State → Option State
drain p tid [] s = some (set_stack tid [] s)
drain p tid (info ∷ rest) s = advance p info >>= λ moved. elim moved.1 [
  | false ↦ some (rest_at tid info rest moved.0 s)
  | true ↦ elim (ltb info.cur_index moved.0) [
    | false ↦ none
    | true ↦
        close_block p rest (next_block tid info moved.0 s) >>= λ b. drain p tid rest (emit tid b s)
  ]
]
