-- ===== src/Merge/Frames.antt =====
-- The state of MergeTrace and the blocks that it makes of a frame.
use slimmer.Base.{
  ℕ, zero, suc, ◌+◌, ◌-◌, ◌^◌, ◌%◌, ℤ, negsuc, Bool, true, false, List, [], ◌∷◌, ◌++◌, Option, none,
  some, ◌>>=◌, if◌then◌else◌, leb, length, get_elem?, map_at, map_set, nat_order, pair_order,
}
use slimmer.Program.{Program, InstType, call_inst, SmallestBlock, SmallestBlockType, inst_info}

-- The frame of a running function. Its block ID is kept as the trace has it.
pub record StackInfo : Type 0 where
  pub bbid : ℕ
  pub last_bbid : ℤ
  pub cur_index : ℕ

-- The local maps of MergeTrace and the blocks found so far. The head of a stack is its last element.
pub record State : Type 0 where
  pub fun_counter : List ((ℕ × ℕ) × ℕ)
  pub args : List (ℕ × List ℕ)
  pub call_stack : List (ℕ × List StackInfo)
  pub is_first : List (ℕ × (ℕ × ℕ))
  pub block_trace : List SmallestBlock

abbrev pub start : State
start = record { fun_counter = []; args = []; call_stack = []; is_first = []; block_trace = [] }

abbrev pub stack : State → ℕ → List StackInfo
stack s tid = map_at [] s.call_stack tid

abbrev pub first_of : State → ℕ → ℕ × ℕ
first_of s tid = map_at (0, 0) s.is_first tid

unfoldable pub set_stack : ℕ → List StackInfo → State → State
set_stack tid frames s = record s { call_stack = map_set s.call_stack tid frames }

unfoldable pub set_first : ℕ → ℕ × ℕ → State → State
set_first tid first s = record s { is_first = map_set s.is_first tid first }

unfoldable pub push_block : SmallestBlock → State → State
push_block b s = record s { block_trace = s.block_trace ++ b ∷ [] }

-- block_trace.push_back(b) and is_first[tid] = make_pair(0, 0)
unfoldable pub emit : ℕ → SmallestBlock → State → State
unfolding push_block set_first
emit tid b s = set_first tid (0, 0) (push_block b s)

-- The constructor of SmallestBlock on a frame.
abbrev pub make_block : SmallestBlockType → ℕ → StackInfo → ℕ → ℕ → ℕ × ℕ → SmallestBlock
make_block type tid info start end first = record {
  type = type;
  tid = tid;
  bbid = info.bbid;
  start = start;
  end = end;
  addr = [];
  is_first = first.0;
  is_last = 0;
  caller = first.1;
  last_bbid = info.last_bbid;
}

-- An address range of 64-bit words.
abbrev pub range : ℕ → ℕ → List ℕ
range addr len = addr ∷ (addr + len) % 2 ^ 64 ∷ []

-- Only the type and the addresses of a declare block are set; the analyses read no more of it.
abbrev pub declare_of : SmallestBlockType → ℕ → ℕ → SmallestBlock
declare_of type addr len = record {
  type = type;
  tid = 0;
  bbid = 0;
  start = 0;
  end = 0;
  addr = range addr len;
  is_first = 0;
  is_last = 0;
  caller = 0;
  last_bbid = negsuc 0;
}

-- BB2Ins[...][index - 1]
abbrev pub inst_before : List ℕ → ℕ → Option ℕ
inst_before insts zero = none
inst_before insts (suc i) = get_elem? insts i

-- The marks of a block that ends its frame, `rest` being the frames below: `IsLast`, and the caller
-- where there is one. A caller that stands at its block's end fails the assertion.
unfoldable pub close_block : Program → List StackInfo → SmallestBlock → Option SmallestBlock
close_block p [] b = some (record b { is_last = 2 })
close_block p (last_info ∷ rest) b = do
  insts ← get_elem? p.bb2ins last_info.bbid
  if leb (length insts) last_info.cur_index
      then none
      else (inst_before insts last_info.cur_index >>= λ id. inst_info p id >>= λ info.
          some (record b { is_last = 1; caller = if is_call info.type then id else 2 ^ 32 - 1 }))
  where
    is_call : InstType → Bool
    is_call call_inst = true
    is_call _ = false
