-- ===== src/Pin/Calls.antt =====
-- tools/PrintBug/ExtractImpactfulFunCall.cpp: the functions in which a thread entered the kernel, from
-- the trace of the Pin tool.
use slimmer.Base.{
  ℕ, zero, suc, ◌+◌, Bool, true, false, ◌==◌, leb, List, [], ◌∷◌, ◌++◌, Option, none, some, ◌>>=◌,
  if◌then◌else◌, length, take, drop, map_at, map_set, set_insert, nat_order, pair_order,
}
use slimmer.Trace.Bytes.{read_word}
use slimmer.Trace.Event.{call_event_label, return_event_label, syscall_event_label, end_event_label}
use slimmer.Trace.GetEvent.{label_at}

-- The head of a stack is its top.
pub record State : Type 0 where
  pub fun_stack : List (ℕ × List (ℕ × ℕ))
  pub fun_count : List ((ℕ × ℕ) × ℕ)
  pub impactful_fun_call : List ℕ

abbrev pub start : State
start = record { fun_stack = []; fun_count = []; impactful_fun_call = [] }

abbrev pub stack : State → ℕ → List (ℕ × ℕ)
stack s tid = map_at [] s.fun_stack tid

unfoldable pub called : ℕ → ℕ → State → State
called tid fun s =
    let n = map_at 0 s.fun_count (tid, fun) in
    record s {
      fun_stack = map_set s.fun_stack tid ((fun, n) ∷ stack s tid);
      fun_count = map_set s.fun_count (tid, fun) (n + 1);
    }

-- The calls above the one that returns are dropped.
abbrev pub pop_to : ℕ → List (ℕ × ℕ) → List (ℕ × ℕ)
pop_to fun [] = []
pop_to fun ((g, n) ∷ below) = if g == fun then (g, n) ∷ below else pop_to fun below

abbrev pub popped : List (ℕ × ℕ) → List (ℕ × ℕ)
popped [] = []
popped (top ∷ below) = below

unfoldable pub returned : ℕ → ℕ → State → State
returned tid fun s = record s {
  fun_stack = map_set s.fun_stack tid (popped (pop_to fun (stack s tid)));
}

abbrev pub note_top : List (ℕ × ℕ) → List ℕ → List ℕ
note_top [] funs = funs
note_top ((fun, n) ∷ below) funs = set_insert funs fun

unfoldable pub system_call : ℕ → State → State
system_call tid s = record s { impactful_fun_call = note_top (stack s tid) s.impactful_fun_call }

-- What one event does: whether it ends the trace, how far `cur` moves and the maps.
pub record Step : Type 0 where
  pub ended : Bool
  pub size : ℕ
  pub state : State

-- The switch. On another label the code stays where it is for ever: no result.
unfoldable pub step : List ℕ → ℕ → State → Option Step
step buffer cur s =
    let label = label_at buffer cur in
    let tid = read_word 8 buffer (cur + 1) in
    let fun = read_word 8 buffer (cur + 65) in
    if label == end_event_label
    then some (record { ended = true; size = 1; state = s })
    else if label == call_event_label
    then some (record { ended = false; size = 130; state = called tid fun s })
    else if label == return_event_label
    then some (record { ended = false; size = 130; state = returned tid fun s })
    else if label == syscall_event_label
    then some (record { ended = false; size = 66; state = system_call tid s })
    else none

-- The loop over a decoded block, with `ended`. The fuel is more than the bytes that are left, since
-- every event moves `cur` on.
unfoldable pub read_block : ℕ → List ℕ → ℕ → ℕ → State → Option (Bool × State)
read_block zero buffer decoded cur s = none
read_block (suc fuel) buffer decoded cur s =
    if leb decoded cur
    then some (false, s)
    else (step buffer cur s >>= λ next.
        if next.ended
        then some (true, next.state)
        else read_block fuel buffer decoded (cur + next.size) next.state)

-- What stands in the buffer once a block is decoded into it.
abbrev pub refill : List ℕ → List ℕ → List ℕ
refill block buffer = block ++ drop (length block) buffer

-- The loop over the file. The fuel is more than the bytes that are left, since every block has its
-- length before and behind it.
unfoldable pub read_file :
    (List ℕ → Option (List ℕ)) → ℕ → List ℕ → List ℕ → ℕ → State → Option State
read_file decompress zero trace buffer at s = none
read_file decompress (suc fuel) trace buffer at s =
    let size = read_word 8 trace at in
    if leb (length trace) at
    then some s
    else (decompress (take size (drop (at + 8) trace)) >>= λ block.
        read_block (suc (length block)) (refill block buffer) (length block) 0 s >>= λ read.
        if read.0
        then some read.1
        else read_file decompress fuel trace (refill block buffer) (at + 8 + (size + 8)) read.1)

-- `buffer` is what malloc returns.
unfoldable pub extract_impactful_fun_call :
    (List ℕ → Option (List ℕ)) → List ℕ → List ℕ → Option (List ℕ)
extract_impactful_fun_call decompress buffer trace = do
  s ← read_file decompress (suc (length trace)) trace buffer 0 start
  some s.impactful_fun_call
