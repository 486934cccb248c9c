-- ===== src/Merge/Flush.antt =====
-- The end of MergeTrace: the frames that are still there when the trace ends are closed.
use mathlib.Core.List.{map}
use slimmer.Base.{ℕ, List, [], ◌∷◌, Option, none, some, ◌>>=◌}
use slimmer.Program.{Program, SmallestBlock, normal_block}
use slimmer.Trace.Event.{Event}
use slimmer.Merge.Frames.{
  State, StackInfo, stack, start, set_stack, push_block, make_block, close_block,
}
use slimmer.Merge.Events.{run_events}

-- An empty block at the place where a frame stands, with the last basic block of another frame.
abbrev pub left_block : ℕ → StackInfo → StackInfo → SmallestBlock
left_block tid info shown =
    record (make_block normal_block tid info info.cur_index info.cur_index (0, 0)) {
      last_bbid = shown.last_bbid;
    }

abbrev pub top_frame : List StackInfo → Option StackInfo
top_frame [] = none
top_frame (f ∷ fs) = some f

-- The frames of one thread. The last basic block is read from the frame on top of the thread that
-- `*tid_ptr` names, whichever thread is closed; that thread having no frame there is no result.
unfoldable pub close_frames : Program → ℕ → ℕ → List StackInfo → State → Option State
close_frames p last_tid tid [] s = some s
close_frames p last_tid tid (info ∷ rest) s = top_frame (stack s last_tid) >>= λ shown.
    close_block p rest (left_block tid info shown) >>= λ b.
    close_frames p last_tid tid rest (push_block b (set_stack tid rest s))

unfoldable pub close_threads : Program → ℕ → List ℕ → State → Option State
close_threads p last_tid [] s = some s
close_threads p last_tid (tid ∷ tids) s =
    close_frames p last_tid tid (stack s tid) s >>= λ s'. close_threads p last_tid tids s'

-- What `*tid_ptr` holds at the end of the trace.
abbrev pub last_tid_of : ℕ → List (ℕ × Event) → ℕ
last_tid_of tid [] = tid
last_tid_of tid ((t, event) ∷ events) = last_tid_of t events

abbrev pub threads : State → List ℕ
threads s = map (λ entry. entry.0) s.call_stack

-- MergeTrace on the events that the iterator returns, each with what `*tid_ptr` holds then.
unfoldable pub merge_trace : Program → List ℕ → List (ℕ × Event) → Option (List SmallestBlock)
merge_trace p impactful_fun_call events = do
  s ← run_events p impactful_fun_call events start
  s' ← close_threads p (last_tid_of 0 events) (threads s) s
  some s'.block_trace
