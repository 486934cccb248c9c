-- ===== src/Tests/Schedules.antt =====
-- Schedules of the runtime's threads on a small trace, with a codec that stores a block as it is.
use slimmer.Base.{ℕ, ◌≤◌, ◌≡◌, refl, List, [], ◌∷◌, ◌++◌, length, take, Option, none, some, arith}
use slimmer.Trace.Event.{Event, basic_block, memory, return, argument, end_event, event_bytes}
use slimmer.Trace.Bytes.{word_bytes}
use slimmer.Trace.Iter.{frame, file_of, open_trace, read_all}
use slimmer.Trace.CircularBuffer.{init, append, hand_over, append_all}
use slimmer.Trace.Workers.{
  Running, ended, closed, start, append_step, record_step, compress_step, close_step, dump_step,
  Step, record_event, close, compress_one, dump_one, run_step, run_steps, recordings,
}
use slimmer.Trace.Holding.{recorded}
use slimmer.Trace.RoundTrip.{trace_blocks}
use slimmer.Trace.Joined.{HaveCaughtUp, read_all-run_steps, closing_ends, file_holds_first_blocks}
use slimmer.Tests.Traces.{stored, unset, few}

abbrev some_or : Running → Option Running → Running
some_or r none = r
some_or r (some s) = s

-- The four events of `few`.
abbrev recorded_few : List Step
recorded_few =
    record_event (basic_block 7 1)
    ∷ record_event (memory 7 2 4096 8)
    ∷ record_event (return 7 3 64)
    ∷ record_event (argument 7 4096)
    ∷ []

-- The first block is dumped while the events of the second come, and the workers wait for it when the
-- end event is appended.
abbrev prompt : List Step
prompt =
    recorded_few
    ++ compress_one ∷ compress_one ∷ compress_one ∷ dump_one ∷ dump_one ∷ dump_one ∷ close ∷ []

-- The workers start when the end event is appended.
abbrev late : List Step
late = recorded_few ++ close ∷ compress_one ∷ dump_one ∷ []

-- The last block is signalled, compressed and dumped, the workers meet their flags and are joined.
abbrev joining : List Step
joining = close ∷ compress_one ∷ compress_one ∷ dump_one ∷ dump_one ∷ close ∷ []

abbrev run_of : List Step → Running
unfolding run_steps run_step record_step append_step compress_step dump_step close_step init append
    hand_over frame event_bytes word_bytes
run_of steps = some_or (start 48) (run_steps stored steps (start 48))

prompt_runs : run_steps stored prompt (start 48) ≡ some (run_of prompt)
unfolding run_steps run_step record_step append_step compress_step dump_step close_step init append
    hand_over frame event_bytes word_bytes
prompt_runs = refl

prompt_ends : (run_of prompt).phase ≡ ended
unfolding run_steps run_step record_step append_step compress_step dump_step close_step init append
    hand_over frame event_bytes word_bytes
prompt_ends = refl

prompt-HaveCaughtUp : HaveCaughtUp (run_of prompt)
unfolding run_steps run_step record_step append_step compress_step dump_step close_step init append
    hand_over frame event_bytes word_bytes
prompt-HaveCaughtUp = (refl, refl, refl, refl)

joining_runs :
    run_steps stored (close ∷ joining) (run_of prompt) ≡ some (run_of (prompt ++ close ∷ joining))
unfolding run_steps run_step record_step append_step compress_step dump_step close_step init append
    hand_over frame event_bytes word_bytes
joining_runs = refl

joining_ends : (run_of (prompt ++ close ∷ joining)).phase ≡ closed
unfolding run_steps run_step record_step append_step compress_step dump_step close_step init append
    hand_over frame event_bytes word_bytes
joining_ends = refl

read_all-run_steps_example :
    (enough : ℕ) × (events : List Event) × ((fuel : ℕ)
      → enough ≤ fuel
      → read_all stored.decompress fuel
          (open_trace (run_of (prompt ++ close ∷ joining)).stream)
          unset
        ≡ some events)
    × (recorded events ≡ few ++ end_event ∷ [])
unfolding recordings
read_all-run_steps_example =
    read_all-run_steps stored prompt joining (run_of prompt) (run_of (prompt ++ close ∷ joining))
      unset
      (
        ((omega arith, omega arith), refl, refl),
        (
          ((omega arith, omega arith, omega arith, omega arith), refl, refl),
          (
            ((omega arith, omega arith, omega arith), refl, refl),
            (((omega arith, omega arith), refl, refl), tt),
          ),
        ),
      )
      (omega arith, (omega arith, (omega arith, (omega arith, tt)))) (omega arith) prompt_runs
      prompt_ends prompt-HaveCaughtUp joining_runs joining_ends

-- Behind the flags the last block is signalled and the compressing thread takes it.
abbrev signalled_last : List Step
signalled_last = close ∷ compress_one ∷ []

signalled_runs :
    run_steps stored (close ∷ signalled_last) (run_of prompt)
    ≡ some (run_of (prompt ++ close ∷ signalled_last))
unfolding run_steps run_step record_step append_step compress_step dump_step close_step init append
    hand_over frame event_bytes word_bytes
signalled_runs = refl

closing_ends_example :
    (after : List Step) × (joined : Running) × (run_steps stored after
        (run_of (prompt ++ close ∷ signalled_last))
      ≡ some joined)
    × (joined.phase ≡ closed)
closing_ends_example =
    closing_ends stored prompt signalled_last (run_of prompt)
      (run_of (prompt ++ close ∷ signalled_last)) prompt_runs prompt_ends prompt-HaveCaughtUp
      signalled_runs

file_holds_first_blocks_example :
    ((run_of prompt).stream ≡ file_of stored (take 1 (trace_blocks 48 few)))
    × ((run_of prompt).dumped ≤ (run_of prompt).compressed)
    × ((run_of prompt).compressed ≤ length (run_of prompt).buffer.filled)
unfolding recordings run_steps run_step record_step append_step compress_step dump_step close_step
    init append hand_over frame event_bytes word_bytes
file_holds_first_blocks_example = file_holds_first_blocks stored prompt (run_of prompt) prompt_runs

-- Where the workers have not come to the last block when the flags are set, they are joined and the
-- last block, with the last two events, is not in the file.
abbrev late_joining : List Step
late_joining = close ∷ close ∷ compress_one ∷ compress_one ∷ dump_one ∷ dump_one ∷ close ∷ []

last_block_lost :
    ((run_of (late ++ late_joining)).phase ≡ closed)
    × ((run_of (late ++ late_joining)).stream ≡ file_of stored (take 1 (trace_blocks 48 few)))
    × (length (trace_blocks 48 few) ≡ 2)
unfolding trace_blocks append_all file_of run_steps run_step record_step append_step compress_step
    dump_step close_step init append hand_over frame event_bytes word_bytes
last_block_lost = (refl, refl, refl)

-- The dumping thread waits for its first block when the compressing thread has yet to test its flag,
-- and meets it set: no step is possible, and CloseBufferFile waits for the dumping thread for ever.
abbrev no_compressing : List Step
no_compressing = dump_one ∷ recorded_few ++ close ∷ close ∷ close ∷ compress_one ∷ []

not_compressing_runs : run_steps stored no_compressing (start 48) ≡ some (run_of no_compressing)
unfolding run_steps run_step record_step append_step compress_step dump_step close_step init append
    hand_over frame event_bytes word_bytes
not_compressing_runs = refl

never_joined : (step : Step) → run_step stored step (run_of no_compressing) ≡ none
unfolding run_steps run_step record_step append_step compress_step dump_step close_step init append
    hand_over frame event_bytes word_bytes
never_joined (record_event e) = refl
never_joined close = refl
never_joined compress_one = refl
never_joined dump_one = refl
