-- ===== src/Trace/Workers.antt =====
-- The threads of lib/SlimmerRuntime/SlimmerRuntime.cpp around the circular buffer: those that record
-- events, CompressTrace, DumpCompressed, and the one that runs CloseBufferFile. A schedule is a list
-- of steps; a step that would wait is none.
use slimmer.Base.{
  ℕ, suc, ◌+◌, Bool, true, false, ◌&&◌, List, [], ◌∷◌, ◌++◌, length, Option, none, some, ◌>>=◌, ltb,
  if◌then◌else◌, get_or,
}
use slimmer.Trace.Event.{Event, event_bytes, end_event_label}
use slimmer.Trace.Iter.{Lz4, frame}
use slimmer.Trace.CircularBuffer.{CircularBuffer, init, append, hand_over}

abbrev pub compress_block_cnt : ℕ
compress_block_cnt = 150

-- Where a worker stands: at the test of its done flag, at its next block, or behind its loops.
pub data Worker : Type 0 where
  testing working quit : Worker

-- How far CloseBufferFile has come: not called; the end event appended; the flags set; the last block
-- signalled; the workers joined and `inited` reset.
pub data Phase : Type 0 where
  recording ended flagged signalled closed : Phase

-- Block n lies in buffer n % compress_block_cnt, and its compressed form in the slot of that number,
-- so that the semaphores are differences of three counts: `filled_buffer` of the blocks of
-- `buffer.filled` and `compressed`, `empty_compressed` and `filled_compressed` of `compressed` and
-- `dumped`, `empty_buffer` of the blocks begun and `compressed`. Both done flags are set at once.
pub record Running : Type 0 where
  pub buffer : CircularBuffer
  pub phase : Phase
  pub compress : Worker
  pub compressed : ℕ
  pub dump : Worker
  pub dumped : ℕ
  pub done : Bool
  pub stream : List ℕ

-- CircularBuffer::Init
abbrev pub start : ℕ → Running
start size = record {
  buffer = init size;
  phase = recording;
  compress = testing;
  compressed = 0;
  dump = testing;
  dumped = 0;
  done = false;
  stream = [];
}

-- StartAppend and EndAppend; a new block waits until its buffer is compressed. The block before it is
-- handed over in the same step, since the blocks before that one come first at the worker anyway.
unfoldable pub append_step : Running → List ℕ → Option Running
append_step r bytes =
    let cb = append r.buffer bytes in
    if ltb (length cb.filled) (r.compressed + compress_block_cnt)
    then some (record r { buffer = cb })
    else none

-- An event that a thread records before CloseBufferFile is called.
unfoldable pub record_step : Phase → Running → Event → Option Running
record_step recording r e = append_step r (event_bytes e)
record_step _ r e = none

-- The loop test of a worker.
abbrev pub tested : Bool → Worker
tested done = if done then quit else working

-- One step of CompressTrace: its test, or one block.
unfoldable pub compress_step : Worker → Running → Option Running
compress_step testing r = some (record r { compress = tested r.done })
compress_step working r =
    if ltb r.compressed (length r.buffer.filled) && ltb r.compressed (r.dumped + compress_block_cnt)
    then some (record r { compressed = suc r.compressed; compress = testing })
    else none
compress_step quit r = none

abbrev pub has_quit : Worker → Bool
has_quit quit = true
has_quit _ = false

-- One step of CloseBufferFile. The block that ends the trace is signalled behind the flags; a buffer
-- that is closed is not closed again.
unfoldable pub close_step : Phase → Running → Option Running
close_step recording r = do
  r' ← append_step r (end_event_label ∷ [])
  some (record r' { phase = ended })
close_step ended r = some (record r { done = true; phase = flagged })
close_step flagged r = some (record r { buffer = hand_over r.buffer; phase = signalled })
close_step signalled r =
    if has_quit r.compress && has_quit r.dump then some (record r { phase = closed }) else none
close_step closed r = some r

pub data Step : Type 0 where
  record_event : Event → Step
  close compress_one dump_one : Step

module _ {block_size : ℕ} (lz4 : Lz4 block_size) where
  -- One step of DumpCompressed: its test, or one block through Dump.
  unfoldable pub dump_step : Worker → Running → Option Running
  dump_step testing r = some (record r { dump = tested r.done })
  dump_step working r =
      if ltb r.dumped r.compressed
      then some (record r {
        stream = r.stream ++ frame lz4 (get_or r.buffer.filled r.dumped []);
        dumped = suc r.dumped;
        dump = testing;
      })
      else none
  dump_step quit r = none

  unfoldable pub run_step : Step → Running → Option Running
  run_step (record_event e) r = record_step r.phase r e
  run_step close r = close_step r.phase r
  run_step compress_one r = compress_step r.compress r
  run_step dump_one r = dump_step r.dump r

  unfoldable pub run_steps : List Step → Running → Option Running
  run_steps [] r = some r
  run_steps (step ∷ steps) r = run_step step r >>= run_steps steps

-- The events that a schedule records.
unfoldable pub recordings : List Step → List Event
recordings [] = []
recordings (record_event e ∷ steps) = e ∷ recordings steps
recordings (_ ∷ steps) = recordings steps
