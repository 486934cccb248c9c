-- ===== src/Trace/Tracking.antt =====
-- The circular buffer in a schedule holds the events that the schedule records.
use slimmer.Base.{ℕ, ◌≡◌, refl, ap, List, [], ◌∷◌, map}
use slimmer.Trace.Event.{Event, event_bytes, end_event_label}
use slimmer.Trace.Iter.{Lz4}
use slimmer.Trace.CircularBuffer.{CircularBuffer, append, append_all, hand_over}
use slimmer.Trace.Workers.{
  Running, Worker, testing, working, quit, Phase, recording, ended, flagged, signalled, closed,
  append_step, record_step, compress_step, close_step, dump_step, Step, record_event, close,
  compress_one, dump_one, run_step, run_steps, recordings,
}
use slimmer.Trace.Schedules.{Always, Always-if, Always-bind}

-- The buffer of a run, from the one that holds its events.
abbrev pub expected : Phase → CircularBuffer → CircularBuffer
expected recording cb = cb
expected ended cb = append cb (end_event_label ∷ [])
expected flagged cb = append cb (end_event_label ∷ [])
expected signalled cb = hand_over (append cb (end_event_label ∷ []))
expected closed cb = hand_over (append cb (end_event_label ∷ []))

abbrev pub Tracks : CircularBuffer → Running → Type 0
Tracks cb r = r.buffer ≡ expected r.phase cb

abbrev pub after_record : CircularBuffer → Step → CircularBuffer
after_record cb (record_event e) = append cb (event_bytes e)
after_record cb _ = cb

append_same :
    {cb cb' : CircularBuffer} (bytes : List ℕ) → cb ≡ cb' → append cb bytes ≡ append cb' bytes
append_same bytes e = ap (λ (t : CircularBuffer). append t bytes) e

record_step-Tracks :
    (p : Phase) (r : Running) (e : Event) (cb : CircularBuffer)
    → r.phase ≡ p
    → r.buffer ≡ expected p cb
    → Always (Tracks (append cb (event_bytes e))) (record_step p r e)
unfolding record_step append_step
record_step-Tracks recording r e cb q h =
    Always-if (Tracks (append cb (event_bytes e))) _ _ (λ c. rw q (append_same (event_bytes e) h))
record_step-Tracks _ r e cb q h = tt

close_step-Tracks :
    (p : Phase) (r : Running) (cb : CircularBuffer)
    → r.phase ≡ p
    → r.buffer ≡ expected p cb
    → Always (Tracks cb) (close_step p r)
unfolding close_step append_step
close_step-Tracks recording r cb q h =
    Always-bind (Tracks cb) (append_step r (end_event_label ∷ [])) _
      (Always-if (λ r'. r'.buffer ≡ append cb (end_event_label ∷ [])) _ _
        (λ c. append_same (end_event_label ∷ []) h))
      (λ r' k. k)
close_step-Tracks ended r cb q h = h
close_step-Tracks flagged r cb q h = ap hand_over h
close_step-Tracks signalled r cb q h = Always-if (Tracks cb) _ _ (λ c. h)
close_step-Tracks closed r cb q h = rw q h

compress_step-Tracks :
    (w : Worker) (r : Running) (cb : CircularBuffer)
    → Tracks cb r
    → Always (Tracks cb) (compress_step w r)
unfolding compress_step
compress_step-Tracks testing r cb h = h
compress_step-Tracks working r cb h = Always-if (Tracks cb) _ _ (λ c. h)
compress_step-Tracks quit r cb h = tt

module _ {size : ℕ} (lz4 : Lz4 size) where
  dump_step-Tracks :
      (w : Worker) (r : Running) (cb : CircularBuffer)
      → Tracks cb r
      → Always (Tracks cb) (dump_step lz4 w r)
  unfolding dump_step
  dump_step-Tracks testing r cb h = h
  dump_step-Tracks working r cb h = Always-if (Tracks cb) _ _ (λ c. h)
  dump_step-Tracks quit r cb h = tt

  pub run_step-Tracks :
      (step : Step) (r : Running) (cb : CircularBuffer)
      → Tracks cb r
      → Always (Tracks (after_record cb step)) (run_step lz4 step r)
  unfolding run_step
  run_step-Tracks (record_event e) r cb h = record_step-Tracks r.phase r e cb refl h
  run_step-Tracks close r cb h = close_step-Tracks r.phase r cb refl h
  run_step-Tracks compress_one r cb h = compress_step-Tracks r.compress r cb h
  run_step-Tracks dump_one r cb h = dump_step-Tracks r.dump r cb h

  pub run_steps-Tracks :
      (steps : List Step) (r : Running) (cb : CircularBuffer)
      → Tracks cb r
      → Always (Tracks (append_all cb (map event_bytes (recordings steps)))) (run_steps lz4 steps r)
  unfolding run_steps recordings append_all
  run_steps-Tracks [] r cb h = h
  run_steps-Tracks (record_event e ∷ steps) r cb h =
      Always-bind _ (run_step lz4 (record_event e) r) (run_steps lz4 steps)
        (run_step-Tracks (record_event e) r cb h)
        (λ r' k. run_steps-Tracks steps r' (append cb (event_bytes e)) k)
  run_steps-Tracks (close ∷ steps) r cb h =
      Always-bind _ (run_step lz4 close r) (run_steps lz4 steps) (run_step-Tracks close r cb h)
        (λ r' k. run_steps-Tracks steps r' cb k)
  run_steps-Tracks (compress_one ∷ steps) r cb h =
      Always-bind _ (run_step lz4 compress_one r) (run_steps lz4 steps)
        (run_step-Tracks compress_one r cb h) (λ r' k. run_steps-Tracks steps r' cb k)
  run_steps-Tracks (dump_one ∷ steps) r cb h =
      Always-bind _ (run_step lz4 dump_one r) (run_steps lz4 steps)
        (run_step-Tracks dump_one r cb h) (λ r' k. run_steps-Tracks steps r' cb k)
