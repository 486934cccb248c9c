-- ===== src/Trace/Joined.antt =====
-- The trace file once CloseBufferFile has joined the workers, and what the analysis reads from it.
use mathlib.Core.Path.{subst}
use mathlib.Core.List.{append_assoc, append-nil}
use slimmer.Base.{
  ℕ, take, ◌<◌, ◌≤◌, ◌≡◌, refl, sym, ◌∙◌, ap, true, List, [], ◌∷◌, ◌++◌, length, Option, some, All,
  map, arith,
}
use slimmer.Trace.Event.{Event, end_event, event_bytes, size_of, end_event_label}
use slimmer.Trace.GetEvent.{Pointers}
use slimmer.Trace.Iter.{Lz4, file_of, open_trace, read_all}
use slimmer.Trace.CircularBuffer.{CircularBuffer, init, append, append_all}
use slimmer.Trace.Workers.{
  Running, working, Phase, recording, ended, flagged, signalled, closed, start, close_step, Step,
  close, run_step, run_steps, recordings,
}
use slimmer.Trace.Schedules.{
  Always, append_filled, hand_over_filled, take_le, take_all, IsInFile, start-InFile,
  run_steps-InFile,
}
use slimmer.Trace.Tracking.{expected, Tracks, run_steps-Tracks}
use slimmer.Trace.Closing.{IsClosing, run_steps-Closing}
use slimmer.Trace.Ending.{Closing-CanJoin}
use slimmer.Trace.Holding.{IsRecord, recorded}
use slimmer.Trace.RoundTrip.{trace_blocks, read_all-trace_blocks}

-- Both workers are past the tests of their flags, wait for the block that ends the trace and have
-- dumped all before it.
abbrev pub HaveCaughtUp : Running → Type 0
HaveCaughtUp r =
    (r.compress ≡ working)
    × (r.compressed ≡ length r.buffer.filled)
    × (r.dump ≡ working)
    × (r.dumped ≡ length r.buffer.filled)

Always-at {ℓ} : {A : Type ℓ} (P : A → Type 0) {o : Option A} {x : A} → Always P o → o ≡ some x → P x
Always-at P h e = subst (Always P) e h

-- The state behind the flags.
abbrev flags_set : Running → Running
flags_set r = record r { done = true; phase = flagged }

-- The blocks handed over in each phase are the first of those of the whole trace.
blocks_begun :
    (size : ℕ) (p : Phase) (es : List Event)
    → (rest : List (List ℕ)) × (trace_blocks size es
        ≡ (expected p (append_all (init size) (map event_bytes es))).filled ++ rest)
unfolding trace_blocks
blocks_begun size recording es =
    let cb = append_all (init size) (map event_bytes es) in
    let (ended_by, e) = append_filled cb (end_event_label ∷ []) in
    let (last, e') = hand_over_filled (append cb (end_event_label ∷ [])) in
    (
      ended_by ++ last,
      e' ∙ ap (λ (t : List (List ℕ)). t ++ last) e ∙ append_assoc cb.filled ended_by last,
    )
blocks_begun size ended es = hand_over_filled _
blocks_begun size flagged es = hand_over_filled _
blocks_begun size signalled es = ([], sym (append-nil _))
blocks_begun size closed es = ([], sym (append-nil _))

module _ {size : ℕ} (lz4 : Lz4 size) where
  close_ended : (r : Running) → r.phase ≡ ended → run_step lz4 close r ≡ some (flags_set r)
  unfolding run_step close_step
  close_ended r e = rw e refl

  flags_set-IsClosing :
      (cb : CircularBuffer) (r : Running)
      → Tracks cb r
      → r.phase ≡ ended
      → HaveCaughtUp r
      → IsClosing lz4 (length r.buffer.filled) cb (flags_set r)
  flags_set-IsClosing cb r h e (c, cs, d, ds) =
      (record { set = refl; compress_due = rw c cs; dump_due = rw d ds; handed = refl }, rw e at h)

  -- The run from the flags on.
  behind_flags :
      (cb : CircularBuffer) (after : List Step) (r s : Running)
      → Tracks cb r
      → r.phase ≡ ended
      → HaveCaughtUp r
      → run_steps lz4 (close ∷ after) r ≡ some s
      → IsClosing lz4 (length r.buffer.filled) cb s
  unfolding run_steps
  behind_flags cb after r s t e caught closing =
      let onward : run_steps lz4 after (flags_set r) ≡ some s = rw (close_ended r e) at closing in
      Always-at (IsClosing lz4 (length r.buffer.filled) cb)
        (run_steps-Closing lz4 after (length r.buffer.filled) cb (flags_set r)
          (flags_set-IsClosing cb r t e caught))
        onward

  joined_file :
      (n : ℕ) (es : List Event) (r : Running)
      → IsInFile lz4 r
      → IsClosing lz4 n (append_all (init size) (map event_bytes es)) r
      → r.phase ≡ closed
      → r.stream ≡ file_of lz4 (trace_blocks size es)
  unfolding trace_blocks
  joined_file n es r f (c, t) e =
      let (all, dumped) = rw e at c.handed in
      f.same
      ∙ ap (file_of lz4) (
          take_all r.dumped r.buffer.filled (all ∙ sym dumped)
          ∙ ap (λ (cb : CircularBuffer). cb.filled) (rw e at t))

  -- Where the end event is appended and the workers have caught up when the flags are set, then from
  -- every state that the run comes to, in whatever order its steps, some further steps take
  -- CloseBufferFile to its end.
  pub closing_ends :
      (before between : List Step) (r s : Running)
      → run_steps lz4 before (start size) ≡ some r
      → r.phase ≡ ended
      → HaveCaughtUp r
      → run_steps lz4 (close ∷ between) r ≡ some s
      → (after : List Step) × (joined : Running) × (run_steps lz4 after s ≡ some joined)
        × (joined.phase ≡ closed)
  closing_ends before between r s ran e caught closing =
      let cb = append_all (init size) (map event_bytes (recordings before)) in
      let t =
        Always-at (Tracks cb) (run_steps-Tracks lz4 before (start size) (init size) refl) ran in
      let c = behind_flags cb between r s t e caught closing in
      Closing-CanJoin lz4 s.phase (length r.buffer.filled) s refl c.0

  -- Whatever the order of the threads' steps, what is in the file at any time are the first blocks,
  -- in their order and none left out, of those that the events recorded so far and the end event
  -- fill; and no block is dumped before it is compressed or compressed before it is handed over.
  pub file_holds_first_blocks :
      (steps : List Step) (r : Running)
      → run_steps lz4 steps (start size) ≡ some r
      → (r.stream ≡ file_of lz4 (take r.dumped (trace_blocks size (recordings steps))))
        × (r.dumped ≤ r.compressed)
        × (r.compressed ≤ length r.buffer.filled)
  file_holds_first_blocks steps r ran =
      let cb = append_all (init size) (map event_bytes (recordings steps)) in
      let f =
        Always-at (IsInFile lz4) (run_steps-InFile lz4 steps (start size) (start-InFile lz4)) ran in
      let t =
        Always-at (Tracks cb) (run_steps-Tracks lz4 steps (start size) (init size) refl) ran in
      let (rest, e) = blocks_begun size r.phase (recordings steps) in
      let all : r.dumped ≤ length r.buffer.filled = omega (arith, f.dumped_le, f.compressed_le) in
      let first : take r.dumped r.buffer.filled
          ≡ take r.dumped (trace_blocks size (recordings steps)) =
        sym (take_le r.dumped r.buffer.filled rest all)
        ∙ ap (λ (c : CircularBuffer). take r.dumped (c.filled ++ rest)) t
        ∙ ap (take r.dumped) (sym e) in
      (f.same ∙ ap (file_of lz4) first, f.dumped_le, f.compressed_le)

  -- Where events of the record functions, with fields that fit their words and none longer than a
  -- block, are recorded, in any order of the threads' steps, the end event is appended, and the
  -- workers have caught up when the flags are set: in whatever order the steps come from there on,
  -- once the workers are joined the analysis reads from the file, to its end, the recorded events in
  -- their order and the end event, but for place holders; some fuel is enough, and with it or more
  -- the iterator returns.
  pub read_all-run_steps :
      (before after : List Step) (r joined : Running) (p : Pointers)
      → All IsRecord (recordings before)
      → All (λ e. size_of e ≤ size) (recordings before)
      → 0 < size
      → run_steps lz4 before (start size) ≡ some r
      → r.phase ≡ ended
      → HaveCaughtUp r
      → run_steps lz4 (close ∷ after) r ≡ some joined
      → joined.phase ≡ closed
      → (enough : ℕ) × (events : List Event) × ((fuel : ℕ)
          → enough ≤ fuel
          → read_all lz4.decompress fuel (open_trace joined.stream) p ≡ some events)
        × (recorded events ≡ recordings before ++ end_event ∷ [])
  read_all-run_steps before after r joined p valid small positive ran e caught closing q =
      let es = recordings before in
      let cb = append_all (init size) (map event_bytes es) in
      let f =
        Always-at (IsInFile lz4) (run_steps-InFile lz4 before (start size) (start-InFile lz4))
          ran in
      let t =
        Always-at (Tracks cb) (run_steps-Tracks lz4 before (start size) (init size) refl) ran in
      let f' = Always-at (IsInFile lz4) (run_steps-InFile lz4 (close ∷ after) r f) closing in
      let c = behind_flags cb after r joined t e caught closing in
      let (enough, events, reads, says) = read_all-trace_blocks lz4 es p valid small positive in
      (
        enough,
        events,
        (λ fuel m. rw (joined_file (length r.buffer.filled) es joined f' c q) (reads fuel m)),
        says,
      )
