-- ===== src/Trace/Closing.antt =====
-- CloseBufferFile and the two workers: what is in the file where the workers have caught up.
use slimmer.Base.{
  ℕ, suc, ◌≡◌, refl, ◌∙◌, ap, Bool, true, false, ◌&&◌, List, [], ◌∷◌, length, length-append, none,
  arith,
}
use slimmer.Trace.Event.{Event}
use slimmer.Trace.Iter.{Lz4}
use slimmer.Trace.CircularBuffer.{CircularBuffer, hand_over}
use slimmer.Trace.Workers.{
  Running, Worker, testing, working, quit, Phase, recording, ended, flagged, signalled, closed,
  record_step, tested, compress_step, close_step, dump_step, has_quit, Step, record_event, close,
  compress_one, dump_one, run_step, run_steps,
}
use slimmer.Trace.Schedules.{Always, Always-if, Always-bind, Always-both}
use slimmer.Trace.Tracking.{Tracks, run_step-Tracks}

-- How many blocks a worker is through, where it takes one more after the flags are set.
abbrev pub Due : Worker → ℕ → ℕ → Type 0
Due working n k = k ≡ n
Due _ n k = k ≡ suc n

-- The blocks handed over and dumped in each phase from the flags on.
abbrev pub Handed : Phase → ℕ → ℕ → ℕ → Type 0
Handed recording n handed dumped = ⊥
Handed ended n handed dumped = ⊥
Handed flagged n handed dumped = handed ≡ n
Handed signalled n handed dumped = handed ≡ suc n
Handed closed n handed dumped = (handed ≡ suc n) × (dumped ≡ suc n)

pub record Closing (n : ℕ) (r : Running) : Type 0 where
  pub set : r.done ≡ true
  pub compress_due : Due r.compress n r.compressed
  pub dump_due : Due r.dump n r.dumped
  pub handed : Handed r.phase n (length r.buffer.filled) r.dumped

quit-Due : (w : Worker) (n k : ℕ) → has_quit w ≡ true → Due w n k → k ≡ suc n
quit-Due quit n k q h = h
quit-Due testing n k q h = h
quit-Due working n k q h = cc

dumped_one :
    (p : Phase) (n handed dumped : ℕ)
    → Handed p n handed dumped
    → dumped ≡ n
    → Handed p n handed (suc dumped)
dumped_one flagged n handed dumped h e = h
dumped_one signalled n handed dumped h e = h
dumped_one closed n handed dumped h e = absurd (omega (arith, h.1, e))
dumped_one recording n handed dumped h e = h
dumped_one ended n handed dumped h e = h

and_right : (a b : Bool) → (a && b) ≡ true → b ≡ true
and_right a b p = ground arith

-- No event is recorded once the flags are set.
record_step_closing :
    (p : Phase) (n : ℕ) (r : Running) (e : Event)
    → Handed p n (length r.buffer.filled) r.dumped
    → record_step p r e ≡ none
unfolding record_step
record_step_closing recording n r e h = elim h [ ]
record_step_closing _ n r e h = refl

tested-Due : (done : Bool) (n k : ℕ) → done ≡ true → k ≡ suc n → Due (tested done) n k
tested-Due true n k q h = h
tested-Due false n k q h = cc

close_step-Closing :
    (p : Phase) (n : ℕ) (r : Running)
    → r.phase ≡ p
    → Closing n r
    → Always (Closing n) (close_step p r)
unfolding close_step hand_over
close_step-Closing recording n r q h = elim (rw q at h.handed) [ ]
close_step-Closing ended n r q h = elim (rw q at h.handed) [ ]
close_step-Closing flagged n r q h = record {
  set = h.set;
  compress_due = h.compress_due;
  dump_due = h.dump_due;
  handed = length-append r.buffer.filled _ ∙ omega (arith, (rw q at h.handed));
}
close_step-Closing signalled n r q h = Always-if (Closing n) _ _ (λ c. record {
  set = h.set;
  compress_due = h.compress_due;
  dump_due = h.dump_due;
  handed = ((rw q at h.handed), quit-Due r.dump n r.dumped (and_right _ _ c) h.dump_due);
})
close_step-Closing closed n r q h = h

compress_step-Closing :
    (w : Worker) (n : ℕ) (r : Running)
    → Due w n r.compressed
    → Closing n r
    → Always (Closing n) (compress_step w r)
unfolding compress_step
compress_step-Closing testing n r k h = record {
  set = h.set;
  compress_due = tested-Due r.done n r.compressed h.set k;
  dump_due = h.dump_due;
  handed = h.handed;
}
compress_step-Closing working n r k h =
    Always-if (Closing n) _ _ (λ c. record {
      set = h.set;
      compress_due = ap suc k;
      dump_due = h.dump_due;
      handed = h.handed;
    })
compress_step-Closing quit n r k h = tt

module _ {size : ℕ} (lz4 : Lz4 size) where
  dump_step-Closing :
      (w : Worker) (n : ℕ) (r : Running)
      → Due w n r.dumped
      → Closing n r
      → Always (Closing n) (dump_step lz4 w r)
  unfolding dump_step
  dump_step-Closing testing n r k h = record {
    set = h.set;
    compress_due = h.compress_due;
    dump_due = tested-Due r.done n r.dumped h.set k;
    handed = h.handed;
  }
  dump_step-Closing working n r k h = Always-if (Closing n) _ _ (λ c. record {
    set = h.set;
    compress_due = h.compress_due;
    dump_due = ap suc k;
    handed = dumped_one r.phase n (length r.buffer.filled) r.dumped h.handed k;
  })
  dump_step-Closing quit n r k h = tt

  abbrev pub IsClosing : ℕ → CircularBuffer → Running → Type 0
  IsClosing n cb r = Closing n r × Tracks cb r

  run_step-Closing :
      (step : Step) (n : ℕ) (cb : CircularBuffer) (r : Running)
      → IsClosing n cb r
      → Always (IsClosing n cb) (run_step lz4 step r)
  unfolding run_step
  run_step-Closing (record_event e) n cb r h = rw (record_step_closing r.phase n r e h.0.handed) tt
  run_step-Closing close n cb r h =
      Always-both (Closing n) (Tracks cb) _ (close_step-Closing r.phase n r refl h.0)
        (run_step-Tracks lz4 close r cb h.1)
  run_step-Closing compress_one n cb r h =
      Always-both (Closing n) (Tracks cb) _
        (compress_step-Closing r.compress n r h.0.compress_due h.0)
        (run_step-Tracks lz4 compress_one r cb h.1)
  run_step-Closing dump_one n cb r h =
      Always-both (Closing n) (Tracks cb) _ (dump_step-Closing r.dump n r h.0.dump_due h.0)
        (run_step-Tracks lz4 dump_one r cb h.1)

  pub run_steps-Closing :
      (steps : List Step) (n : ℕ) (cb : CircularBuffer) (r : Running)
      → IsClosing n cb r
      → Always (IsClosing n cb) (run_steps lz4 steps r)
  unfolding run_steps
  run_steps-Closing [] n cb r h = h
  run_steps-Closing (step ∷ steps) n cb r h =
      Always-bind (IsClosing n cb) (run_step lz4 step r) (run_steps lz4 steps)
        (run_step-Closing step n cb r h) (run_steps-Closing steps n cb)
