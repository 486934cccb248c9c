-- ===== src/Trace/Ending.antt =====
-- CloseBufferFile comes to its end: from every state behind its flags the workers can still be joined.
use slimmer.Base.{
  ℕ, suc, ◌+◌, ◌<◌, ◌≤◌, ◌≡◌, refl, ◌∙◌, ap, true, List, [], ◌∷◌, ◌++◌, get_or, length,
  length-append, some, ltb, arith,
}
use slimmer.Trace.Iter.{Lz4, frame}
use slimmer.Trace.CircularBuffer.{hand_over}
use slimmer.Trace.Workers.{
  Running, Worker, testing, working, quit, Phase, recording, ended, flagged, signalled, closed,
  compress_step, close_step, dump_step, tested, Step, close, compress_one, dump_one, run_step,
  run_steps,
}
use slimmer.Trace.Closing.{Closing, Due}

lt→ltb : (a b : ℕ) → a < b → ltb a b ≡ true
lt→ltb a b h = ground arith

module _ {size : ℕ} (lz4 : Lz4 size) where
  -- Some steps join the workers.
  abbrev pub CanJoin : Running → Type 0
  CanJoin r =
      (steps : List Step) × (joined : Running) × (run_steps lz4 steps r ≡ some joined)
      × (joined.phase ≡ closed)

  one_step : (step : Step) (r r' : Running) → run_step lz4 step r ≡ some r' → CanJoin r' → CanJoin r
  unfolding run_steps
  one_step step r r' e (steps, joined, ran, q) = (step ∷ steps, joined, rw e ran, q)

  both_quit : (r : Running) → r.phase ≡ signalled → r.compress ≡ quit → r.dump ≡ quit → CanJoin r
  unfolding run_steps run_step close_step
  both_quit r p c d = (close ∷ [], record r { phase = closed }, rw (p, c, d) refl, refl)

  -- The worker is through one block more.
  abbrev one_dumped : Running → Running
  one_dumped r = record r {
    stream = r.stream ++ frame lz4 (get_or r.buffer.filled r.dumped []);
    dumped = suc r.dumped;
    dump = testing;
  }

  abbrev one_compressed : Running → Running
  one_compressed r = record r { compressed = suc r.compressed; compress = testing }

  dump_test :
      (r : Running)
      → r.done ≡ true
      → r.phase ≡ signalled
      → r.compress ≡ quit
      → r.dump ≡ testing
      → CanJoin r
  unfolding run_step dump_step
  dump_test r s p c d =
      one_step dump_one r (record r { dump = tested r.done }) (rw d refl)
        (both_quit _ p c (ap tested s))

  dump_block :
      (n : ℕ) (r : Running)
      → r.done ≡ true
      → r.phase ≡ signalled
      → r.compress ≡ quit
      → r.compressed ≡ suc n
      → r.dump ≡ working
      → r.dumped ≡ n
      → CanJoin r
  unfolding run_step dump_step
  dump_block n r s p c cs d ds =
      let more : ltb r.dumped r.compressed ≡ true = lt→ltb _ _ (omega (arith, cs, ds)) in
      one_step dump_one r (one_dumped r) (rw (d, more) refl) (dump_test (one_dumped r) s p c refl)

  compress_quit :
      (w : Worker) (n : ℕ) (r : Running)
      → r.dump ≡ w
      → Due w n r.dumped
      → r.done ≡ true
      → r.phase ≡ signalled
      → r.compress ≡ quit
      → r.compressed ≡ suc n
      → CanJoin r
  compress_quit quit n r d ds s p c cs = both_quit r p c d
  compress_quit testing n r d ds s p c cs = dump_test r s p c d
  compress_quit working n r d ds s p c cs = dump_block n r s p c cs d ds

  compress_test :
      (n : ℕ) (r : Running)
      → Due r.dump n r.dumped
      → r.done ≡ true
      → r.phase ≡ signalled
      → r.compress ≡ testing
      → r.compressed ≡ suc n
      → CanJoin r
  unfolding run_step compress_step
  compress_test n r ds s p c cs =
      one_step compress_one r (record r { compress = tested r.done }) (rw c refl)
        (compress_quit r.dump n _ refl ds s p (ap tested s) cs)

  Due-le : (w : Worker) (n k : ℕ) → Due w n k → n ≤ k
  Due-le working n k h = omega (arith, h)
  Due-le testing n k h = omega (arith, h)
  Due-le quit n k h = omega (arith, h)

  compress_block :
      (n : ℕ) (r : Running)
      → Due r.dump n r.dumped
      → r.done ≡ true
      → r.phase ≡ signalled
      → length r.buffer.filled ≡ suc n
      → r.compress ≡ working
      → r.compressed ≡ n
      → CanJoin r
  unfolding run_step compress_step
  compress_block n r ds s p l c cs =
      let some_block : ltb r.compressed (length r.buffer.filled) ≡ true =
        lt→ltb _ _ (omega (arith, cs, l)) in
      let free : ltb r.compressed (r.dumped + 150) ≡ true =
        lt→ltb _ _ (omega (arith, cs, Due-le r.dump n r.dumped ds)) in
      one_step compress_one r (one_compressed r) (rw (c, some_block, free) refl)
        (compress_test n (one_compressed r) ds s p refl (ap suc cs))

  last_signalled :
      (w : Worker) (n : ℕ) (r : Running)
      → r.compress ≡ w
      → Due w n r.compressed
      → Due r.dump n r.dumped
      → r.done ≡ true
      → r.phase ≡ signalled
      → length r.buffer.filled ≡ suc n
      → CanJoin r
  last_signalled quit n r c cs ds s p l = compress_quit r.dump n r refl ds s p c cs
  last_signalled testing n r c cs ds s p l = compress_test n r ds s p c cs
  last_signalled working n r c cs ds s p l = compress_block n r ds s p l c cs

  pub Closing-CanJoin : (p : Phase) (n : ℕ) (r : Running) → r.phase ≡ p → Closing n r → CanJoin r
  unfolding run_step run_steps close_step hand_over
  Closing-CanJoin recording n r q h = elim (rw q at h.handed) [ ]
  Closing-CanJoin ended n r q h = elim (rw q at h.handed) [ ]
  Closing-CanJoin flagged n r q h =
      one_step close r (record r { buffer = hand_over r.buffer; phase = signalled }) (rw q refl)
        (last_signalled r.compress n _ refl h.compress_due h.dump_due h.set refl
          (length-append r.buffer.filled _ ∙ omega (arith, (rw q at h.handed))))
  Closing-CanJoin signalled n r q h =
      last_signalled r.compress n r refl h.compress_due h.dump_due h.set q (rw q at h.handed)
  Closing-CanJoin closed n r q h = ([], r, refl, q)
