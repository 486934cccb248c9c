-- ===== src/Trace/Schedules.antt =====
-- What the workers of the circular buffer leave in the trace file, whatever the order of the steps.
use mathlib.Core.List.{append_assoc, append-nil}
use mathlib.Core.Path.{subst}
use slimmer.Base.{
  ℕ, zero, suc, ◌+◌, ◌-◌, replicate, ◌<◌, ◌≤◌, ◌≡◌, refl, sym, ◌∙◌, ap, Bool, true, false, ◌&&◌,
  List, [], ◌∷◌, ◌++◌, length, length-append, Option, none, some, ◌>>=◌, ltb, ltb→lt, if◌then◌else◌,
  get_or, take, take_append, Bool-cases, inl, inr, arith,
}
use slimmer.Trace.Event.{Event, event_bytes, end_event_label, place_holder_label}
use slimmer.Trace.Iter.{Lz4, frame, file_of}
use slimmer.Trace.CircularBuffer.{CircularBuffer, init, append, hand_over}
use slimmer.Trace.Workers.{
  Running, Worker, testing, working, quit, Phase, recording, ended, flagged, signalled, closed,
  start, append_step, record_step, compress_step, close_step, dump_step, Step, record_event, close,
  compress_one, dump_one, run_step, run_steps,
}

-- What holds of a result, where there is one.
abbrev pub Always {ℓ} : {A : Type ℓ} → (A → Type 0) → Option A → Type 0
Always P none = Unit {0}
Always P (some x) = P x

pub Always-if {ℓ} :
    {A : Type ℓ} (P : A → Type 0) (c : Bool) (x : A)
    → (c ≡ true → P x)
    → Always P (if c then some x else none)
Always-if P true x h = h refl
Always-if P false x h = tt

pub Always-both {ℓ} :
    {A : Type ℓ} (P Q : A → Type 0) (o : Option A)
    → Always P o
    → Always Q o
    → Always (λ x. P x × Q x) o
Always-both P Q none h k = tt
Always-both P Q (some x) h k = (h, k)

pub Always-bind {ℓ} :
    {A : Type ℓ} {P : A → Type 0} (Q : A → Type 0) (o : Option A) (f : A → Option A)
    → Always P o
    → ((x : A) → P x → Always Q (f x))
    → Always Q (o >>= f)
Always-bind Q none f h k = tt
Always-bind Q (some x) f h k = k x h

pub take_le {ℓ} :
    {A : Type ℓ} (n : ℕ) (xs ys : List A) → n ≤ length xs → take n (xs ++ ys) ≡ take n xs
take_le zero xs ys h = refl
take_le (suc n) [] ys h = absurd (omega arith)
take_le (suc n) (x ∷ xs) ys h = ap (◌∷◌ x) (take_le n xs ys (omega arith))

take_snoc {ℓ} :
    {A : Type ℓ} (n : ℕ) (xs : List A) (d : A)
    → n < length xs
    → take (suc n) xs ≡ take n xs ++ get_or xs n d ∷ []
take_snoc n [] d h = absurd (omega arith)
take_snoc zero (x ∷ xs) d h = refl
take_snoc (suc n) (x ∷ xs) d h = ap (◌∷◌ x) (take_snoc n xs d (omega arith))

pub take_all {ℓ} : {A : Type ℓ} (n : ℕ) (xs : List A) → length xs ≡ n → take n xs ≡ xs
take_all n xs h = ap (take n) (sym (append-nil xs)) ∙ take_append xs [] n h

-- An append hands over no block or one.
pub append_filled :
    (cb : CircularBuffer) (bytes : List ℕ)
    → (more : List (List ℕ)) × ((append cb bytes).filled ≡ cb.filled ++ more)
unfolding append hand_over
append_filled cb bytes = elim (Bool-cases (ltb cb.size (length cb.block + length bytes))) [
  | inl c ↦ ((cb.block ++ replicate (cb.size - length cb.block) place_holder_label) ∷ [], rw c refl)
  | inr c ↦ ([], rw c (sym (append-nil cb.filled)))
]

pub hand_over_filled :
    (cb : CircularBuffer) → (more : List (List ℕ)) × ((hand_over cb).filled ≡ cb.filled ++ more)
unfolding hand_over
hand_over_filled cb = (_, refl)

module _ {size : ℕ} (lz4 : Lz4 size) where
  -- The stream holds the first `dumped` blocks, and no block is dumped before it is compressed or
  -- compressed before it is handed over.
  pub record InFile (filled : List (List ℕ)) (compressed dumped : ℕ) (stream : List ℕ)
      : Type 0 where
    pub dumped_le : dumped ≤ compressed
    pub compressed_le : compressed ≤ length filled
    pub same : stream ≡ file_of lz4 (take dumped filled)

  abbrev pub IsInFile : Running → Type 0
  IsInFile r = InFile r.buffer.filled r.compressed r.dumped r.stream

  file_of-snoc :
      (xs : List (List ℕ)) (x : List ℕ) → file_of lz4 (xs ++ x ∷ []) ≡ file_of lz4 xs ++ frame lz4 x
  unfolding file_of
  file_of-snoc [] x = append-nil (frame lz4 x)
  file_of-snoc (y ∷ ys) x =
      rw (file_of-snoc ys x) (sym (append_assoc (frame lz4 y) (file_of lz4 ys) (frame lz4 x)))

  pub start-InFile : IsInFile (start size)
  unfolding init file_of
  start-InFile = record { dumped_le = omega arith; compressed_le = omega arith; same = refl }

  -- More blocks are handed over.
  more-InFile :
      {xs ys : List (List ℕ)} {c d : ℕ} {stream : List ℕ} (more : List (List ℕ))
      → ys ≡ xs ++ more
      → InFile xs c d stream
      → InFile ys c d stream
  more-InFile {xs} {ys} {c} {d} {stream} more e h =
      subst (λ (t : List (List ℕ)). InFile t c d stream) (sym e)
        (record {
          dumped_le = h.dumped_le;
          compressed_le = omega (arith, length-append xs more, h.compressed_le);
          same =
              h.same
              ∙ ap (file_of lz4)
                  (sym (take_le d xs more (omega (arith, h.dumped_le, h.compressed_le))));
        })

  append_step-InFile :
      (r : Running) (bytes : List ℕ) → IsInFile r → Always IsInFile (append_step r bytes)
  unfolding append_step
  append_step-InFile r bytes h =
      Always-if IsInFile _ _
        (λ c. let (more, e) = append_filled r.buffer bytes in more-InFile more e h)

  record_step-InFile :
      (p : Phase) (r : Running) (e : Event) → IsInFile r → Always IsInFile (record_step p r e)
  unfolding record_step
  record_step-InFile recording r e h = append_step-InFile r (event_bytes e) h
  record_step-InFile _ r e h = tt

  close_step-InFile : (p : Phase) (r : Running) → IsInFile r → Always IsInFile (close_step p r)
  unfolding close_step
  close_step-InFile recording r h =
      Always-bind IsInFile (append_step r (end_event_label ∷ [])) _
        (append_step-InFile r (end_event_label ∷ []) h) (λ r' k. k)
  close_step-InFile ended r h = h
  close_step-InFile flagged r h = let (more, e) = hand_over_filled r.buffer in more-InFile more e h
  close_step-InFile signalled r h = Always-if IsInFile _ _ (λ c. h)
  close_step-InFile closed r h = h

  and_left : (a b : Bool) → (a && b) ≡ true → a ≡ true
  and_left a b p = ground arith

  compress_step-InFile :
      (w : Worker) (r : Running) → IsInFile r → Always IsInFile (compress_step w r)
  unfolding compress_step
  compress_step-InFile testing r h = h
  compress_step-InFile working r h = Always-if IsInFile _ _ (λ c. record {
    dumped_le = omega (arith, h.dumped_le);
    compressed_le =
        let next : ltb r.compressed (length r.buffer.filled) ≡ true = and_left _ _ c in
        omega (arith, ltb→lt _ _ next);
    same = h.same;
  })
  compress_step-InFile quit r h = tt

  dump_step-InFile : (w : Worker) (r : Running) → IsInFile r → Always IsInFile (dump_step lz4 w r)
  unfolding dump_step
  dump_step-InFile testing r h = h
  dump_step-InFile working r h = Always-if IsInFile _ _ (λ c.
      let next : r.dumped < r.compressed = ltb→lt _ _ c in
      let there : r.dumped < length r.buffer.filled = omega (arith, next, h.compressed_le) in
      record {
        dumped_le = omega (arith, next);
        compressed_le = h.compressed_le;
        same =
            ap (λ (t : List ℕ). t ++ frame lz4 (get_or r.buffer.filled r.dumped [])) h.same
            ∙ sym
                (file_of-snoc (take r.dumped r.buffer.filled) (get_or r.buffer.filled r.dumped []))
            ∙ ap (file_of lz4) (sym (take_snoc r.dumped r.buffer.filled [] there));
      })
  dump_step-InFile quit r h = tt

  pub run_step-InFile :
      (step : Step) (r : Running) → IsInFile r → Always IsInFile (run_step lz4 step r)
  unfolding run_step
  run_step-InFile (record_event e) r h = record_step-InFile r.phase r e h
  run_step-InFile close r h = close_step-InFile r.phase r h
  run_step-InFile compress_one r h = compress_step-InFile r.compress r h
  run_step-InFile dump_one r h = dump_step-InFile r.dump r h

  pub run_steps-InFile :
      (steps : List Step) (r : Running) → IsInFile r → Always IsInFile (run_steps lz4 steps r)
  unfolding run_steps
  run_steps-InFile [] r h = h
  run_steps-InFile (step ∷ steps) r h =
      Always-bind IsInFile (run_step lz4 step r) (run_steps lz4 steps) (run_step-InFile step r h)
        (run_steps-InFile steps)
