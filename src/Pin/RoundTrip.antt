-- ===== src/Pin/RoundTrip.antt =====
-- From the callbacks of the Pin tool through the trace file to the functions that print-bug takes for
-- impactful.
use mathlib.Core.List.{flatten, map-append}
use slimmer.Base.{
  ℕ, suc, ◌^◌, ◌<◌, ◌≤◌, ◌≡◌, refl, sym, ◌∙◌, ap, ℤ, Bool, true, false, ◌||◌, List, [], ◌∷◌, ◌++◌,
  map, Option, none, some, ◌>>=◌, if◌then◌else◌, length, All, All-append, set_count, nat_order,
  arith,
}
use slimmer.Trace.Iter.{Lz4, file_of}
use slimmer.Trace.EventBuffer.{
  EventBuffer, init, append, append_all, close_buffer_file, events_file, events_file-file_of,
}
use slimmer.Pin.{
  Callback, before_call, after_call, syscall_entry, PinEvent, call, return, syscall, end_event,
  incr, decr, is_zero, is_one, PinTool, depth_of, pin_bytes, append_event, before, after,
  system_call, run_callback, run_callbacks, pin_trace,
}
use slimmer.Pin.Calls.{State, start, extract_impactful_fun_call}
use slimmer.Pin.Reading.{
  IsPinEvent, length-pin_bytes, apply_event, ends, run_pins, pins_bytes, run_groups_lem,
  read_file_lem,
}
use slimmer.Pin.Outermost.{
  none_running, is_impactful, emitted, depths, all_emitted, apply_all, Agrees, all_emitted_lem,
}

module _ {block_size : ℕ} (lz4 : Lz4 block_size) where
  append_all-append :
      (xs ys : List (List ℕ)) (e : EventBuffer)
      → append_all lz4 e (xs ++ ys) ≡ (append_all lz4 e xs >>= λ e'. append_all lz4 e' ys)
  unfolding append_all
  append_all-append [] ys e = refl
  append_all-append (x ∷ xs) ys e = onwards (append lz4 e x) (λ e'. append_all-append xs ys e')
    where
      onwards :
          (m : Option EventBuffer)
          → ((e' : EventBuffer)
              → append_all lz4 e' (xs ++ ys)
                ≡ (append_all lz4 e' xs >>= λ e2. append_all lz4 e2 ys))
          → (m >>= λ e'. append_all lz4 e' (xs ++ ys))
            ≡ ((m >>= λ e'. append_all lz4 e' xs) >>= λ e'. append_all lz4 e' ys)
      onwards none h = refl
      onwards (some e') h = h e'

  -- The Pin tool with other depths and another buffer.
  abbrev with_buffer : List (ℕ × ℤ) → Option EventBuffer → Option PinTool
  with_buffer pdepth none = none
  with_buffer pdepth (some b) = some (record { pdepth = pdepth; pin_event_buffer = b })

  one_event :
      (c : Bool) (e : PinEvent) (pin : PinTool)
      → (if c then append_event lz4 e pin else some pin)
        ≡ with_buffer pin.pdepth
            (append_all lz4 pin.pin_event_buffer (map pin_bytes (if c then e ∷ [] else [])))
  unfolding append_all append_event
  one_event true e pin = appended (append lz4 pin.pin_event_buffer (pin_bytes e))
    where
      appended :
          (m : Option EventBuffer)
          → (m >>= λ b. some (record pin { pin_event_buffer = b }))
            ≡ with_buffer pin.pdepth (m >>= λ b. some b)
      appended none = refl
      appended (some b) = refl
  one_event false e pin = refl

  no_event :
      (c : Bool) (e : PinEvent) (pin : PinTool)
      → (if c then some pin else append_event lz4 e pin)
        ≡ with_buffer pin.pdepth
            (append_all lz4 pin.pin_event_buffer (map pin_bytes (if c then [] else e ∷ [])))
  unfolding append_all
  no_event true e pin = refl
  no_event false e pin = one_event true e pin

  run_callback_lem :
      (c : Callback) (pin : PinTool)
      → run_callback lz4 c pin
        ≡ with_buffer
            (depths c pin.pdepth)
            (append_all lz4 pin.pin_event_buffer (map pin_bytes (emitted c pin.pdepth)))
  unfolding run_callback before after system_call
  run_callback_lem (before_call t fun) pin =
      one_event (is_one (incr (depth_of pin.pdepth t))) (call t fun) _
  run_callback_lem (after_call t fun) pin =
      one_event (is_zero (decr (depth_of pin.pdepth t))) (return t fun) _
  run_callback_lem (syscall_entry t) pin =
      no_event (is_zero (depth_of pin.pdepth t)) (syscall t) pin

  abbrev buffer_of : Option PinTool → Option EventBuffer
  buffer_of none = none
  buffer_of (some pin) = some pin.pin_event_buffer

  run_callbacks_lem :
      (cs : List Callback) (pin : PinTool)
      → buffer_of (run_callbacks lz4 cs pin)
        ≡ append_all lz4 pin.pin_event_buffer (map pin_bytes (all_emitted cs pin.pdepth))
  unfolding run_callbacks append_all
  run_callbacks_lem [] pin = refl
  run_callbacks_lem (c ∷ cs) pin =
      let new = map pin_bytes (emitted c pin.pdepth) in
      let later = map pin_bytes (all_emitted cs (depths c pin.pdepth)) in
      rw (run_callback_lem c pin) (
        onwards later (depths c pin.pdepth) (append_all lz4 pin.pin_event_buffer new) (λ b.
          run_callbacks_lem cs (record { pdepth = depths c pin.pdepth; pin_event_buffer = b }))
        ∙ sym (append_all-append new later pin.pin_event_buffer)
        ∙ ap (append_all lz4 pin.pin_event_buffer) (
            sym
              (map-append pin_bytes (emitted c pin.pdepth) (all_emitted cs (depths c pin.pdepth)))))
    where
      onwards :
          (ys : List (List ℕ)) (pdepth : List (ℕ × ℤ)) (m : Option EventBuffer)
          → ((b : EventBuffer)
              → buffer_of (run_callbacks lz4 cs (record { pdepth = pdepth; pin_event_buffer = b }))
                ≡ append_all lz4 b ys)
          → buffer_of (with_buffer pdepth m >>= λ pin'. run_callbacks lz4 cs pin')
            ≡ (m >>= λ b. append_all lz4 b ys)
      onwards ys pdepth none h = refl
      onwards ys pdepth (some b) h = h b

  -- The trace file is that of the events' bytes.
  pin_trace_lem :
      (size : ℕ) (cs : List Callback)
      → pin_trace lz4 size cs ≡ events_file lz4 size (map pin_bytes (all_emitted cs []))
  unfolding pin_trace events_file
  pin_trace_lem size cs =
      closing (run_callbacks lz4 cs (record { pdepth = []; pin_event_buffer = init size }))
      ∙ ap
          (λ (m : Option EventBuffer).
            m >>= λ e. close_buffer_file lz4 e >>= λ e'. some e'.buffer.stream)
          (run_callbacks_lem cs (record { pdepth = []; pin_event_buffer = init size }))
    where
      closing :
          (m : Option PinTool)
          → (m >>= λ pin.
              close_buffer_file lz4 pin.pin_event_buffer >>= λ e'. some e'.buffer.stream)
            ≡ (buffer_of m >>= λ e. close_buffer_file lz4 e >>= λ e'. some e'.buffer.stream)
      closing none = refl
      closing (some pin) = refl

  -- Callbacks of threads and functions that fit 64-bit words.
  abbrev pub IsCallback : Callback → Type 0
  IsCallback (before_call t fun) = (t < 2 ^ 64) × (fun < 2 ^ 64)
  IsCallback (after_call t fun) = (t < 2 ^ 64) × (fun < 2 ^ 64)
  IsCallback (syscall_entry t) = t < 2 ^ 64

  -- An event that is no end event.
  abbrev IsCall : PinEvent → Type 0
  IsCall e = IsPinEvent e × (ends e ≡ false)

  if_All : {A : Type 0} (P : A → Type 0) (c : Bool) (x : A) → P x → All P (if c then x ∷ [] else [])
  if_All P true x p = (p, tt)
  if_All P false x p = tt

  unless_All :
      {A : Type 0} (P : A → Type 0) (c : Bool) (x : A) → P x → All P (if c then [] else x ∷ [])
  unless_All P true x p = tt
  unless_All P false x p = (p, tt)

  emitted-IsCall :
      (c : Callback) (pdepth : List (ℕ × ℤ)) → IsCallback c → All IsCall (emitted c pdepth)
  emitted-IsCall (before_call t fun) pdepth v =
      if_All IsCall (is_one (incr (depth_of pdepth t))) (call t fun) (v, refl)
  emitted-IsCall (after_call t fun) pdepth v =
      if_All IsCall (is_zero (decr (depth_of pdepth t))) (return t fun) (v, refl)
  emitted-IsCall (syscall_entry t) pdepth v =
      unless_All IsCall (is_zero (depth_of pdepth t)) (syscall t) (v, refl)

  all_emitted-IsCall :
      (cs : List Callback) (pdepth : List (ℕ × ℤ))
      → All IsCallback cs
      → All IsCall (all_emitted cs pdepth)
  all_emitted-IsCall [] pdepth v = tt
  all_emitted-IsCall (c ∷ cs) pdepth (v, vs) =
      All-append IsCall (emitted c pdepth) _ (emitted-IsCall c pdepth v)
        (all_emitted-IsCall cs (depths c pdepth) vs)

  run_pins_lem :
      (es : List PinEvent) (s : State)
      → All IsCall es
      → (run_pins s (es ++ end_event ∷ [])).1 ≡ apply_all es s
  unfolding run_pins
  run_pins_lem [] s v = refl
  run_pins_lem (e ∷ es) s ((_, goes_on), vs) =
      rw (run_pins, goes_on) (run_pins_lem es (apply_event e s) vs)

  All-imp :
      {A : Type 0} (P Q : A → Type 0) (xs : List A) → ((x : A) → P x → Q x) → All P xs → All Q xs
  All-imp P Q [] f h = tt
  All-imp P Q (x ∷ xs) f (h, hs) = (f x h, All-imp P Q xs f hs)

  short :
      (es : List PinEvent) (size : ℕ)
      → 130 ≤ size
      → All (λ bytes. length bytes ≤ size) (map pin_bytes es)
  short [] size m = tt
  short (e ∷ es) size m = (one e, short es size m)
    where
      one : (e : PinEvent) → length (pin_bytes e) ≤ size
      one (call tid fun) = omega (arith, length-pin_bytes (call tid fun), m)
      one (return tid fun) = omega (arith, length-pin_bytes (return tid fun), m)
      one (syscall tid) = omega (arith, length-pin_bytes (syscall tid), m)
      one end_event = omega (arith, length-pin_bytes end_event, m)

  -- Blocks of the events' bytes are blocks of events.
  split_one :
      (g rest : List (List ℕ)) (es : List PinEvent)
      → g ++ rest ≡ map pin_bytes es
      → (hs later : List PinEvent) × (es ≡ hs ++ later)
        × (pins_bytes hs ≡ flatten g)
        × (rest ≡ map pin_bytes later)
  unfolding flatten pins_bytes
  split_one [] rest es e = ([], es, refl, refl, e)
  split_one (b ∷ g) rest [] e = cc
  split_one (b ∷ g) rest (x ∷ es) e =
      let same : b ≡ pin_bytes x = cc in
      let (hs, later, whole, bytes, left) = split_one g rest es cc in
      (x ∷ hs, later, ap (λ (l : List PinEvent). x ∷ l) whole, rw (bytes, same) refl, left)

  split_all :
      (gs : List (List (List ℕ))) (es : List PinEvent)
      → flatten gs ≡ map pin_bytes es
      → (hs : List (List PinEvent)) × (map pins_bytes hs ≡ map flatten gs) × (flatten hs ≡ es)
  unfolding flatten
  split_all [] [] e = ([], refl, refl)
  split_all [] (x ∷ es) e = cc
  split_all (g ∷ gs) es e =
      let (h, later, whole, bytes, left) = split_one g (flatten gs) es e in
      let (hs, all, flat) = split_all gs later left in
      (h ∷ hs, rw (all, bytes) refl, rw flat (sym whole))

  All-flatten :
      (P : PinEvent → Type 0) (gs : List (List PinEvent)) → All P (flatten gs) → All (All P) gs
  unfolding flatten
  All-flatten P [] h = tt
  All-flatten P (g ∷ gs) h =
      let (first, rest) = parts g (flatten gs) h in (first, All-flatten P gs rest)
    where
      parts : (g l : List PinEvent) → All P (g ++ l) → All P g × All P l
      parts [] l h = (tt, h)
      parts (x ∷ g) l (p, h) = let (a, b) = parts g l h in ((p, a), b)

  start-Agrees : Agrees none_running [] start
  start-Agrees = record { same_depth = λ u. refl; shown = λ u. refl }

  -- A file that the Pin tool's events fill is read to its end event.
  extract-file_of :
      (buffer : List ℕ) (hs : List (List PinEvent)) (es : List PinEvent)
      → flatten hs ≡ es ++ end_event ∷ []
      → All IsCall es
      → All (λ block. length block ≤ block_size) (map pins_bytes hs)
      → extract_impactful_fun_call lz4.decompress buffer (file_of lz4 (map pins_bytes hs))
        ≡ some (apply_all es start).impactful_fun_call
  unfolding extract_impactful_fun_call
  extract-file_of buffer hs es flat calls fits =
      let valid : All IsPinEvent (flatten hs) = rw flat (
        All-append IsPinEvent es (end_event ∷ []) (All-imp IsCall IsPinEvent es (λ x h. h.0) calls)
          (tt, tt)) in
      rw (
        read_file_lem lz4 (suc (length (file_of lz4 (map pins_bytes hs))))
            (file_of lz4 (map pins_bytes hs)) buffer [] 0 hs start (All-flatten IsPinEvent hs valid)
            fits refl refl (omega arith),
        run_groups_lem hs start,
        flat,
        run_pins_lem es start calls,
      )

  -- Where a block has room for an event and threads and functions fit 64-bit words, the Pin tool's
  -- trace is written, print-bug reads it to its end, and the functions it takes for impactful are
  -- those that were the outermost function of a thread that is not instrumented when the thread made
  -- a system call, however the calls nest.
  pub extract-pin_trace :
      (size : ℕ) (buffer : List ℕ) (callbacks : List Callback)
      → 130 ≤ size
      → size ≤ block_size
      → All IsCallback callbacks
      → (file : List ℕ) × (pin_trace lz4 size callbacks ≡ some file)
        × (funs : List ℕ) × (extract_impactful_fun_call lz4.decompress buffer file ≡ some funs)
        × ((fun : ℕ) → set_count funs fun ≡ is_impactful none_running callbacks fun)
  extract-pin_trace size buffer callbacks room small valid =
      let es = all_emitted callbacks [] in
      let (groups, written, flat, fits) =
        events_file-file_of lz4 size (map pin_bytes es) (omega (arith, room))
          (short es size room) in
      let whole : flatten groups ≡ map pin_bytes (es ++ end_event ∷ []) =
        flat ∙ (unfold pin_bytes in sym (map-append pin_bytes es (end_event ∷ []))) in
      let (hs, same, all) = split_all groups (es ++ end_event ∷ []) whole in
      let calls = all_emitted-IsCall callbacks [] valid in
      let blocks : All (λ block. length block ≤ block_size) (map pins_bytes hs) =
        rw same (All-imp _ _ (map flatten groups) (λ x h. omega (arith, h, small)) fits) in
      (
        file_of lz4 (map pins_bytes hs),
        pin_trace_lem size callbacks
            ∙ written
            ∙ ap (λ (l : List (List ℕ)). some (file_of lz4 l)) (sym same),
        (apply_all es start).impactful_fun_call,
        extract-file_of buffer hs es all calls blocks,
        λ fun.
            all_emitted_lem callbacks none_running [] start fun start-Agrees
            ∙ or_none (is_impactful none_running callbacks fun),
      )
    where
      or_none : (b : Bool) → b || false ≡ b
      or_none b = ground arith
