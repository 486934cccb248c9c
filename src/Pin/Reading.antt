-- ===== src/Pin/Reading.antt =====
-- The file of the Pin tool's events read back.
use mathlib.Core.List.{flatten, append_assoc, append-nil}
use slimmer.Base.{
  if_some_else, if◌then◌else◌, Bool-cases, inl, inr, ℕ, zero, suc, ◌+◌, ◌^◌, ◌<◌, ◌≤◌, ◌≡◌, refl,
  sym, ap, ◌∙◌, Bool, true, false, gt→leb, le→leb, List, [], ◌∷◌, ◌++◌, map, some, length,
  length-append, take, drop, All, arith,
}
use slimmer.Trace.Bytes.{word_bytes, bytes_word-word_bytes, read_word, read_word-append}
use slimmer.Trace.Iter.{Lz4, frame, file_of}
use slimmer.Trace.GetEvent.{label_at}
use slimmer.Trace.Reading.{length-frame, read_word-frame, packed-frame}
use slimmer.Pin.{PinEvent, call, return, syscall, end_event, call_bytes, syscall_bytes, pin_bytes}
use slimmer.Pin.Calls.{State, called, returned, system_call, step, read_block, refill, read_file}

-- Fields that fit their words.
abbrev pub IsPinEvent : PinEvent → Type 0
IsPinEvent (call tid fun) = (tid < 2 ^ 64) × (fun < 2 ^ 64)
IsPinEvent (return tid fun) = (tid < 2 ^ 64) × (fun < 2 ^ 64)
IsPinEvent (syscall tid) = tid < 2 ^ 64
IsPinEvent end_event = Unit {0}

abbrev pub size_of : PinEvent → ℕ
size_of (call tid fun) = 130
size_of (return tid fun) = 130
size_of (syscall tid) = 66
size_of end_event = 1

pub length-pin_bytes : (e : PinEvent) → length (pin_bytes e) ≡ size_of e
unfolding pin_bytes call_bytes syscall_bytes word_bytes
length-pin_bytes (call tid fun) = refl
length-pin_bytes (return tid fun) = refl
length-pin_bytes (syscall tid) = refl
length-pin_bytes end_event = refl

-- The events' effects, to the end event.
abbrev pub apply_event : PinEvent → State → State
apply_event (call tid fun) s = called tid fun s
apply_event (return tid fun) s = returned tid fun s
apply_event (syscall tid) s = system_call tid s
apply_event end_event s = s

abbrev pub ends : PinEvent → Bool
ends end_event = true
ends _ = false

unfoldable pub run_pins : State → List PinEvent → Bool × State
run_pins s [] = (false, s)
run_pins s (e ∷ es) = if ends e then (true, apply_event e s) else run_pins (apply_event e s) es

label_first : (done rest : List ℕ) (x : ℕ) → label_at (done ++ x ∷ rest) (length done) ≡ x
unfolding label_at
label_first [] rest x = refl
label_first (y ∷ done) rest x = label_first done rest x

call_tid :
    (label tid fun : ℕ) (post : List ℕ)
    → tid < 2 ^ 64
    → read_word 8 (call_bytes label tid fun ++ post) 1 ≡ tid
unfolding call_bytes read_word word_bytes
call_tid label tid fun post h = bytes_word-word_bytes 8 tid h

call_fun :
    (label tid fun : ℕ) (post : List ℕ)
    → fun < 2 ^ 64
    → read_word 8 (call_bytes label tid fun ++ post) 65 ≡ fun
unfolding call_bytes read_word word_bytes
call_fun label tid fun post h = bytes_word-word_bytes 8 fun h

syscall_tid :
    (tid : ℕ) (post : List ℕ) → tid < 2 ^ 64 → read_word 8 (syscall_bytes tid ++ post) 1 ≡ tid
unfolding syscall_bytes read_word word_bytes
syscall_tid tid post h = bytes_word-word_bytes 8 tid h

step_lem :
    (done post : List ℕ) (e : PinEvent) (s : State)
    → IsPinEvent e
    → step (done ++ (pin_bytes e ++ post)) (length done) s
      ≡ some (record { ended = ends e; size = size_of e; state = apply_event e s })
unfolding step pin_bytes
step_lem done post (call tid fun) s (h, k) =
    let b = call_bytes 2 tid fun ++ post in
    let l : label_at (done ++ b) (length done) ≡ 2 = unfold call_bytes in label_first done _ 2 in
    rw
      (
        l,
        read_word-append 8 1 (length done + 1) done b refl ∙ call_tid 2 tid fun post h,
        read_word-append 8 65 (length done + 65) done b refl ∙ call_fun 2 tid fun post k,
      )
      refl
step_lem done post (return tid fun) s (h, k) =
    let b = call_bytes 3 tid fun ++ post in
    let l : label_at (done ++ b) (length done) ≡ 3 = unfold call_bytes in label_first done _ 3 in
    rw
      (
        l,
        read_word-append 8 1 (length done + 1) done b refl ∙ call_tid 3 tid fun post h,
        read_word-append 8 65 (length done + 65) done b refl ∙ call_fun 3 tid fun post k,
      )
      refl
step_lem done post (syscall tid) s h =
    let b = syscall_bytes tid ++ post in
    let l : label_at (done ++ b) (length done) ≡ 4 = unfold syscall_bytes in label_first done _ 4 in
    rw (l, read_word-append 8 1 (length done + 1) done b refl ∙ syscall_tid tid post h) refl
step_lem done post end_event s h =
    let l : label_at (done ++ 125 ∷ post) (length done) ≡ 125 = label_first done post 125 in
    rw l refl

unfoldable pub pins_bytes : List PinEvent → List ℕ
pins_bytes [] = []
pins_bytes (e ∷ es) = pin_bytes e ++ pins_bytes es

size_positive : (e : PinEvent) → 0 < size_of e
size_positive (call tid fun) = omega arith
size_positive (return tid fun) = omega arith
size_positive (syscall tid) = omega arith
size_positive end_event = omega arith

length-pins_bytes :
    (e : PinEvent) (es : List PinEvent)
    → length (pins_bytes (e ∷ es)) ≡ size_of e + length (pins_bytes es)
unfolding pins_bytes
length-pins_bytes e es =
    omega (arith, length-append (pin_bytes e) (pins_bytes es), length-pin_bytes e)

-- A block of events is read event by event, to its end or to the end event.
read_block_lem :
    (fuel : ℕ) (buffer : List ℕ) (decoded cur : ℕ) (done junk : List ℕ) (es : List PinEvent)
    (s : State)
    → All IsPinEvent es
    → buffer ≡ done ++ (pins_bytes es ++ junk)
    → cur ≡ length done
    → decoded ≡ cur + length (pins_bytes es)
    → length (pins_bytes es) < fuel
    → read_block fuel buffer decoded cur s ≡ some (run_pins s es)
unfolding read_block run_pins
read_block_lem zero buffer decoded cur done junk es s v same at all m = absurd (omega arith)
read_block_lem (suc fuel) buffer decoded cur done junk [] s v same at all m =
    let used : decoded ≤ cur = unfold pins_bytes in omega (arith, all) in
    rw (read_block, le→leb decoded cur used) refl
read_block_lem (suc fuel) buffer decoded cur done junk (e ∷ es) s v same at all m =
    let size = length-pins_bytes e es in
    let left : cur < decoded = omega (arith, all, size, size_positive e) in
    let split : buffer ≡ done ++ (pin_bytes e ++ (pins_bytes es ++ junk)) =
      unfold pins_bytes in
      same ∙ ap (λ (t : List ℕ). done ++ t) (append_assoc (pin_bytes e) (pins_bytes es) junk) in
    let stepped : step buffer cur s
        ≡ some (record { ended = ends e; size = size_of e; state = apply_event e s }) =
      rw (split, at) (step_lem done (pins_bytes es ++ junk) e s v.0) in
    let rest =
      read_block_lem fuel buffer decoded (cur + size_of e) (done ++ pin_bytes e) junk es
        (apply_event e s) v.1
        (split ∙ sym (append_assoc done (pin_bytes e) (pins_bytes es ++ junk)))
        (omega (arith, at, length-append done (pin_bytes e), length-pin_bytes e))
        (omega (arith, all, size)) (omega (arith, m, size, size_positive e)) in
    rw (read_block, gt→leb decoded cur left, stepped, run_pins)
      (if_some_else (ends e) (true, apply_event e s) rest)

-- The events of the blocks, to the end event.
pub run_groups : State → List (List PinEvent) → State
run_groups s [] = s
run_groups s (g ∷ gs) = let r = run_pins s g in if r.0 then r.1 else run_groups r.1 gs

run_pins-append :
    (es fs : List PinEvent) (s : State)
    → run_pins s (es ++ fs)
      ≡ (if (run_pins s es).0 then (true, (run_pins s es).1) else run_pins (run_pins s es).1 fs)
unfolding run_pins
run_pins-append [] fs s = refl
run_pins-append (e ∷ es) fs s = elim (Bool-cases (ends e)) [
  | inl c ↦ rw (run_pins, c) refl
  | inr c ↦ rw (run_pins, c) (run_pins-append es fs (apply_event e s))
]

pub run_groups_lem :
    (gs : List (List PinEvent)) (s : State) → run_groups s gs ≡ (run_pins s (flatten gs)).1
unfolding run_groups flatten
run_groups_lem [] s = unfold run_pins in refl
run_groups_lem (g ∷ gs) s = elim (Bool-cases (run_pins s g).0) [
  | inl c ↦ rw (run_groups, run_pins-append g (flatten gs) s, c) refl
  | inr c ↦
      rw (run_groups, run_pins-append g (flatten gs) s, c) (run_groups_lem gs (run_pins s g).1)
]

module _ {block_size : ℕ} (lz4 : Lz4 block_size) where
  pub read_file_lem :
      (fuel : ℕ) (trace buffer pre : List ℕ) (at : ℕ) (gs : List (List PinEvent)) (s : State)
      → All (All IsPinEvent) gs
      → All (λ block. length block ≤ block_size) (map pins_bytes gs)
      → trace ≡ pre ++ file_of lz4 (map pins_bytes gs)
      → at ≡ length pre
      → length (file_of lz4 (map pins_bytes gs)) < fuel
      → read_file lz4.decompress fuel trace buffer at s ≡ some (run_groups s gs)
  unfolding read_file run_groups
  read_file_lem zero trace buffer pre at gs s v w same here m = absurd (omega arith)
  read_file_lem (suc fuel) trace buffer pre at [] s v w same here m =
      let used : length trace ≤ at =
        rw (same, here) (unfold file_of in rw (append-nil pre) (omega arith)) in
      rw (read_file, le→leb (length trace) at used) refl
  read_file_lem (suc fuel) trace buffer pre at (g ∷ gs) s v w same here m =
      let block = pins_bytes g in
      let tail = file_of lz4 (map pins_bytes gs) in
      let packed = lz4.compress block in
      let whole : trace ≡ pre ++ (frame lz4 block ++ tail) = unfold file_of in same in
      let long : length (file_of lz4 (map pins_bytes (g ∷ gs))) ≡ 16 + length packed + length tail =
        unfold file_of in
        omega (arith, length-append (frame lz4 block) tail, length-frame lz4 block) in
      let left : at < length trace = rw whole (
        omega (
          arith,
          here,
          length-append pre (frame lz4 block ++ tail),
          length-append (frame lz4 block) tail,
          length-frame lz4 block,
        )) in
      let size : read_word 8 trace at ≡ length packed =
        rw (whole, here) (read_word-frame lz4 pre block tail w.0) in
      let fetched : lz4.decompress (take (read_word 8 trace at) (drop (at + 8) trace))
          ≡ some block =
        rw (size, whole, here, packed-frame lz4 pre block tail) (lz4.restores block w.0) in
      let read : read_block (suc (length block)) (refill block buffer) (length block) 0 s
          ≡ some (run_pins s g) =
        read_block_lem (suc (length block)) (refill block buffer) (length block) 0 []
          (drop (length block) buffer) g s v.0 refl refl (omega arith) (omega arith) in
      let rest =
        read_file_lem fuel trace (refill block buffer) (pre ++ frame lz4 block)
          (at + 8 + (read_word 8 trace at + 8)) gs (run_pins s g).1 v.1 w.1
          (whole ∙ sym (append_assoc pre (frame lz4 block) tail))
          (omega (arith, here, size, length-append pre (frame lz4 block), length-frame lz4 block))
          (omega (arith, m, long)) in
      rw (read_file, gt→leb (length trace) at left, fetched, read, run_groups)
        (if_some_else (run_pins s g).0 (run_pins s g).1 rest)
