-- ===== src/Pin.antt =====
-- tools/PinTool/PinTrace.cpp: the events that the Pin tool appends for the calls of functions that
-- are not instrumented. Pin calls the three routines; a callback is the thread with their argument.
pub mod Calls
pub mod Reading
pub mod Outermost
pub mod RoundTrip
use slimmer.Base.{
  ℕ, zero, suc, ◌+◌, ◌-◌, ℤ, pos, negsuc, Bool, true, false, List, [], ◌∷◌, ◌++◌, Option, none,
  some, ◌>>=◌, if◌then◌else◌, map_at, map_set, nat_order, replicate,
}
use slimmer.Trace.Bytes.{word_bytes}
use slimmer.Trace.Event.{call_event_label, return_event_label, syscall_event_label, end_event_label}
use slimmer.Trace.Iter.{Lz4}
use slimmer.Trace.EventBuffer.{EventBuffer, init, append, close_buffer_file}

pub data Callback : Type 0 where
  before_call : (tid fun : ℕ) → Callback
  after_call : (tid fun : ℕ) → Callback
  syscall_entry : (tid : ℕ) → Callback

pub data PinEvent : Type 0 where
  call : (tid fun : ℕ) → PinEvent
  return : (tid fun : ℕ) → PinEvent
  syscall : (tid : ℕ) → PinEvent
  end_event : PinEvent

-- The arrays call_event, return_event and syscall_event: the bytes that are never set are 0.
abbrev gap : List ℕ
gap = replicate 56 0

unfoldable pub call_bytes : ℕ → ℕ → ℕ → List ℕ
call_bytes label tid fun =
    label ∷ (word_bytes 8 tid ++ (gap ++ (word_bytes 8 fun ++ (gap ++ label ∷ []))))

unfoldable pub syscall_bytes : ℕ → List ℕ
syscall_bytes tid = syscall_event_label ∷ (word_bytes 8 tid ++ (gap ++ syscall_event_label ∷ []))

unfoldable pub pin_bytes : PinEvent → List ℕ
unfolding call_bytes syscall_bytes
pin_bytes (call tid fun) = call_bytes call_event_label tid fun
pin_bytes (return tid fun) = call_bytes return_event_label tid fun
pin_bytes (syscall tid) = syscall_bytes tid
pin_bytes end_event = end_event_label ∷ []

-- ++d and --d on an int.
abbrev pub incr : ℤ → ℤ
incr (pos n) = pos (suc n)
incr (negsuc zero) = pos 0
incr (negsuc (suc n)) = negsuc n

abbrev pub decr : ℤ → ℤ
decr (pos zero) = negsuc 0
decr (pos (suc n)) = pos n
decr (negsuc n) = negsuc (suc n)

abbrev pub is_zero : ℤ → Bool
is_zero (pos zero) = true
is_zero _ = false

abbrev pub is_one : ℤ → Bool
is_one (pos (suc zero)) = true
is_one _ = false

pub record PinTool : Type 0 where
  pub pdepth : List (ℕ × ℤ)
  pub pin_event_buffer : EventBuffer

abbrev pub depth_of : List (ℕ × ℤ) → ℕ → ℤ
depth_of pdepth tid = map_at (pos 0) pdepth tid

module _ {block_size : ℕ} (lz4 : Lz4 block_size) where
  unfoldable pub append_event : PinEvent → PinTool → Option PinTool
  append_event e pin = append lz4 pin.pin_event_buffer (pin_bytes e) >>= λ buffer.
      some (record pin { pin_event_buffer = buffer })

  -- BeforeCall, AfterCall and SyscallEntry.
  unfoldable pub before : ℕ → ℕ → PinTool → Option PinTool
  before tid fun pin =
      let depth = incr (depth_of pin.pdepth tid) in
      let counted = record pin { pdepth = map_set pin.pdepth tid depth } in
      if is_one depth then append_event (call tid fun) counted else some counted

  unfoldable pub after : ℕ → ℕ → PinTool → Option PinTool
  after tid fun pin =
      let depth = decr (depth_of pin.pdepth tid) in
      let counted = record pin { pdepth = map_set pin.pdepth tid depth } in
      if is_zero depth then append_event (return tid fun) counted else some counted

  unfoldable pub system_call : ℕ → PinTool → Option PinTool
  system_call tid pin =
      if is_zero (depth_of pin.pdepth tid) then some pin else append_event (syscall tid) pin

  unfoldable pub run_callback : Callback → PinTool → Option PinTool
  run_callback (before_call tid fun) pin = before tid fun pin
  run_callback (after_call tid fun) pin = after tid fun pin
  run_callback (syscall_entry tid) pin = system_call tid pin

  unfoldable pub run_callbacks : List Callback → PinTool → Option PinTool
  run_callbacks [] pin = some pin
  run_callbacks (c ∷ cs) pin = run_callback c pin >>= λ pin'. run_callbacks cs pin'

  -- The trace file once Fini has closed the buffer.
  unfoldable pub pin_trace : ℕ → List Callback → Option (List ℕ)
  pin_trace size callbacks = do
    pin ← run_callbacks callbacks (record { pdepth = []; pin_event_buffer = init size })
    closed ← close_buffer_file lz4 pin.pin_event_buffer
    some closed.buffer.stream
