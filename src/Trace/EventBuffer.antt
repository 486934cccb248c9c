-- ===== src/Trace/EventBuffer.antt =====
-- EventBuffer of lib/SlimmerUtil/EventBuffer.cpp and CompressBuffer of lib/SlimmerUtil/Routines.cpp:
-- buffers of one block that is compressed and written out when the next item does not fit.
use mathlib.Core.Path.{subst}
use mathlib.Core.List.{flatten, append_assoc, append-nil, map-append}
use slimmer.Base.{
  All-append, flatten-snoc, ℕ, ◌+◌, ◌<◌, ◌≤◌, ◌≡◌, refl, sym, ◌∙◌, ap, List, [], ◌∷◌, ◌++◌, length,
  length-append, map, Bool, true, false, ltb, leb, ltb→ge, le→leb, if◌then◌else◌, Option, none,
  some, ◌>>=◌, All, Bool-cases, inl, inr, arith,
}
use slimmer.Trace.Event.{end_event_label}
use slimmer.Trace.Iter.{Lz4, frame, file_of}

-- `stream` is what has been written to the file; `block` is [buffer, buffer + offset).
pub record Buffer : Type 0 where
  pub size : ℕ
  pub block : List ℕ
  pub stream : List ℕ

pub record EventBuffer : Type 0 where
  pub buffer : Buffer
  pub inited : Bool

abbrev pub open_buffer : ℕ → Buffer
open_buffer size = record { size = size; block = []; stream = [] }

abbrev pub init : ℕ → EventBuffer
init size = record { buffer = open_buffer size; inited = true }

module _ {block_size : ℕ} (lz4 : Lz4 block_size) where
  -- The block compressed and written, with its length before and behind it.
  abbrev pub write_out : Buffer → List ℕ
  write_out b = b.stream ++ frame lz4 b.block

  -- CompressBuffer::Prepare, and the first half of EventBuffer::Append.
  unfoldable pub make_room : ℕ → Buffer → Buffer
  make_room len b =
      if ltb b.size (length b.block + len) then record b { stream = write_out b; block = [] } else b

  -- CompressBuffer::Append
  unfoldable pub put : Buffer → List ℕ → Buffer
  put b bytes = let r = make_room (length bytes) b in record r { block = r.block ++ bytes }

  -- EventBuffer::Append; an event longer than a block fails the assertion.
  unfoldable pub append : EventBuffer → List ℕ → Option EventBuffer
  append e bytes =
      let r = make_room (length bytes) e.buffer in
      if leb (length r.block + length bytes) r.size
      then some (record e { buffer = put e.buffer bytes })
      else none

  -- EventBuffer::CloseBufferFile; closed a second time, the buffer stays as it is.
  unfoldable pub close_buffer_file : EventBuffer → Option EventBuffer
  close_buffer_file e =
      if e.inited
      then (append e (end_event_label ∷ []) >>= λ e'.
          some
            (record { buffer = record e'.buffer { stream = write_out e'.buffer }; inited = false }))
      else some e

  unfoldable pub append_all : EventBuffer → List (List ℕ) → Option EventBuffer
  append_all e [] = some e
  append_all e (bytes ∷ rest) = append e bytes >>= λ e'. append_all e' rest

  -- The blocks written and the one begun hold the items whole and in their order.
  record Holds (b : Buffer) (items : List (List ℕ)) : Type 0 where
    groups : List (List (List ℕ))
    current : List (List ℕ)
    written : b.stream ≡ file_of lz4 (map flatten groups)
    begun : b.block ≡ flatten current
    together : flatten groups ++ current ≡ items
    fits : All (λ block. length block ≤ b.size) (map flatten groups)
    room : length b.block ≤ b.size

  file_of-append :
      (xs ys : List (List ℕ)) → file_of lz4 (xs ++ ys) ≡ file_of lz4 xs ++ file_of lz4 ys
  unfolding file_of
  file_of-append [] ys = refl
  file_of-append (x ∷ xs) ys =
      rw (file_of-append xs ys) (sym (append_assoc (frame lz4 x) (file_of lz4 xs) (file_of lz4 ys)))

  write_out-Holds :
      {b : Buffer} {items : List (List ℕ)} (h : Holds b items)
      → (groups : List (List (List ℕ))) × (write_out b ≡ file_of lz4 (map flatten groups))
        × (flatten groups ≡ items)
        × All (λ block. length block ≤ b.size) (map flatten groups)
  unfolding file_of flatten
  write_out-Holds {b} h =
      let split : map flatten (h.groups ++ h.current ∷ [])
          ≡ map flatten h.groups ++ flatten h.current ∷ [] =
        map-append flatten h.groups (h.current ∷ []) in
      (
        h.groups ++ h.current ∷ [],
        ap (λ (t : List ℕ). t ++ frame lz4 b.block) h.written
            ∙ ap (λ (t : List ℕ). file_of lz4 (map flatten h.groups) ++ frame lz4 t) h.begun
            ∙ ap (λ (t : List ℕ). file_of lz4 (map flatten h.groups) ++ t)
                (sym (append-nil (frame lz4 (flatten h.current))))
            ∙ sym (file_of-append (map flatten h.groups) (flatten h.current ∷ []))
            ∙ ap (file_of lz4) (sym split),
        flatten-snoc h.groups h.current ∙ h.together,
        subst (All (λ block. length block ≤ b.size)) (sym split) (
            All-append (λ block. length block ≤ b.size) (map flatten h.groups) _ h.fits
              (ap_le h.begun h.room, tt)),
      )
    where
      ap_le : {xs ys : List ℕ} {n : ℕ} → xs ≡ ys → length xs ≤ n → length ys ≤ n
      ap_le {n} e = subst (λ (t : List ℕ). length t ≤ n) e

  -- A begun block with one more item that fits.
  add_item :
      {b : Buffer} {items : List (List ℕ)} (h : Holds b items) (bytes : List ℕ)
      → length b.block + length bytes ≤ b.size
      → Holds (record b { block = b.block ++ bytes }) (items ++ bytes ∷ [])
  add_item {b} h bytes m = record {
    groups = h.groups;
    current = h.current ++ bytes ∷ [];
    written = h.written;
    begun = ap (λ (t : List ℕ). t ++ bytes) h.begun ∙ sym (flatten-snoc h.current bytes);
    together =
        sym (append_assoc (flatten h.groups) h.current (bytes ∷ []))
        ∙ ap (λ (t : List (List ℕ)). t ++ bytes ∷ []) h.together;
    fits = h.fits;
    room = omega (arith, length-append b.block bytes);
  }

  emptied :
      {b : Buffer} {items : List (List ℕ)} (h : Holds b items)
      → Holds (record b { stream = write_out b; block = [] }) items
  unfolding flatten
  emptied h =
      let (groups, same, all, small) = write_out-Holds h in
      record {
        groups = groups;
        current = [];
        written = same;
        begun = refl;
        together = append-nil (flatten groups) ∙ all;
        fits = small;
        room = omega arith;
      }

  make_room-Holds :
      (b : Buffer) {items : List (List ℕ)} (h : Holds b items) (n : ℕ)
      → n ≤ b.size
      → Holds (make_room n b) items
        × (length (make_room n b).block + n ≤ (make_room n b).size)
        × ((make_room n b).size ≡ b.size)
  unfolding make_room
  make_room-Holds b h n m = elim (Bool-cases (ltb b.size (length b.block + n))) [
    | inl c ↦ rw c (emptied h, omega (arith, m), refl)
    | inr c ↦ rw c (h, ltb→ge _ _ c, refl)
  ]

  append-Holds :
      (e : EventBuffer) {items : List (List ℕ)} (h : Holds e.buffer items) (bytes : List ℕ)
      → length bytes ≤ e.buffer.size
      → (e' : EventBuffer) × (append e bytes ≡ some e')
        × Holds e'.buffer (items ++ bytes ∷ [])
        × (e'.buffer.size ≡ e.buffer.size)
        × (e'.inited ≡ e.inited)
  unfolding append put
  append-Holds e h bytes m =
      let (g, room, same) = make_room-Holds e.buffer h (length bytes) m in
      (
        record e { buffer = put e.buffer bytes },
        rw (le→leb _ _ room) refl,
        add_item g bytes room,
        same,
        refl,
      )

  append_all-Holds :
      (new : List (List ℕ)) (e : EventBuffer) (items : List (List ℕ)) (h : Holds e.buffer items)
      → All (λ bytes. length bytes ≤ e.buffer.size) new
      → (e' : EventBuffer) × (append_all e new ≡ some e')
        × Holds e'.buffer (items ++ new)
        × (e'.buffer.size ≡ e.buffer.size)
        × (e'.inited ≡ e.inited)
  unfolding append_all
  append_all-Holds [] e items h m = (e, refl, rw (append-nil items) h, refl, refl)
  append_all-Holds (bytes ∷ new) e items h (m, ms) =
      let (e1, done, g, size, open1) = append-Holds e h bytes m in
      let ms' : All (λ b. length b ≤ e1.buffer.size) new =
        subst (λ (n : ℕ). All (λ b. length b ≤ n) new) (sym size) ms in
      let (e2, rest, k, size2, open2) = append_all-Holds new e1 (items ++ bytes ∷ []) g ms' in
      (
        e2,
        rw done rest,
        subst (Holds e2.buffer) (append_assoc items (bytes ∷ []) new) k,
        size2 ∙ size,
        open2 ∙ open1,
      )

  unfoldable pub events_file : ℕ → List (List ℕ) → Option (List ℕ)
  events_file size events =
      append_all (init size) events >>= λ e. close_buffer_file e >>= λ e'. some e'.buffer.stream

  init-Holds : (size : ℕ) → Holds (init size).buffer []
  unfolding file_of flatten
  init-Holds size = record {
    groups = [];
    current = [];
    written = refl;
    begun = refl;
    together = refl;
    fits = tt;
    room = omega arith;
  }

  -- Events no longer than a block, appended to a new buffer and followed by its closing, never fail
  -- the assertion, and the file is one of compressed blocks that are no longer than the buffer and
  -- hold the events and the end event in their order, none of them split.
  pub events_file-file_of :
      (size : ℕ) (events : List (List ℕ))
      → 0 < size
      → All (λ bytes. length bytes ≤ size) events
      → (groups : List (List (List ℕ))) × (events_file size events
          ≡ some (file_of lz4 (map flatten groups)))
        × (flatten groups ≡ events ++ (end_event_label ∷ []) ∷ [])
        × All (λ block. length block ≤ size) (map flatten groups)
  unfolding events_file close_buffer_file
  events_file-file_of size events w m =
      let (e, done, h, same, opened) = append_all-Holds events (init size) [] (init-Holds size) m in
      let (e', ended, g, same', _) =
        append-Holds e h (end_event_label ∷ []) (omega (arith, same)) in
      let (groups, file, all, small) = write_out-Holds g in
      (
        groups,
        rw (done, opened, ended) (ap some file),
        all,
        subst (λ (n : ℕ). All (λ block. length block ≤ n) (map flatten groups)) (same' ∙ same)
            small,
      )
