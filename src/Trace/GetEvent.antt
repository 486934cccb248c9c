-- ===== src/Trace/GetEvent.antt =====
-- GetEvent of lib/SlimmerUtil/Routines.cpp: where the fields of an event lie, seen from its first or
-- from its last byte.
use slimmer.Base.{
  ℕ, zero, suc, ◌+◌, ◌-◌, ◌^◌, ◌<◌, ◌≡◌, refl, ◌∙◌, List, [], ◌∷◌, ◌++◌, length, get_or, Bool, true,
  false, ◌==◌, if◌then◌else◌, Option, none, some, arith,
}
use slimmer.Trace.Bytes.{read_word, read_word-append, word_bytes, bytes_word-word_bytes, bytes_word}
use slimmer.Trace.Event.{
  Event, basic_block, memory, return, argument, memset, memmove, end_event, place_holder,
  basic_block_event_label, memory_event_label, return_event_label, argument_event_label,
  memset_event_label, memmove_event_label, end_event_label, place_holder_label,
  size_of_basic_block_event, size_of_memory_event, size_of_return_event, size_of_argument_event,
  size_of_memset_event, size_of_memmove_event, event_bytes, IsEvent, label_of, size_of,
}

-- The out parameters, as offsets into the buffer. GetEvent leaves those that an event lacks alone.
pub record Pointers : Type 0 where
  pub tid_ptr : ℕ
  pub id_ptr : ℕ
  pub addr_ptr : ℕ
  pub length_ptr : ℕ
  pub addr2_ptr : ℕ

abbrev pub first_byte : Bool → ℕ → ℕ → ℕ
first_byte backward cur size = if backward then cur - (size - 1) else cur

abbrev common : Pointers → ℕ → Pointers
common p cur = record p { tid_ptr = cur + 1; id_ptr = cur + 9 }

-- The switch: the size of the event and the pointers. The code returns no value on other labels.
unfoldable pub get_event : Bool → ℕ → ℕ → Pointers → Option (ℕ × Pointers)
get_event backward label at p =
    let bb = first_byte backward at size_of_basic_block_event in
    let mem = first_byte backward at size_of_memory_event in
    let ret = first_byte backward at size_of_return_event in
    let arg = first_byte backward at size_of_argument_event in
    let mset = first_byte backward at size_of_memset_event in
    let mmove = first_byte backward at size_of_memmove_event in
    if label == end_event_label
    then some (1, p)
    else if label == place_holder_label
    then some (1, p)
    else if label == basic_block_event_label
    then some (size_of_basic_block_event, common p bb)
    else if label == memory_event_label
    then some
        (size_of_memory_event, record (common p mem) { addr_ptr = mem + 13; length_ptr = mem + 21 })
    else if label == return_event_label
    then some (size_of_return_event, record (common p ret) { addr_ptr = ret + 13 })
    else if label == argument_event_label
    then some (size_of_argument_event, record p { tid_ptr = arg + 1; addr_ptr = arg + 9 })
    else if label == memset_event_label
    then some (
      size_of_memset_event,
      record (common p mset) { addr_ptr = mset + 13; length_ptr = mset + 21 },
    )
    else if label == memmove_event_label
    then some (
      size_of_memmove_event,
      record (common p mmove) {
        addr_ptr = mmove + 13;
        addr2_ptr = mmove + 21;
        length_ptr = mmove + 29;
      },
    )
    else none

-- event_label = *cur
unfoldable pub label_at : List ℕ → ℕ → ℕ
label_at buffer cur = get_or buffer cur 0

-- The fields that a reader of an event takes through the pointers.
unfoldable pub fields : List ℕ → ℕ → Pointers → Option Event
fields buffer label p =
    let tid = read_word 8 buffer p.tid_ptr in
    let id = read_word 4 buffer p.id_ptr in
    let addr = read_word 8 buffer p.addr_ptr in
    let len = read_word 8 buffer p.length_ptr in
    let addr2 = read_word 8 buffer p.addr2_ptr in
    if label == end_event_label
    then some end_event
    else if label == place_holder_label
    then some place_holder
    else if label == basic_block_event_label
    then some (basic_block tid id)
    else if label == memory_event_label
    then some (memory tid id addr len)
    else if label == return_event_label
    then some (return tid id addr)
    else if label == argument_event_label
    then some (argument tid addr)
    else if label == memset_event_label
    then some (memset tid id addr len)
    else if label == memmove_event_label
    then some (memmove tid id addr addr2 len)
    else none

-- The pointers that GetEvent leaves behind for an event that starts at `at`.
abbrev pointers_at : Event → ℕ → Pointers → Pointers
pointers_at (basic_block tid id) at p = common p at
pointers_at (memory tid id addr length) at p = record (common p at) {
  addr_ptr = at + 13;
  length_ptr = at + 21;
}
pointers_at (return tid id fun) at p = record (common p at) { addr_ptr = at + 13 }
pointers_at (argument tid arg) at p = record p { tid_ptr = at + 1; addr_ptr = at + 9 }
pointers_at (memset tid id addr length) at p = record (common p at) {
  addr_ptr = at + 13;
  length_ptr = at + 21;
}
pointers_at (memmove tid id dest src length) at p = record (common p at) {
  addr_ptr = at + 13;
  addr2_ptr = at + 21;
  length_ptr = at + 29;
}
pointers_at end_event at p = p
pointers_at place_holder at p = p

get_event_forward :
    (e : Event) (at : ℕ) (p : Pointers)
    → get_event false (label_of e) at p ≡ some (size_of e, pointers_at e at p)
unfolding get_event
get_event_forward (basic_block tid id) at p = refl
get_event_forward (memory tid id addr length) at p = refl
get_event_forward (return tid id fun) at p = refl
get_event_forward (argument tid arg) at p = refl
get_event_forward (memset tid id addr length) at p = refl
get_event_forward (memmove tid id dest src length) at p = refl
get_event_forward end_event at p = refl
get_event_forward place_holder at p = refl

-- Backward, `cur` is the event's last byte.
get_event_backward :
    (e : Event) (at : ℕ) (p : Pointers)
    → get_event true (label_of e) (at + size_of e - 1) p ≡ some (size_of e, pointers_at e at p)
unfolding get_event
get_event_backward (basic_block tid id) at p =
    let same : at + 14 - 1 - 13 ≡ at = omega arith in rw same
get_event_backward (memory tid id addr length) at p =
    let same : at + 30 - 1 - 29 ≡ at = omega arith in rw same
get_event_backward (return tid id fun) at p =
    let same : at + 22 - 1 - 21 ≡ at = omega arith in rw same
get_event_backward (argument tid arg) at p =
    let same : at + 18 - 1 - 17 ≡ at = omega arith in rw same
get_event_backward (memset tid id addr length) at p =
    let same : at + 30 - 1 - 29 ≡ at = omega arith in rw same
get_event_backward (memmove tid id dest src length) at p =
    let same : at + 38 - 1 - 37 ≡ at = omega arith in rw same
get_event_backward end_event at p = refl
get_event_backward place_holder at p = refl

read_back :
    (k v n at : ℕ) (pre buffer : List ℕ)
    → v < 256 ^ k
    → at ≡ length pre + n
    → read_word k buffer n ≡ bytes_word (word_bytes k v)
    → read_word k (pre ++ buffer) at ≡ v
read_back k v n at pre buffer h e f =
    read_word-append k n at pre buffer e ∙ f ∙ bytes_word-word_bytes k v h

fields_lem :
    (e : Event) (pre post : List ℕ) (p : Pointers)
    → IsEvent e
    → fields (pre ++ (event_bytes e ++ post)) (label_of e) (pointers_at e (length pre) p) ≡ some e
unfolding fields event_bytes word_bytes read_word
fields_lem (basic_block tid id) pre post p (a, b) =
    let buffer = event_bytes (basic_block tid id) ++ post in
    let w0 : read_word 8 (pre ++ buffer) (length pre + 1) ≡ tid =
      read_back 8 tid 1 (length pre + 1) pre buffer a refl refl in
    let w1 : read_word 4 (pre ++ buffer) (length pre + 9) ≡ id =
      read_back 4 id 9 (length pre + 9) pre buffer b refl refl in
    λ i. some (basic_block (w0 i) (w1 i))
fields_lem (memory tid id addr len) pre post p (a, b, c, d) =
    let buffer = event_bytes (memory tid id addr len) ++ post in
    let w0 : read_word 8 (pre ++ buffer) (length pre + 1) ≡ tid =
      read_back 8 tid 1 (length pre + 1) pre buffer a refl refl in
    let w1 : read_word 4 (pre ++ buffer) (length pre + 9) ≡ id =
      read_back 4 id 9 (length pre + 9) pre buffer b refl refl in
    let w2 : read_word 8 (pre ++ buffer) (length pre + 13) ≡ addr =
      read_back 8 addr 13 (length pre + 13) pre buffer c refl refl in
    let w3 : read_word 8 (pre ++ buffer) (length pre + 21) ≡ len =
      read_back 8 len 21 (length pre + 21) pre buffer d refl refl in
    λ i. some (memory (w0 i) (w1 i) (w2 i) (w3 i))
fields_lem (return tid id fun) pre post p (a, b, c) =
    let buffer = event_bytes (return tid id fun) ++ post in
    let w0 : read_word 8 (pre ++ buffer) (length pre + 1) ≡ tid =
      read_back 8 tid 1 (length pre + 1) pre buffer a refl refl in
    let w1 : read_word 4 (pre ++ buffer) (length pre + 9) ≡ id =
      read_back 4 id 9 (length pre + 9) pre buffer b refl refl in
    let w2 : read_word 8 (pre ++ buffer) (length pre + 13) ≡ fun =
      read_back 8 fun 13 (length pre + 13) pre buffer c refl refl in
    λ i. some (return (w0 i) (w1 i) (w2 i))
fields_lem (argument tid arg) pre post p (a, b) =
    let buffer = event_bytes (argument tid arg) ++ post in
    let w0 : read_word 8 (pre ++ buffer) (length pre + 1) ≡ tid =
      read_back 8 tid 1 (length pre + 1) pre buffer a refl refl in
    let w1 : read_word 8 (pre ++ buffer) (length pre + 9) ≡ arg =
      read_back 8 arg 9 (length pre + 9) pre buffer b refl refl in
    λ i. some (argument (w0 i) (w1 i))
fields_lem (memset tid id addr len) pre post p (a, b, c, d) =
    let buffer = event_bytes (memset tid id addr len) ++ post in
    let w0 : read_word 8 (pre ++ buffer) (length pre + 1) ≡ tid =
      read_back 8 tid 1 (length pre + 1) pre buffer a refl refl in
    let w1 : read_word 4 (pre ++ buffer) (length pre + 9) ≡ id =
      read_back 4 id 9 (length pre + 9) pre buffer b refl refl in
    let w2 : read_word 8 (pre ++ buffer) (length pre + 13) ≡ addr =
      read_back 8 addr 13 (length pre + 13) pre buffer c refl refl in
    let w3 : read_word 8 (pre ++ buffer) (length pre + 21) ≡ len =
      read_back 8 len 21 (length pre + 21) pre buffer d refl refl in
    λ i. some (memset (w0 i) (w1 i) (w2 i) (w3 i))
fields_lem (memmove tid id dest src len) pre post p (a, b, c, d, e) =
    let buffer = event_bytes (memmove tid id dest src len) ++ post in
    let w0 : read_word 8 (pre ++ buffer) (length pre + 1) ≡ tid =
      read_back 8 tid 1 (length pre + 1) pre buffer a refl refl in
    let w1 : read_word 4 (pre ++ buffer) (length pre + 9) ≡ id =
      read_back 4 id 9 (length pre + 9) pre buffer b refl refl in
    let w2 : read_word 8 (pre ++ buffer) (length pre + 13) ≡ dest =
      read_back 8 dest 13 (length pre + 13) pre buffer c refl refl in
    let w3 : read_word 8 (pre ++ buffer) (length pre + 21) ≡ src =
      read_back 8 src 21 (length pre + 21) pre buffer d refl refl in
    let w4 : read_word 8 (pre ++ buffer) (length pre + 29) ≡ len =
      read_back 8 len 29 (length pre + 29) pre buffer e refl refl in
    λ i. some (memmove (w0 i) (w1 i) (w2 i) (w3 i) (w4 i))
fields_lem end_event pre post p h = refl
fields_lem place_holder pre post p h = refl

pub label_at_lem :
    (e : Event) (pre post : List ℕ)
    → label_at (pre ++ (event_bytes e ++ post)) (length pre) ≡ label_of e
unfolding label_at
label_at_lem e [] post = first e
  where
    first : (e : Event) → get_or (event_bytes e ++ post) 0 0 ≡ label_of e
    first (basic_block tid id) = unfold event_bytes in refl
    first (memory tid id addr length) = unfold event_bytes in refl
    first (return tid id fun) = unfold event_bytes in refl
    first (argument tid arg) = unfold event_bytes in refl
    first (memset tid id addr length) = unfold event_bytes in refl
    first (memmove tid id dest src length) = unfold event_bytes in refl
    first end_event = unfold event_bytes in refl
    first place_holder = unfold event_bytes in refl
label_at_lem e (x ∷ pre) post = label_at_lem e pre post

-- An event read at `cur`: its size, the pointers and the fields behind them.
abbrev pub Reads : Bool → List ℕ → ℕ → Pointers → Event → Type 0
Reads backward buffer cur p e =
    (q : Pointers) × (get_event backward (label_at buffer cur) cur p ≡ some (size_of e, q))
    × (fields buffer (label_at buffer cur) q ≡ some e)

-- Wherever an event's bytes stand in a buffer, GetEvent at their first byte gives the event's size
-- and pointers at which the event's fields are read back.
pub get_event-event_bytes :
    (e : Event) (pre post : List ℕ) (p : Pointers)
    → IsEvent e
    → Reads false (pre ++ (event_bytes e ++ post)) (length pre) p e
get_event-event_bytes e pre post p h =
    rw (label_at_lem e pre post)
      (pointers_at e (length pre) p, get_event_forward e (length pre) p, fields_lem e pre post p h)

get_or-append :
    (pre buffer : List ℕ) (n at : ℕ)
    → at ≡ length pre + n
    → get_or (pre ++ buffer) at 0 ≡ get_or buffer n 0
get_or-append [] buffer n at e = let same : at ≡ n = omega arith in rw same
get_or-append (x ∷ pre) buffer n zero e = absurd (omega arith)
get_or-append (x ∷ pre) buffer n (suc at) e = get_or-append pre buffer n at (omega arith)

last_label :
    (e : Event) (post : List ℕ) → get_or (event_bytes e ++ post) (size_of e - 1) 0 ≡ label_of e
unfolding event_bytes word_bytes
last_label (basic_block tid id) post = refl
last_label (memory tid id addr length) post = refl
last_label (return tid id fun) post = refl
last_label (argument tid arg) post = refl
last_label (memset tid id addr length) post = refl
last_label (memmove tid id dest src length) post = refl
last_label end_event post = refl
last_label place_holder post = refl

pub size_of_pos : (e : Event) → 0 < size_of e
size_of_pos (basic_block tid id) = omega arith
size_of_pos (memory tid id addr length) = omega arith
size_of_pos (return tid id fun) = omega arith
size_of_pos (argument tid arg) = omega arith
size_of_pos (memset tid id addr length) = omega arith
size_of_pos (memmove tid id dest src length) = omega arith
size_of_pos end_event = omega arith
size_of_pos place_holder = omega arith

label_at_last :
    (e : Event) (pre post : List ℕ)
    → label_at (pre ++ (event_bytes e ++ post)) (length pre + size_of e - 1) ≡ label_of e
unfolding label_at
label_at_last e pre post =
    get_or-append pre (event_bytes e ++ post) (size_of e - 1) _ (omega (arith, size_of_pos e))
    ∙ last_label e post

-- Wherever the bytes of an event whose fields fit their words stand in a buffer, GetEvent gives the
-- event's size and pointers at which its fields are read back, both forward from its first byte and
-- backward from its last.
pub get_event_both_ways :
    (e : Event) (pre post : List ℕ) (p : Pointers)
    → IsEvent e
    → Reads false (pre ++ (event_bytes e ++ post)) (length pre) p e
      × Reads true (pre ++ (event_bytes e ++ post)) (length pre + size_of e - 1) p e
get_event_both_ways e pre post p h = (
  get_event-event_bytes e pre post p h,
  rw (label_at_last e pre post) (
    pointers_at e (length pre) p,
    get_event_backward e (length pre) p,
    fields_lem e pre post p h,
  ),
)
