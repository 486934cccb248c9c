-- ===== src/Trace/Event.antt =====
-- The events of a trace as bytes: the labels and sizes of include/SlimmerUtil.h and what the record
-- functions of lib/SlimmerRuntime/SlimmerRuntime.cpp write for each.
use slimmer.Base.{ℕ, ◌+◌, ◌*◌, ◌^◌, ◌<◌, ◌≡◌, refl, List, [], ◌∷◌, ◌++◌, length}
use slimmer.Trace.Bytes.{word_bytes}

abbrev pub basic_block_event_label : ℕ
basic_block_event_label = 0

abbrev pub memory_event_label : ℕ
memory_event_label = 1

abbrev pub call_event_label : ℕ
call_event_label = 2

abbrev pub return_event_label : ℕ
return_event_label = 3

abbrev pub syscall_event_label : ℕ
syscall_event_label = 4

abbrev pub argument_event_label : ℕ
argument_event_label = 5

abbrev pub memset_event_label : ℕ
memset_event_label = 6

abbrev pub memmove_event_label : ℕ
memmove_event_label = 7

abbrev pub end_event_label : ℕ
end_event_label = 125

abbrev pub place_holder_label : ℕ
place_holder_label = 126

abbrev pub size_of_event_common : ℕ
size_of_event_common = 2 + 8 + 4

abbrev pub size_of_basic_block_event : ℕ
size_of_basic_block_event = size_of_event_common

abbrev pub size_of_memory_event : ℕ
size_of_memory_event = size_of_event_common + 2 * 8

abbrev pub size_of_return_event : ℕ
size_of_return_event = size_of_event_common + 8

abbrev pub size_of_argument_event : ℕ
size_of_argument_event = 2 + 8 + 8

abbrev pub size_of_memset_event : ℕ
size_of_memset_event = size_of_memory_event

abbrev pub size_of_memmove_event : ℕ
size_of_memmove_event = size_of_event_common + 3 * 8

-- The events that TraceIter hands to MergeTrace.
pub data Event : Type 0 where
  basic_block : (tid id : ℕ) → Event
  memory : (tid id addr length : ℕ) → Event
  return : (tid id fun : ℕ) → Event
  argument : (tid arg : ℕ) → Event
  memset : (tid id addr length : ℕ) → Event
  memmove : (tid id dest src length : ℕ) → Event
  end_event : Event
  place_holder : Event

-- The bytes of each record, the label first and last.
unfoldable pub basic_block_bytes : ℕ → ℕ → List ℕ
basic_block_bytes tid id =
    basic_block_event_label
    ∷ (word_bytes 8 tid ++ (word_bytes 4 id ++ basic_block_event_label ∷ []))

-- recordMemoryEvent, recordCallocEvent, recordStoreEvent and recordMemset differ in the label and in
-- how they come by the length.
unfoldable pub access_bytes : ℕ → ℕ → ℕ → ℕ → ℕ → List ℕ
access_bytes label tid id addr length =
    label
    ∷ (word_bytes 8 tid
        ++ (word_bytes 4 id ++ (word_bytes 8 addr ++ (word_bytes 8 length ++ label ∷ []))))

unfoldable pub return_bytes : ℕ → ℕ → ℕ → List ℕ
return_bytes tid id fun =
    return_event_label
    ∷ (word_bytes 8 tid ++ (word_bytes 4 id ++ (word_bytes 8 fun ++ return_event_label ∷ [])))

unfoldable pub argument_bytes : ℕ → ℕ → List ℕ
argument_bytes tid arg =
    argument_event_label ∷ (word_bytes 8 tid ++ (word_bytes 8 arg ++ argument_event_label ∷ []))

unfoldable pub memmove_bytes : ℕ → ℕ → ℕ → ℕ → ℕ → List ℕ
memmove_bytes tid id dest src length =
    memmove_event_label
    ∷ (word_bytes 8 tid
        ++ (word_bytes 4 id
            ++ (word_bytes 8 dest
                ++ (word_bytes 8 src ++ (word_bytes 8 length ++ memmove_event_label ∷ [])))))

unfoldable pub event_bytes : Event → List ℕ
unfolding basic_block_bytes access_bytes return_bytes argument_bytes memmove_bytes
event_bytes (basic_block tid id) = basic_block_bytes tid id
event_bytes (memory tid id addr length) = access_bytes memory_event_label tid id addr length
event_bytes (return tid id fun) = return_bytes tid id fun
event_bytes (argument tid arg) = argument_bytes tid arg
event_bytes (memset tid id addr length) = access_bytes memset_event_label tid id addr length
event_bytes (memmove tid id dest src length) = memmove_bytes tid id dest src length
event_bytes end_event = end_event_label ∷ []
event_bytes place_holder = place_holder_label ∷ []

-- The first byte.
abbrev pub label_of : Event → ℕ
label_of (basic_block tid id) = basic_block_event_label
label_of (memory tid id addr length) = memory_event_label
label_of (return tid id fun) = return_event_label
label_of (argument tid arg) = argument_event_label
label_of (memset tid id addr length) = memset_event_label
label_of (memmove tid id dest src length) = memmove_event_label
label_of end_event = end_event_label
label_of place_holder = place_holder_label

-- The length that StartAppend is asked for.
abbrev pub size_of : Event → ℕ
size_of (basic_block tid id) = size_of_basic_block_event
size_of (memory tid id addr length) = size_of_memory_event
size_of (return tid id fun) = size_of_return_event
size_of (argument tid arg) = size_of_argument_event
size_of (memset tid id addr length) = size_of_memset_event
size_of (memmove tid id dest src length) = size_of_memmove_event
size_of end_event = 1
size_of place_holder = 1

-- Fields that fit their words.
abbrev pub IsEvent : Event → Type 0
IsEvent (basic_block tid id) = (tid < 2 ^ 64) × (id < 2 ^ 32)
IsEvent (memory tid id addr length) =
    (tid < 2 ^ 64) × (id < 2 ^ 32) × (addr < 2 ^ 64) × (length < 2 ^ 64)
IsEvent (return tid id fun) = (tid < 2 ^ 64) × (id < 2 ^ 32) × (fun < 2 ^ 64)
IsEvent (argument tid arg) = (tid < 2 ^ 64) × (arg < 2 ^ 64)
IsEvent (memset tid id addr length) =
    (tid < 2 ^ 64) × (id < 2 ^ 32) × (addr < 2 ^ 64) × (length < 2 ^ 64)
IsEvent (memmove tid id dest src length) =
    (tid < 2 ^ 64) × (id < 2 ^ 32) × (dest < 2 ^ 64) × (src < 2 ^ 64) × (length < 2 ^ 64)
IsEvent end_event = Unit {0}
IsEvent place_holder = Unit {0}

-- Every record function writes as many bytes as it asked StartAppend for.
pub length-event_bytes : (e : Event) → length (event_bytes e) ≡ size_of e
unfolding event_bytes word_bytes
length-event_bytes (basic_block tid id) = refl
length-event_bytes (memory tid id addr length) = refl
length-event_bytes (return tid id fun) = refl
length-event_bytes (argument tid arg) = refl
length-event_bytes (memset tid id addr length) = refl
length-event_bytes (memmove tid id dest src length) = refl
length-event_bytes end_event = refl
length-event_bytes place_holder = refl
