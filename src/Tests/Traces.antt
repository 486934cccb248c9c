-- ===== src/Tests/Traces.antt =====
-- A small trace written and read back, with a codec that stores a block as it is.
use mathlib.Core.List.{flatten}
use slimmer.Trace.EventBuffer.{events_file, events_file-file_of}
use slimmer.Base.{
  map, All, length, ℕ, ◌≤◌, ◌≡◌, refl, List, [], ◌∷◌, ◌++◌, true, false, some, arith,
}
use slimmer.Trace.Event.{
  Event, basic_block, memory, return, argument, memmove, end_event, place_holder, event_bytes,
}
use slimmer.Trace.Bytes.{word_bytes}
use slimmer.Trace.GetEvent.{Pointers, Reads, get_event_both_ways}
use slimmer.Trace.Iter.{Lz4, open_trace, read_all, file_of}
use slimmer.Trace.Reading.{blocks_of, read_all-file_of}
use slimmer.Trace.CircularBuffer.{init, append, hand_over, append_all}
use slimmer.Trace.RoundTrip.{trace_blocks}

abbrev pub stored : Lz4 48
stored = record {
  compress = λ block. block;
  decompress = λ block. some block;
  restores = λ block h. refl;
  fits = λ block h. omega (arith, h);
}

abbrev pub unset : Pointers
unset = record { tid_ptr = 0; id_ptr = 0; addr_ptr = 0; length_ptr = 0; addr2_ptr = 0 }

abbrev pub few : List Event
few = basic_block 7 1 ∷ memory 7 2 4096 8 ∷ return 7 3 64 ∷ argument 7 4096 ∷ []

-- The first two events fill 44 of 48 bytes, so that the third begins a new block.
abbrev few_blocks : List (List Event)
few_blocks =
    (basic_block 7 1
      ∷ memory 7 2 4096 8
      ∷ place_holder
      ∷ place_holder
      ∷ place_holder
      ∷ place_holder
      ∷ [])
    ∷ (return 7 3 64
        ∷ argument 7 4096
        ∷ end_event
        ∷ place_holder
        ∷ place_holder
        ∷ place_holder
        ∷ place_holder
        ∷ place_holder
        ∷ place_holder
        ∷ place_holder
        ∷ [])
    ∷ []

few_written : trace_blocks 48 few ≡ blocks_of few_blocks
unfolding trace_blocks init append hand_over append_all event_bytes word_bytes
few_written = refl

get_event_both_ways_example :
    Reads false
      ((1 ∷ 2 ∷ []) ++ (event_bytes (memmove 7 5 64 128 9) ++ []))
      2
      unset
      (memmove 7 5 64 128 9)
    × Reads true
        ((1 ∷ 2 ∷ []) ++ (event_bytes (memmove 7 5 64 128 9) ++ []))
        39
        unset
        (memmove 7 5 64 128 9)
get_event_both_ways_example =
    get_event_both_ways (memmove 7 5 64 128 9) (1 ∷ 2 ∷ []) [] unset
      (omega arith, omega arith, omega arith, omega arith, omega arith)

read_all-file_of_example :
    read_all stored.decompress 20 (open_trace (file_of stored (blocks_of few_blocks))) unset
    ≡ some (
        basic_block 7 1
        ∷ memory 7 2 4096 8
        ∷ place_holder
        ∷ place_holder
        ∷ place_holder
        ∷ place_holder
        ∷ return 7 3 64
        ∷ argument 7 4096
        ∷ end_event
        ∷ place_holder
        ∷ place_holder
        ∷ place_holder
        ∷ place_holder
        ∷ place_holder
        ∷ place_holder
        ∷ place_holder
        ∷ [])
unfolding event_bytes word_bytes flatten
read_all-file_of_example =
    read_all-file_of stored 20 few_blocks unset
      (
        (
          (
            (omega arith, omega arith),
            ((omega arith, omega arith, omega arith, omega arith), (tt, (tt, (tt, (tt, tt))))),
          ),
          omega arith,
        ),
        (
          (
            (
              (omega arith, omega arith, omega arith),
              ((omega arith, omega arith), (tt, (tt, (tt, (tt, (tt, (tt, (tt, (tt, tt))))))))),
            ),
            omega arith,
          ),
          tt,
        ),
      )
      ((refl, (refl, (refl, (refl, (refl, (refl, tt)))))), tt) (omega arith)

-- Three bytes fill the block so that the next event is written to a new one.
abbrev pieces : List (List ℕ)
pieces = (1 ∷ 2 ∷ 3 ∷ []) ∷ (4 ∷ 5 ∷ []) ∷ []

events_file-file_of_example :
    (groups : List (List (List ℕ))) × (events_file stored 4 pieces
      ≡ some (file_of stored (map flatten groups)))
    × (flatten groups ≡ pieces ++ (125 ∷ []) ∷ [])
    × All (λ block. length block ≤ 4) (map flatten groups)
events_file-file_of_example =
    events_file-file_of stored 4 pieces (omega arith) (omega arith, (omega arith, tt))
