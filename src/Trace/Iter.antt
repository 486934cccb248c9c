-- ===== src/Trace/Iter.antt =====
-- TraceIter of tools/PrintBug/Util.cpp over a trace file: each block of the file is its compressed
-- length, the compressed bytes and the length once more. LZ4 is a parameter.
use slimmer.Base.{
  ℕ, zero, suc, ◌+◌, ◌^◌, ◌<◌, ◌≤◌, ◌≡◌, List, [], ◌∷◌, ◌++◌, length, take, drop, Bool, false, ◌||◌,
  ◌==◌, leb, if◌then◌else◌, Option, none, some, ◌>>=◌,
}
use slimmer.Trace.Bytes.{read_word, word_bytes}
use slimmer.Trace.Event.{Event, end_event_label}
use slimmer.Trace.GetEvent.{Pointers, get_event, label_at, fields}

-- LZ4_compress_limitedOutput and LZ4_decompress_safe on a buffer of COMPRESS_BLOCK_SIZE bytes.
pub record Lz4 (block_size : ℕ) : Type 0 where
  pub compress : List ℕ → List ℕ
  pub decompress : List ℕ → Option (List ℕ)
  pub restores :
      (block : List ℕ) → length block ≤ block_size → decompress (compress block) ≡ some block
  pub fits : (block : List ℕ) → length block ≤ block_size → length (compress block) < 2 ^ 64

pub record TraceIter : Type 0 where
  pub trace : List ℕ
  pub data_iter : ℕ
  pub decoded : List ℕ
  pub decoded_iter : ℕ
  pub ended : Bool

abbrev pub open_trace : List ℕ → TraceIter
open_trace trace = record {
  trace = trace;
  data_iter = 0;
  decoded = [];
  decoded_iter = 0;
  ended = false;
}

-- What NextEvent returns: false, or true with the label, the pointers and the moved iterator.
pub data Next : Type 0 where
  finished : Next
  event : (label : ℕ) → Pointers → TraceIter → Next

module _ (decompress : List ℕ → Option (List ℕ)) where
  -- The bytes of the block at `data_iter`; its length is read through `*(uint64_t *)`.
  abbrev pub block_length : TraceIter → ℕ
  block_length it = read_word 8 it.trace it.data_iter

  -- A block that decodes to nothing fails the assertion.
  unfoldable pub install : TraceIter → List ℕ → Option TraceIter
  install it [] = none
  install it (x ∷ xs) = some (record it {
    data_iter = it.data_iter + 8 + (block_length it + 8);
    decoded = x ∷ xs;
    decoded_iter = 0;
  })

  unfoldable pub load_block : TraceIter → Option TraceIter
  unfolding install
  load_block it = do
    block ← decompress (take (block_length it) (drop (it.data_iter + 8) it.trace))
    install it block

  -- `Prepare`: no iterator stands for the return value false.
  unfoldable pub prepare : TraceIter → Option (Option TraceIter)
  unfolding load_block
  prepare it =
      if leb (length it.decoded) it.decoded_iter
      then if it.ended || leb (length it.trace) it.data_iter
        then some none
        else (load_block it >>= λ loaded. some (some loaded))
      else some (some it)

  advance : Pointers → TraceIter → Option Next
  advance p it = do
    let label = label_at it.decoded it.decoded_iter
    (size, q) ← get_event false label it.decoded_iter p
    some (
        event label q (record it {
          decoded_iter = it.decoded_iter + size;
          ended = it.ended || (label == end_event_label);
        }))

  unfoldable pub next_event : TraceIter → Pointers → Option Next
  unfolding advance
  next_event it p =
      prepare it >>= λ ready. elim ready [ none ↦ some finished | some it' ↦ advance p it' ]

  -- `while (iter.NextEvent(...))`, with the event that each round reads through the pointers.
  unfoldable pub read_all : ℕ → TraceIter → Pointers → Option (List Event)
  read_all zero it p = none
  read_all (suc fuel) it p = next_event it p >>= λ next. elim next [
    | finished ↦ some []
    | event label q it' ↦ do e ← fields it'.decoded label q; es ← read_all fuel it' q; some (e ∷ es)
  ]

module _ {block_size : ℕ} (lz4 : Lz4 block_size) where
  -- A block as Dump and the destructors write it.
  unfoldable pub frame : List ℕ → List ℕ
  frame block =
      let packed = lz4.compress block in
      word_bytes 8 (length packed) ++ (packed ++ word_bytes 8 (length packed))

  unfoldable pub file_of : List (List ℕ) → List ℕ
  file_of [] = []
  file_of (block ∷ blocks) = frame block ++ file_of blocks
