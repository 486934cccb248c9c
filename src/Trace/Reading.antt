-- ===== src/Trace/Reading.antt =====
-- A trace file read back event by event.
use mathlib.Core.List.{append_assoc, append-nil, flatten}
use slimmer.Base.{
  ℕ, zero, suc, ◌+◌, ◌<◌, ◌≤◌, ◌≡◌, refl, sym, ◌∙◌, ap, List, [], ◌∷◌, ◌++◌, length, length-append,
  take, drop, Bool, true, false, ◌||◌, ◌==◌, le→leb, gt→leb, some, All, arith, take_append,
  drop_append,
}
use slimmer.Trace.Bytes.{
  read_word, word_bytes, length-word_bytes, read_word-append, read_word_first, drop_append_add,
}
use slimmer.Trace.Event.{
  Event, IsEvent, event_bytes, length-event_bytes, label_of, size_of, end_event_label,
}
use slimmer.Trace.GetEvent.{Pointers, fields, get_event-event_bytes, label_at_lem, size_of_pos}
use slimmer.Trace.Iter.{
  Lz4, TraceIter, open_trace, event, prepare, install, load_block, block_length, next_event,
  read_all, frame, file_of,
}

abbrev pub events_bytes : List Event → List ℕ
events_bytes [] = []
events_bytes (e ∷ es) = event_bytes e ++ events_bytes es

abbrev pub blocks_of : List (List Event) → List (List ℕ)
blocks_of [] = []
blocks_of (b ∷ bs) = events_bytes b ∷ blocks_of bs

abbrev pub is_end : Event → Bool
is_end e = label_of e == end_event_label

-- A block that is written to a file: some events whose fields fit, within the block size.
abbrev pub IsBlock : ℕ → List Event → Type 0
IsBlock block_size [] = ⊥
IsBlock block_size (e ∷ es) = All IsEvent (e ∷ es) × (length (events_bytes (e ∷ es)) ≤ block_size)

-- An end event stands in the last block only.
abbrev pub EndsLast : List (List Event) → Type 0
EndsLast [] = Unit {0}
EndsLast (b ∷ []) = Unit {0}
EndsLast (b ∷ c ∷ bs) = All (λ e. is_end e ≡ false) b × EndsLast (c ∷ bs)

abbrev pub count_events : List (List Event) → ℕ
count_events [] = 0
count_events (b ∷ bs) = length b + count_events bs

module _ {block_size : ℕ} (lz4 : Lz4 block_size) where
  -- The iterator in the middle of a file: `pre` is behind `data_iter`, `done` behind `decoded_iter`.
  abbrev iter_at : List ℕ → List ℕ → List Event → List (List Event) → Bool → TraceIter
  iter_at pre done todo rest ended = record {
    trace = pre ++ file_of lz4 (blocks_of rest);
    data_iter = length pre;
    decoded = done ++ events_bytes todo;
    decoded_iter = length done;
    ended = ended;
  }

  iter_after :
      (pre done : List ℕ) (e : Event) (es : List Event) (rest : List (List Event)) (c : Bool)
      → record (iter_at pre done (e ∷ es) rest c) {
        decoded_iter = length done + size_of e;
        ended = c || is_end e;
      }
        ≡ iter_at pre (done ++ event_bytes e) es rest (c || is_end e)
  iter_after pre done e es rest c =
      let moved : length done + size_of e ≡ length (done ++ event_bytes e) =
        omega (arith, length-append done (event_bytes e), length-event_bytes e) in
      let bytes : done ++ (event_bytes e ++ events_bytes es)
          ≡ (done ++ event_bytes e) ++ events_bytes es =
        sym (append_assoc done (event_bytes e) (events_bytes es)) in
      λ i. record {
        trace = pre ++ file_of lz4 (blocks_of rest);
        data_iter = length pre;
        decoded = bytes i;
        decoded_iter = moved i;
        ended = c || is_end e;
      }

  -- An event that is decoded already.
  next_event_lem :
      (pre done : List ℕ) (e : Event) (es : List Event) (rest : List (List Event)) (c : Bool)
      (p : Pointers)
      → IsEvent e
      → (q : Pointers) × (next_event lz4.decompress (iter_at pre done (e ∷ es) rest c) p
          ≡ some
              (event (label_of e) q (iter_at pre (done ++ event_bytes e) es rest (c || is_end e))))
        × (fields (done ++ events_bytes (e ∷ es)) (label_of e) q ≡ some e)
  unfolding next_event prepare
  next_event_lem pre done e es rest c p h =
      let (q, g, f) = get_event-event_bytes e done (events_bytes es) p h in
      let more : length done < length (done ++ (event_bytes e ++ events_bytes es)) = omega (
        arith,
        length-append done (event_bytes e ++ events_bytes es),
        length-append (event_bytes e) (events_bytes es),
        length-event_bytes e,
        size_of_pos e,
      ) in
      let l = label_at_lem e done (events_bytes es) in
      (
        q,
        rw (gt→leb _ _ more, l, rw l at g)
            (ap (λ (t : TraceIter). some (event (label_of e) q t))
              (iter_after pre done e es rest c)),
        rw l at f,
      )

  pub length-frame :
      (block : List ℕ) → length (frame lz4 block) ≡ 8 + (length (lz4.compress block) + 8)
  unfolding frame
  length-frame block =
      let n = length (lz4.compress block) in
      omega (
        arith,
        length-append (word_bytes 8 n) (lz4.compress block ++ word_bytes 8 n),
        length-append (lz4.compress block) (word_bytes 8 n),
        length-word_bytes 8 n,
      )

  -- The length and the compressed bytes of the block at the front of the file's rest.
  pub read_word-frame :
      (pre block rest : List ℕ)
      → length block ≤ block_size
      → read_word 8 (pre ++ (frame lz4 block ++ rest)) (length pre) ≡ length (lz4.compress block)
  unfolding frame
  read_word-frame pre block rest h =
      let packed = lz4.compress block in
      let n = length packed in
      read_word-append 8 0 (length pre) pre _ (omega arith)
      ∙ ap (λ (t : List ℕ). read_word 8 t 0)
          (append_assoc (word_bytes 8 n) (packed ++ word_bytes 8 n) rest)
      ∙ read_word_first 8 n _ (lz4.fits block h)

  pub packed-frame :
      (pre block rest : List ℕ)
      → take
          (length (lz4.compress block))
          (drop (length pre + 8) (pre ++ (frame lz4 block ++ rest)))
        ≡ lz4.compress block
  unfolding frame
  packed-frame pre block rest =
      let packed = lz4.compress block in
      let n = length packed in
      ap (take n) (
        drop_append_add pre _ 8 (length pre + 8) refl
        ∙ ap (drop 8) (append_assoc (word_bytes 8 n) (packed ++ word_bytes 8 n) rest)
        ∙ drop_append (word_bytes 8 n) _ 8 (length-word_bytes 8 n)
        ∙ append_assoc packed (word_bytes 8 n) rest)
      ∙ take_append packed _ n refl

  install_lem :
      (it : TraceIter) (block : List ℕ)
      → 0 < length block
      → install lz4.decompress it block
        ≡ some (record it {
          data_iter = it.data_iter + 8 + (block_length lz4.decompress it + 8);
          decoded = block;
          decoded_iter = 0;
        })
  unfolding install
  install_lem it [] h = absurd (omega arith)
  install_lem it (x ∷ xs) h = refl

  load_next :
      (pre done : List ℕ) (e : Event) (es : List Event) (rest : List (List Event))
      → IsBlock block_size (e ∷ es)
      → load_block lz4.decompress (iter_at pre done [] ((e ∷ es) ∷ rest) false)
        ≡ some (iter_at (pre ++ frame lz4 (events_bytes (e ∷ es))) [] (e ∷ es) rest false)
  unfolding load_block file_of
  load_next pre done e es rest h =
      let block = events_bytes (e ∷ es) in
      let tail = file_of lz4 (blocks_of rest) in
      let packed = lz4.compress block in
      let it = iter_at pre done [] ((e ∷ es) ∷ rest) false in
      let size : block_length lz4.decompress it ≡ length packed =
        read_word-frame pre block tail h.1 in
      let unread : 0 < length block = omega (
        arith,
        length-append (event_bytes e) (events_bytes es),
        length-event_bytes e,
        size_of_pos e,
      ) in
      let moved : length pre + 8 + (block_length lz4.decompress it + 8)
          ≡ length (pre ++ frame lz4 block) =
        omega (arith, size, length-append pre (frame lz4 block), length-frame block) in
      let fetched : lz4.decompress
            (take (block_length lz4.decompress it) (drop (length pre + 8) it.trace))
          ≡ some block =
        rw (size, packed-frame pre block tail) (lz4.restores block h.1) in
      let whole : pre ++ (frame lz4 block ++ tail) ≡ (pre ++ frame lz4 block) ++ tail =
        sym (append_assoc pre (frame lz4 block) tail) in
      rw fetched (install_lem it block unread) ∙ λ i. some (record {
        trace = whole i;
        data_iter = moved i;
        decoded = block;
        decoded_iter = 0;
        ended = false;
      })

  -- The next block is decoded when the last one is used up.
  next_block :
      (pre done : List ℕ) (e : Event) (es : List Event) (rest : List (List Event)) (p : Pointers)
      → IsBlock block_size (e ∷ es)
      → next_event lz4.decompress (iter_at pre done [] ((e ∷ es) ∷ rest) false) p
        ≡ next_event lz4.decompress
            (iter_at (pre ++ frame lz4 (events_bytes (e ∷ es))) [] (e ∷ es) rest false)
            p
  unfolding next_event prepare file_of read_word event_bytes
  next_block pre done e es rest p h =
      let block = events_bytes (e ∷ es) in
      let used : length (done ++ []) ≤ length done = rw (append-nil done) (omega arith) in
      let more : length pre < length (pre ++ (frame lz4 block ++ file_of lz4 (blocks_of rest))) =
        omega (
          arith,
          length-append pre (frame lz4 block ++ file_of lz4 (blocks_of rest)),
          length-append (frame lz4 block) (file_of lz4 (blocks_of rest)),
          length-frame block,
        ) in
      let unread : 0 < length (events_bytes (e ∷ es)) = omega (
        arith,
        length-append (event_bytes e) (events_bytes es),
        length-event_bytes e,
        size_of_pos e,
      ) in
      rw (le→leb _ _ used, gt→leb _ _ more, load_next pre done e es rest h, gt→leb _ _ unread)

  or_true : (c : Bool) → c || true ≡ true
  or_true c = ground arith

  read_step :
      (fuel : ℕ) (pre done : List ℕ) (e : Event) (es tail : List Event) (rest : List (List Event))
      (c : Bool) (p : Pointers)
      → IsEvent e
      → ((q : Pointers)
          → read_all lz4.decompress fuel
              (iter_at pre (done ++ event_bytes e) es rest (c || is_end e))
              q
            ≡ some tail)
      → read_all lz4.decompress (suc fuel) (iter_at pre done (e ∷ es) rest c) p ≡ some (e ∷ tail)
  unfolding read_all
  read_step fuel pre done e es tail rest c p h k =
      let (q, n, f) = next_event_lem pre done e es rest c p h in
      rw (n, rw (sym (append_assoc done (event_bytes e) (events_bytes es))) at f, k q)

  read_jump :
      (fuel : ℕ) (pre done : List ℕ) (e : Event) (es : List Event) (rest : List (List Event))
      (p : Pointers)
      → IsBlock block_size (e ∷ es)
      → read_all lz4.decompress (suc fuel) (iter_at pre done [] ((e ∷ es) ∷ rest) false) p
        ≡ read_all lz4.decompress
            (suc fuel)
            (iter_at (pre ++ frame lz4 (events_bytes (e ∷ es))) [] (e ∷ es) rest false)
            p
  unfolding read_all
  read_jump fuel pre done e es rest p h = rw (next_block pre done e es rest p h)

  read_end :
      (fuel : ℕ) (pre done : List ℕ) (c : Bool) (p : Pointers)
      → read_all lz4.decompress (suc fuel) (iter_at pre done [] [] c) p ≡ some []
  unfolding read_all next_event prepare file_of
  read_end fuel pre done c p =
      let used : length (done ++ []) ≤ length done = rw (append-nil done) (omega arith) in
      let read : length (pre ++ []) ≤ length pre = rw (append-nil pre) (omega arith) in
      rw (le→leb _ _ used, le→leb _ _ read, or_true c)

  -- Whether more blocks may follow once `c` says that an end event was read.
  abbrev MayGoOn : Bool → List (List Event) → Type 0
  MayGoOn c [] = Unit {0}
  MayGoOn c (b ∷ bs) = c ≡ false

  may_start : (bs : List (List Event)) → MayGoOn false bs
  may_start [] = tt
  may_start (b ∷ bs) = refl

  goes_on :
      (c : Bool) (e : Event) (es : List Event) (rest : List (List Event))
      → MayGoOn c rest
      → EndsLast ((e ∷ es) ∷ rest)
      → MayGoOn (c || is_end e) rest
  goes_on c e es [] h l = tt
  goes_on c e es (b ∷ bs) h l = rw (h, l.0.0)

  EndsLast-tail :
      (e : Event) (es : List Event) (rest : List (List Event))
      → EndsLast ((e ∷ es) ∷ rest)
      → EndsLast (es ∷ rest)
  EndsLast-tail e es [] l = tt
  EndsLast-tail e es (b ∷ bs) l = (l.0.1, l.1)

  read_rest :
      (fuel : ℕ) (pre done : List ℕ) (todo : List Event) (rest : List (List Event)) (c : Bool)
      (p : Pointers)
      → All IsEvent todo
      → All (IsBlock block_size) rest
      → EndsLast (todo ∷ rest)
      → MayGoOn c rest
      → length todo + count_events rest < fuel
      → read_all lz4.decompress fuel (iter_at pre done todo rest c) p ≡ some (todo ++ flatten rest)
  unfolding flatten
  read_rest zero pre done todo rest c p v w l g m = absurd (omega arith)
  read_rest (suc fuel) pre done [] [] c p v w l g m = read_end fuel pre done c p
  read_rest (suc fuel) pre done [] ([] ∷ rest) c p v w l g m = absurd w.0
  read_rest (suc fuel) pre done [] ((e ∷ es) ∷ rest) c p v w l g m =
      rw g (read_jump fuel pre done e es rest p w.0)
      ∙ read_step fuel (pre ++ frame lz4 (events_bytes (e ∷ es))) [] e es _ rest false p w.0.0.0
          (λ q.
            read_rest fuel _ (event_bytes e) es rest (false || is_end e) q w.0.0.1 w.1
              (EndsLast-tail e es rest l.1) (goes_on false e es rest (may_start rest) l.1)
              (omega arith))
  read_rest (suc fuel) pre done (e ∷ es) rest c p v w l g m =
      read_step fuel pre done e es _ rest c p v.0 (λ q.
        read_rest fuel pre (done ++ event_bytes e) es rest (c || is_end e) q v.1 w
          (EndsLast-tail e es rest l) (goes_on c e es rest g l) (omega arith))

  -- A file of nonempty blocks no longer than the block size, of events with fields that fit their
  -- words, with an end event in the last one at most, is read back event by event, in order and to its
  -- end; fuel above the number of events is enough.
  pub read_all-file_of :
      (fuel : ℕ) (blocks : List (List Event)) (p : Pointers)
      → All (IsBlock block_size) blocks
      → EndsLast blocks
      → count_events blocks < fuel
      → read_all lz4.decompress fuel (open_trace (file_of lz4 (blocks_of blocks))) p
        ≡ some (flatten blocks)
  read_all-file_of fuel blocks p w l m =
      read_rest fuel [] [] [] blocks false p tt w (starts blocks l) (may_start blocks) (omega arith)
    where
      starts : (bs : List (List Event)) → EndsLast bs → EndsLast ([] ∷ bs)
      starts [] l = tt
      starts (b ∷ bs) l = (tt, l)
