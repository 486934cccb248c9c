-- ===== src/Trace/RoundTrip.antt =====
-- The blocks that the circular buffer hands over, and what the analysis reads where all of them are in
-- the file.
use mathlib.Core.List.{append_assoc, append-nil, flatten}
use slimmer.Base.{
  All-append, ℕ, suc, ◌<◌, ◌≤◌, ◌≡◌, refl, List, [], ◌∷◌, ◌++◌, some, All, arith, map,
}
use slimmer.Trace.Event.{Event, end_event, event_bytes, size_of, end_event_label}
use slimmer.Trace.GetEvent.{Pointers}
use slimmer.Trace.Iter.{Lz4, open_trace, read_all, file_of}
use slimmer.Trace.Reading.{blocks_of, IsBlock, EndsLast, count_events, read_all-file_of}
use slimmer.Trace.CircularBuffer.{CircularBuffer, init, hand_over, append, append_all}
use slimmer.Trace.Holding.{
  recorded, IsRecord, NotEnd, Holds, padded, handed_filled, padded-IsBlock, padded_holds,
  EndsLast-snoc, append-Holds,
}

append_all-Holds :
    {size : ℕ} (new : List Event) (cb : CircularBuffer) (es : List Event) (h : Holds size cb es)
    → All NotEnd h.current
    → All IsRecord new
    → All (λ e. size_of e ≤ size) new
    → (g : Holds size (append_all cb (map event_bytes new)) (es ++ new)) × All NotEnd g.current
unfolding append_all
append_all-Holds [] cb es h v k p = rw (append-nil es) (h, v)
append_all-Holds (e ∷ new) cb es h v (k, ks) (p, ps) =
    let (g, w, _) = append-Holds h e v k.0 k.2 p in
    rw (← append_assoc es (e ∷ []) new)
      (append_all-Holds new (append cb (event_bytes e)) (es ++ e ∷ []) g (w k.1) ks ps)

init-Holds : (size : ℕ) → Holds size (init size) []
unfolding init flatten
init-Holds size = record {
  blocks = [];
  current = [];
  same_size = refl;
  filled_bytes = refl;
  block_bytes = refl;
  blocks_valid = tt;
  current_valid = tt;
  room = omega arith;
  no_end = tt;
  holds = refl;
}

-- The blocks of a buffer behind whose events the end event is put and whose last block is handed over.
unfoldable pub trace_blocks : ℕ → List Event → List (List ℕ)
trace_blocks size es =
    (hand_over (append (append_all (init size) (map event_bytes es)) (end_event_label ∷ []))).filled

-- The blocks are those of lists of events.
record Written (size : ℕ) (filled : List (List ℕ)) (es : List Event) : Type 0 where
  blocks : List (List Event)
  same : filled ≡ blocks_of blocks
  valid : All (IsBlock size) blocks
  ends : EndsLast blocks
  says : recorded (flatten blocks) ≡ es

closed-Written :
    {size : ℕ} (cb : CircularBuffer) {es : List Event} (h : Holds size cb es)
    → All NotEnd h.current
    → 0 < size
    → Written size (hand_over (append cb (end_event_label ∷ []))).filled (es ++ end_event ∷ [])
unfolding hand_over event_bytes
closed-Written cb h v w =
    let (g, _, some_bytes) = append-Holds h end_event v tt refl w in
    record {
      blocks = g.blocks ++ padded g ∷ [];
      same = handed_filled g;
      valid = All-append (IsBlock _) g.blocks _ g.blocks_valid (padded-IsBlock g some_bytes, tt);
      ends = EndsLast-snoc g.blocks (padded g) g.no_end;
      says = padded_holds g;
    }

trace_blocks-Written :
    (size : ℕ) (es : List Event)
    → All IsRecord es
    → All (λ e. size_of e ≤ size) es
    → 0 < size
    → Written size (trace_blocks size es) (es ++ end_event ∷ [])
unfolding trace_blocks init-Holds
trace_blocks-Written size es k p w =
    let (h, v) = append_all-Holds es (init size) [] (init-Holds size) tt k p in
    closed-Written _ h v w

-- All the blocks in a file.
pub read_all-trace_blocks :
    {size : ℕ} (lz4 : Lz4 size) (es : List Event) (p : Pointers)
    → All IsRecord es
    → All (λ e. size_of e ≤ size) es
    → 0 < size
    → (enough : ℕ) × (events : List Event) × ((fuel : ℕ)
        → enough ≤ fuel
        → read_all lz4.decompress fuel (open_trace (file_of lz4 (trace_blocks size es))) p
          ≡ some events)
      × (recorded events ≡ es ++ end_event ∷ [])
read_all-trace_blocks {size} lz4 es p k s w =
    let t = trace_blocks-Written size es k s w in
    (
      suc (count_events t.blocks),
      flatten t.blocks,
      λ fuel m. rw t.same (read_all-file_of lz4 fuel t.blocks p t.valid t.ends m),
      t.says,
    )
