-- ===== src/Trace/Holding.antt =====
-- What the circular buffer holds, as lists of events.
use mathlib.Core.List.{append_assoc, append-nil, flatten}
use slimmer.Base.{
  All-append, flatten-snoc, ℕ, zero, suc, ◌+◌, ◌-◌, ◌<◌, ◌≤◌, ◌≡◌, refl, sym, ◌∙◌, ap, List, [],
  ◌∷◌, ◌++◌, length, length-append, replicate, length-replicate, Bool, false, ◌==◌, ltb, ltb→lt,
  ltb→ge, if◌then◌else◌, All, arith, Bool-cases, inl, inr,
}
use slimmer.Trace.Event.{
  Event, place_holder, IsEvent, event_bytes, length-event_bytes, label_of, size_of,
  place_holder_label,
}
use slimmer.Trace.GetEvent.{size_of_pos}
use slimmer.Trace.Reading.{events_bytes, blocks_of, is_end, IsBlock, EndsLast}
use slimmer.Trace.CircularBuffer.{CircularBuffer, hand_over, append}

-- The events without the place holders that fill up a block.
abbrev pub is_place_holder : Event → Bool
is_place_holder e = label_of e == place_holder_label

abbrev pub recorded : List Event → List Event
recorded [] = []
recorded (e ∷ es) = if is_place_holder e then recorded es else e ∷ recorded es

-- The events that the record functions write.
abbrev pub IsRecord : Event → Type 0
IsRecord e = IsEvent e × (is_end e ≡ false) × (is_place_holder e ≡ false)

abbrev pub NotEnd : Event → Type 0
NotEnd e = is_end e ≡ false

All-replicate : (P : Event → Type 0) (n : ℕ) → P place_holder → All P (replicate n place_holder)
All-replicate P zero h = tt
All-replicate P (suc n) h = (h, All-replicate P n h)

events_bytes-append :
    (xs ys : List Event) → events_bytes (xs ++ ys) ≡ events_bytes xs ++ events_bytes ys
events_bytes-append [] ys = refl
events_bytes-append (x ∷ xs) ys =
    rw (events_bytes-append xs ys)
      (sym (append_assoc (event_bytes x) (events_bytes xs) (events_bytes ys)))

events_bytes-replicate :
    (n : ℕ) → events_bytes (replicate n place_holder) ≡ replicate n place_holder_label
unfolding event_bytes
events_bytes-replicate zero = refl
events_bytes-replicate (suc n) = ap (◌∷◌ place_holder_label) (events_bytes-replicate n)

blocks_of-append :
    (xs : List (List Event)) (b : List Event)
    → blocks_of (xs ++ b ∷ []) ≡ blocks_of xs ++ events_bytes b ∷ []
blocks_of-append [] b = refl
blocks_of-append (x ∷ xs) b = ap (◌∷◌ (events_bytes x)) (blocks_of-append xs b)

recorded-append : (xs ys : List Event) → recorded (xs ++ ys) ≡ recorded xs ++ recorded ys
recorded-append [] ys = refl
recorded-append (x ∷ xs) ys = elim (Bool-cases (is_place_holder x)) [
  | inl c ↦ rw c (recorded-append xs ys)
  | inr c ↦ rw c (ap (◌∷◌ x) (recorded-append xs ys))
]

recorded-replicate : (n : ℕ) → recorded (replicate n place_holder) ≡ []
recorded-replicate zero = refl
recorded-replicate (suc n) = recorded-replicate n

pub EndsLast-snoc :
    (bs : List (List Event)) (b : List Event) → All (All NotEnd) bs → EndsLast (bs ++ b ∷ [])
EndsLast-snoc [] b h = tt
EndsLast-snoc (x ∷ []) b h = (h.0, tt)
EndsLast-snoc (x ∷ y ∷ bs) b h = (h.0, EndsLast-snoc (y ∷ bs) b h.1)

to_block :
    (size : ℕ) (b : List Event)
    → All IsEvent b
    → 0 < length (events_bytes b)
    → length (events_bytes b) ≤ size
    → IsBlock size b
to_block size [] v p q = elim p [ ]
to_block size (e ∷ es) v p q = (v, q)

-- The buffer holds the bytes of whole events, and those are `es` but for place holders.
pub record Holds (size : ℕ) (cb : CircularBuffer) (es : List Event) : Type 0 where
  pub blocks : List (List Event)
  pub current : List Event
  pub same_size : cb.size ≡ size
  pub filled_bytes : cb.filled ≡ blocks_of blocks
  pub block_bytes : cb.block ≡ events_bytes current
  pub blocks_valid : All (IsBlock size) blocks
  pub current_valid : All IsEvent current
  pub room : length cb.block ≤ size
  pub no_end : All (All NotEnd) blocks
  pub holds : recorded (flatten blocks ++ current) ≡ es

module _ {size : ℕ} {cb : CircularBuffer} {es : List Event} (h : Holds size cb es) where
  -- The current block with the place holders that fill it up.
  abbrev pub padded : List Event
  padded = h.current ++ replicate (size - length cb.block) place_holder

  padded_bytes :
      events_bytes padded ≡ cb.block ++ replicate (cb.size - length cb.block) place_holder_label
  padded_bytes =
      events_bytes-append h.current _
      ∙ rw (events_bytes-replicate (size - length cb.block), h.same_size, h.block_bytes) refl

  pub handed_filled :
      cb.filled ++ (cb.block ++ replicate (cb.size - length cb.block) place_holder_label) ∷ []
      ≡ blocks_of (h.blocks ++ padded ∷ [])
  handed_filled =
      ap
        (λ (t : List (List ℕ)).
          t ++ (cb.block ++ replicate (cb.size - length cb.block) place_holder_label) ∷ [])
        h.filled_bytes
      ∙ ap (λ (t : List ℕ). blocks_of h.blocks ++ t ∷ []) (sym padded_bytes)
      ∙ sym (blocks_of-append h.blocks padded)

  pub padded-IsBlock : 0 < length cb.block → IsBlock size padded
  padded-IsBlock p =
      let n = size - length cb.block in
      let whole : length (events_bytes padded) ≡ length cb.block + (cb.size - length cb.block) =
        ap length padded_bytes
        ∙ length-append cb.block _
        ∙ ap (λ (t : ℕ). length cb.block + t)
            (length-replicate (cb.size - length cb.block) place_holder_label) in
      to_block size padded
        (All-append IsEvent h.current _ h.current_valid (All-replicate IsEvent n tt))
        (omega (arith, whole)) (omega (arith, whole, h.same_size, h.room))

  pub padded_holds : recorded (flatten (h.blocks ++ padded ∷ [])) ≡ es
  padded_holds =
      ap recorded (
        flatten-snoc h.blocks padded
        ∙ sym (
            append_assoc (flatten h.blocks) h.current
              (replicate (size - length cb.block) place_holder)))
      ∙ recorded-append (flatten h.blocks ++ h.current) _
      ∙ rw (recorded-replicate (size - length cb.block), h.holds) (append-nil es)

  -- A full block is handed over and a new one begun.
  handed : All NotEnd h.current → 0 < length cb.block → Holds size (hand_over cb) es
  unfolding hand_over
  handed v p = record {
    blocks = h.blocks ++ padded ∷ [];
    current = [];
    same_size = h.same_size;
    filled_bytes = handed_filled;
    block_bytes = refl;
    blocks_valid = All-append (IsBlock size) h.blocks _ h.blocks_valid (padded-IsBlock p, tt);
    current_valid = tt;
    room = omega arith;
    no_end =
        All-append (All NotEnd) h.blocks _ h.no_end
          (All-append NotEnd h.current _ v (All-replicate NotEnd _ refl), tt);
    holds = ap recorded (append-nil (flatten (h.blocks ++ padded ∷ []))) ∙ padded_holds;
  }

  -- An event is put behind the block's last.
  put :
      (e : Event)
      → IsEvent e
      → is_place_holder e ≡ false
      → length cb.block + size_of e ≤ size
      → Holds size (record cb { block = cb.block ++ event_bytes e }) (es ++ e ∷ [])
  put e v n p = record {
    blocks = h.blocks;
    current = h.current ++ e ∷ [];
    same_size = h.same_size;
    filled_bytes = h.filled_bytes;
    block_bytes =
        ap (λ (t : List ℕ). t ++ event_bytes e) h.block_bytes
        ∙ ap (λ (t : List ℕ). events_bytes h.current ++ t) (sym (append-nil (event_bytes e)))
        ∙ sym (events_bytes-append h.current (e ∷ []));
    blocks_valid = h.blocks_valid;
    current_valid = All-append IsEvent h.current _ h.current_valid (v, tt);
    room = omega (arith, length-append cb.block (event_bytes e), length-event_bytes e);
    no_end = h.no_end;
    holds =
        ap recorded (sym (append_assoc (flatten h.blocks) h.current (e ∷ [])))
        ∙ recorded-append (flatten h.blocks ++ h.current) (e ∷ [])
        ∙ rw (n, h.holds) refl;
  }

-- What an append leaves behind.
abbrev pub Appended : ℕ → CircularBuffer → List Event → Event → Type 0
Appended size cb es e =
    (h : Holds size (append cb (event_bytes e)) (es ++ e ∷ [])) × (is_end e ≡ false
      → All NotEnd h.current)
    × (0 < length (append cb (event_bytes e)).block)

pub append-Holds :
    {size : ℕ} {cb : CircularBuffer} {es : List Event} (h : Holds size cb es) (e : Event)
    → All NotEnd h.current
    → IsEvent e
    → is_place_holder e ≡ false
    → size_of e ≤ size
    → Appended size cb es e
unfolding append hand_over put handed
append-Holds {size} {cb} {es} h e v k n p =
    elim (Bool-cases (ltb cb.size (length cb.block + length (event_bytes e)))) [
      | inl c ↦
          let full = ltb→lt _ _ c in
          let h1 = handed h v (omega (arith, full, h.same_size, length-event_bytes e)) in
          rw c (
            put h1 e k n (omega arith),
            (λ x. (x, tt)),
            omega (arith, length-event_bytes e, size_of_pos e),
          )
      | inr c ↦
          let fits = ltb→ge _ _ c in
          rw c (
            put h e k n (omega (arith, fits, h.same_size, length-event_bytes e)),
            (λ x. All-append NotEnd h.current _ v (x, tt)),
            omega (
              arith,
              length-append cb.block (event_bytes e),
              length-event_bytes e,
              size_of_pos e,
            ),
          )
    ]
