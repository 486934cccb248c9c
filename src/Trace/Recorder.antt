-- ===== src/Trace/Recorder.antt =====
-- recordStoreEvent, recordMemset and recordMemmove of lib/SlimmerRuntime/SlimmerRuntime.cpp: a write
-- that would not change the memory is recorded with length 0. The memory is a function from addresses
-- to bytes.
use slimmer.Base.{
  ℕ, zero, suc, ◌+◌, ◌-◌, ◌*◌, ◌/◌, ◌%◌, ◌<◌, ◌≤◌, ◌≡◌, refl, sym, ◌∙◌, ap, Bool, true, false, not,
  ◌&&◌, ◌==◌, ltb, leb, if◌then◌else◌, ◌≢◌, ◌⊎◌, ◌↔◌, inl, inr, Bool-cases, arith, ==_iff,
}
use slimmer.Trace.Event.{Event, memory, memset, memmove}

abbrev pub Memory : Type 0
Memory = ℕ → ℕ

-- *((int64_t *)addr), the lowest byte first.
abbrev pub word_at : ℕ → Memory → ℕ → ℕ
word_at zero mem addr = 0
word_at (suc k) mem addr = mem addr + 256 * word_at k mem (addr + 1)

unfoldable pub record_store : Memory → ℕ → ℕ → ℕ → ℕ → ℕ → Event
record_store mem tid id addr length value =
    memory tid id addr (if not (value == 0) && (word_at 8 mem addr == value) then 0 else length)

-- The loop of recordMemset over the bytes from `addr` on.
unfoldable pub changed : Memory → ℕ → ℕ → ℕ → Bool
changed mem addr zero value = false
changed mem addr (suc n) value =
    let rest = changed mem (addr + 1) n value in if not (mem addr == value) then true else rest

unfoldable pub record_memset : Memory → ℕ → ℕ → ℕ → ℕ → ℕ → Event
record_memset mem tid id addr length value =
    memset tid id addr (if not (changed mem addr length value) then 0 else length)

-- memcmp(a, b, n) == 0 says that the bytes are the same.
pub record Memcmp : Type 0 where
  pub is_zero : Memory → ℕ → ℕ → ℕ → Bool
  pub compares :
      (mem : Memory) (a b n : ℕ)
      → (is_zero mem a b n ≡ true) ↔ ((i : ℕ) → i < n → mem (a + i) ≡ mem (b + i))

unfoldable pub record_memmove : Memcmp → Memory → ℕ → ℕ → ℕ → ℕ → ℕ → Event
record_memmove memcmp mem tid id dest src length =
    memmove tid id dest src (if memcmp.is_zero mem dest src length then 0 else length)

true≢false : true ≢ false
true≢false e = cc

-- What a write of `length` bytes from `addr` on makes of the memory.
abbrev pub write : Memory → ℕ → ℕ → (ℕ → ℕ) → Memory
write mem addr length bytes x =
    if leb addr x && ltb x (addr + length) then bytes (x - addr) else mem x

-- A write leaves the memory as it is just if its bytes are there already.
write_same :
    (mem : Memory) (addr length : ℕ) (bytes : ℕ → ℕ)
    → ((i : ℕ) → i < length → mem (addr + i) ≡ bytes i)
    → (x : ℕ) → write mem addr length bytes x ≡ mem x
write_same mem addr length bytes h x = elim (Bool-cases (leb addr x && ltb x (addr + length))) [
  | inl c ↦
      let at : addr + (x - addr) ≡ x = ground arith in
      let here : x - addr < length = ground arith in rw c (sym (h (x - addr) here) ∙ ap mem at)
  | inr c ↦ rw c
]

same_write :
    (mem : Memory) (addr length : ℕ) (bytes : ℕ → ℕ)
    → ((x : ℕ) → write mem addr length bytes x ≡ mem x)
    → (i : ℕ) → i < length
    → mem (addr + i) ≡ bytes i
same_write mem addr length bytes h i m =
    let inside : (leb addr (addr + i) && ltb (addr + i) (addr + length)) ≡ true = ground arith in
    let at : addr + i - addr ≡ i = omega arith in sym (h (addr + i)) ∙ rw inside (ap bytes at)

-- All of n + 1 bytes, as the first and the n behind it.
first_and_rest :
    (mem : Memory) (addr n value : ℕ)
    → mem addr ≡ value
    → ((i : ℕ) → i < n → mem (addr + 1 + i) ≡ value)
    → (i : ℕ) → i < suc n
    → mem (addr + i) ≡ value
first_and_rest mem addr n value h k zero m = let at : addr + 0 ≡ addr = omega arith in ap mem at ∙ h
first_and_rest mem addr n value h k (suc i) m =
    let at : addr + suc i ≡ addr + 1 + i = omega arith in ap mem at ∙ k i (omega arith)

pub changed_lem :
    (mem : Memory) (addr n value : ℕ)
    → (changed mem addr n value ≡ false) ↔ ((i : ℕ) → i < n → mem (addr + i) ≡ value)
unfolding changed
changed_lem mem addr zero value = ((λ h i m. absurd (omega arith)), (λ h. refl))
changed_lem mem addr (suc n) value =
    let (to, from) = changed_lem mem (addr + 1) n value in
    let at : addr + 0 ≡ addr = omega arith in
    elim (Bool-cases (mem addr == value)) [
      | inl c ↦ rw c (
        (λ h. first_and_rest mem addr n value ((==_iff (mem addr) value).0 c) (to h)),
        (λ h. from (λ i m.
            let next : addr + 1 + i ≡ addr + suc i = omega arith in
            ap mem next ∙ h (suc i) (omega arith))),
      )
      | inr c ↦ rw c (
        (λ h. absurd (true≢false h)),
        (λ h. absurd (
            true≢false
              (sym ((==_iff (mem addr) value).1 (ap mem (sym at) ∙ h 0 (omega arith))) ∙ c))),
      )
    ]

-- The length that is recorded.
abbrev pub length_of : Event → ℕ
length_of (memory tid id addr length) = length
length_of (memset tid id addr length) = length
length_of (memmove tid id dest src length) = length
length_of _ = 0

-- A memset of some bytes is recorded with length 0 just if it leaves every byte of the memory as it
-- is, and with its own length otherwise.
pub record_memset_exact :
    (mem : Memory) (tid id addr length value : ℕ)
    → 0 < length
    → ((length_of (record_memset mem tid id addr length value) ≡ 0)
        ↔ ((x : ℕ) → write mem addr length (λ i. value) x ≡ mem x))
      × ((length_of (record_memset mem tid id addr length value) ≡ 0)
          ⊎ (length_of (record_memset mem tid id addr length value) ≡ length))
unfolding record_memset
record_memset_exact mem tid id addr length value m =
    let (to, from) = changed_lem mem addr length value in
    elim (Bool-cases (changed mem addr length value)) [
      | inl c ↦ rw c (
        (
          (λ h. absurd (omega arith)),
          (λ h. absurd (true≢false (sym c ∙ from (same_write mem addr length (λ i. value) h)))),
        ),
        inr refl,
      )
      | inr c ↦
          rw c (((λ h. write_same mem addr length (λ i. value) (to c)), (λ h. refl)), inl refl)
    ]

-- A memmove of some bytes, which reads all its source before it writes, is recorded with length 0
-- just if it leaves every byte of the memory as it is, and with its own length otherwise.
pub record_memmove_exact :
    (memcmp : Memcmp) (mem : Memory) (tid id dest src length : ℕ)
    → 0 < length
    → ((length_of (record_memmove memcmp mem tid id dest src length) ≡ 0)
        ↔ ((x : ℕ) → write mem dest length (λ i. mem (src + i)) x ≡ mem x))
      × ((length_of (record_memmove memcmp mem tid id dest src length) ≡ 0)
          ⊎ (length_of (record_memmove memcmp mem tid id dest src length) ≡ length))
unfolding record_memmove
record_memmove_exact memcmp mem tid id dest src length m =
    let (to, from) = memcmp.compares mem dest src length in
    elim (Bool-cases (memcmp.is_zero mem dest src length)) [
      | inl c ↦
          rw c
            (((λ h. write_same mem dest length (λ i. mem (src + i)) (to c)), (λ h. refl)), inl refl)
      | inr c ↦ rw c (
        (
          (λ h. absurd (omega arith)),
          (λ h.
              absurd
                (true≢false (sym (from (same_write mem dest length (λ i. mem (src + i)) h)) ∙ c))),
        ),
        inr refl,
      )
    ]

-- Byte `i` of a value, counted from the lowest.
abbrev pub byte_of : ℕ → ℕ → ℕ
byte_of value zero = value % 256
byte_of value (suc i) = byte_of (value / 256) i

byte_of-word_at :
    (k i : ℕ) (mem : Memory) (addr : ℕ)
    → ((x : ℕ) → mem x < 256)
    → i < k
    → byte_of (word_at k mem addr) i ≡ mem (addr + i)
byte_of-word_at zero i mem addr h m = absurd (omega arith)
byte_of-word_at (suc k) zero mem addr h m =
    let at : addr ≡ addr + 0 = omega arith in
    let low : (mem addr + 256 * word_at k mem (addr + 1)) % 256 ≡ mem addr =
      omega (arith, h addr) in
    low ∙ ap mem at
byte_of-word_at (suc k) (suc i) mem addr h m =
    let at : addr + 1 + i ≡ addr + suc i = omega arith in
    let high : (mem addr + 256 * word_at k mem (addr + 1)) / 256 ≡ word_at k mem (addr + 1) =
      omega (arith, h addr) in
    ap (λ (v : ℕ). byte_of v i) high
    ∙ byte_of-word_at k i mem (addr + 1) h (omega arith)
    ∙ ap mem at

-- A store of at most eight bytes that are the low bytes of the value handed to the recorder, as they
-- are for an integer, a pointer or a double, leaves every byte of the memory as it is if it is
-- recorded with length 0.
pub record_store_sound :
    (mem : Memory) (tid id addr length value : ℕ) (stored : ℕ → ℕ)
    → ((i : ℕ) → i < length → stored i ≡ byte_of value i)
    → ((x : ℕ) → mem x < 256)
    → 0 < length
    → length ≤ 8
    → length_of (record_store mem tid id addr length value) ≡ 0
    → (x : ℕ) → write mem addr length stored x ≡ mem x
unfolding record_store
record_store_sound mem tid id addr length value stored low h m l e =
    elim (Bool-cases (not (value == 0) && (word_at 8 mem addr == value))) [
      | inl c ↦
          let same : word_at 8 mem addr ≡ value =
            (==_iff (word_at 8 mem addr) value).0 (and_right _ _ c) in
          write_same mem addr length stored (λ i k.
            let here : i < 8 = omega (arith, k, l) in
            sym (byte_of-word_at 8 i mem addr h here)
            ∙ ap (λ (v : ℕ). byte_of v i) same
            ∙ sym (low i k))
      | inr c ↦ absurd (positive _ _ c m e)
    ]
  where
    and_right : (a b : Bool) → (a && b) ≡ true → b ≡ true
    and_right a b p = ground arith

    positive : (n : ℕ) (b : Bool) → b ≡ false → 0 < n → (if b then 0 else n) ≡ 0 → ⊥
    positive n b p q r = ground arith
