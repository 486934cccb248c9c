-- ===== src/Tests/Writes.antt =====
-- Writes to a memory of sevens.
use slimmer.Base.{
  ℕ, ◌+◌, ◌<◌, ◌≡◌, refl, sym, ◌∙◌, ap, Bool, true, false, not, ◌==◌, if◌then◌else◌, ◌⊎◌, ◌↔◌,
  arith, zero, suc, leb, ◌-◌,
}
use slimmer.Trace.Recorder.{
  Memory, Memcmp, record_store, record_memset, record_memmove, length_of, write, byte_of, changed,
  changed_lem, record_memset_exact, record_memmove_exact, record_store_sound,
}

abbrev sevens : Memory
sevens x = 7

record_memset_exact_example :
    ((length_of (record_memset sevens 1 2 64 3 9) ≡ 0)
      ↔ ((x : ℕ) → write sevens 64 3 (λ i. 9) x ≡ sevens x))
    × ((length_of (record_memset sevens 1 2 64 3 9) ≡ 0)
        ⊎ (length_of (record_memset sevens 1 2 64 3 9) ≡ 3))
record_memset_exact_example = record_memset_exact sevens 1 2 64 3 9 (omega arith)

-- 0 where two bytes are the same.
abbrev difference : Memory → ℕ → ℕ → Memory
difference mem a b i = if mem (a + i) == mem (b + i) then 0 else 1

difference_lem :
    (mem : Memory) (a b i : ℕ) → (difference mem a b i ≡ 0) ↔ (mem (a + i) ≡ mem (b + i))
difference_lem mem a b i = ground arith

abbrev same_bytes : Memory → ℕ → ℕ → ℕ → Bool
unfolding changed
same_bytes mem a b n = not (changed (difference mem a b) 0 n 0)

same_bytes_lem :
    (mem : Memory) (a b n : ℕ)
    → (same_bytes mem a b n ≡ true) ↔ ((i : ℕ) → i < n → mem (a + i) ≡ mem (b + i))
unfolding same_bytes
same_bytes_lem mem a b n =
    let (to, from) = changed_lem (difference mem a b) 0 n 0 in
    let at : (i : ℕ) → 0 + i ≡ i = λ i. omega arith in
    (
      (λ h i m.
          (difference_lem mem a b i).0
            (sym (ap (difference mem a b) (at i)) ∙ to (not_changed _ h) i m)),
      (λ h.
          ap not
            (from (λ i m. ap (difference mem a b) (at i) ∙ (difference_lem mem a b i).1 (h i m)))),
    )
  where
    not_changed : (c : Bool) → not c ≡ true → c ≡ false
    not_changed c h = ground arith

abbrev bytewise : Memcmp
bytewise = record { is_zero = same_bytes; compares = same_bytes_lem }

record_memmove_exact_example :
    ((length_of (record_memmove bytewise sevens 1 2 64 128 5) ≡ 0)
      ↔ ((x : ℕ) → write sevens 64 5 (λ i. sevens (128 + i)) x ≡ sevens x))
    × ((length_of (record_memmove bytewise sevens 1 2 64 128 5) ≡ 0)
        ⊎ (length_of (record_memmove bytewise sevens 1 2 64 128 5) ≡ 5))
record_memmove_exact_example = record_memmove_exact bytewise sevens 1 2 64 128 5 (omega arith)

-- Eight bytes of 7 in one word.
abbrev word_of_sevens : ℕ
word_of_sevens = 506381209866536711

seven_bytes : (i : ℕ) → i < 4 → 7 ≡ byte_of word_of_sevens i
seven_bytes zero m = refl
seven_bytes (suc zero) m = refl
seven_bytes (suc (suc zero)) m = refl
seven_bytes (suc (suc (suc zero))) m = refl
seven_bytes (suc (suc (suc (suc i)))) m = absurd (omega arith)

record_store_sound_example : write sevens 64 4 (λ i. 7) 66 ≡ sevens 66
unfolding record_store
record_store_sound_example =
    record_store_sound sevens 1 2 64 4 word_of_sevens (λ i. 7) seven_bytes (λ x. omega arith)
      (omega arith) (omega arith) refl 66

-- The double 1.5 at 64, the bits that the pass hands to the recorder when the float 1.5 is stored
-- there, and the four bytes that are stored.
abbrev double_bits : ℕ
double_bits = 4609434218613702656

abbrev holding_double : Memory
holding_double x = if leb 64 x then byte_of double_bits (x - 64) else 0

abbrev float_bits : ℕ
float_bits = 1069547520

-- The store of the float is recorded as one that changes nothing, and changes a byte.
float_store_recorded_empty :
    (length_of (record_store holding_double 1 2 64 4 double_bits) ≡ 0)
    × (write holding_double 64 4 (byte_of float_bits) 66 ≡ 192)
    × (holding_double 66 ≡ 0)
unfolding record_store
float_store_recorded_empty = (refl, refl, refl)
