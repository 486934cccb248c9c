-- ===== src/Trace/Bytes.antt =====
-- Words in memory: `*(uint64_t *)p` and `*(uint32_t *)p` on a little-endian machine.
use slimmer.Base.{
  ℕ, zero, suc, ◌+◌, ◌*◌, ◌/◌, ◌%◌, ◌^◌, ◌<◌, ◌≡◌, refl, ap, ◌∙◌, List, [], ◌∷◌, ◌++◌, length, take,
  drop, take_append, arith,
}

-- The `k` bytes of a word.
unfoldable pub word_bytes : ℕ → ℕ → List ℕ
word_bytes zero v = []
word_bytes (suc k) v = (v % 256) ∷ word_bytes k (v / 256)

unfoldable pub bytes_word : List ℕ → ℕ
bytes_word [] = 0
bytes_word (b ∷ bs) = b + 256 * bytes_word bs

pub length-word_bytes : (k v : ℕ) → length (word_bytes k v) ≡ k
unfolding word_bytes
length-word_bytes zero v = refl
length-word_bytes (suc k) v = ap suc (length-word_bytes k (v / 256))

pub bytes_word-word_bytes : (k v : ℕ) → v < 256 ^ k → bytes_word (word_bytes k v) ≡ v
unfolding word_bytes bytes_word
bytes_word-word_bytes zero v h = omega arith
bytes_word-word_bytes (suc k) v h = omega (arith, bytes_word-word_bytes k (v / 256) (omega arith))

-- The word of `k` bytes at an offset of a buffer.
unfoldable pub read_word : ℕ → List ℕ → ℕ → ℕ
read_word k buffer at = bytes_word (take k (drop at buffer))

pub drop_append_add {ℓ} :
    {A : Type ℓ} (xs ys : List A) (n at : ℕ) → at ≡ length xs + n → drop at (xs ++ ys) ≡ drop n ys
drop_append_add [] ys n at e = let same : at ≡ n = omega arith in rw same
drop_append_add (x ∷ xs) ys n zero e = absurd (omega arith)
drop_append_add (x ∷ xs) ys n (suc at) e = drop_append_add xs ys n at (omega arith)

-- What stands in front of a buffer's part only shifts the offset.
pub read_word-append :
    (k n at : ℕ) (pre buffer : List ℕ)
    → at ≡ length pre + n
    → read_word k (pre ++ buffer) at ≡ read_word k buffer n
unfolding read_word
read_word-append k n at pre buffer e =
    ap (λ (t : List ℕ). bytes_word (take k t)) (drop_append_add pre buffer n at e)

-- A word at the front of a buffer.
pub read_word_first :
    (k v : ℕ) (post : List ℕ) → v < 256 ^ k → read_word k (word_bytes k v ++ post) 0 ≡ v
unfolding read_word
read_word_first k v post h =
    ap bytes_word (take_append (word_bytes k v) post k (length-word_bytes k v))
    ∙ bytes_word-word_bytes k v h
