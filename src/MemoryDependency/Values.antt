-- ===== src/MemoryDependency/Values.antt =====
-- The values of the covered segments of a list, put into a set: they are the values that the tree
-- holds in the range that was collected.
use slimmer.Base.{
  ℕ, ◌≤◌, ◌<◌, max, Bool, true, ◌||◌, List, [], ◌∷◌, Option, some, ◌≡◌, sym, ap, ◌∙◌, ◌⊎◌, inl, inr,
  StrictOrder, set_insert, set_count, set_count-insert, set_count-insert_self, equiv, equiv_iff,
  All, arith, Bool-cases, ltb, ltb→lt, ltb→ge,
}
use mathlib.Core.Option.{some-injective}
use slimmer.SegmentTree.{Segment, SegmentType, empty_segment, partial_segment, covered_segment}
use slimmer.SegmentTree.Tiles.{Tiles, Touches, Agrees, shown}

module _ {ℓ} {A : Type ℓ} ⦃o : StrictOrder A⦄ where
  abbrev pub insert_value : List A → SegmentType → A → List A
  insert_value s covered_segment v = set_insert s v
  insert_value s _ v = s

  abbrev pub insert_values : List A → List (Segment A) → List A
  insert_values s [] = s
  insert_values s (x ∷ xs) = insert_values (insert_value s x.type x.value) xs

  insert_value_keeps :
      (s : List A) (t : SegmentType) (v a : A)
      → set_count s a ≡ true
      → set_count (insert_value s t v) a ≡ true
  insert_value_keeps s covered_segment v a h = rw (set_count-insert s v a, h) (or_true (equiv v a))
    where
      or_true : (b : Bool) → b || true ≡ true
      or_true b = ground arith
  insert_value_keeps s _ v a h = h

  insert_values_keeps :
      (s : List A) (xs : List (Segment A)) (a : A)
      → set_count s a ≡ true
      → set_count (insert_values s xs) a ≡ true
  insert_values_keeps s [] a h = h
  insert_values_keeps s (x ∷ xs) a h =
      insert_values_keeps (insert_value s x.type x.value) xs a
        (insert_value_keeps s x.type x.value a h)

  insert_value-shown :
      (s : List A) (t : SegmentType) (v a : A)
      → shown t v ≡ some a
      → set_count (insert_value s t v) a ≡ true
  insert_value-shown s covered_segment v a h =
      let same : v ≡ a = some-injective v a h in rw same (set_count-insert_self s a)
  insert_value-shown s empty_segment v a h = cc
  insert_value-shown s partial_segment v a h = cc

  -- Every value of the range gets into the set.
  pub insert_values_complete :
      (f : ℕ → Option A) (s : List A) (xs : List (Segment A)) (lo hi x : ℕ) (a : A)
      → Tiles xs lo hi
      → All (Agrees f) xs
      → lo ≤ x
      → x < hi
      → f x ≡ some a
      → set_count (insert_values s xs) a ≡ true
  insert_values_complete f s [] lo hi x a ts ag p q h = absurd (omega arith)
  insert_values_complete f s (t ∷ xs) lo hi x a (u, v, w) (g, gs) p q h =
      elim (Bool-cases (ltb x t.right)) [
        | inl c ↦
            insert_values_keeps _ xs a
              (insert_value-shown s t.type t.value a (sym (g x (omega arith) (ltb→lt _ _ c)) ∙ h))
        | inr c ↦
            insert_values_complete f (insert_value s t.type t.value) xs t.right hi x a w gs
              (ltb→ge _ _ c) q h
      ]

  insert_value_sound :
      (s : List A) (t : SegmentType) (v a : A)
      → set_count (insert_value s t v) a ≡ true
      → (set_count s a ≡ true) ⊎ (shown t v ≡ some a)
  insert_value_sound s empty_segment v a h = inl h
  insert_value_sound s partial_segment v a h = inl h
  insert_value_sound s covered_segment v a h = elim (Bool-cases (equiv v a)) [
    | inl c ↦ inr (ap some ((equiv_iff v a).0 c))
    | inr c ↦ inl (rw (set_count-insert s v a, c) at h)
  ]

  -- Nothing else does.
  pub insert_values_sound :
      (f : ℕ → Option A) (s : List A) (xs : List (Segment A)) (lo hi l r : ℕ) (a : A)
      → Tiles xs lo hi
      → All (Agrees f) xs
      → All (Touches l r) xs
      → l < r
      → set_count (insert_values s xs) a ≡ true
      → (set_count s a ≡ true) ⊎ ((x : ℕ) × (l ≤ x) × (x < r) × (f x ≡ some a))
  insert_values_sound f s [] lo hi l r a ts ag tc w h = inl h
  insert_values_sound f s (t ∷ xs) lo hi l r a (u, v, k) (g, gs) (c, cs) w h =
      elim (insert_values_sound f (insert_value s t.type t.value) xs t.right hi l r a k gs cs w h) [
        | inr found ↦ inr found
        | inl before ↦ elim (insert_value_sound s t.type t.value a before) [
          | inl old ↦ inl old
          | inr this ↦ inr (
            max l t.left,
            omega arith,
            omega arith,
            g (max l t.left) (omega arith) (omega arith) ∙ this,
          )
        ]
      ]
