-- ===== src/SegmentTree/Tiles.antt =====
-- Lists of segments: that they lie edge to edge, and what push_back with its merge does to them.
use mathlib.Core.List.{reverse, reverse-cons}
use slimmer.SegmentTree.Range.{in_range, in_range_inside, in_range_outside}
use slimmer.Base.{
  Bool, false, ltb→ge, ◌<◌, ◌≤◌, ◌&&◌, ◌||◌, ℕ, ◌≡◌, refl, sym, ◌∙◌, ap, true, ltb, BoolEq, arith,
  inl, inr, Bool-cases, Option, none, some, List, [], ◌∷◌, ◌++◌, All, ltb→lt,
}
use slimmer.SegmentTree.{
  Segment, SegmentType, empty_segment, partial_segment, covered_segment, push_segment, joins,
  same_kind,
}

module _ {ℓ} {A : Type ℓ} where
  abbrev pub shown : SegmentType → A → Option A
  shown covered_segment v = some v
  shown _ v = none

  -- The value that a segment shows for its addresses.
  abbrev pub segment_value : Segment A → Option A
  segment_value s = shown s.type s.value

  -- A segment shows what `f` says of its addresses.
  abbrev pub Agrees : (ℕ → Option A) → Segment A → Type ℓ
  Agrees f s = (x : ℕ) → s.left ≤ x → x < s.right → f x ≡ segment_value s

  abbrev pub Touches : ℕ → ℕ → Segment A → Type 0
  Touches l r s = (s.left < r) × (l < s.right)

  -- Nonempty segments, edge to edge from `lo` to `hi`, in the order of the addresses.
  abbrev pub Tiles : List (Segment A) → ℕ → ℕ → Type 0
  Tiles [] lo hi = lo ≡ hi
  Tiles (s ∷ rest) lo hi = (s.left ≡ lo) × (s.left < s.right) × Tiles rest s.right hi

  -- The same of a list that has its last element first.
  abbrev pub Chain : List (Segment A) → ℕ → ℕ → Type 0
  Chain [] lo hi = lo ≡ hi
  Chain (s ∷ rest) lo hi = (s.right ≡ hi) × (s.left < s.right) × Chain rest lo s.left

  Tiles-snoc :
      (ss : List (Segment A)) (s : Segment A) (lo mid : ℕ)
      → Tiles ss lo mid
      → mid ≡ s.left
      → s.left < s.right
      → Tiles (ss ++ s ∷ []) lo s.right
  Tiles-snoc [] s lo mid h e w = (sym (h ∙ e), w, refl)
  Tiles-snoc (t ∷ ss) s lo mid (a, b, c) e w = (a, b, Tiles-snoc ss s t.right mid c e w)

  pub Chain→Tiles : (ss : List (Segment A)) (lo hi : ℕ) → Chain ss lo hi → Tiles (reverse ss) lo hi
  Chain→Tiles [] lo hi h = h
  Chain→Tiles (s ∷ ss) lo hi (a, b, c) =
      rw (reverse-cons s ss, ← a)
        (Tiles-snoc (reverse ss) s lo s.left (Chain→Tiles ss lo s.left c) refl b)

  All-snoc {κ} :
      (P : Segment A → Type κ) (ss : List (Segment A)) (s : Segment A)
      → All P ss
      → P s
      → All P (ss ++ s ∷ [])
  All-snoc P [] s h p = (p, tt)
  All-snoc P (t ∷ ss) s (a, b) p = (a, All-snoc P ss s b p)

  pub All-reverse {κ} :
      (P : Segment A → Type κ) (ss : List (Segment A)) → All P ss → All P (reverse ss)
  All-reverse P [] h = h
  All-reverse P (s ∷ ss) (a, b) =
      rw (reverse-cons s ss) (All-snoc P (reverse ss) s (All-reverse P ss b) a)

module _ {ℓ} {A : Type ℓ} ⦃e : BoolEq A⦄ where
  same_kind_lem : (t u : SegmentType) (v w : A) → same_kind t u v w ≡ true → shown t v ≡ shown u w
  same_kind_lem empty_segment empty_segment v w h = refl
  same_kind_lem partial_segment partial_segment v w h = refl
  same_kind_lem covered_segment covered_segment v w h = ap some ((e.same_iff v w).0 h)
  same_kind_lem empty_segment partial_segment v w h = refl
  same_kind_lem partial_segment empty_segment v w h = refl
  same_kind_lem covered_segment empty_segment v w h = cc
  same_kind_lem covered_segment partial_segment v w h = cc
  same_kind_lem empty_segment covered_segment v w h = cc
  same_kind_lem partial_segment covered_segment v w h = cc

  -- Joined segments meet and show the same value.
  joins_lem :
      (p s : Segment A)
      → joins p s ≡ true
      → (p.right ≡ s.left) × (segment_value p ≡ segment_value s)
  joins_lem p s h = let meet = same_kind_lem p.type s.type p.value s.value in ground (arith, meet)

  pub push_segment-Chain :
      (ss : List (Segment A)) (s : Segment A) (lo : ℕ)
      → Chain ss lo s.left
      → s.left < s.right
      → Chain (push_segment ss s) lo s.right
  push_segment-Chain [] s lo h w = (refl, w, h)
  push_segment-Chain (p ∷ ss) s lo (a, b, c) w = elim (Bool-cases (joins p s)) [
    | inl j ↦ rw j (refl, omega (arith, (joins_lem p s j).0), c)
    | inr j ↦ rw j (refl, w, (a, b, c))
  ]

  pub push_segment-Touches :
      (l r : ℕ) (ss : List (Segment A)) (s : Segment A)
      → All (Touches l r) ss
      → Touches l r s
      → s.left < s.right
      → All (Touches l r) (push_segment ss s)
  push_segment-Touches l r [] s h t w = (t, tt)
  push_segment-Touches l r (p ∷ ss) s (a, b) t w = elim (Bool-cases (joins p s)) [
    | inl j ↦ rw j ((a.0, t.1), b)
    | inr j ↦ rw j (t, (a, b))
  ]

  pub push_segment-Agrees :
      (f : ℕ → Option A) (ss : List (Segment A)) (s : Segment A)
      → All (Agrees f) ss
      → Agrees f s
      → All (Agrees f) (push_segment ss s)
  push_segment-Agrees f [] s h g = (g, tt)
  push_segment-Agrees f (p ∷ ss) s (a, b) g = elim (Bool-cases (joins p s)) [
    | inl j ↦ rw j (
      λ x lo hi. elim (Bool-cases (ltb x p.right)) [
        | inl c ↦ a x lo (ltb→lt _ _ c)
        | inr c ↦
            g x (omega (arith, (joins_lem p s j).0, ltb→ge _ _ c)) hi ∙ sym (joins_lem p s j).1
      ],
      b,
    )
    | inr j ↦ rw j (g, (a, b))
  ]

and_false : (b : Bool) → (b && false) || false ≡ false
and_false b = ground arith

and_true : (b : Bool) → (b && true) || false ≡ b
and_true b = ground arith

and_false' : (b c : Bool) → (b && false) || c ≡ c
and_false' b c = ground arith

-- Whether an address lies in a covered segment of a list.
abbrev pub is_covered : SegmentType → Bool
is_covered covered_segment = true
is_covered _ = false

abbrev pub is_some {ℓ} : {A : Type ℓ} → Option A → Bool
is_some none = false
is_some (some a) = true

module _ {ℓ} {A : Type ℓ} where
  abbrev pub covered_at : List (Segment A) → ℕ → Bool
  covered_at [] x = false
  covered_at (s ∷ ss) x = (is_covered s.type && in_range s.left s.right x) || covered_at ss x

  covered_at_below :
      (ss : List (Segment A)) (lo hi x : ℕ) → Tiles ss lo hi → x < lo → covered_at ss x ≡ false
  covered_at_below [] lo hi x h w = refl
  covered_at_below (s ∷ ss) lo hi x (a, b, c) w =
      rw
        (
          in_range_outside s.left s.right x (omega arith),
          covered_at_below ss s.right hi x c (omega arith),
        )
        (and_false (is_covered s.type))

  is_some-shown : (t : SegmentType) (v : A) → is_some (shown t v) ≡ is_covered t
  is_some-shown empty_segment v = refl
  is_some-shown partial_segment v = refl
  is_some-shown covered_segment v = refl

  -- In a tiling that agrees with `f` the covered addresses are those where `f` has a value.
  pub covered_at-is_some :
      (f : ℕ → Option A) (ss : List (Segment A)) (lo hi x : ℕ)
      → Tiles ss lo hi
      → All (Agrees f) ss
      → lo ≤ x
      → x < hi
      → covered_at ss x ≡ is_some (f x)
  covered_at-is_some f [] lo hi x h ag p q = absurd (omega arith)
  covered_at-is_some f (s ∷ ss) lo hi x (a, b, c) (g, gs) p q = elim (Bool-cases (ltb x s.right)) [
    | inl d ↦
        rw
          (
            in_range_inside s.left s.right x (omega arith) (ltb→lt _ _ d),
            covered_at_below ss s.right hi x c (ltb→lt _ _ d),
            g x (omega arith) (ltb→lt _ _ d),
            is_some-shown s.type s.value,
          )
          (and_true (is_covered s.type))
    | inr d ↦ rw (in_range_outside s.left s.right x (inr (ltb→ge _ _ d))) (
        and_false' (is_covered s.type) (covered_at ss x)
        ∙ covered_at-is_some f ss s.right hi x c gs (ltb→ge _ _ d) q)
  ]
