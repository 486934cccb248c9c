-- ===== src/SegmentTree/Shape.antt =====
-- The shape of a segment tree: every node spans a nonempty range, and a partial node's children
-- share its range between them at the midpoint.
use slimmer.Base.{
  ℕ, zero, suc, ◌+◌, ◌-◌, min, max, ◌≤◌, ◌<◌, ◌≡◌, refl, sym, ◌∙◌, Bool, ltb, leb, if◌then◌else◌,
  BoolEq, arith, ◌⊎◌, inl, inr, Bool-cases, leb→gt, leb→le, true, false,
}
use slimmer.SegmentTree.{
  SegmentTree, empty, covered, partial, left_end, right_end, left_child, right_child, merge,
  set_fuel, set, node_value, rejoin, covered_by,
}
use slimmer.SegmentTree.Midpoint.{midpoint, midpoint_lem}

module _ {ℓ} {A : Type ℓ} where
  abbrev pub IsShaped : SegmentTree A → Type 0
  IsShaped (empty v l r) = l < r
  IsShaped (covered v l r) = l < r
  IsShaped (partial v l r a b) =
      (l < midpoint l r)
      × (midpoint l r < r)
      × (left_end a ≡ l)
      × (right_end a ≡ midpoint l r)
      × (left_end b ≡ midpoint l r)
      × (right_end b ≡ r)
      × IsShaped a
      × IsShaped b

  pub IsShaped-lt : (t : SegmentTree A) → IsShaped t → left_end t < right_end t
  IsShaped-lt (empty v l r) h = h
  IsShaped-lt (covered v l r) h = h
  IsShaped-lt (partial v l r a b) h = omega arith

  -- What the children of a node are, be they there already or made by the split.
  pub record Halves (t : SegmentTree A) (mid : ℕ) : Type 0 where
    pub below_left : left_end (left_child t mid) ≡ left_end t
    pub below_right : right_end (left_child t mid) ≡ mid
    pub above_left : left_end (right_child t mid) ≡ mid
    pub above_right : right_end (right_child t mid) ≡ right_end t
    pub below_shaped : IsShaped (left_child t mid)
    pub above_shaped : IsShaped (right_child t mid)

  pub halves :
      (t : SegmentTree A) (mid : ℕ)
      → mid ≡ midpoint (left_end t) (right_end t)
      → IsShaped t
      → left_end t < mid
      → mid < right_end t
      → Halves t mid
  halves (empty v l r) mid e h p q = record {
    below_left = refl;
    below_right = refl;
    above_left = refl;
    above_right = refl;
    below_shaped = p;
    above_shaped = q;
  }
  halves (covered v l r) mid e h p q = record {
    below_left = refl;
    below_right = refl;
    above_left = refl;
    above_right = refl;
    below_shaped = p;
    above_shaped = q;
  }
  halves (partial v l r a b) mid e (_, _, al, ar, bl, br, sa, sb) p q = record {
    below_left = al;
    below_right = ar ∙ sym e;
    above_left = bl ∙ sym e;
    above_right = br;
    below_shaped = sa;
    above_shaped = sb;
  }

  -- A well-shaped tree over the addresses [i, j).
  pub record Spans (t : SegmentTree A) (i j : ℕ) : Type 0 where
    pub at_left : left_end t ≡ i
    pub at_right : right_end t ≡ j
    pub shaped : IsShaped t

  spans :
      {t u : SegmentTree A} {i j : ℕ}
      → (left_end u ≡ left_end t) × (right_end u ≡ right_end t)
      → Spans t i j
      → IsShaped u
      → Spans u i j
  spans (p, q) s h = record { at_left = p ∙ s.at_left; at_right = q ∙ s.at_right; shaped = h }

  pub Spans-if :
      {t u : SegmentTree A} {i j : ℕ} (c : Bool)
      → Spans t i j
      → Spans u i j
      → Spans (if c then t else u) i j
  Spans-if true s s' = s
  Spans-if false s s' = s'

  pub Spans-halves :
      (t : SegmentTree A)
      → IsShaped t
      → 1 + left_end t < right_end t
      → (let mid = midpoint (left_end t) (right_end t) in
          (left_end t < mid)
          × (mid < right_end t)
          × Spans (left_child t mid) (left_end t) mid
          × Spans (right_child t mid) mid (right_end t))
  Spans-halves t h w =
      let mid = midpoint (left_end t) (right_end t) in
      let lo : left_end t < mid = omega (arith, midpoint_lem (left_end t) (right_end t)) in
      let hi : mid < right_end t = omega (arith, midpoint_lem (left_end t) (right_end t)) in
      let H = halves t mid refl h lo hi in
      (
        lo,
        hi,
        record { at_left = H.below_left; at_right = H.below_right; shaped = H.below_shaped },
        record { at_left = H.above_left; at_right = H.above_right; shaped = H.above_shaped },
      )

module _ {ℓ} {A : Type ℓ} ⦃e : BoolEq A⦄ where
  merge_ends :
      (v : A) (l r : ℕ) (a b : SegmentTree A)
      → (left_end (merge v l r a b) ≡ l) × (right_end (merge v l r a b) ≡ r)
  merge_ends v l r (covered a i j) (covered b k m) = ground arith
  merge_ends v l r (empty a i j) (empty b k m) = (refl, refl)
  merge_ends v l r a b = (refl, refl)

  -- The branches of `Set`, each with what its guards say.
  pub set_fuel_cases {κ} :
      (P : SegmentTree A → Type κ) (f : ℕ) (t : SegmentTree A) (l r : ℕ) (v : A)
      → (r ≤ l → P t)
      → (covered_by t v ≡ true → P t)
      → (l ≤ left_end t → right_end t ≤ r → P (covered v (left_end t) (right_end t)))
      → (l < r
          → (left_end t < l) ⊎ (r < right_end t)
          → (let mid = midpoint (left_end t) (right_end t) in
              P (
                rejoin t l r
                  (set_fuel f (left_child t mid) l (min r mid) v)
                  (set_fuel f (right_child t mid) (max l mid) r v))))
      → P (set_fuel (suc f) t l r v)
  unfolding set_fuel
  set_fuel_cases P f t l r v nothing same whole split = elim (Bool-cases (leb r l)) [
    | inl a ↦ rw a (nothing (leb→le _ _ a))
    | inr a ↦ rw a (elim (Bool-cases (covered_by t v)) [
      | inl b ↦ rw b (same b)
      | inr b ↦ rw b (elim (Bool-cases (leb l (left_end t))) [
        | inr c ↦ rw c (split (leb→gt _ _ a) (inl (leb→gt _ _ c)))
        | inl c ↦ rw c (elim (Bool-cases (leb (right_end t) r)) [
          | inr d ↦ rw d (split (leb→gt _ _ a) (inr (leb→gt _ _ d)))
          | inl d ↦ rw d (whole (leb→le _ _ c) (leb→le _ _ d))
        ])
      ])
    ])
  ]

  -- `Set` leaves the range of a node alone.
  pub set_fuel_ends :
      (f : ℕ) (t : SegmentTree A) (l r : ℕ) (v : A)
      → (left_end (set_fuel f t l r v) ≡ left_end t)
        × (right_end (set_fuel f t l r v) ≡ right_end t)
  unfolding set_fuel
  set_fuel_ends zero t l r v = (refl, refl)
  set_fuel_ends (suc f) t l r v =
      set_fuel_cases (λ u. (left_end u ≡ left_end t) × (right_end u ≡ right_end t)) f t l r v
        (λ _. (refl, refl)) (λ _. (refl, refl)) (λ _ _. (refl, refl))
        (λ _ _. merge_ends (node_value t) (left_end t) (right_end t) _ _)

  merge-IsShaped :
      (v : A) (l r : ℕ) (a b : SegmentTree A)
      → IsShaped (partial v l r a b)
      → IsShaped (merge v l r a b)
  merge-IsShaped v l r (covered a i j) (covered b k m) h = elim (Bool-cases (e.same a b)) [
    | inl c ↦ rw c (omega arith)
    | inr c ↦ rw c h
  ]
  merge-IsShaped v l r (empty a i j) (empty b k m) h = omega arith
  merge-IsShaped v l r a b h = h

  rejoin-IsShaped :
      (t : SegmentTree A) (l r : ℕ) (below above : SegmentTree A)
      → IsShaped t
      → 1 + left_end t < right_end t
      → (let mid = midpoint (left_end t) (right_end t) in
          Spans below (left_end t) mid
          → Spans above mid (right_end t)
          → IsShaped (rejoin t l r below above))
  rejoin-IsShaped t l r below above h w sb sa =
      let mid = midpoint (left_end t) (right_end t) in
      let (lo, hi, sl, sr) = Spans-halves t h w in
      let b = Spans-if (ltb l mid) sb sl in
      let a = Spans-if (ltb mid r) sa sr in
      merge-IsShaped (node_value t) (left_end t) (right_end t) _ _
        (lo, hi, b.at_left, b.at_right, a.at_left, a.at_right, b.shaped, a.shaped)

  set_fuel-IsShaped :
      (f : ℕ) (t : SegmentTree A) (l r : ℕ) (v : A)
      → IsShaped t
      → left_end t ≤ l
      → r ≤ right_end t
      → IsShaped (set_fuel f t l r v)
  set_fuel-IsShaped zero t l r v h p q = unfold set_fuel in h
  set_fuel-IsShaped (suc f) t l r v h p q =
      set_fuel_cases IsShaped f t l r v (λ _. h) (λ _. h) (λ _ _. IsShaped-lt t h)
        (λ lt part.
          let mid = midpoint (left_end t) (right_end t) in
          let wide : 1 + left_end t < right_end t = omega arith in
          let (lo, hi, sl, sr) = Spans-halves t h wide in
          let sl' : IsShaped (set_fuel f (left_child t mid) l (min r mid) v) =
            set_fuel-IsShaped f (left_child t mid) l (min r mid) v sl.shaped
              (omega (arith, sl.at_left)) (omega (arith, sl.at_right)) in
          let sr' : IsShaped (set_fuel f (right_child t mid) (max l mid) r v) =
            set_fuel-IsShaped f (right_child t mid) (max l mid) r v sr.shaped
              (omega (arith, sr.at_left)) (omega (arith, sr.at_right)) in
          rejoin-IsShaped t l r _ _ h wide
            (spans (set_fuel_ends f (left_child t mid) l (min r mid) v) sl sl')
            (spans (set_fuel_ends f (right_child t mid) (max l mid) r v) sr sr'))

  -- `Set` keeps the range of a node and its shape.
  pub set_fuel-Spans :
      (f : ℕ) (t : SegmentTree A) (l r i j : ℕ) (v : A)
      → Spans t i j
      → i ≤ l
      → r ≤ j
      → Spans (set_fuel f t l r v) i j
  set_fuel-Spans f t l r i j v s p q =
      spans (set_fuel_ends f t l r v) s
        (set_fuel-IsShaped f t l r v s.shaped (rw s.at_left p) (rw s.at_right q))

  -- `Set` keeps the range that a tree spans and its shape: nonempty nodes, children that share their
  -- parent's range between them at the midpoint.
  pub set-Spans :
      (t : SegmentTree A) (l r i j : ℕ) (v : A)
      → Spans t i j
      → i ≤ l
      → r ≤ j
      → Spans (set t l r v) i j
  unfolding set
  set-Spans t l r i j v s p q = set_fuel-Spans (right_end t - left_end t) t l r i j v s p q
