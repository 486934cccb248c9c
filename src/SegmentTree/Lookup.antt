-- ===== src/SegmentTree/Lookup.antt =====
-- What Set does to the value that Get finds at each address.
use slimmer.Base.{
  ℕ, zero, suc, ◌-◌, min, max, ◌≤◌, ◌<◌, ◌≡◌, refl, sym, true, ltb, if◌then◌else◌, BoolEq, arith,
  ◌⊎◌, inl, inr, Bool-cases, Option, some, ltb→lt, ltb→ge,
}
use slimmer.SegmentTree.{
  SegmentTree, empty, covered, partial, left_end, right_end, left_child, right_child, merge,
  set_fuel, set, node_value, rejoin, covered_by, get,
}
use slimmer.SegmentTree.Range.{
  in_range, in_range_inside, in_range_outside, in_range_below_min, in_range_above_max,
}
use slimmer.SegmentTree.Midpoint.{midpoint}
use slimmer.SegmentTree.Shape.{IsShaped, IsShaped-lt, Spans-halves, set_fuel_cases}

-- The value at `x` once [l, r) is written.
abbrev pub overwrite {ℓ} : {A : Type ℓ} → ℕ → ℕ → A → ℕ → Option A → Option A
overwrite l r v x old = if in_range l r x then some v else old

module _ {ℓ} {A : Type ℓ} where
  overwrite_in : (l r x : ℕ) (v : A) (o : Option A) → l ≤ x → x < r → overwrite l r v x o ≡ some v
  overwrite_in l r x v o p q = rw (in_range_inside l r x p q)

  overwrite_out : (l r x : ℕ) (v : A) (o : Option A) → (x < l) ⊎ (r ≤ x) → overwrite l r v x o ≡ o
  overwrite_out l r x v o p = rw (in_range_outside l r x p)

  overwrite_idem : (l r x : ℕ) (v : A) → overwrite l r v x (some v) ≡ some v
  overwrite_idem l r x v = elim (Bool-cases (in_range l r x)) [ inl c ↦ rw c | inr c ↦ rw c ]

  -- `Get` goes into the half that holds the address, be the node split already or not.
  get_halves :
      (t : SegmentTree A) (x : ℕ)
      → (let mid = midpoint (left_end t) (right_end t) in
          get t x ≡ (if ltb x mid then get (left_child t mid) x else get (right_child t mid) x))
  unfolding get
  get_halves (empty v l r) x = ground arith
  get_halves (covered v l r) x = ground arith
  get_halves (partial v l r a b) x = refl

module _ {ℓ} {A : Type ℓ} ⦃e : BoolEq A⦄ where
  -- Joining two leaves of one kind changes no value.
  get-merge :
      (v : A) (l r : ℕ) (a b : SegmentTree A) (x : ℕ)
      → get (merge v l r a b) x ≡ (if ltb x (midpoint l r) then get a x else get b x)
  unfolding get
  get-merge v l r (covered a i j) (covered b k m) x = elim (Bool-cases (e.same a b)) [
    | inl c ↦ rw c (ground (arith, (e.same_iff a b).0 c))
    | inr c ↦ rw c
  ]
  get-merge v l r (empty a i j) (empty b k m) x = ground arith
  get-merge v l r a b x = refl

  get-covered_by : (t : SegmentTree A) (v : A) (x : ℕ) → covered_by t v ≡ true → get t x ≡ some v
  unfolding get
  get-covered_by (covered w l r) v x h = ground (arith, (e.same_iff w v).0 h)
  get-covered_by (empty w l r) v x h = cc
  get-covered_by (partial w l r a b) v x h = cc

  -- One level of `Set`, where both halves behave.
  get-rejoin :
      (t : SegmentTree A) (l r x : ℕ) (v : A) (below above : SegmentTree A)
      → (let mid = midpoint (left_end t) (right_end t) in
          (x < mid → get below x ≡ overwrite l (min r mid) v x (get (left_child t mid) x))
          → (mid ≤ x → get above x ≡ overwrite (max l mid) r v x (get (right_child t mid) x))
          → get (rejoin t l r below above) x ≡ overwrite l r v x (get t x))
  get-rejoin t l r x v below above hb ha =
      let mid = midpoint (left_end t) (right_end t) in
      rw (get-merge (node_value t) (left_end t) (right_end t) _ _ x) (
        rw (get_halves t x) (elim (Bool-cases (ltb x mid)) [
          | inl c ↦ rw c (elim (Bool-cases (ltb l mid)) [
            | inl d ↦ rw (d, hb (ltb→lt _ _ c), in_range_below_min l r x mid (ltb→lt _ _ c))
            | inr d ↦
                rw d
                  (sym (overwrite_out l r x v _ (inl (omega (arith, ltb→lt _ _ c, ltb→ge _ _ d)))))
          ])
          | inr c ↦ rw c (elim (Bool-cases (ltb mid r)) [
            | inl d ↦ rw (d, ha (ltb→ge _ _ c), in_range_above_max l r x mid (ltb→ge _ _ c))
            | inr d ↦
                rw d
                  (sym (overwrite_out l r x v _ (inr (omega (arith, ltb→ge _ _ c, ltb→ge _ _ d)))))
          ])
        ]))

  get-set_fuel :
      (f : ℕ) (t : SegmentTree A) (l r x : ℕ) (v : A)
      → IsShaped t
      → right_end t - left_end t ≤ f
      → left_end t ≤ l
      → r ≤ right_end t
      → left_end t ≤ x
      → x < right_end t
      → get (set_fuel f t l r v) x ≡ overwrite l r v x (get t x)
  get-set_fuel zero t l r x v h w p q lo hi = absurd (omega (arith, IsShaped-lt t h))
  get-set_fuel (suc f) t l r x v h w p q lo hi =
      set_fuel_cases (λ u. get u x ≡ overwrite l r v x (get t x)) f t l r v
        (λ no. sym (overwrite_out l r x v (get t x) (omega arith)))
        (λ same. rw (get-covered_by t v x same) (sym (overwrite_idem l r x v)))
        (λ c d. unfold get in sym (overwrite_in l r x v (get t x) (omega arith) (omega arith)))
        (λ lt part.
          let mid = midpoint (left_end t) (right_end t) in
          let (lo', hi', sl, sr) = Spans-halves t h (omega arith) in
          get-rejoin t l r x v _ _
            (λ below.
              get-set_fuel f (left_child t mid) l (min r mid) x v sl.shaped
                (omega (arith, sl.at_left, sl.at_right)) (omega (arith, sl.at_left))
                (omega (arith, sl.at_right)) (omega (arith, sl.at_left))
                (omega (arith, sl.at_right)))
            (λ above.
              get-set_fuel f (right_child t mid) (max l mid) r x v sr.shaped
                (omega (arith, sr.at_left, sr.at_right)) (omega (arith, sr.at_left))
                (omega (arith, sr.at_right)) (omega (arith, sr.at_left))
                (omega (arith, sr.at_right))))

  -- `Set` writes its value over [l, r) and changes no other address of the node's range.
  pub get-set :
      (t : SegmentTree A) (l r x : ℕ) (v : A)
      → IsShaped t
      → left_end t ≤ l
      → r ≤ right_end t
      → left_end t ≤ x
      → x < right_end t
      → get (set t l r v) x ≡ overwrite l r v x (get t x)
  unfolding set
  get-set t l r x v h p q lo hi =
      get-set_fuel (right_end t - left_end t) t l r x v h (omega arith) p q lo hi
