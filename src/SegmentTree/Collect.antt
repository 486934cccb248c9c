-- ===== src/SegmentTree/Collect.antt =====
-- What Collect returns: the segments that meet [l, r), edge to edge, each with the value that Get
-- finds at its addresses.
use slimmer.Base.{
  ℕ, min, max, ◌≤◌, ◌<◌, ◌≡◌, refl, sym, ◌∙◌, ltb, leb, BoolEq, arith, inl, inr, Bool-cases, Option,
  List, [], All, ltb→lt, ltb→ge, gt→leb, lt→ltb, ge→ltb, leb→gt,
}
use slimmer.SegmentTree.{
  SegmentTree, empty, covered, partial, left_end, right_end, get, collect2, collect, Segment,
}
use slimmer.SegmentTree.Midpoint.{midpoint}
use slimmer.SegmentTree.Shape.{IsShaped}
use slimmer.SegmentTree.Tiles.{
  Agrees, Touches, Tiles, Chain, Chain→Tiles, All-reverse, push_segment-Chain, push_segment-Touches,
  push_segment-Agrees,
}

module _ {ℓ} {A : Type ℓ} ⦃e : BoolEq A⦄ where
  -- The way through a partial node, by where [l, r) lies.
  collect2_partial {κ} :
      (P : List (Segment A) → Type κ) (v : A) (i j l r : ℕ) (a b : SegmentTree A)
      (res : List (Segment A))
      → l < r
      → (let mid = midpoint i j in
          (r ≤ mid → P (collect2 a l (min r mid) res))
          → (mid ≤ l → P (collect2 b (max l mid) r res))
          → (l < mid → mid < r → P (collect2 b (max l mid) r (collect2 a l (min r mid) res)))
          → P (collect2 (partial v i j a b) l r res))
  unfolding collect2
  collect2_partial P v i j l r a b res w below above both =
      let mid = midpoint i j in
      rw (gt→leb _ _ w) (elim (Bool-cases (ltb l mid)) [
        | inl c ↦ rw c (elim (Bool-cases (ltb mid r)) [
          | inl d ↦ rw d (both (ltb→lt _ _ c) (ltb→lt _ _ d))
          | inr d ↦ rw d (below (ltb→ge _ _ d))
        ])
        | inr c ↦ rw (c, lt→ltb mid r (omega (arith, ltb→ge _ _ c))) (above (ltb→ge _ _ c))
      ])

  collect2-Touches :
      (t : SegmentTree A) (l r l₀ r₀ : ℕ) (res : List (Segment A))
      → IsShaped t
      → l₀ ≤ l
      → l < r
      → r ≤ r₀
      → left_end t ≤ l
      → r ≤ right_end t
      → All (Touches l₀ r₀) res
      → All (Touches l₀ r₀) (collect2 t l r res)
  unfolding collect2
  collect2-Touches (empty v i j) l r l₀ r₀ res h p w q lo hi ts =
      rw (gt→leb _ _ w) (push_segment-Touches l₀ r₀ res _ ts (omega arith, omega arith) h)
  collect2-Touches (covered v i j) l r l₀ r₀ res h p w q lo hi ts =
      rw (gt→leb _ _ w) (push_segment-Touches l₀ r₀ res _ ts (omega arith, omega arith) h)
  collect2-Touches (partial v i j a b) l r l₀ r₀ res (h1, h2, al, ar, bl, br, sa, sb) p w q lo hi
        ts =
      let mid = midpoint i j in
      let first = λ (u : l < mid).
        collect2-Touches a l (min r mid) l₀ r₀ res sa p (omega arith) (omega arith) (omega arith)
          (omega arith) ts in
      let second = λ (u : mid < r) (rest : List (Segment A)) (x : All (Touches l₀ r₀) rest).
        collect2-Touches b (max l mid) r l₀ r₀ rest sb (omega arith) (omega arith) q (omega arith)
          (omega arith) x in
      collect2_partial (All (Touches l₀ r₀)) v i j l r a b res w (λ c. first (omega arith))
        (λ c. second (omega arith) res ts) (λ c d. second d _ (first c))

  collect2-Agrees :
      (f : ℕ → Option A) (t : SegmentTree A) (l r : ℕ) (res : List (Segment A))
      → IsShaped t
      → ((x : ℕ) → left_end t ≤ x → x < right_end t → f x ≡ get t x)
      → All (Agrees f) res
      → All (Agrees f) (collect2 t l r res)
  unfolding collect2 get
  collect2-Agrees f (empty v i j) l r res h g ag = elim (Bool-cases (leb r l)) [
    | inl c ↦ rw c ag
    | inr c ↦ rw c (push_segment-Agrees f res _ ag g)
  ]
  collect2-Agrees f (covered v i j) l r res h g ag = elim (Bool-cases (leb r l)) [
    | inl c ↦ rw c ag
    | inr c ↦ rw c (push_segment-Agrees f res _ ag g)
  ]
  collect2-Agrees f (partial v i j a b) l r res (h1, h2, al, ar, bl, br, sa, sb) g ag =
      let mid = midpoint i j in
      let first =
        collect2-Agrees f a l (min r mid) res sa
          (λ x lo hi. g x (omega arith) (omega arith) ∙ rw (lt→ltb x mid (omega arith))) ag in
      let second = λ (rest : List (Segment A)) (u : All (Agrees f) rest).
        collect2-Agrees f b (max l mid) r rest sb
          (λ x lo hi. g x (omega arith) (omega arith) ∙ rw (ge→ltb x mid (omega arith))) u in
      elim (Bool-cases (leb r l)) [
        | inl c ↦ rw c ag
        | inr c ↦
            collect2_partial (All (Agrees f)) v i j l r a b res (leb→gt _ _ c) (λ _. first)
              (λ _. second res ag) (λ _ _. second _ first)
      ]

  -- A chain from `lo` that reaches `r` and stays within `j`.
  abbrev Reaches : List (Segment A) → ℕ → ℕ → ℕ → Type 0
  Reaches res lo r j = (hi : ℕ) × Chain res lo hi × (r ≤ hi) × (hi ≤ j)

  -- From the left end of a node on, its segments lengthen a chain that ends there.
  collect2_extend :
      (t : SegmentTree A) (l r lo : ℕ) (res : List (Segment A))
      → IsShaped t
      → Chain res lo (left_end t)
      → l ≡ left_end t
      → l < r
      → r ≤ right_end t
      → Reaches (collect2 t l r res) lo r (right_end t)
  unfolding collect2
  collect2_extend (empty v i j) l r lo res h ch e w q =
      rw (gt→leb _ _ w) (j, push_segment-Chain res _ lo ch h, q, omega arith)
  collect2_extend (covered v i j) l r lo res h ch e w q =
      rw (gt→leb _ _ w) (j, push_segment-Chain res _ lo ch h, q, omega arith)
  collect2_extend (partial v i j a b) l r lo res (h1, h2, al, ar, bl, br, sa, sb) ch e w q =
      let mid = midpoint i j in
      let (hi, c, p, s) =
        collect2_extend a l (min r mid) lo res sa (rw al ch) (e ∙ sym al) (omega arith)
          (omega arith) in
      collect2_partial (λ x. Reaches x lo r j) v i j l r a b res w
        (λ d. (hi, c, omega arith, omega arith)) (λ d. absurd (omega arith))
        (λ d d'.
          let at_mid : hi ≡ left_end b = omega arith in
          let (hi', c', p', s') =
            collect2_extend b (max l mid) r lo _ sb (rw at_mid at c) (omega arith) (omega arith)
              (omega arith) in
          (hi', c', p', omega arith))

  -- From no segments at all.
  collect2_start :
      (t : SegmentTree A) (l r : ℕ)
      → IsShaped t
      → left_end t ≤ l
      → l < r
      → r ≤ right_end t
      → (lo : ℕ) × Reaches (collect2 t l r []) lo r (right_end t) × (lo ≤ l)
  unfolding collect2
  collect2_start (empty v i j) l r h p w q =
      rw (gt→leb _ _ w) (i, (j, (refl, h, refl), q, omega arith), p)
  collect2_start (covered v i j) l r h p w q =
      rw (gt→leb _ _ w) (i, (j, (refl, h, refl), q, omega arith), p)
  collect2_start (partial v i j a b) l r (h1, h2, al, ar, bl, br, sa, sb) p w q =
      let mid = midpoint i j in
      let first = λ (u : l < mid).
        collect2_start a l (min r mid) sa (omega arith) (omega arith) (omega arith) in
      collect2_partial (λ x. (lo : ℕ) × Reaches x lo r j × (lo ≤ l)) v i j l r a b [] w
        (λ d.
          let (lo, (hi, c, x, y), z) = first (omega arith) in
          (lo, (hi, c, omega arith, omega arith), z))
        (λ d.
          let (lo, (hi, c, x, y), z) =
            collect2_start b (max l mid) r sb (omega arith) (omega arith) (omega arith) in
          (lo, (hi, c, x, omega arith), omega arith))
        (λ d d'.
          let (lo, (hi, c, x, y), z) = first d in
          let at_mid : hi ≡ left_end b = omega arith in
          let (hi', c', x', y') =
            collect2_extend b (max l mid) r lo _ sb (rw at_mid at c) (omega arith) (omega arith)
              (omega arith) in
          (lo, (hi', c', x', omega arith), z))

  -- The segments that `Collect` returns for [l, r) lie edge to edge, start at or below `l` and reach
  -- `r` within the tree's range; each meets [l, r) and shows what `Get` finds at its addresses.
  pub record Collected (t : SegmentTree A) (l r : ℕ) (segments : List (Segment A)) : Type ℓ where
    pub first : ℕ
    pub last : ℕ
    pub tiled : Tiles segments first last
    pub from : first ≤ l
    pub to : r ≤ last
    pub within : last ≤ right_end t
    pub touching : All (Touches l r) segments
    pub agreeing : All (Agrees (get t)) segments

  pub collect-Collected :
      (t : SegmentTree A) (l r : ℕ)
      → IsShaped t
      → left_end t ≤ l
      → l < r
      → r ≤ right_end t
      → Collected t l r (collect t l r)
  unfolding collect
  collect-Collected t l r h p w q =
      let (lo, (hi, c, x, y), z) = collect2_start t l r h p w q in
      record {
        first = lo;
        last = hi;
        tiled = Chain→Tiles _ lo hi c;
        from = z;
        to = x;
        within = y;
        touching =
            All-reverse (Touches l r) _
              (collect2-Touches t l r l r [] h (omega arith) w (omega arith) p q tt);
        agreeing =
            All-reverse (Agrees (get t)) _ (collect2-Agrees (get t) t l r [] h (λ _ _ _. refl) tt);
      }
