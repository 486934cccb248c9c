-- ===== src/SegmentTree.antt =====
-- include/SegmentTree.hpp: a binary tree over the addresses [0, 2 ^ 64 - 1) whose leaves are empty
-- or covered by one value.
pub mod Midpoint
pub mod Range
pub mod Shape
pub mod Lookup
pub mod Tiles
pub mod Collect
use slimmer.Base.{
  ℕ, zero, suc, ◌-◌, ◌^◌, min, max, Bool, true, false, ◌&&◌, Option, none, some, List, [], ◌∷◌, ltb,
  leb, ◌==◌, if◌then◌else◌, BoolEq,
}
use mathlib.Core.List.{reverse}
use Midpoint.{midpoint}

pub data SegmentType : Type 0 where
  empty_segment partial_segment covered_segment : SegmentType

pub record Segment {ℓ} (A : Type ℓ) : Type ℓ where
  pub type : SegmentType
  pub value : A
  pub left : ℕ
  pub right : ℕ

-- One constructor for each `type` of a node: just a partial node has children. Every node keeps its
-- `value` field, also where it is stale.
pub data SegmentTree {ℓ} (A : Type ℓ) : Type ℓ where
  empty : (value : A) (left right : ℕ) → SegmentTree A
  covered : (value : A) (left right : ℕ) → SegmentTree A
  partial : (value : A) (left right : ℕ) → SegmentTree A → SegmentTree A → SegmentTree A

-- (uint64_t) - 1
abbrev pub max_range : ℕ
max_range = 2 ^ 64 - 1

module _ {ℓ} {A : Type ℓ} where
  abbrev pub node_value : SegmentTree A → A
  node_value (empty v l r) = v
  node_value (covered v l r) = v
  node_value (partial v l r a b) = v

  abbrev pub left_end : SegmentTree A → ℕ
  left_end (empty v l r) = l
  left_end (covered v l r) = l
  left_end (partial v l r a b) = l

  abbrev pub right_end : SegmentTree A → ℕ
  right_end (empty v l r) = r
  right_end (covered v l r) = r
  right_end (partial v l r a b) = r

  -- `T()` is the argument.
  unfoldable pub new_tree : A → SegmentTree A
  new_tree v = empty v 0 max_range

  -- The children once a leaf is split at `mid`: they inherit its type and its value.
  abbrev pub left_child : SegmentTree A → ℕ → SegmentTree A
  left_child (empty v l r) mid = empty v l mid
  left_child (covered v l r) mid = covered v l mid
  left_child (partial v l r a b) mid = a

  abbrev pub right_child : SegmentTree A → ℕ → SegmentTree A
  right_child (empty v l r) mid = empty v mid r
  right_child (covered v l r) mid = covered v mid r
  right_child (partial v l r a b) mid = b

  -- `Get`: no value stands for the return value false, on which the caller's variable is left alone.
  unfoldable pub get : SegmentTree A → ℕ → Option A
  get (empty v l r) x = none
  get (covered v l r) x = some v
  get (partial v l r a b) x =
      let below = get a x in let above = get b x in if ltb x (midpoint l r) then below else above

module _ {ℓ} {A : Type ℓ} ⦃e : BoolEq A⦄ where
  abbrev pub covered_by : SegmentTree A → A → Bool
  covered_by (empty w l r) v = false
  covered_by (covered w l r) v = e.same w v
  covered_by (partial w l r a b) v = false

  -- The end of `Set`: a node whose children are leaves of one kind becomes such a leaf.
  abbrev pub merge : A → ℕ → ℕ → SegmentTree A → SegmentTree A → SegmentTree A
  merge v l r (covered a i j) (covered b k m) =
      if e.same a b then covered a l r else partial v l r (covered a i j) (covered b k m)
  merge v l r (empty a i j) (empty b k m) = empty a l r
  merge v l r a b = partial v l r a b

  -- The rest of `Set`, given what the two recursive calls make of the halves.
  abbrev pub rejoin : SegmentTree A → ℕ → ℕ → SegmentTree A → SegmentTree A → SegmentTree A
  rejoin t l r below above =
      let mid = midpoint (left_end t) (right_end t) in
      merge (node_value t) (left_end t) (right_end t)
        (if ltb l mid then below else left_child t mid)
        (if ltb mid r then above else right_child t mid)

  -- `Set` on fuel: the width of the node is enough, since both halves of a split are narrower.
  unfoldable pub set_fuel : ℕ → SegmentTree A → ℕ → ℕ → A → SegmentTree A
  set_fuel zero t l r v = t
  set_fuel (suc f) t l r v =
      let mid = midpoint (left_end t) (right_end t) in
      let below = set_fuel f (left_child t mid) l (min r mid) v in
      let above = set_fuel f (right_child t mid) (max l mid) r v in
      let joined = rejoin t l r below above in
      if leb r l
      then t
      else if covered_by t v
      then t
      else if leb l (left_end t) && leb (right_end t) r
      then covered v (left_end t) (right_end t)
      else joined

  unfoldable pub set : SegmentTree A → ℕ → ℕ → A → SegmentTree A
  set t l r v = set_fuel (right_end t - left_end t) t l r v

  -- Both empty, or of one type and one value.
  abbrev pub same_kind : SegmentType → SegmentType → A → A → Bool
  same_kind empty_segment empty_segment v w = true
  same_kind partial_segment partial_segment v w = e.same v w
  same_kind covered_segment covered_segment v w = e.same v w
  same_kind _ _ v w = false

  -- Two neighbours that `Collect2` joins.
  abbrev pub joins : Segment A → Segment A → Bool
  joins second_last last =
      same_kind second_last.type last.type second_last.value last.value
      && (second_last.right == last.left)

  -- `push_back` and the merge with the element before it. The last element is the list's head.
  abbrev pub push_segment : List (Segment A) → Segment A → List (Segment A)
  push_segment [] s = s ∷ []
  push_segment (p ∷ res) s = if joins p s then record p { right = s.right } ∷ res else s ∷ p ∷ res

  unfoldable pub collect2 : SegmentTree A → ℕ → ℕ → List (Segment A) → List (Segment A)
  collect2 (empty v i j) l r res =
      if leb r l
      then res
      else push_segment res (record { type = empty_segment; value = v; left = i; right = j })
  collect2 (covered v i j) l r res =
      if leb r l
      then res
      else push_segment res (record { type = covered_segment; value = v; left = i; right = j })
  collect2 (partial v i j a b) l r res =
      let mid = midpoint i j in
      let first = collect2 a l (min r mid) res in
      let res' = if ltb l mid then first else res in
      let second = collect2 b (max l mid) r res' in
      if leb r l then res else if ltb mid r then second else res'

  -- `Collect`, in the order of the addresses.
  unfoldable pub collect : SegmentTree A → ℕ → ℕ → List (Segment A)
  collect t l r = reverse (collect2 t l r [])
