-- ===== src/MemoryGroups/Splitting.antt =====
-- What the loop over the trees finds: the addresses of trees of one range, half by half.
use mathlib.Core.Path.{subst}
use slimmer.Base.{
  ℕ, suc, ◌<◌, ◌≡◌, refl, sym, ◌∙◌, ap, Bool, true, false, ◌||◌, ltb, List, [], ◌∷◌, Option, none,
  some, if◌then◌else◌, All, length, nat_eq, arith,
}
use slimmer.SegmentTree.{SegmentTree, empty, covered, partial, get}
use slimmer.SegmentTree.Midpoint.{midpoint}
use slimmer.SegmentTree.Shape.{IsShaped, Spans}
use slimmer.MemoryGroups.Trees.{Split, whole, halved, add_children, split_trees}

abbrev pub is_some : Option ℕ → Bool
is_some none = false
is_some (some v) = true

abbrev pub has : SegmentTree ℕ → ℕ → Bool
has t x = is_some (get t x)

abbrev pub any_has : List (SegmentTree ℕ) → ℕ → Bool
any_has [] x = false
any_has (t ∷ trees) x = has t x || any_has trees x

-- Trees of one range.
abbrev pub AllSpan : ℕ → ℕ → List (SegmentTree ℕ) → Type 0
AllSpan i j trees = All (λ t. Spans t i j) trees

pub record Halved (i j : ℕ) (trees ls rs : List (SegmentTree ℕ)) : Type 0 where
  pub below : AllSpan i (midpoint i j) ls
  pub above : AllSpan (midpoint i j) j rs
  pub paired : length ls ≡ length rs
  pub inside : 0 < length ls → (i < midpoint i j) × (midpoint i j < j)
  pub member :
      (x : ℕ) → any_has trees x ≡ (if ltb x (midpoint i j) then any_has ls x else any_has rs x)

abbrev pub IsSplit : ℕ → ℕ → List (SegmentTree ℕ) → Split → Type 0
IsSplit i j trees (whole l r) = (l ≡ i) × (r ≡ j) × ((x : ℕ) → any_has trees x ≡ true)
IsSplit i j trees (halved ls rs) = Halved i j trees ls rs

or_true : (b : Bool) → b || true ≡ true
or_true b = ground arith

if_or :
    (c a b p q : Bool)
    → (if c then a else b) || (if c then p else q) ≡ (if c then a || p else b || q)
if_or true a b p q = refl
if_or false a b p q = refl

if_is_some :
    (c : Bool) (a b : Option ℕ)
    → is_some (if c then a else b) ≡ (if c then is_some a else is_some b)
if_is_some true a b = refl
if_is_some false a b = refl

split_empty :
    (i j : ℕ) (v l r : ℕ) (trees : List (SegmentTree ℕ)) (s : Split)
    → IsSplit i j trees s
    → IsSplit i j (empty v l r ∷ trees) s
unfolding get
split_empty i j v l r trees (whole a b) h = h
split_empty i j v l r trees (halved ls rs) h = record {
  below = h.below;
  above = h.above;
  paired = h.paired;
  inside = h.inside;
  member = h.member;
}

split_partial :
    (i j v : ℕ) (a b : SegmentTree ℕ) (trees : List (SegmentTree ℕ)) (s : Split)
    → IsShaped (partial v i j a b)
    → IsSplit i j trees s
    → IsSplit i j (partial v i j a b ∷ trees) (add_children a b s)
unfolding get
split_partial i j v a b trees (whole l r) w (p, q, h) = (
  p,
  q,
  λ x.
      ap (λ (c : Bool). has (partial v i j a b) x || c) (h x) ∙ or_true (has (partial v i j a b) x),
)
split_partial i j v a b trees (halved ls rs) (lo, hi, e1, e2, e3, e4, wa, wb) h = record {
  below = (record { at_left = e1; at_right = e2; shaped = wa }, h.below);
  above = (record { at_left = e3; at_right = e4; shaped = wb }, h.above);
  paired = ap suc h.paired;
  inside = λ _. (lo, hi);
  member = λ x.
      ap (λ (c : Bool). has (partial v i j a b) x || c) (h.member x)
      ∙ ap (λ (c : Bool). c || (if ltb x (midpoint i j) then any_has ls x else any_has rs x))
          (if_is_some (ltb x (midpoint i j)) (get a x) (get b x))
      ∙ if_or (ltb x (midpoint i j)) (has a x) (has b x) (any_has ls x) (any_has rs x);
}

pub if_same : (c : Bool) → false ≡ (if c then false else false)
if_same true = refl
if_same false = refl

pub split_trees-IsSplit :
    (i j : ℕ) (trees : List (SegmentTree ℕ))
    → AllSpan i j trees
    → IsSplit i j trees (split_trees trees)
unfolding split_trees
split_trees-IsSplit i j [] w = record {
  below = tt;
  above = tt;
  paired = refl;
  inside = λ m. absurd (omega arith);
  member = λ x. if_same (ltb x (midpoint i j));
}
split_trees-IsSplit i j (empty v l r ∷ trees) (s, w) =
    split_empty i j v l r trees (split_trees trees) (split_trees-IsSplit i j trees w)
split_trees-IsSplit i j (covered v l r ∷ trees) (s, w) =
    (s.at_left, s.at_right, λ x. unfold get in refl)
split_trees-IsSplit i j (partial v l r a b ∷ trees) (s, w) =
    subst
      (λ (n : ℕ). IsSplit n j (partial v l r a b ∷ trees) (add_children a b (split_trees trees)))
      s.at_left
      (subst
        (λ (n : ℕ). IsSplit l n (partial v l r a b ∷ trees) (add_children a b (split_trees trees)))
        s.at_right
        (split_partial l r v a b trees (split_trees trees) s.shaped (
          subst (λ (n : ℕ). IsSplit n r trees (split_trees trees)) (sym s.at_left)
            (subst (λ (n : ℕ). IsSplit i n trees (split_trees trees)) (sym s.at_right)
              (split_trees-IsSplit i j trees w)))))
