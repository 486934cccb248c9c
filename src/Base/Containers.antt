-- ===== src/Base/Containers.antt =====
-- std::set and std::map as lists in increasing order of their keys.
use slimmer.Base.Tests.{if◌then◌else◌, Bool-cases}
use slimmer.Base.Order.{StrictOrder}
use mathlib.Core.Path.{◌≡◌, refl, sym, ◌∙◌}
use mathlib.Core.Logic.{◌↔◌, inl, inr}
use mathlib.Core.Bool.{Bool, true, false, ◌&&◌, ◌||◌, not}
use mathlib.Core.Option.{Option, none, some}
use mathlib.Core.List.{List, [], ◌∷◌}
use native.Mathlib.Omega.{arith}

or_swap : (a b c : Bool) → a || (b || c) ≡ b || (a || c)
or_swap a b c = ground arith

or_idem : (a b : Bool) → a || b ≡ a || (a || b)
or_idem a b = ground arith

or_shift : (a b c : Bool) → a || (b || c) ≡ (b || a) || c
or_shift a b c = ground arith

erase_idem : (a b : Bool) → not a && b ≡ not a && (a || b)
erase_idem a b = ground arith

module _ {ℓ} {K : Type ℓ} ⦃o : StrictOrder K⦄ where
  -- Two keys neither of which is less are one key.
  abbrev pub equiv : K → K → Bool
  equiv a b = not (o.less a b) && not (o.less b a)

  pub equiv_iff : (a b : K) → (equiv a b ≡ true) ↔ (a ≡ b)
  equiv_iff a b = (to, from)
    where
      to : equiv a b ≡ true → a ≡ b
      to h = o.tri a b (ground arith) (ground arith)

      from : a ≡ b → equiv a b ≡ true
      from p = rw (p, o.irrefl b)

module _ {ℓ} {K : Type ℓ} ⦃o : StrictOrder K⦄ where
  abbrev pub set_count : List K → K → Bool
  set_count [] k = false
  set_count (x ∷ xs) k = equiv x k || set_count xs k

  -- `insert`: an equivalent key stays as it is.
  abbrev pub set_insert : List K → K → List K
  set_insert [] k = k ∷ []
  set_insert (x ∷ xs) k =
      if o.less k x then k ∷ x ∷ xs else if o.less x k then x ∷ set_insert xs k else x ∷ xs

  abbrev pub set_erase : List K → K → List K
  set_erase [] k = []
  set_erase (x ∷ xs) k = if equiv x k then set_erase xs k else x ∷ set_erase xs k

  pub set_count-insert :
      (s : List K) (a b : K) → set_count (set_insert s a) b ≡ equiv a b || set_count s b
  set_count-insert [] a b = refl
  set_count-insert (x ∷ xs) a b = elim (Bool-cases (o.less a x)) [
    | inl c ↦ rw c
    | inr c ↦ rw c (elim (Bool-cases (o.less x a)) [
      | inl d ↦ rw (d, set_count-insert xs a b) (or_swap (equiv x b) (equiv a b) (set_count xs b))
      | inr d ↦ rw (d, o.tri a x c d) (or_idem (equiv x b) (set_count xs b))
    ])
  ]

  pub set_count-erase :
      (s : List K) (a b : K) → set_count (set_erase s a) b ≡ not (equiv a b) && set_count s b
  set_count-erase [] a b = ground arith
  set_count-erase (x ∷ xs) a b = elim (Bool-cases (equiv x a)) [
    | inl c ↦
        rw (c, set_count-erase xs a b, (equiv_iff x a).0 c)
          (erase_idem (equiv a b) (set_count xs b))
    | inr c ↦
        rw (c, set_count-erase xs a b)
          (elim (Bool-cases (equiv x b)) [
            | inl d ↦ elim (Bool-cases (equiv a b)) [
              | inl e ↦ cc (c, (equiv_iff x a).1 ((equiv_iff x b).0 d ∙ sym ((equiv_iff a b).0 e)))
              | inr e ↦ rw (d, e)
            ]
            | inr d ↦ rw d
          ])
  ]

  -- Several insertions one after the other.
  abbrev pub set_insert_all : List K → List K → List K
  set_insert_all s [] = s
  set_insert_all s (k ∷ ks) = set_insert_all (set_insert s k) ks

  pub set_count-insert_all :
      (s ks : List K) (b : K) → set_count (set_insert_all s ks) b ≡ set_count ks b || set_count s b
  set_count-insert_all s [] b = refl
  set_count-insert_all s (k ∷ ks) b =
      rw (set_count-insert_all (set_insert s k) ks b, set_count-insert s k b)
        (or_shift (set_count ks b) (equiv k b) (set_count s b))

  -- A key is in a set just after it is inserted, and insertion loses none.
  pub set_count-insert_self : (s : List K) (a : K) → set_count (set_insert s a) a ≡ true
  set_count-insert_self s a = rw (set_count-insert, (equiv_iff a a).1 refl)

module _ {ℓ κ} {K : Type ℓ} {V : Type κ} ⦃o : StrictOrder K⦄ where
  abbrev pub map_find : List (K × V) → K → Option V
  map_find [] k = none
  map_find ((j, v) ∷ m) k = if equiv j k then some v else map_find m k

  -- `m[k] = v`
  abbrev pub map_set : List (K × V) → K → V → List (K × V)
  map_set [] k v = (k, v) ∷ []
  map_set ((j, w) ∷ m) k v =
      if o.less k j
      then (k, v) ∷ (j, w) ∷ m
      else if o.less j k
      then (j, w) ∷ map_set m k v
      else (j, v) ∷ m

  abbrev pub map_erase : List (K × V) → K → List (K × V)
  map_erase [] k = []
  map_erase ((j, w) ∷ m) k = if equiv j k then m else (j, w) ∷ map_erase m k

  -- The value of `m[k]` where the value type's default is `d`.
  abbrev pub map_at : V → List (K × V) → K → V
  map_at d [] k = d
  map_at d ((j, v) ∷ m) k = if equiv j k then v else map_at d m k

  pub map_at-set :
      (d : V) (m : List (K × V)) (k j : K) (v : V)
      → map_at d (map_set m k v) j ≡ (if equiv k j then v else map_at d m j)
  map_at-set d [] k j v = refl
  map_at-set d ((i, w) ∷ m) k j v = elim (Bool-cases (o.less k i)) [
    | inl a ↦ rw a
    | inr a ↦ rw a (elim (Bool-cases (o.less i k)) [
      | inl b ↦
          rw (b, map_at-set d m k j v)
            (elim (Bool-cases (equiv i j)) [
              | inl c ↦ rw c (elim (Bool-cases (equiv k j)) [
                | inl e ↦ cc (b, (equiv_iff i j).0 c, (equiv_iff k j).0 e, o.irrefl i)
                | inr e ↦ rw e
              ])
              | inr c ↦ rw c
            ])
      | inr b ↦
          rw (b, o.tri k i a b) (elim (Bool-cases (equiv i j)) [ inl c ↦ rw c | inr c ↦ rw c ])
    ])
  ]
