-- ===== src/Base/Maps.antt =====
-- Lookups in a std::map after its operations, and properties of all its entries.
use slimmer.Base.Tests.{if◌then◌else◌, Bool-cases}
use slimmer.Base.Lists.{All}
use slimmer.Base.Order.{StrictOrder}
use slimmer.Base.Containers.{equiv, equiv_iff, map_find, map_set, map_erase}
use mathlib.Core.Path.{◌≡◌, refl}
use mathlib.Core.Logic.{inl, inr}
use mathlib.Core.Bool.{Bool, true, false}
use mathlib.Core.Option.{some, some-injective}
use mathlib.Core.Path.{subst}
use mathlib.Core.List.{List, [], ◌∷◌}

module _ {ℓ κ} {K : Type ℓ} {V : Type κ} ⦃o : StrictOrder K⦄ where
  pub map_find-set :
      (m : List (K × V)) (k j : K) (v : V)
      → map_find (map_set m k v) j ≡ (if equiv k j then some v else map_find m j)
  map_find-set [] k j v = refl
  map_find-set ((i, w) ∷ m) k j v = elim (Bool-cases (o.less k i)) [
    | inl a ↦ rw a
    | inr a ↦ rw a (elim (Bool-cases (o.less i k)) [
      | inl b ↦
          rw (b, map_find-set m k j v)
            (elim (Bool-cases (equiv i j)) [
              | inl c ↦ rw c (elim (Bool-cases (equiv k j)) [
                | inl e ↦ cc (b, (equiv_iff i j).0 c, (equiv_iff k j).0 e, o.irrefl i)
                | inr e ↦ rw e
              ])
              | inr c ↦ rw c
            ])
      | inr b ↦
          rw (b, o.tri k i a b) (elim (Bool-cases (equiv i j)) [ inl c ↦ rw c | inr c ↦ rw c ])
    ])
  ]

  -- Another key keeps its value when one is erased.
  pub map_find-erase :
      (m : List (K × V)) (k j : K) → equiv k j ≡ false → map_find (map_erase m k) j ≡ map_find m j
  map_find-erase [] k j h = refl
  map_find-erase ((i, w) ∷ m) k j h = elim (Bool-cases (equiv i k)) [
    | inl c ↦ rw (c, (equiv_iff i k).0 c, h) refl
    | inr c ↦ rw c (elim (Bool-cases (equiv i j)) [
      | inl d ↦ rw d refl
      | inr d ↦ rw d (map_find-erase m k j h)
    ])
  ]

  module _ {ι} (P : K × V → Type ι) where
    pub All-map_set :
        (m : List (K × V)) (k : K) (v : V) → All P m → P (k, v) → All P (map_set m k v)
    All-map_set [] k v h p = (p, tt)
    All-map_set ((i, w) ∷ m) k v (q, h) p = elim (Bool-cases (o.less k i)) [
      | inl a ↦ rw a (p, (q, h))
      | inr a ↦ rw a (elim (Bool-cases (o.less i k)) [
        | inl b ↦ rw b (q, All-map_set m k v h p)
        | inr b ↦ rw (b, ← o.tri k i a b) (p, h)
      ])
    ]

    pub All-map_erase : (m : List (K × V)) (k : K) → All P m → All P (map_erase m k)
    All-map_erase [] k h = tt
    All-map_erase ((i, w) ∷ m) k (q, h) = elim (Bool-cases (equiv i k)) [
      | inl c ↦ rw c h
      | inr c ↦ rw c (q, All-map_erase m k h)
    ]

    pub map_find-All :
        (m : List (K × V)) (k : K) {v : V} → All P m → map_find m k ≡ some v → P (k, v)
    map_find-All [] k h e = cc
    map_find-All ((i, w) ∷ m) k {v} (q, h) e =
        found (equiv i k) (equiv_iff i k).0 (map_find-All m k h) e
      where
        found :
            (c : Bool)
            → (c ≡ true → i ≡ k)
            → (map_find m k ≡ some v → P (k, v))
            → (if c then some w else map_find m k) ≡ some v
            → P (k, v)
        found true same later e =
            subst (λ x. P (k, x)) (some-injective w v e) (subst (λ x. P (x, w)) (same refl) q)
        found false same later e = later e
