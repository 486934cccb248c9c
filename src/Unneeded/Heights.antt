-- ===== src/Unneeded/Heights.antt =====
-- Stacks of each thread that are at least as high as a count says, with elements that have a
-- property: their operations succeed.
use slimmer.Base.{
  ℕ, ◌+◌, ◌-◌, ◌<◌, ◌≤◌, ◌≡◌, refl, List, [], ◌∷◌, none, some, All, length, map_at-set, map_set,
  equiv, equiv_iff, nat_order, Gives, gives, Bool-cases, inl, inr, arith, true, false,
  if◌then◌else◌,
}
use slimmer.Unneeded.Stacks.{stack_of, push, top, set_top, pop}

abbrev pub raise : (ℕ → ℕ) → ℕ → ℕ → ℕ
raise h tid t = if equiv tid t then h t + 1 else h t

abbrev pub lower : (ℕ → ℕ) → ℕ → ℕ → ℕ
lower h tid t = if equiv tid t then h t - 1 else h t

module _ {ℓ} {A : Type ℓ} (P : A → Type 0) where
  abbrev pub HasHeight : (ℕ → ℕ) → List (ℕ × List A) → Type 0
  HasHeight h m = (t : ℕ) → (h t ≤ length (stack_of m t)) × All P (stack_of m t)

  pub HasHeight-mono :
      (h k : ℕ → ℕ) (m : List (ℕ × List A)) → ((t : ℕ) → k t ≤ h t) → HasHeight h m → HasHeight k m
  HasHeight-mono h k m le s t = (omega (arith, le t, (s t).0), (s t).1)

  -- The stack of one thread is changed.
  set_one :
      (h k : ℕ → ℕ) (m : List (ℕ × List A)) (tid : ℕ) (xs : List A)
      → k tid ≤ length xs
      → All P xs
      → ((t : ℕ) → equiv tid t ≡ false → k t ≤ h t)
      → HasHeight h m
      → HasHeight k (map_set m tid xs)
  set_one h k m tid xs le ok others s t =
      rw (map_at-set [] m tid t xs) (elim (Bool-cases (equiv tid t)) [
        | inl c ↦ rw (c, ← (equiv_iff tid t).0 c) (le, ok)
        | inr c ↦ rw c (omega (arith, others t c, (s t).0), (s t).1)
      ])

  self_equiv : (tid : ℕ) → equiv tid tid ≡ true
  self_equiv tid = (equiv_iff tid tid).1 refl

  pub top-Gives :
      (h : ℕ → ℕ) (m : List (ℕ × List A)) (tid : ℕ)
      → HasHeight h m
      → 0 < h tid
      → Gives P (top m tid)
  unfolding top
  top-Gives h m tid s pos = of_stack (stack_of m tid) (omega (arith, (s tid).0)) (s tid).1
    where
      of_stack :
          (l : List A) → 0 < length l → All P l → Gives P (elim l [ [] ↦ none | x ∷ xs ↦ some x ])
      of_stack [] n a = absurd (omega arith)
      of_stack (x ∷ xs) n a = gives a.0

  pub set_top-Gives :
      (h : ℕ → ℕ) (m : List (ℕ × List A)) (tid : ℕ) (y : A)
      → HasHeight h m
      → 0 < h tid
      → P y
      → Gives (HasHeight h) (set_top m tid y)
  unfolding set_top
  set_top-Gives h m tid y s pos ok =
      of_stack (stack_of m tid) (omega (arith, (s tid).0)) (s tid).0 (s tid).1
    where
      of_stack :
          (l : List A)
          → 0 < length l
          → h tid ≤ length l
          → All P l
          → Gives (HasHeight h) (elim l [ [] ↦ none | x ∷ xs ↦ some (map_set m tid (y ∷ xs)) ])
      of_stack [] n le a = absurd (omega arith)
      of_stack (x ∷ xs) n le a =
          gives (set_one h h m tid (y ∷ xs) le (ok, a.1) (λ t c. omega arith) s)

  pub pop-Gives :
      (h : ℕ → ℕ) (m : List (ℕ × List A)) (tid : ℕ)
      → HasHeight h m
      → 0 < h tid
      → Gives (HasHeight (lower h tid)) (pop m tid)
  unfolding pop
  pop-Gives h m tid s pos = of_stack (stack_of m tid) (omega (arith, (s tid).0)) (s tid).0 (s tid).1
    where
      of_stack :
          (l : List A)
          → 0 < length l
          → h tid ≤ length l
          → All P l
          → Gives
              (HasHeight (lower h tid))
              (elim l [ [] ↦ none | x ∷ xs ↦ some (map_set m tid xs) ])
      of_stack [] n le a = absurd (omega arith)
      of_stack (x ∷ xs) n le a = gives (
          set_one h (lower h tid) m tid xs (rw (self_equiv tid) (omega arith)) a.1
            (λ t c. rw c (omega arith)) s)

  pub push-HasHeight :
      (h : ℕ → ℕ) (m : List (ℕ × List A)) (tid : ℕ) (x : A)
      → HasHeight h m
      → P x
      → HasHeight (raise h tid) (push m tid x)
  unfolding push
  push-HasHeight h m tid x s ok =
      set_one h (raise h tid) m tid (x ∷ stack_of m tid)
        (rw (self_equiv tid) (omega (arith, (s tid).0))) (ok, (s tid).1) (λ t c. rw c (omega arith))
        s
