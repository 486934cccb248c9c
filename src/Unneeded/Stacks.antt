-- ===== src/Unneeded/Stacks.antt =====
-- A std::map from threads to std::stacks. The head of a list is the stack's top; `top` and `pop` on
-- an empty stack have no result.
use slimmer.Base.{ℕ, List, [], ◌∷◌, Option, none, some, map_at, map_set, nat_order}

module _ {ℓ} {A : Type ℓ} where
  abbrev pub stack_of : List (ℕ × List A) → ℕ → List A
  stack_of m tid = map_at [] m tid

  unfoldable pub push : List (ℕ × List A) → ℕ → A → List (ℕ × List A)
  push m tid x = map_set m tid (x ∷ stack_of m tid)

  unfoldable pub top : List (ℕ × List A) → ℕ → Option A
  top m tid = elim (stack_of m tid) [ [] ↦ none | x ∷ xs ↦ some x ]

  unfoldable pub set_top : List (ℕ × List A) → ℕ → A → Option (List (ℕ × List A))
  set_top m tid y = elim (stack_of m tid) [ [] ↦ none | x ∷ xs ↦ some (map_set m tid (y ∷ xs)) ]

  unfoldable pub pop : List (ℕ × List A) → ℕ → Option (List (ℕ × List A))
  pop m tid = elim (stack_of m tid) [ [] ↦ none | x ∷ xs ↦ some (map_set m tid xs) ]
