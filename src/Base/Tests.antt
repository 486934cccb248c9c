-- ===== src/Base/Tests.antt =====
-- Boolean tests on the native numbers, the conditional, and tests of equality as an interface.
use Prim.Native.Nat.{ℕ, ◌≤◌, ◌<◌, compare, Ordering}
use mathlib.Core.Path.{◌≡◌, refl, sym, subst}
use mathlib.Core.Logic.{◌↔◌, ◌⊎◌, inl, inr}
use mathlib.Core.Bool.{Bool, true, false}
use mathlib.Core.Option.{Option, none, some}
use native.Mathlib.Omega.{arith}

abbrev pub ltb : ℕ → ℕ → Bool
ltb a b = elim (compare a b) [ Ordering.lt ↦ true | _ ↦ false ]

abbrev pub leb : ℕ → ℕ → Bool
leb a b = elim (compare a b) [ Ordering.gt ↦ false | _ ↦ true ]

infix 50 ◌==◌
abbrev pub ◌==◌ : ℕ → ℕ → Bool
a == b = elim (compare a b) [ Ordering.eq ↦ true | _ ↦ false ]

infix 1 if◌then◌else◌
abbrev pub if◌then◌else◌ {ℓ} : {A : Type ℓ} → Bool → A → A → A
if true then x else y = x
if false then x else y = y

pub ltb→lt : (a b : ℕ) → ltb a b ≡ true → a < b
ltb→lt a b h = ground arith

pub ltb→ge : (a b : ℕ) → ltb a b ≡ false → b ≤ a
ltb→ge a b h = ground arith

pub lt→ltb : (a b : ℕ) → a < b → ltb a b ≡ true
lt→ltb a b h = ground arith

pub ge→ltb : (a b : ℕ) → b ≤ a → ltb a b ≡ false
ge→ltb a b h = ground arith

pub leb→le : (a b : ℕ) → leb a b ≡ true → a ≤ b
leb→le a b h = ground arith

pub leb→gt : (a b : ℕ) → leb a b ≡ false → b < a
leb→gt a b h = ground arith

pub le→leb : (a b : ℕ) → a ≤ b → leb a b ≡ true
le→leb a b h = ground arith

pub gt→leb : (a b : ℕ) → b < a → leb a b ≡ false
gt→leb a b h = ground arith

pub ==_iff : (a b : ℕ) → ((a == b) ≡ true) ↔ (a ≡ b)
==_iff a b = ground arith

pub ruleset tests = (arith, ltb→lt, ltb→ge, leb→le, leb→gt)

-- To split on a computed value and keep the equation.
pub Bool-cases : (b : Bool) → (b ≡ true) ⊎ (b ≡ false)
Bool-cases true = inl refl
Bool-cases false = inr refl

pub Option-cases {ℓ} : {A : Type ℓ} (o : Option A) → (o ≡ none) ⊎ ((a : A) × (o ≡ some a))
Option-cases none = inl refl
Option-cases (some a) = inr (a, refl)

-- `operator==` of a value type, with the promise that it decides equality.
pub record BoolEq {ℓ} (A : Type ℓ) : Type ℓ where
  pub same : A → A → Bool
  pub same_iff : (a b : A) → (same a b ≡ true) ↔ (a ≡ b)

instance abbrev pub nat_eq : BoolEq ℕ
nat_eq = record { same = ◌==◌; same_iff = ==_iff }

-- A chain of steps that may fail.
infixl 5 ◌>>=◌
abbrev pub ◌>>=◌ {ℓ κ} : {A : Type ℓ} {B : Type κ} → Option A → (A → Option B) → Option B
none >>= f = none
some a >>= f = f a

pub >>=-eq-some {ℓ κ} :
    {A : Type ℓ} {B : Type κ} (m : Option A) (f : A → Option B) {b : B}
    → (m >>= f) ≡ some b
    → (a : A) × (m ≡ some a) × (f a ≡ some b)
>>=-eq-some (some a) f h = (a, refl, h)
>>=-eq-some none f h = cc

-- A property of the result, if there is one.
pub data AllOf {ℓ κ} {A : Type ℓ} (P : A → Type κ) : Option A → Type (ℓ ⊔ κ) where
  nothing : AllOf P none
  just : {a : A} → P a → AllOf P (some a)

pub AllOf->>= {ℓ κ ι μ} :
    {A : Type ℓ} {B : Type κ} {P : A → Type ι} {Q : B → Type μ} {m : Option A} {f : A → Option B}
    → AllOf P m
    → ((a : A) → P a → AllOf Q (f a))
    → AllOf Q (m >>= f)
AllOf->>= nothing g = nothing
AllOf->>= (just {a} p) g = g a p

-- The same for a step of whose result nothing is asked.
pub AllOf-after {ℓ κ μ} :
    {A : Type ℓ} {B : Type κ} {Q : B → Type μ} (m : Option A) {f : A → Option B}
    → ((a : A) → AllOf Q (f a))
    → AllOf Q (m >>= f)
AllOf-after none g = nothing
AllOf-after (some a) g = g a

-- The same with the equation of the step.
pub AllOf-with {ℓ κ μ} :
    {A : Type ℓ} {B : Type κ} {Q : B → Type μ} (m : Option A) {f : A → Option B}
    → ((a : A) → m ≡ some a → AllOf Q (f a))
    → AllOf Q (m >>= f)
AllOf-with none g = nothing
AllOf-with (some a) g = g a refl

pub AllOf-imp {ℓ κ μ} :
    {A : Type ℓ} {P : A → Type κ} {Q : A → Type μ} {m : Option A}
    → AllOf P m
    → ((a : A) → P a → Q a)
    → AllOf Q m
AllOf-imp nothing g = nothing
AllOf-imp (just {a} p) g = just (g a p)

pub AllOf-if {ℓ κ} :
    {A : Type ℓ} {P : A → Type κ} (c : Bool) {m n : Option A}
    → AllOf P m
    → AllOf P n
    → AllOf P (if c then m else n)
AllOf-if true p q = p
AllOf-if false p q = q

of_just {ℓ κ} : {A : Type ℓ} {P : A → Type κ} {a : A} → AllOf P (some a) → P a
of_just (just p) = p

pub AllOf-some {ℓ κ} :
    {A : Type ℓ} {P : A → Type κ} {m : Option A} {a : A} → AllOf P m → m ≡ some a → P a
AllOf-some {P} p e = of_just (subst (AllOf P) e p)

-- There is a result, and it has a property.
pub data Gives {ℓ κ} {A : Type ℓ} (P : A → Type κ) : Option A → Type (ℓ ⊔ κ) where
  gives : {a : A} → P a → Gives P (some a)

pub Gives->>= {ℓ κ ι μ} :
    {A : Type ℓ} {B : Type κ} {P : A → Type ι} {Q : B → Type μ} {m : Option A} {f : A → Option B}
    → Gives P m
    → ((a : A) → P a → Gives Q (f a))
    → Gives Q (m >>= f)
Gives->>= (gives {a} p) g = g a p

pub Gives-imp {ℓ κ μ} :
    {A : Type ℓ} {P : A → Type κ} {Q : A → Type μ} {m : Option A}
    → Gives P m
    → ((a : A) → P a → Q a)
    → Gives Q m
Gives-imp (gives {a} p) g = gives (g a p)

pub Gives-if {ℓ κ} :
    {A : Type ℓ} {P : A → Type κ} (c : Bool) {m n : Option A}
    → (c ≡ true → Gives P m)
    → (c ≡ false → Gives P n)
    → Gives P (if c then m else n)
Gives-if true p q = p refl
Gives-if false p q = q refl

pub Gives-eq {ℓ κ} :
    {A : Type ℓ} {P : A → Type κ} {m : Option A} {a : A} → m ≡ some a → P a → Gives P m
Gives-eq {P} e p = subst (Gives P) (sym e) (gives p)

pub result {ℓ κ} :
    {A : Type ℓ} {P : A → Type κ} {m : Option A} → Gives P m → (a : A) × (m ≡ some a) × P a
result (gives {a} p) = (a, refl, p)

pub if_some_else {ℓ} :
    {A : Type ℓ} (c : Bool) (t : A) {m : Option A} {q : A}
    → m ≡ some q
    → (if c then some t else m) ≡ some (if c then t else q)
if_some_else true t h = refl
if_some_else false t h = h
