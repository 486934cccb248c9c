-- ===== src/Blocks.antt =====
-- What the analyses of tools/PrintBug may rely on in a block trace: blocks that name instructions of
-- the program, and frames that are opened before they are closed.
use mathlib.Core.List.{reverse}
use mathlib.Core.Option.{some-injective}
use mathlib.Core.Path.{subst}
use slimmer.Base.{
  ℕ, zero, suc, ◌^◌, ◌+◌, ◌-◌, ◌<◌, ◌≤◌, ◌≡◌, ◌⊎◌, Bool, true, false, ltb, if◌then◌else◌, List, [],
  ◌∷◌, some, length, get_elem?, equiv, nat_order, All, >>=-eq-some, arith, Bool-cases, inl, inr,
}
use slimmer.Program.{
  Program, InstInfo, return_inst, SmallestBlock, SmallestBlockType, normal_block,
  memory_access_block, memset_block, memmove_block, external_call_block, impactful_call_block,
  declare_block, inst_at, inst_info,
}

abbrev pub flag : ℕ → ℕ
flag n = if ltb 0 n then 1 else 0

abbrev pub declares : SmallestBlockType → Bool
declares declare_block = true
declares _ = false

-- The frames of each thread that are open in front of a block, from those behind it.
abbrev pub in_front : (ℕ → ℕ) → SmallestBlock → ℕ → ℕ
in_front h b t =
    if declares b.type
    then h t
    else if equiv b.tid t
    then h t + flag b.is_last - flag b.is_first
    else h t

-- A trace, the last block first: where `h` counts the frames that are open behind it, every block
-- stands in an open frame.
abbrev pub IsNested : (ℕ → ℕ) → List SmallestBlock → Type 0
IsNested h [] = Unit {0}
IsNested h (b ∷ bs) =
    (declares b.type ≡ false → 0 < h b.tid + flag b.is_last) × IsNested (in_front h b) bs

abbrev pub IsNestedTrace : List SmallestBlock → Type 0
IsNestedTrace blocks = IsNested (λ t. 0) (reverse blocks)

-- A program whose basic blocks name its instructions and return at their ends only.
abbrev pub IsBody : Program → List ℕ → Type 0
IsBody p [] = Unit {0}
IsBody p (id ∷ ids) =
    ((info : InstInfo) × (inst_info p id ≡ some info) × (info.type ≡ return_inst → length ids ≡ 0))
    × IsBody p ids

abbrev pub IsProgram : Program → Type 0
IsProgram p = All (IsBody p) p.bb2ins

-- A stretch of a basic block; if it returns, it is marked as a last one.
pub record IsStretch (p : Program) (b : SmallestBlock) : Type 0 where
  pub insts : List ℕ
  pub body : get_elem? p.bb2ins b.bbid ≡ some insts
  pub ordered : b.start ≤ b.end
  pub within : b.end ≤ length insts
  pub marked :
      (i id : ℕ) (info : InstInfo)
      → i < b.end
      → get_elem? insts i ≡ some id
      → inst_info p id ≡ some info
      → info.type ≡ return_inst
      → (b.is_last ≡ 1) ⊎ (b.is_last ≡ 2)

-- A block of one instruction of the program.
pub record IsSingle (p : Program) (b : SmallestBlock) : Type 0 where
  pub id : ℕ
  pub info : InstInfo
  pub at : inst_at p b.bbid b.start ≡ some id
  pub known : inst_info p id ≡ some info

-- The addresses that a block of each type carries, all of 64 bits.
abbrev pub HasAddresses : SmallestBlockType → List ℕ → Type 0
HasAddresses memory_access_block (l ∷ r ∷ []) = r < 2 ^ 64
HasAddresses memset_block (l ∷ r ∷ []) = r < 2 ^ 64
HasAddresses memmove_block (l ∷ r ∷ from ∷ to ∷ []) = (r < 2 ^ 64) × (to < 2 ^ 64)
HasAddresses external_call_block (fun ∷ args) = Unit {0}
HasAddresses impactful_call_block (fun ∷ args) = Unit {0}
HasAddresses declare_block (l ∷ r ∷ []) = r < 2 ^ 64
HasAddresses normal_block addr = Unit {0}
HasAddresses _ _ = ⊥

abbrev pub NamesInsts : Program → SmallestBlock → SmallestBlockType → Type 0
NamesInsts p b normal_block = IsStretch p b
NamesInsts p b declare_block = Unit {0}
NamesInsts p b _ = IsSingle p b

abbrev pub IsValid : Program → SmallestBlock → Type 0
IsValid p b = NamesInsts p b b.type × HasAddresses b.type b.addr

-- A larger count of open frames does no harm.
in_front_mono :
    (h k : ℕ → ℕ) (b : SmallestBlock) (t : ℕ)
    → ((u : ℕ) → h u ≤ k u)
    → in_front h b t ≤ in_front k b t
in_front_mono h k b t le = elim (Bool-cases (declares b.type)) [
  | inl c ↦ rw c (le t)
  | inr c ↦ rw c (elim (Bool-cases (equiv b.tid t)) [
    | inl d ↦ rw d (omega (arith, le t))
    | inr d ↦ rw d (le t)
  ])
]

pub IsNested-mono :
    (h k : ℕ → ℕ) (bs : List SmallestBlock) → ((t : ℕ) → h t ≤ k t) → IsNested h bs → IsNested k bs
IsNested-mono h k [] le n = tt
IsNested-mono h k (b ∷ bs) le (inside, n) = (
  λ c. omega (arith, inside c, le b.tid),
  IsNested-mono (in_front h b) (in_front k b) bs (λ t. in_front_mono h k b t le) n,
)

body_at :
    (p : Program) (insts : List ℕ) (i id : ℕ)
    → IsBody p insts
    → get_elem? insts i ≡ some id
    → (info : InstInfo) × (inst_info p id ≡ some info)
      × (info.type ≡ return_inst → suc i ≡ length insts)
body_at p [] i id w e = cc
body_at p (x ∷ xs) zero id ((info, known, last), w) e =
    let same : x ≡ id = some-injective x id e in
    (info, rw (← same) known, λ c. omega (arith, last c))
body_at p (x ∷ xs) (suc i) id ((_, _, _), w) e =
    let (info, known, last) = body_at p xs i id w e in (info, known, λ c. omega (arith, last c))

pub All-at {ℓ} :
    {A : Type ℓ} (P : A → Type 0) (xs : List A) (i : ℕ) {x : A}
    → All P xs
    → get_elem? xs i ≡ some x
    → P x
All-at P [] i h e = cc
All-at P (y ∷ ys) zero h e = subst P (some-injective y _ e) h.0
All-at P (y ∷ ys) (suc i) h e = All-at P ys i h.1 e

-- Every instruction of a basic block is known, and one that returns is the last.
pub inst_known :
    (p : Program) (bb i id : ℕ) {insts : List ℕ}
    → IsProgram p
    → get_elem? p.bb2ins bb ≡ some insts
    → get_elem? insts i ≡ some id
    → (info : InstInfo) × (inst_info p id ≡ some info)
      × (info.type ≡ return_inst → suc i ≡ length insts)
inst_known p bb i id {insts} w e at = body_at p insts i id (All-at (IsBody p) p.bb2ins bb w e) at

pub inst_at_known :
    (p : Program) (bb i id : ℕ)
    → IsProgram p
    → inst_at p bb i ≡ some id
    → (info : InstInfo) × (inst_info p id ≡ some info)
inst_at_known p bb i id w e =
    let (insts, body, at) = >>=-eq-some (get_elem? p.bb2ins bb) (λ insts. get_elem? insts i) e in
    let (info, known, _) = inst_known p bb i id w body at in (info, known)
