-- ===== src/Program.antt =====
-- include/SlimmerUtil.h and tools/PrintBug: the static facts about the instrumented program, the
-- dynamic instructions and the blocks that the analyses pass on to one another.
use slimmer.Base.{
  ℕ, ℤ, Bool, true, false, List, Option, ◌≡◌, ltb, ltb_ℤ, if◌then◌else◌, get_elem?, StrictOrder,
  arith, ltb_ℤ_tri, not, ◌&&◌, BoolEq, ◌==◌, ◌>>=◌, pos_part, neg_part, sub_ℕ, pos, ◌^◌, [], ◌∷◌,
  ◌↔◌,
}

-- The bytes of a std::string.
abbrev pub Text : Type 0
Text = List ℕ

-- `InstInfo::DepType` and `InstInfo::InstType`.
pub data DepType : Type 0 where
  inst arg pointer_arg constant : DepType

pub data InstType : Type 0 where
  normal_inst load_inst store_inst call_inst external_call_inst return_inst : InstType
  terminator_inst phi_node var_arg atomic_inst alloca_inst : InstType

pub record InstInfo : Type 0 where
  pub id : ℕ
  pub bb : ℕ
  pub is_pointer : Bool
  pub loc : ℤ
  pub file : Text
  pub code : Text
  pub ssa_dependencies : List (DepType × ℕ)
  pub type : InstType
  pub fun : Text
  pub successors : List ℕ
  pub phi_dependencies : List (ℕ × DepType × ℕ)

-- The globals `Ins` and `BB2Ins`, which LoadInstInfo fills and the analyses only read.
pub record Program : Type 0 where
  pub ins : List InstInfo
  pub bb2ins : List (List ℕ)

-- The `cnt`-th execution of instruction `id` by thread `tid`.
pub record DynamicInst : Type 0 where
  pub tid : ℕ
  pub id : ℕ
  pub cnt : ℤ

-- `DynamicInst::operator<`
abbrev pub dynamic_less : DynamicInst → DynamicInst → Bool
dynamic_less a b =
    if not (a.tid == b.tid)
    then ltb a.tid b.tid
    else if not (a.id == b.id)
    then ltb a.id b.id
    else ltb_ℤ a.cnt b.cnt

pub dynamic_irrefl : (a : DynamicInst) → dynamic_less a a ≡ false
dynamic_irrefl a = ground arith

pub dynamic_tri : (a b : DynamicInst) → dynamic_less a b ≡ false → dynamic_less b a ≡ false → a ≡ b
dynamic_tri a b p q = ground (arith, ltb_ℤ_tri a.cnt b.cnt)

pub dynamic_trans :
    (a b c : DynamicInst)
    → dynamic_less a b ≡ true
    → dynamic_less b c ≡ true
    → dynamic_less a c ≡ true
dynamic_trans a b c p q = ground arith

instance abbrev pub dynamic_order : StrictOrder DynamicInst
dynamic_order = record {
  less = dynamic_less;
  irrefl = dynamic_irrefl;
  tri = dynamic_tri;
  trans = dynamic_trans;
}

-- `SmallestBlock::SmallestBlockType`
pub data SmallestBlockType : Type 0 where
  normal_block memory_access_block external_call_block : SmallestBlockType
  impactful_call_block memset_block memmove_block declare_block : SmallestBlockType

pub record SmallestBlock : Type 0 where
  pub type : SmallestBlockType
  pub tid : ℕ
  pub bbid : ℕ
  pub start : ℕ
  pub end : ℕ
  pub addr : List ℕ
  pub is_first : ℕ
  pub is_last : ℕ
  pub caller : ℕ
  pub last_bbid : ℤ

-- `DynamicInst::operator==`
abbrev pub dynamic_same : DynamicInst → DynamicInst → Bool
dynamic_same a b =
    (a.tid == b.tid)
    && (a.id == b.id)
    && ((pos_part a.cnt == pos_part b.cnt) && (neg_part a.cnt == neg_part b.cnt))

int_same : (a b : ℤ) → pos_part a ≡ pos_part b → neg_part a ≡ neg_part b → a ≡ b
int_same a b p q = ground arith

pub dynamic_same_iff : (a b : DynamicInst) → (dynamic_same a b ≡ true) ↔ (a ≡ b)
dynamic_same_iff a b = ground (arith, int_same a.cnt b.cnt)

instance abbrev pub dynamic_eq : BoolEq DynamicInst
dynamic_eq = record { same = dynamic_same; same_iff = dynamic_same_iff }

-- `Ins[id]` and `BB2Ins[bb][index]`; no value stands for an access out of bounds.
abbrev pub inst_info : Program → ℕ → Option InstInfo
inst_info p id = get_elem? p.ins id

abbrev pub inst_at : Program → ℕ → ℕ → Option ℕ
inst_at p bb index = do block ← get_elem? p.bb2ins bb; get_elem? block index

-- (int32_t) of a uint32_t.
abbrev pub to_int32 : ℕ → ℤ
to_int32 n = if ltb n (2 ^ 31) then pos n else sub_ℕ n (2 ^ 32)

-- std::string::operator==
abbrev pub is_text : Text → Text → Bool
is_text [] [] = true
is_text (a ∷ s) (b ∷ t) = (a == b) && is_text s t
is_text _ _ = false
