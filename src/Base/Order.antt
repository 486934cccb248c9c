-- ===== src/Base/Order.antt =====
-- `operator<` of a key type as an interface, with the promise that it is a strict total order.
use slimmer.Base.Tests.{ltb}
use slimmer.Base.Int.{ℤ, ltb_ℤ, ltb_ℤ_irrefl, ltb_ℤ_tri, ltb_ℤ_trans}
use Prim.Native.Nat.{ℕ}
use mathlib.Core.Path.{◌≡◌}
use mathlib.Core.Bool.{Bool, true, false, ◌&&◌, ◌||◌, not}
use native.Mathlib.Omega.{arith}

pub record StrictOrder {ℓ} (A : Type ℓ) : Type ℓ where
  pub less : A → A → Bool
  pub irrefl : (a : A) → less a a ≡ false
  pub tri : (a b : A) → less a b ≡ false → less b a ≡ false → a ≡ b
  pub trans : (a b c : A) → less a b ≡ true → less b c ≡ true → less a c ≡ true

pub ltb_irrefl : (a : ℕ) → ltb a a ≡ false
ltb_irrefl a = ground arith

pub ltb_tri : (a b : ℕ) → ltb a b ≡ false → ltb b a ≡ false → a ≡ b
ltb_tri a b p q = ground arith

pub ltb_trans : (a b c : ℕ) → ltb a b ≡ true → ltb b c ≡ true → ltb a c ≡ true
ltb_trans a b c p q = ground arith

instance abbrev pub nat_order : StrictOrder ℕ
nat_order = record { less = ltb; irrefl = ltb_irrefl; tri = ltb_tri; trans = ltb_trans }

instance abbrev pub int_order : StrictOrder ℤ
int_order = record { less = ltb_ℤ; irrefl = ltb_ℤ_irrefl; tri = ltb_ℤ_tri; trans = ltb_ℤ_trans }

-- `operator<` of std::pair on two numbers.
abbrev pub pair_less : ℕ × ℕ → ℕ × ℕ → Bool
pair_less (a, b) (c, d) = ltb a c || (not (ltb c a) && ltb b d)

pub pair_irrefl : (p : ℕ × ℕ) → pair_less p p ≡ false
pair_irrefl (a, b) = ground arith

pub pair_tri : (p q : ℕ × ℕ) → pair_less p q ≡ false → pair_less q p ≡ false → p ≡ q
pair_tri (a, b) (c, d) h k = ground arith

pub pair_trans :
    (p q r : ℕ × ℕ) → pair_less p q ≡ true → pair_less q r ≡ true → pair_less p r ≡ true
pair_trans (a, b) (c, d) (e, f) h k = ground arith

instance abbrev pub pair_order : StrictOrder (ℕ × ℕ)
pair_order = record { less = pair_less; irrefl = pair_irrefl; tri = pair_tri; trans = pair_trans }
