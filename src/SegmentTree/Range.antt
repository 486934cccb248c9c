-- ===== src/SegmentTree/Range.antt =====
-- Half-open ranges of addresses.
use slimmer.Base.{ℕ, min, max, ◌≤◌, ◌<◌, ◌≡◌, Bool, true, false, ◌&&◌, ltb, leb, ◌⊎◌, arith}

-- Whether `x` lies in [l, r).
abbrev pub in_range : ℕ → ℕ → ℕ → Bool
in_range l r x = leb l x && ltb x r

pub in_range_below_min : (l r x mid : ℕ) → x < mid → in_range l (min r mid) x ≡ in_range l r x
in_range_below_min l r x mid h = ground arith

pub in_range_above_max : (l r x mid : ℕ) → mid ≤ x → in_range (max l mid) r x ≡ in_range l r x
in_range_above_max l r x mid h = ground arith

pub in_range_inside : (l r x : ℕ) → l ≤ x → x < r → in_range l r x ≡ true
in_range_inside l r x p q = ground arith

pub in_range_outside : (l r x : ℕ) → (x < l) ⊎ (r ≤ x) → in_range l r x ≡ false
in_range_outside l r x h = ground arith
