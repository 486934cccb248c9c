-- ===== src/SegmentTree/Midpoint.antt =====
-- The split point that Set, Get and Collect2 compute.
use slimmer.Base.{ℕ, ◌+◌, ◌/◌, ◌%◌, ◌^◌, ◌<◌, ◌==◌, ◌≡◌, ◌&&◌, if◌then◌else◌, arith}

-- `left / 2 + right / 2`, and one more if both ends are odd, on numbers that are not bounded.
unfoldable pub midpoint : ℕ → ℕ → ℕ
midpoint left right =
    let mid = left / 2 + right / 2 in if (left % 2 == 1) && (right % 2 == 1) then mid + 1 else mid

-- The same on uint64_t, where each sum wraps.
pub midpoint_u64 : ℕ → ℕ → ℕ
midpoint_u64 left right =
    let mid = (left / 2 + right / 2) % 2 ^ 64 in
    if (left % 2 == 1) && (right % 2 == 1) then (mid + 1) % 2 ^ 64 else mid

pub midpoint_lem : (left right : ℕ) → midpoint left right ≡ (left + right) / 2
unfolding midpoint
midpoint_lem left right = ground arith

-- On 64-bit ends the computation of the split point never wraps, and it is half of their true sum
-- rounded down, although that sum may take 65 bits.
pub midpoint_u64_exact :
    (left right : ℕ)
    → left < 2 ^ 64
    → right < 2 ^ 64
    → (midpoint_u64 left right ≡ midpoint left right)
      × (midpoint_u64 left right ≡ (left + right) / 2)
unfolding midpoint midpoint_u64
midpoint_u64_exact left right p q = ground arith
