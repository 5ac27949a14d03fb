-- ===== src/Word/Division.antt =====
-- Division of signed integers, cut off towards zero, and integers that fit a word.
use native.Mathlib.Nat.{div-add-mod, div-le_self, mul-le-mul_left}
use herve.Base.{ℕ, zero, suc, ◌*◌, ◌/◌, ◌^◌, ◌≤◌, ◌<◌, ◌≡◌, ◌≢◌, refl, arith}
use herve.Word.{signed32}
use herve.Word.Int.{ℤ, pos, negsuc, pos_part, neg_part, nat_abs, quot_ℤ, rem_ℤ, to_u32, ◌+ℤ◌, ◌*ℤ◌}

-- The integers of `int32_t`.
abbrev pub FitsWord : ℤ → Type 0
FitsWord z = (pos_part z < 2 ^ 31) × (neg_part z ≤ 2 ^ 31)

pub signed32-to_u32 : (z : ℤ) → FitsWord z → signed32 (to_u32 z) ≡ z
unfolding to_u32
signed32-to_u32 (pos n) h = ground arith
signed32-to_u32 (negsuc n) h = ground arith

pub signed32-FitsWord : (a : ℕ) → a < 2 ^ 32 → FitsWord (signed32 a)
signed32-FitsWord a h = (ground arith, ground arith)

-- The dividend is the quotient times the divisor, and the remainder; the remainder is smaller
-- than the divisor.
pub quot_ℤ-rem_ℤ :
    (x y : ℤ)
    → nat_abs y ≢ 0
    → (quot_ℤ x y *ℤ y +ℤ rem_ℤ x y ≡ x) × (nat_abs (rem_ℤ x y) < nat_abs y)
unfolding quot_ℤ rem_ℤ ◌+ℤ◌ ◌*ℤ◌
quot_ℤ-rem_ℤ (pos n) (pos m) h = (ground (arith, div-add-mod n m), ground arith)
quot_ℤ-rem_ℤ (pos n) (negsuc m) h = (ground (arith, div-add-mod n (suc m)), ground arith)
quot_ℤ-rem_ℤ (negsuc n) (pos m) h = (ground (arith, div-add-mod (suc n) m), ground arith)
quot_ℤ-rem_ℤ (negsuc n) (negsuc m) h = (ground (arith, div-add-mod (suc n) (suc m)), ground arith)

-- The remainder has the sign of the dividend, and is no larger.
pub rem_ℤ_parts :
    (x y : ℤ)
    → nat_abs y ≢ 0
    → (pos_part (rem_ℤ x y) ≤ pos_part x) × (neg_part (rem_ℤ x y) ≤ neg_part x)
unfolding rem_ℤ
rem_ℤ_parts (pos n) y h =
    (ground (arith, div-add-mod n (nat_abs y)), ground (arith, div-add-mod n (nat_abs y)))
rem_ℤ_parts (negsuc n) y h = (
  ground (arith, div-add-mod (suc n) (nat_abs y)),
  ground (arith, div-add-mod (suc n) (nat_abs y)),
)

-- The quotient is no larger than the dividend, and, apart from a divisor -1, at most half of it
-- where both are negative.
pub quot_ℤ_parts :
    (x y : ℤ) → (pos_part (quot_ℤ x y) ≤ nat_abs x) × (neg_part (quot_ℤ x y) ≤ nat_abs x)
unfolding quot_ℤ
quot_ℤ_parts (pos n) (pos m) = (ground (arith, div-le_self n m), ground arith)
quot_ℤ_parts (pos n) (negsuc m) = (ground arith, ground (arith, div-le_self n (suc m)))
quot_ℤ_parts (negsuc n) (pos m) = (ground arith, ground (arith, div-le_self (suc n) m))
quot_ℤ_parts (negsuc n) (negsuc m) = (ground (arith, div-le_self (suc n) (suc m)), ground arith)

half_at_most : (n m : ℕ) → 2 ≤ m → 2 * (n / m) ≤ n
half_at_most n m h =
    let grown : n / m * 2 ≤ n / m * m = mul-le-mul_left (n / m) h in
    omega (arith, grown, div-add-mod n m)

pub quot_ℤ_halves :
    (x y : ℤ) → y ≢ negsuc 0 → (pos_part x ≡ 0) → 2 * pos_part (quot_ℤ x y) ≤ nat_abs x
unfolding quot_ℤ
quot_ℤ_halves (pos n) (pos m) h e = ground (arith, div-le_self n m)
quot_ℤ_halves (pos n) (negsuc m) h e = ground arith
quot_ℤ_halves (negsuc n) (pos m) h e = ground arith
quot_ℤ_halves (negsuc n) (negsuc zero) h e = absurd (h refl)
quot_ℤ_halves (negsuc n) (negsuc (suc m)) h e =
    ground (arith, half_at_most (suc n) (suc (suc m)) (omega arith))
