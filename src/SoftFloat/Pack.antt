-- ===== src/SoftFloat/Pack.antt =====
-- The bit patterns that dpi-riscv/softfloat.c puts together with `|`, as sums of their fields.
use herve.Base.{ℕ, ◌+◌, ◌*◌, ◌%◌, ◌^◌, ◌<◌, ◌≡◌, ◌≢◌, refl, arith, bit_or}
use herve.Word.Bits.{bit_or-low_high, bit_or-high_low}
use herve.Word.Int.{pos}
use herve.SoftFloat.Fields.{set_sign, with_leading_one, shl64}
use herve.SoftFloat.Normalize.{pack}

pub set_sign_sum : (x s : ℕ) → s < 2 → set_sign x s ≡ x % 2 ^ 63 + s * 2 ^ 63
unfolding set_sign
set_sign_sum x s h =
    let same : s % 2 ≡ s = omega arith in
    rw (same, bit_or-low_high 63 (x % 2 ^ 63) s (omega arith)) refl

pub with_leading_one_sum :
    (exp mant : ℕ) → exp ≢ 0 → mant < 2 ^ 52 → with_leading_one exp mant ≡ mant + 2 ^ 52
unfolding with_leading_one
with_leading_one_sum exp mant ne h = ground (arith, bit_or-low_high 52 mant 1 h)

-- An exponent and a mantissa side by side.
pub exp_mant_sum :
    (exp mant : ℕ) → exp < 2 ^ 11 → mant < 2 ^ 52 → bit_or (shl64 exp 52) mant ≡ exp * 2 ^ 52 + mant
exp_mant_sum exp mant small h =
    let same : exp * 2 ^ 52 % 2 ^ 64 ≡ exp * 2 ^ 52 = omega arith in
    rw same (bit_or-high_low 52 mant exp h)

pub pack_sum_lem :
    (exp mant sign : ℕ)
    → 0 < exp
    → exp < 2047
    → mant < 2 ^ 52
    → sign < 2
    → pack (pos exp) mant sign ≡ sign * 2 ^ 63 + exp * 2 ^ 52 + mant
unfolding pack
pack_sum_lem exp mant sign positive small fits s =
    ground
      (arith, exp_mant_sum exp mant (omega arith) fits, set_sign_sum (exp * 2 ^ 52 + mant) sign s)
