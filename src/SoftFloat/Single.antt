-- ===== src/SoftFloat/Single.antt =====
-- `__extendsfdf2` and `__truncdfsf2` of dpi-riscv/softfloat.c, one after the other.
use herve.Base.{
  ℕ, zero, suc, ◌+◌, ◌-◌, ◌*◌, ◌/◌, ◌%◌, ◌^◌, ◌<◌, ◌≡◌, ◌⊎◌, inl, inr, refl, arith, false, ◌==◌,
  bit_or, ◌∙◌, ==-false, leb-false,
}
use herve.Word.{u32}
use herve.Word.Bits.{bit_or-low_high, bit_or-high_low}
use herve.SoftFloat.Fields.{infinity, shl64}
use herve.SoftFloat.Convert.{extendsfdf2, trunc_round, truncdfsf2}

-- The three fields of a float.
abbrev pub float_sign : ℕ → ℕ
float_sign a = a / 2 ^ 31

abbrev pub float_exp : ℕ → ℕ
float_exp a = a / 2 ^ 23 % 2 ^ 8

abbrev pub float_mant : ℕ → ℕ
float_mant a = a % 2 ^ 23

-- The double that a normal float is extended to.
extended :
    (s e m : ℕ)
    → s < 2
    → e < 2 ^ 8
    → m < 2 ^ 23
    → bit_or (bit_or (shl64 s 63) (shl64 (e + 896) 52)) (shl64 m 29)
      ≡ s * 2 ^ 63 + (e + 896) * 2 ^ 52 + m * 2 ^ 29
extended s e m hs he hm =
    let top : shl64 s 63 ≡ s * 2 ^ 63 = omega arith in
    let middle : shl64 (e + 896) 52 ≡ (e + 896) * 2 ^ 52 = omega arith in
    let low : shl64 m 29 ≡ m * 2 ^ 29 = omega arith in
    let joined : bit_or (s * 2 ^ 63) ((e + 896) * 2 ^ 52) ≡ s * 2 ^ 63 + (e + 896) * 2 ^ 52 =
      bit_or-high_low 63 ((e + 896) * 2 ^ 52) s (omega arith) in
    let high : s * 2 ^ 63 + (e + 896) * 2 ^ 52 ≡ (s * 2 ^ 11 + (e + 896)) * 2 ^ 52 = omega arith in
    rw (top, middle, low, joined, high)
      (bit_or-high_low 52 (m * 2 ^ 29) (s * 2 ^ 11 + (e + 896)) (omega arith))

-- The fields of a float side by side.
joined_float :
    (s e m : ℕ)
    → s < 2
    → e < 2 ^ 8
    → m < 2 ^ 23
    → bit_or (bit_or (u32 (s * 2 ^ 31)) (u32 (e * 2 ^ 23))) m ≡ s * 2 ^ 31 + e * 2 ^ 23 + m
joined_float s e m hs he hm =
    let top : u32 (s * 2 ^ 31) ≡ s * 2 ^ 31 = omega arith in
    let middle : u32 (e * 2 ^ 23) ≡ e * 2 ^ 23 = omega arith in
    let joined : bit_or (s * 2 ^ 31) (e * 2 ^ 23) ≡ s * 2 ^ 31 + e * 2 ^ 23 =
      bit_or-high_low 31 (e * 2 ^ 23) s (omega arith) in
    let high : s * 2 ^ 31 + e * 2 ^ 23 ≡ (s * 2 ^ 8 + e) * 2 ^ 23 = omega arith in
    rw (top, middle, joined, high) (bit_or-high_low 23 m (s * 2 ^ 8 + e) hm)

-- Rounding a mantissa that ends in 29 zeroes.
trunc_round_exact :
    (s e m : ℕ)
    → s < 2
    → e < 2 ^ 8
    → m < 2 ^ 23
    → trunc_round s e (m * 2 ^ 29 + 2 ^ 52) ≡ s * 2 ^ 31 + e * 2 ^ 23 + m
unfolding trunc_round
trunc_round_exact s e m hs he hm =
    let extra : (m * 2 ^ 29 + 2 ^ 52) % 2 ^ 29 ≡ 0 = omega arith in
    let kept : (m * 2 ^ 29 + 2 ^ 52) / 2 ^ 29 ≡ m + 2 ^ 23 = omega arith in
    let word : u32 (m + 2 ^ 23) ≡ m + 2 ^ 23 = omega arith in
    let no_carry : ((m + 2 ^ 23) / 2 ^ 24 % 2 == 1) ≡ false = ground arith in
    let mant : (m + 2 ^ 23) % 2 ^ 23 ≡ m = omega arith in
    rw (extra, kept, word, no_carry, mant) (joined_float s e m hs he hm)

truncdfsf2_normal :
    (s e m : ℕ)
    → s < 2
    → 0 < e
    → e < 255
    → m < 2 ^ 23
    → truncdfsf2 (s * 2 ^ 63 + (e + 896) * 2 ^ 52 + m * 2 ^ 29) ≡ s * 2 ^ 31 + e * 2 ^ 23 + m
unfolding truncdfsf2
truncdfsf2_normal s e m hs lo hi hm =
    let a : ℕ = s * 2 ^ 63 + (e + 896) * 2 ^ 52 + m * 2 ^ 29 in
    let sign : a / 2 ^ 63 ≡ s = omega arith in
    let exp : a / 2 ^ 52 % 2 ^ 11 ≡ e + 896 = omega arith in
    let mant : a % 2 ^ 52 ≡ m * 2 ^ 29 = omega arith in
    let one : bit_or (m * 2 ^ 29) (2 ^ 52) ≡ m * 2 ^ 29 + 2 ^ 52 =
      bit_or-low_high 52 (m * 2 ^ 29) 1 (omega arith) in
    let same : e + 896 - 896 ≡ e = omega arith in
    rw
      (
        sign,
        exp,
        mant,
        one,
        same,
        ==-false (e + 896) 2047 (omega arith),
        ==-false (e + 896) 0 (omega arith),
        leb-false 1151 (e + 896) (omega arith),
        leb-false (e + 896) 896 (omega arith),
      )
      (trunc_round_exact s e m hs (omega arith) hm)

-- A float that is normal, a zero or an infinity.
abbrev pub IsRegular : ℕ → Type 0
IsRegular a =
    ((0 < float_exp a) × (float_exp a < 255))
    ⊎ ((float_exp a ≡ 0) × (float_mant a ≡ 0))
    ⊎ ((float_exp a ≡ 255) × (float_mant a ≡ 0))

extend_normal :
    (a : ℕ) → a < 2 ^ 32 → 0 < float_exp a → float_exp a < 255 → truncdfsf2 (extendsfdf2 a) ≡ a
unfolding extendsfdf2
extend_normal a word lo hi =
    let s = float_sign a in
    let e = float_exp a in
    let m = float_mant a in
    let whole : s * 2 ^ 31 + e * 2 ^ 23 + m ≡ a = omega arith in
    rw
      (
        ==-false (float_exp a) 0 (omega arith),
        ==-false (float_exp a) 255 (omega arith),
        extended s e m (omega arith) (omega arith) (omega arith),
      )
      (truncdfsf2_normal s e m (omega arith) lo hi (omega arith) ∙ whole)

-- The zeroes and infinities, by their two signs.
signed_zero : (s : ℕ) → s < 2 → truncdfsf2 (shl64 s 63) ≡ s * 2 ^ 31
unfolding truncdfsf2
signed_zero zero h = refl
signed_zero (suc zero) h = refl
signed_zero (suc (suc s)) h = absurd (omega arith)

signed_infinity :
    (s : ℕ) → s < 2 → truncdfsf2 (bit_or (shl64 s 63) infinity) ≡ s * 2 ^ 31 + 255 * 2 ^ 23
unfolding truncdfsf2
signed_infinity zero h = refl
signed_infinity (suc zero) h = refl
signed_infinity (suc (suc s)) h = absurd (omega arith)

-- A float that is normal, a zero or an infinity, extended to a double and truncated again, is the
-- float it was.
pub truncdfsf2-extendsfdf2 : (a : ℕ) → a < 2 ^ 32 → IsRegular a → truncdfsf2 (extendsfdf2 a) ≡ a
unfolding extendsfdf2
truncdfsf2-extendsfdf2 a word (inl (lo, hi)) = extend_normal a word lo hi
truncdfsf2-extendsfdf2 a word (inr (inl (e, m))) =
    rw (e, m) (signed_zero (float_sign a) (omega arith) ∙ omega arith)
truncdfsf2-extendsfdf2 a word (inr (inr (e, m))) =
    rw (e, m) (signed_infinity (float_sign a) (omega arith) ∙ omega arith)
