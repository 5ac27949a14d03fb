-- ===== src/Word/Extend.antt =====
-- The integer that a field of `bits` bits stands for, and `sign_extend` of
-- dpi-riscv/sim/iss/rv32_dpi.c.
use native.Mathlib.Nat.{
  div-le_self, pow-suc, mul-div_cancel, mul-lt-mul_of_pos_right, mul-le-mul_right, mul-le-mul_left,
  mod-eq_of_lt, add-mul-div_right, div-eq_of_lt,
}
use herve.Base.{
  ℕ, zero, suc, ◌+◌, ◌-◌, ◌*◌, ◌/◌, ◌%◌, ◌^◌, ◌≤◌, ◌<◌, ◌≡◌, inl, inr, ap, arith, ltb,
  if◌then◌else◌, lt→ltb, ltb→lt, ltb-false, Bool-cases,
}
use herve.Word.{sra32, sign_extend, signed32}
use herve.Word.Int.{ℤ, pos, negsuc}

pub sra32-lt : (a k : ℕ) → a < 2 ^ 32 → sra32 a k < 2 ^ 32
unfolding sra32
sra32-lt a k h = ground (arith, div-le_self a (2 ^ k))

pub sign_extend-lt : (value bits : ℕ) → sign_extend value bits < 2 ^ 32
unfolding sign_extend
sign_extend-lt value bits = sra32-lt (value * 2 ^ (32 - bits) % 2 ^ 32) (32 - bits) (omega arith)

-- The integer that a field of `bits` bits stands for in two's complement.
abbrev pub signed_field : ℕ → ℕ → ℤ
signed_field bits v = if ltb v (2 ^ (bits - 1)) then pos v else negsuc (2 ^ bits - 1 - v)

-- A field `w` moved up to the top bits (`half * step` is 2 ^ 31) and shifted down again.
module _ (half step w : ℕ) (top : half * step ≡ 2 ^ 31) (fits : w < 2 * half) where
  abbrev moved : ℕ
  moved = w * step

  abbrev back : ℕ
  back = if ltb moved (2 ^ 31) then moved / step else 2 ^ 32 - 1 - (2 ^ 32 - 1 - moved) / step

  step_pos : 0 < step
  step_pos = elim (Bool-cases (ltb 0 step)) [
    | inl h ↦ ltb→lt 0 step h
    | inr h ↦
        let e : step ≡ 0 = ground arith in absurd (omega (arith, top, ap (λ (t : ℕ). half * t) e))
  ]

  moved-lt : moved < 2 ^ 32
  moved-lt = omega (arith, top, mul-lt-mul_of_pos_right fits step_pos)

  back_low : w < half → back ≡ w
  back_low h =
      rw (lt→ltb moved (2 ^ 31) (omega (arith, top, mul-lt-mul_of_pos_right h step_pos)))
        (mul-div_cancel w step_pos)

  back_high : half ≤ w → back ≡ 2 ^ 32 - 1 - (2 * half - 1 - w)
  back_high h =
      let above : 2 ^ 31 ≤ moved = omega (arith, top, mul-le-mul_right step h) in
      let rest : ℕ = 2 * half - 1 - w in
      let all : (w + rest + 1) * step ≡ 2 * half * step = ap (λ (t : ℕ). t * step) (omega arith) in
      let split : 2 ^ 32 - 1 - moved ≡ step - 1 + rest * step = omega (arith, top, step_pos) in
      let none_left : (step - 1) / step ≡ 0 = div-eq_of_lt (omega (arith, step_pos)) in
      let down : (2 ^ 32 - 1 - moved) / step ≡ rest =
        rw split (omega (arith, add-mul-div_right (step - 1) rest step_pos, none_left)) in
      rw (ltb-false moved (2 ^ 31) above, down)

  half-le : half ≤ 2 ^ 31
  half-le = omega (arith, top, mul-le-mul_left half step_pos)

  signed32-back : signed32 back ≡ (if ltb w half then pos w else negsuc (2 * half - 1 - w))
  signed32-back = elim (Bool-cases (ltb w half)) [
    | inl low ↦ rw (low, back_low (ltb→lt w half low)) (ground (arith, half-le))
    | inr high ↦
        let above : half ≤ w = ground arith in rw (high, back_high above) (ground (arith, half-le))
  ]

pub pow_split : (a b c : ℕ) → a + b ≡ c → 2 ^ a * 2 ^ b ≡ 2 ^ c
pow_split zero b c h = let e : b ≡ c = omega arith in rw e (omega arith)
pow_split (suc a) b zero h = absurd (omega arith)
pow_split (suc a) b (suc c) h = omega (
  arith,
  pow-suc 2 a,
  pow-suc 2 c,
  pow_split a b c (omega arith),
  ap (λ (t : ℕ). t * 2 ^ b) (pow-suc 2 a),
)

-- The word that `sign_extend` makes of a field of 1 to 32 bits stands for the same signed integer
-- as the field.
pub signed32-sign_extend :
    (value bits : ℕ)
    → 0 < bits
    → bits ≤ 32
    → value < 2 ^ bits
    → signed32 (sign_extend value bits) ≡ signed_field bits value
unfolding sign_extend sra32
signed32-sign_extend value zero pos_bits most fits = absurd (omega arith)
signed32-sign_extend value (suc b) pos_bits most fits =
    let top : 2 ^ b * 2 ^ (32 - suc b) ≡ 2 ^ 31 = pow_split b (32 - suc b) 31 (omega arith) in
    let double : 2 ^ suc b ≡ 2 * 2 ^ b = omega (arith, pow-suc 2 b) in
    let fits' : value < 2 * 2 ^ b = omega arith in
    let whole : value * 2 ^ (32 - suc b) % 2 ^ 32 ≡ value * 2 ^ (32 - suc b) =
      mod-eq_of_lt (moved-lt (2 ^ b) (2 ^ (32 - suc b)) value top fits') in
    let pred_suc : suc b - 1 ≡ b = omega arith in
    rw (whole, double, pred_suc) (signed32-back (2 ^ b) (2 ^ (32 - suc b)) value top fits')
