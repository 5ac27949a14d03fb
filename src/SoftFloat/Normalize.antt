-- ===== src/SoftFloat/Normalize.antt =====
-- `normalize` of dpi-riscv/softfloat.c: the double nearest to a mantissa of 106 bits. The exponent
-- is a C `int` that may be negative.
use herve.Base.{
  ℕ, zero, suc, ◌+◌, ◌*◌, ◌/◌, ◌%◌, ◌^◌, Bool, false, not, ◌&&◌, ◌||◌, ◌==◌, if◌then◌else◌, bit_or,
}
use herve.Word.{u64}
use herve.Word.Int.{ℤ, pos, sub_ℕ, ◌+ℤ◌, ltb_ℤ, pos_part}
use herve.SoftFloat.Fields.{infinity, has_bit, set_sign, shl64}

-- `if (exp <= 0) ... if (exp >= 2047) ... return set_sign(((uint64_t)exp << 52) | mant, sign)`.
unfoldable pub pack : ℤ → ℕ → ℕ → ℕ
pack exp mant sign =
    if not (ltb_ℤ (pos 0) exp)
    then set_sign 0 sign
    else if not (ltb_ℤ exp (pos 2047))
    then set_sign infinity sign
    else set_sign (bit_or (shl64 (pos_part exp) 52) mant) sign

-- `guard && (round_bit || sticky)`: one more in the last place. A carry into bit 53 moves the
-- mantissa back and counts on the exponent; a carry into bit 52 is masked away.
abbrev pub rounds_up : ℕ → ℕ → Bool → Bool
rounds_up guard round_bit sticky = not (guard == 0) && (not (round_bit == 0) || sticky)

unfoldable pub round_and_pack : ℕ → ℕ → Bool → ℕ → ℤ → ℕ → ℕ
round_and_pack guard round_bit sticky mant exp sign =
    if rounds_up guard round_bit sticky
    then (let more = u64 (mant + 1) in
        if has_bit 53 more
        then pack (exp +ℤ pos 1) (more / 2 % 2 ^ 52) sign
        else pack exp (more % 2 ^ 52) sign)
    else pack exp (mant % 2 ^ 52) sign

-- `while (!(m_lo & 0x0010000000000000ULL) && shift < 63) { m_lo <<= 1; shift++; }`, with the rounds
-- left to 63: the shifted number and the rounds that were not needed.
unfoldable pub shift_up : ℕ → ℕ → ℕ × ℕ
shift_up zero m = (m, 0)
shift_up (suc left) m =
    let rest = shift_up left (u64 (m * 2)) in if has_bit 52 m then (m, suc left) else rest

-- The case `mr == 0`.
unfoldable pub normalize_small : ℕ → ℤ → ℕ → ℕ
normalize_small m_lo exp sign =
    let (m, left) = shift_up 63 m_lo in
    round_and_pack (m / 2 ^ 52 % 2) (m / 2 ^ 51 % 2) (not (m % 2 ^ 51 == 0)) (m % 2 ^ 52)
      (exp +ℤ sub_ℕ left 63) sign

unfoldable pub normalize : ℕ → ℕ → ℤ → ℕ → ℕ
normalize m_hi m_lo exp sign =
    let mr = bit_or (shl64 m_hi 1) (m_lo / 2 ^ 52) in
    if m_hi == 0 && m_lo == 0
    then set_sign 0 sign
    else if mr == 0
    then normalize_small m_lo exp sign
    else if has_bit 53 mr
    then round_and_pack (mr % 2) 0 false (mr / 2 % 2 ^ 52) (exp +ℤ pos 1) sign
    else round_and_pack (m_lo / 2 ^ 51 % 2) (m_lo / 2 ^ 50 % 2) (not (m_lo % 2 ^ 50 == 0))
        (mr % 2 ^ 52) exp sign
