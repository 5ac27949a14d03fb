-- ===== src/SoftFloat/Add.antt =====
-- `__adddf3`, `__subdf3` and `fabs` of dpi-riscv/softfloat.c.
use herve.Base.{
  ℕ, zero, suc, ◌+◌, ◌-◌, ◌*◌, ◌/◌, ◌%◌, ◌^◌, not, ◌&&◌, ◌==◌, leb, ltb, if◌then◌else◌, bit_or,
  bit_xor,
}
use herve.Word.{u64}
use herve.SoftFloat.Fields.{
  infinity, sign_mask, has_bit, set_sign, shl64, get_exp, get_mant, get_sign, with_leading_one,
}

-- `mb` moved right by the difference of the exponents, with the lost bits in the lowest one.
unfoldable pub align : ℕ → ℕ → ℕ
align exp_diff mb =
    if ltb 63 exp_diff
    then 0
    else if ltb 0 exp_diff
    then (let sticky = if ltb 53 exp_diff then not (mb == 0) else not (mb % 2 ^ exp_diff == 0) in
        let moved = mb / 2 ^ exp_diff in if sticky then bit_or moved 1 else moved)
    else mb

-- The end of the function.
unfoldable pub pack_sum : ℕ → ℕ → ℕ → ℕ
pack_sum exp mant sign =
    if leb 2047 exp
    then set_sign infinity sign
    else if exp == 0
    then set_sign 0 sign
    else set_sign (bit_or (shl64 exp 52) (mant % 2 ^ 52)) sign

-- Equal signs: the sum of the mantissas, moved back by one place and rounded where it carries.
unfoldable pub add_magnitudes : ℕ → ℕ → ℕ → ℕ → ℕ
add_magnitudes exp sign ma mb =
    let sum = u64 (ma + mb) in
    if has_bit 53 sum
    then (let up = u64 (sum / 2 + 1) in
        if sum % 2 == 0
        then pack_sum (exp + 1) (sum / 2) sign
        else if has_bit 53 up
        then pack_sum (exp + 2) (up / 2) sign
        else pack_sum (exp + 1) up sign)
    else pack_sum exp sum sign

-- `while (!(result_mant & 0x0010000000000000ULL) && result_exp > 0) { ... }`.
unfoldable pub shift_to_leading : ℕ → ℕ → ℕ × ℕ
shift_to_leading zero mant = (mant, 0)
shift_to_leading (suc exp) mant =
    let rest = shift_to_leading exp (u64 (mant * 2)) in
    if has_bit 52 mant then (mant, suc exp) else rest

unfoldable pub pack_difference : ℕ → ℕ → ℕ → ℕ
pack_difference exp mant sign =
    let (m, e) = shift_to_leading exp mant in if mant == 0 then 0 else pack_sum e m sign

-- The sum of two numbers with the exponents `ea` and `eb`, where `ea` is not the smaller one.
unfoldable pub add_ordered : ℕ → ℕ → ℕ → ℕ → ℕ → ℕ → ℕ
add_ordered sa ea ma sb eb mb =
    let small = align (ea - eb) mb in
    if sa == sb
    then add_magnitudes ea sa ma small
    else if leb small ma
    then pack_difference ea (ma - small) sa
    else pack_difference ea (small - ma) sb

-- `__adddf3`.
unfoldable pub adddf3 : ℕ → ℕ → ℕ
adddf3 a b =
    let sa = get_sign a in
    let ea = get_exp a in
    let fa = get_mant a in
    let sb = get_sign b in
    let eb = get_exp b in
    let fb = get_mant b in
    let ma = with_leading_one ea fa in
    let mb = with_leading_one eb fb in
    if ea == 2047
    then a
    else if eb == 2047
    then b
    else if ea == 0 && fa == 0
    then b
    else if eb == 0 && fb == 0
    then a
    else if ltb ea eb
    then add_ordered sb eb mb sa ea ma
    else add_ordered sa ea ma sb eb mb

-- `__subdf3`.
unfoldable pub subdf3 : ℕ → ℕ → ℕ
subdf3 a b = adddf3 a (bit_xor b sign_mask)

-- `fabs`: `x & ~SIGN_MASK`.
unfoldable pub fabs : ℕ → ℕ
fabs x = x % 2 ^ 63
