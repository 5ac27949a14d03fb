-- ===== src/SoftFloat/Convert.antt =====
-- The conversions of dpi-riscv/softfloat.c between doubles, single-precision floats and integers.
use herve.Base.{
  ℕ, zero, suc, ◌+◌, ◌-◌, ◌*◌, ◌/◌, ◌%◌, ◌^◌, not, ◌&&◌, ◌||◌, ◌==◌, leb, ltb, if◌then◌else◌,
  bit_or, Option, none, some,
}
use herve.Word.{u32, u64, sub32}
use herve.SoftFloat.Fields.{infinity, nan, sign_mask, has_bit, shl64, get_exp, get_mant, get_sign}

-- `__fixdfsi`, with the bit pattern of the `int32_t`; a shift by 64 places or more is undefined.
unfoldable pub fixdfsi : ℕ → Option ℕ
fixdfsi a =
    let sa = get_sign a in
    let ea = get_exp a in
    let fa = get_mant a in
    let ma = bit_or fa (2 ^ 52) in
    let shift = 1075 - ea in
    let result = u32 (ma / 2 ^ shift) in
    if ea == 0 && fa == 0
    then some 0
    else if ea == 2047
    then some 0x80000000
    else if ltb 1075 ea
    then some (if sa == 0 then 0x7FFFFFFF else 0x80000000)
    else if ltb shift 64
    then some (if sa == 0 then result else sub32 0 result)
    else none

-- `while (!(mant & 0x0010000000000000ULL)) { mant <<= 1; exp--; }`: 52 rounds are enough for a
-- number that is not 0.
unfoldable pub float_loop : ℕ → ℕ → ℕ → ℕ × ℕ
float_loop zero mant exp = (mant, exp)
float_loop (suc fuel) mant exp =
    let rest = float_loop fuel (u64 (mant * 2)) (exp - 1) in
    if has_bit 52 mant then (mant, exp) else rest

-- `__floatunsidf`. The exponent stays above 1000, so that `exp - 1` on numbers is that of C.
unfoldable pub floatunsidf : ℕ → ℕ
floatunsidf a =
    let (mant, exp) = float_loop 52 a 1054 in
    if a == 0 then 0 else bit_or (shl64 exp 52) (mant % 2 ^ 52)

-- `__floatsidf`, of the bit pattern of an `int32_t`. `-a` of the least integer is undefined: `none`.
unfoldable pub floatsidf : ℕ → Option ℕ
floatsidf a =
    if a == 0
    then some 0
    else if leb (2 ^ 31) a
    then (if a == 2 ^ 31 then none else some (bit_or (floatunsidf (sub32 0 a)) sign_mask))
    else some (floatunsidf a)

-- `__extendsfdf2`.
unfoldable pub extendsfdf2 : ℕ → ℕ
extendsfdf2 a =
    let sa = a / 2 ^ 31 in
    let ea = a / 2 ^ 23 % 2 ^ 8 in
    let ma = a % 2 ^ 23 in
    if ea == 0 && ma == 0
    then shl64 sa 63
    else if ea == 255
    then (if ma == 0 then bit_or (shl64 sa 63) infinity else nan)
    else bit_or (bit_or (shl64 sa 63) (shl64 (ea + 896) 52)) (shl64 ma 29)

-- The end of `__truncdfsf2`: the mantissa of 53 bits rounded to 24, and a carry.
unfoldable pub trunc_round : ℕ → ℕ → ℕ → ℕ
trunc_round sa new_exp ma =
    let extra = ma % 2 ^ 29 in
    let up = extra / 2 ^ 28 % 2 == 1 && (extra / 2 ^ 27 % 2 == 1 || not (extra % 2 ^ 27 == 0)) in
    let result_ma = if up then u32 (u32 (ma / 2 ^ 29) + 1) else u32 (ma / 2 ^ 29) in
    let carry = has_bit 24 result_ma in
    let r = if carry then result_ma / 2 else result_ma in
    let e = if carry then new_exp + 1 else new_exp in
    bit_or (bit_or (u32 (sa * 2 ^ 31)) (u32 (e * 2 ^ 23))) (r % 2 ^ 23)

-- `__truncdfsf2`; `new_exp` is `ea - 896`, which overflows a float from 255 on and underflows it
-- from 0 down.
unfoldable pub truncdfsf2 : ℕ → ℕ
truncdfsf2 a =
    let sa = get_sign a in
    let ea = get_exp a in
    let fa = get_mant a in
    if ea == 2047
    then (if fa == 0 then bit_or (u32 (sa * 2 ^ 31)) 0x7F800000 else 0x7FC00000)
    else if ea == 0 && fa == 0
    then u32 (sa * 2 ^ 31)
    else if leb 1151 ea
    then bit_or (u32 (sa * 2 ^ 31)) 0x7F800000
    else if leb ea 896
    then u32 (sa * 2 ^ 31)
    else trunc_round sa (ea - 896) (bit_or fa (2 ^ 52))
