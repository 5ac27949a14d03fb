-- ===== src/SoftFloat/Divide.antt =====
-- `__divdf3` of dpi-riscv/softfloat.c.
use herve.Base.{
  ℕ, zero, suc, ◌+◌, ◌-◌, ◌*◌, ◌/◌, ◌%◌, ◌^◌, ◌||◌, ◌==◌, leb, ltb, if◌then◌else◌, bit_or, bit_xor,
  Option, none, some,
}
use herve.Word.{u64}
use herve.Word.Int.{sub_ℕ}
use herve.SoftFloat.Fields.{
  infinity, nan, set_sign, shl64, get_exp, get_mant, get_sign, with_leading_one,
}
use herve.SoftFloat.Normalize.{normalize}
use herve.SoftFloat.Multiply.{is_nan, is_zero}

-- `while (bits < 106 && remainder != 0)` with `left` = 106 - bits: the quotient, and the rounds left.
unfoldable pub divide_loop : ℕ → ℕ → ℕ → ℕ → ℕ × ℕ
divide_loop zero mb remainder quotient = (quotient, 0)
divide_loop (suc left) mb remainder quotient =
    let doubled = u64 (remainder * 2) in
    let r = if leb mb doubled then doubled - mb else doubled in
    let q = if leb mb doubled then bit_or (u64 (quotient * 2)) 1 else u64 (quotient * 2) in
    let rest = divide_loop left mb r q in if remainder == 0 then (quotient, suc left) else rest

-- `__divdf3`; a final shift by 64 places or more is undefined.
unfoldable pub divdf3 : ℕ → ℕ → Option ℕ
divdf3 a b =
    let sa = get_sign a in
    let ea = get_exp a in
    let fa = get_mant a in
    let sb = get_sign b in
    let eb = get_exp b in
    let fb = get_mant b in
    let sign = bit_xor sa sb in
    let (found, left) = divide_loop 106 (with_leading_one eb fb) (with_leading_one ea fa) 0 in
    let quotient = shl64 found left in
    if ea == 2047 || eb == 2047
    then (if is_nan ea fa || is_nan eb fb then some nan else some (set_sign infinity sign))
    else if is_zero ea fa || is_zero eb fb
    then some (set_sign infinity sign)
    else if ltb left 64
    then some (normalize (quotient / 2 ^ 53) (quotient % 2 ^ 53) (sub_ℕ (ea + 1023) eb) sign)
    else none
