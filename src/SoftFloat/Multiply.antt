-- ===== src/SoftFloat/Multiply.antt =====
-- `__muldf3` and `fma` of dpi-riscv/softfloat.c.
use herve.Base.{
  ℕ, ◌+◌, ◌*◌, ◌/◌, ◌%◌, ◌^◌, Bool, not, ◌&&◌, ◌||◌, ◌==◌, ltb, if◌then◌else◌, bit_or, bit_xor,
}
use herve.Word.{u32, u64}
use herve.Word.Int.{sub_ℕ}
use herve.SoftFloat.Fields.{
  infinity, nan, set_sign, shl64, get_exp, get_mant, get_sign, with_leading_one,
}
use herve.SoftFloat.Normalize.{normalize}
use herve.SoftFloat.Add.{adddf3}

-- `old_lo = lo64; lo64 += x; if (lo64 < old_lo) hi64++;` on the pair of the two words.
unfoldable pub add_carry : ℕ → ℕ × ℕ → ℕ × ℕ
add_carry x (hi64, lo64) =
    let sum = u64 (lo64 + x) in (if ltb sum lo64 then (u64 (hi64 + 1), sum) else (hi64, sum))

-- The two words of the product of two mantissas, from the products of their halves of 26 bits and
-- more.
unfoldable pub product_words : ℕ → ℕ → ℕ × ℕ
product_words ma mb =
    let a_lo = u32 (ma % 2 ^ 26) in
    let a_hi = u32 (ma / 2 ^ 26) in
    let b_lo = u32 (mb % 2 ^ 26) in
    let b_hi = u32 (mb / 2 ^ 26) in
    let p00 = u64 (a_lo * b_lo) in
    let p01 = u64 (a_lo * b_hi) in
    let p10 = u64 (a_hi * b_lo) in
    let p11 = u64 (a_hi * b_hi) in
    let (h, l) =
      add_carry (shl64 (p11 % 2 ^ 52) 52)
        (add_carry (shl64 p10 26) (add_carry (shl64 p01 26) (0, p00))) in
    (u64 (u64 (u64 (h + p11 / 2 ^ 12) + p01 / 2 ^ 38) + p10 / 2 ^ 38), l)

-- `m_hi` (bits 105 to 53) and `m_lo` (bits 52 to 0).
unfoldable pub split_product : ℕ × ℕ → ℕ × ℕ
split_product (hi64, lo64) = (bit_or (shl64 hi64 11) (lo64 / 2 ^ 53) % 2 ^ 53, lo64 % 2 ^ 53)

-- `(e == 2047 && m != 0)` for one of the two, and the same for zeroes.
abbrev pub is_nan : ℕ → ℕ → Bool
is_nan exp mant = exp == 2047 && not (mant == 0)

abbrev pub is_zero : ℕ → ℕ → Bool
is_zero exp mant = exp == 0 && mant == 0

-- `__muldf3`.
unfoldable pub muldf3 : ℕ → ℕ → ℕ
muldf3 a b =
    let sa = get_sign a in
    let ea = get_exp a in
    let fa = get_mant a in
    let sb = get_sign b in
    let eb = get_exp b in
    let fb = get_mant b in
    let sign = bit_xor sa sb in
    let (m_hi, m_lo) =
      split_product (product_words (with_leading_one ea fa) (with_leading_one eb fb)) in
    if ea == 2047 || eb == 2047
    then (if is_nan ea fa || is_nan eb fb then nan else set_sign infinity sign)
    else if is_zero ea fa || is_zero eb fb
    then set_sign 0 sign
    else normalize m_hi m_lo (sub_ℕ (ea + eb) 1023) sign

-- `fma`: the product is rounded before the sum.
unfoldable pub fma : ℕ → ℕ → ℕ → ℕ
fma a b c = adddf3 (muldf3 a b) c
