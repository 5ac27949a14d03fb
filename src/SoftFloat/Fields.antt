-- ===== src/SoftFloat/Fields.antt =====
-- The fields of a double and of a 64-bit word, at the top of dpi-riscv/softfloat.c: 1 bit of sign,
-- 11 bits of exponent with the bias 1023, and 52 bits of mantissa.
use herve.Base.{ℕ, ◌-◌, ◌*◌, ◌/◌, ◌%◌, ◌^◌, Bool, bit_and, bit_or, ◌==◌, if◌then◌else◌}
use herve.Word.{u32, u64}

-- `EXP_BIAS`, `EXP_MASK`, `EXP_MASK << 52` (the pattern of an infinity) and `SIGN_MASK`.
abbrev pub exp_bias : ℕ
exp_bias = 1023

abbrev pub exp_mask : ℕ
exp_mask = 0x7FF

abbrev pub infinity : ℕ
infinity = 0x7FF0000000000000

abbrev pub sign_mask : ℕ
sign_mask = 0x8000000000000000

-- The answer of multiplication and division for a NaN.
abbrev pub nan : ℕ
nan = 0x7FF8000000000000

-- `~x` on `uint64_t`, and `x << k` for k < 64.
abbrev pub not64 : ℕ → ℕ
not64 x = 2 ^ 64 - 1 - x

abbrev pub shl64 : ℕ → ℕ → ℕ
shl64 x k = u64 (x * 2 ^ k)

-- `lo`, `hi` and `make64`.
abbrev pub lo : ℕ → ℕ
lo x = u32 x

abbrev pub hi : ℕ → ℕ
hi x = u32 (x / 2 ^ 32)

unfoldable pub make64 : ℕ → ℕ → ℕ
make64 hi lo = bit_or (shl64 hi 32) lo

abbrev pub get_exp : ℕ → ℕ
get_exp x = x / 2 ^ 52 % 2 ^ 11

abbrev pub get_mant : ℕ → ℕ
get_mant x = x % 2 ^ 52

abbrev pub get_sign : ℕ → ℕ
get_sign x = x / 2 ^ 63

-- `e & EXP_MASK` of an exponent that is not negative.
unfoldable pub set_exp : ℕ → ℕ → ℕ
set_exp x e = bit_or (bit_and x (not64 infinity)) (shl64 (e % 2 ^ 11) 52)

unfoldable pub set_sign : ℕ → ℕ → ℕ
set_sign x s = bit_or (x % 2 ^ 63) (s % 2 * 2 ^ 63)

-- `x & (1 << k)`, as a test.
abbrev pub has_bit : ℕ → ℕ → Bool
has_bit k x = x / 2 ^ k % 2 == 1

-- `ma | 0x0010000000000000` where the exponent is not 0.
unfoldable pub with_leading_one : ℕ → ℕ → ℕ
with_leading_one exp mant = if exp == 0 then mant else bit_or mant (2 ^ 52)
