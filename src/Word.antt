-- ===== src/Word.antt =====
-- Machine words: a `uint32_t` is a number below 2 ^ 32, an `int32_t` the same bit pattern read
-- through `signed32`. The wrap-around of C's unsigned arithmetic is written out.
-- `sign_extend` is that of dpi-riscv/sim/iss/rv32_dpi.c.
pub mod Int
pub mod Bits
pub mod Extend
pub mod Division
use herve.Base.{ℕ, ◌+◌, ◌-◌, ◌*◌, ◌/◌, ◌%◌, ◌^◌, Bool, ltb, leb, if◌then◌else◌}
use Int.{ℤ, pos, negsuc, ltb_ℤ}

abbrev pub u8 : ℕ → ℕ
u8 n = n % 2 ^ 8

abbrev pub u16 : ℕ → ℕ
u16 n = n % 2 ^ 16

abbrev pub u32 : ℕ → ℕ
u32 n = n % 2 ^ 32

abbrev pub u64 : ℕ → ℕ
u64 n = n % 2 ^ 64

-- `a + b` and `a - b` on `uint32_t`.
abbrev pub add32 : ℕ → ℕ → ℕ
add32 a b = (a + b) % 2 ^ 32

abbrev pub sub32 : ℕ → ℕ → ℕ
sub32 a b = (a + (2 ^ 32 - b)) % 2 ^ 32

-- `a << k` and `a >> k` on `uint32_t`, for k < 32.
abbrev pub shl32 : ℕ → ℕ → ℕ
shl32 a k = a * 2 ^ k % 2 ^ 32

abbrev pub shr32 : ℕ → ℕ → ℕ
shr32 a k = a / 2 ^ k

-- `~a` on `uint32_t`.
abbrev pub not32 : ℕ → ℕ
not32 a = 2 ^ 32 - 1 - a

-- `(uint32_t)((int32_t)a >> k)`, for k < 32: the sign bit is shifted in.
unfoldable pub sra32 : ℕ → ℕ → ℕ
sra32 a k = if ltb a (2 ^ 31) then a / 2 ^ k else 2 ^ 32 - 1 - (2 ^ 32 - 1 - a) / 2 ^ k

-- `(insn >> lo) & (2 ^ width - 1)`.
abbrev pub field : ℕ → ℕ → ℕ → ℕ
field insn lo width = insn / 2 ^ lo % 2 ^ width

-- Copies bit `bits - 1` of `value` into all bits above.
unfoldable pub sign_extend : ℕ → ℕ → ℕ
unfolding sra32
sign_extend value bits = let shift = 32 - bits in sra32 (shl32 value shift) shift

-- The integer that the bit pattern of an `int32_t` stands for.
abbrev pub signed32 : ℕ → ℤ
signed32 w = if ltb w (2 ^ 31) then pos w else negsuc (2 ^ 32 - 1 - w)

-- `(int32_t)a < (int32_t)b`.
abbrev pub slt : ℕ → ℕ → Bool
slt a b = ltb_ℤ (signed32 a) (signed32 b)
