-- ===== src/Execute/MulDiv.antt =====
-- The M extension: `case 0x33` with `funct7 == 0x01` of `execute_instruction` in
-- dpi-riscv/sim/iss/rv32_dpi.c.
use herve.Base.{ℕ, ◌*◌, ◌/◌, ◌%◌, ◌^◌, Bool, true, ◌&&◌, ◌==◌, ltb, if◌then◌else◌}
use herve.Word.{add32, sub32, signed32}
use herve.Word.Int.{◌*ℤ◌, quot_ℤ, rem_ℤ, to_u32, to_u64}
use herve.Profiler.{InsnType}
use herve.Machine.{Machine, write_reg, profile_if_enabled}
use herve.Execute.Decode.{rd_of, funct3_of, src1_of, src2_of, Exit, return}

-- `(int64_t)(int32_t)a * (int64_t)(int32_t)b`, as a pattern of 64 bits.
unfoldable pub signed_product : ℕ → ℕ → ℕ
signed_product a b = to_u64 (signed32 a *ℤ signed32 b)

-- `(uint64_t)(int64_t)(int32_t)a * (uint64_t)b`.
unfoldable pub mixed_product : ℕ → ℕ → ℕ
mixed_product a b = to_u64 (signed32 a) * b % 2 ^ 64

-- `(int32_t)a == INT32_MIN && (int32_t)b == -1`.
abbrev pub div_overflows : ℕ → ℕ → Bool
div_overflows a b = a == 0x80000000 && b == 0xFFFFFFFF

unfoldable pub div_value : ℕ → ℕ → ℕ
div_value a b =
    if b == 0
    then 0xFFFFFFFF
    else if div_overflows a b
    then 0x80000000
    else to_u32 (quot_ℤ (signed32 a) (signed32 b))

unfoldable pub rem_value : ℕ → ℕ → ℕ
rem_value a b =
    if b == 0 then a else if div_overflows a b then 0 else to_u32 (rem_ℤ (signed32 a) (signed32 b))

unfoldable pub divu_value : ℕ → ℕ → ℕ
divu_value a b = if b == 0 then 0xFFFFFFFF else a / b

unfoldable pub remu_value : ℕ → ℕ → ℕ
remu_value a b = if b == 0 then a else a % b

-- What the inner `switch (funct3)` writes to `rd`.
unfoldable pub muldiv_value : ℕ → ℕ → ℕ → ℕ
muldiv_value funct3 a b =
    if funct3 == 0
    then signed_product a b % 2 ^ 32
    else if funct3 == 1
    then signed_product a b / 2 ^ 32
    else if funct3 == 2
    then mixed_product a b / 2 ^ 32
    else if funct3 == 3
    then a * b / 2 ^ 32
    else if funct3 == 4
    then div_value a b
    else if funct3 == 5
    then divu_value a b
    else if funct3 == 6
    then rem_value a b
    else remu_value a b

unfoldable pub exec_muldiv : ℕ → Machine → Exit
exec_muldiv insn s =
    let funct3 = funct3_of insn in
    let type = if ltb funct3 4 then InsnType.mul else InsnType.div in
    let written =
      write_reg (rd_of insn) (muldiv_value funct3 (src1_of insn s) (src2_of insn s)) s in
    let moved = record written { pc = add32 s.pc 4 } in
    return true (profile_if_enabled type (sub32 moved.pc 4) insn moved)
