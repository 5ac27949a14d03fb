-- ===== src/Compressed/Alu.antt =====
-- `case 0x4` of quadrant 1, and C.LUI with C.ADDI16SP, of `execute_compressed` in
-- dpi-riscv/sim/iss/rv32_dpi.c. A shift of a word by 32 bits or more is undefined behaviour.
use herve.Base.{
  ℕ, Bool, true, false, Option, none, some, ◌==◌, ltb, if◌then◌else◌, bit_and, bit_or, bit_xor,
}
use herve.Word.{add32, sub32, shl32, shr32, sra32, field}
use herve.Machine.{Machine, write_reg}
use herve.Compressed.Immediate.{rs1_c, rs2_c, c_rd, imm_ci, imm_ci_signed, imm_addi16sp}

-- `return true` and `return false`.
abbrev pub done : Machine → Option (Bool × Machine)
done s = some (true, s)

abbrev pub illegal : Machine → Option (Bool × Machine)
illegal s = some (false, s)

-- A write of `value` to `reg`, the result of a shift by `shamt`; by 0 the instruction is a hint.
unfoldable pub write_shifted : ℕ → ℕ → ℕ → Machine → Option (Bool × Machine)
write_shifted shamt reg value s =
    if shamt == 0 then done s else if ltb shamt 32 then done (write_reg reg value s) else none

-- C.SUB, C.XOR, C.OR and C.AND.
unfoldable pub exec_ca : ℕ → Machine → Machine
exec_ca insn s =
    let rd = rs1_c insn in
    let a = s.regs rd in
    let b = s.regs (rs2_c insn) in
    let funct2_low = field insn 5 2 in
    if funct2_low == 0
    then write_reg rd (sub32 a b) s
    else if funct2_low == 1
    then write_reg rd (bit_xor a b) s
    else if funct2_low == 2
    then write_reg rd (bit_or a b) s
    else write_reg rd (bit_and a b) s

-- C.SRLI, C.SRAI, C.ANDI and those above.
unfoldable pub exec_q1_alu : ℕ → Machine → Option (Bool × Machine)
exec_q1_alu insn s =
    let funct2_high = field insn 10 2 in
    let rd = rs1_c insn in
    let a = s.regs rd in
    let shamt = imm_ci insn in
    if funct2_high == 0
    then write_shifted shamt rd (shr32 a shamt) s
    else if funct2_high == 1
    then write_shifted shamt rd (sra32 a shamt) s
    else if funct2_high == 2
    then done (write_reg rd (bit_and a (imm_ci_signed insn)) s)
    else if field insn 12 1 == 0
    then done (exec_ca insn s)
    else illegal s

-- C.ADDI16SP where `rd` is 2, else C.LUI.
unfoldable pub exec_q1_lui : ℕ → Machine → Option (Bool × Machine)
exec_q1_lui insn s =
    let rd = c_rd insn in
    let imm = shl32 (imm_ci_signed insn) 12 in
    if rd == 2
    then done (write_reg 2 (add32 (s.regs 2) (imm_addi16sp insn)) s)
    else if rd == 0
    then done s
    else if imm == 0
    then illegal s
    else done (write_reg rd imm s)
