-- ===== src/Execute/Alu.antt =====
-- Integer arithmetic: `case 0x33` (after the M extension), `case 0x13`, LUI and AUIPC of
-- `execute_instruction` in dpi-riscv/sim/iss/rv32_dpi.c.
use herve.Base.{ℕ, ◌-◌, ◌/◌, ◌%◌, ◌^◌, ◌==◌, ltb, if◌then◌else◌, bit_and, bit_or, bit_xor, Bool}
use herve.Word.{add32, sub32, shl32, shr32, sra32, slt, field}
use herve.Machine.{Machine, write_reg}
use herve.Execute.Decode.{rd_of, funct3_of, funct7_of, src1_of, src2_of, imm_i}

-- `b ? 1 : 0`.
abbrev pub flag : Bool → ℕ
flag b = if b then 1 else 0

-- The `switch (funct3)` of register-register instructions.
unfoldable pub exec_op : ℕ → Machine → Machine
exec_op insn s =
    let rd = rd_of insn in
    let funct3 = funct3_of insn in
    let funct7 = funct7_of insn in
    let a = src1_of insn s in
    let b = src2_of insn s in
    if funct3 == 0
    then (if funct7 == 0x20 then write_reg rd (sub32 a b) s else write_reg rd (add32 a b) s)
    else if funct3 == 1
    then (if funct7 == 0 then write_reg rd (shl32 a (b % 2 ^ 5)) s else s)
    else if funct3 == 2
    then write_reg rd (flag (slt a b)) s
    else if funct3 == 3
    then write_reg rd (flag (ltb a b)) s
    else if funct3 == 4
    then write_reg rd (bit_xor a b) s
    else if funct3 == 5
    then (if funct7 == 0x20
        then write_reg rd (sra32 a (b % 2 ^ 5)) s
        else write_reg rd (shr32 a (b % 2 ^ 5)) s)
    else if funct3 == 6
    then write_reg rd (bit_or a b) s
    else write_reg rd (bit_and a b) s

-- The `switch (funct3)` of register-immediate instructions.
unfoldable pub exec_op_imm : ℕ → Machine → Machine
exec_op_imm insn s =
    let rd = rd_of insn in
    let funct3 = funct3_of insn in
    let a = src1_of insn s in
    let imm = imm_i insn in
    if funct3 == 0
    then write_reg rd (add32 a imm) s
    else if funct3 == 2
    then write_reg rd (flag (slt a imm)) s
    else if funct3 == 3
    then write_reg rd (flag (ltb a imm)) s
    else if funct3 == 4
    then write_reg rd (bit_xor a imm) s
    else if funct3 == 6
    then write_reg rd (bit_or a imm) s
    else if funct3 == 7
    then write_reg rd (bit_and a imm) s
    else if funct3 == 1
    then (if insn / 2 ^ 25 == 0 then write_reg rd (shl32 a (insn / 2 ^ 20)) s else s)
    else (if insn / 2 ^ 25 == 0
        then write_reg rd (shr32 a (field insn 20 5)) s
        else if insn / 2 ^ 25 == 0x20
        then write_reg rd (sra32 a (field insn 20 5)) s
        else s)

-- `insn & 0xfffff000u`.
abbrev pub upper : ℕ → ℕ
upper insn = insn - insn % 2 ^ 12

unfoldable pub exec_lui : ℕ → Machine → Machine
exec_lui insn s = write_reg (rd_of insn) (upper insn) s

unfoldable pub exec_auipc : ℕ → Machine → Machine
exec_auipc insn s = write_reg (rd_of insn) (add32 s.pc (upper insn)) s
