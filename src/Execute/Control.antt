-- ===== src/Execute/Control.antt =====
-- Branches and jumps: `case 0x63`, `case 0x6f` and `case 0x67` of `execute_instruction` in
-- dpi-riscv/sim/iss/rv32_dpi.c.
use herve.Base.{ℕ, ◌-◌, ◌%◌, Bool, false, not, ◌==◌, ltb, if◌then◌else◌}
use herve.Word.{add32, slt}
use herve.Profiler.{InsnType}
use herve.Machine.{Machine, write_reg}
use herve.Execute.Decode.{rd_of, funct3_of, src1_of, src2_of, imm_i, imm_b, imm_j, Exit, break}

-- The `switch (funct3)` that decides whether a branch is taken.
unfoldable pub branch_taken : ℕ → ℕ → ℕ → Bool
branch_taken funct3 a b =
    if funct3 == 0
    then a == b
    else if funct3 == 1
    then not (a == b)
    else if funct3 == 4
    then slt a b
    else if funct3 == 5
    then not (slt a b)
    else if funct3 == 6
    then ltb a b
    else if funct3 == 7
    then not (ltb a b)
    else false

unfoldable pub exec_branch : ℕ → Machine → Exit
exec_branch insn s =
    let taken = branch_taken (funct3_of insn) (src1_of insn s) (src2_of insn s) in
    break InsnType.branch (if taken then add32 s.pc (imm_b insn) else add32 s.pc 4) s

unfoldable pub exec_jal : ℕ → Machine → Exit
exec_jal insn s =
    break InsnType.jump (add32 s.pc (imm_j insn)) (write_reg (rd_of insn) (add32 s.pc 4) s)

-- `x & ~1u`.
abbrev pub even : ℕ → ℕ
even x = x - x % 2

unfoldable pub exec_jalr : ℕ → Machine → Exit
exec_jalr insn s =
    let next_pc = even (add32 (src1_of insn s) (imm_i insn)) in
    break InsnType.jump next_pc (write_reg (rd_of insn) (add32 s.pc 4) s)
