-- ===== src/Execute/Decode.antt =====
-- The fields of a 32-bit instruction, as `execute_instruction` of dpi-riscv/sim/iss/rv32_dpi.c
-- takes them apart, and the two ways in which a case of its `switch` ends.
use herve.Base.{ℕ, ◌*◌, ◌/◌, ◌^◌, Bool, bit_or}
use herve.Word.{field, sign_extend}
use herve.Profiler.{InsnType}
use herve.Machine.{Machine}

abbrev pub opcode_of : ℕ → ℕ
opcode_of insn = field insn 0 7

abbrev pub rd_of : ℕ → ℕ
rd_of insn = field insn 7 5

abbrev pub funct3_of : ℕ → ℕ
funct3_of insn = field insn 12 3

abbrev pub rs1_of : ℕ → ℕ
rs1_of insn = field insn 15 5

abbrev pub rs2_of : ℕ → ℕ
rs2_of insn = field insn 20 5

abbrev pub funct7_of : ℕ → ℕ
funct7_of insn = field insn 25 7

abbrev pub src1_of : ℕ → Machine → ℕ
src1_of insn s = s.regs (rs1_of insn)

abbrev pub src2_of : ℕ → Machine → ℕ
src2_of insn s = s.regs (rs2_of insn)

-- The immediates of OP-IMM, LOAD and JALR; of STORE; of BRANCH; and of JAL.
unfoldable pub imm_i : ℕ → ℕ
imm_i insn = sign_extend (insn / 2 ^ 20) 12

unfoldable pub imm_s : ℕ → ℕ
imm_s insn = sign_extend (bit_or (field insn 7 5) (field insn 25 7 * 2 ^ 5)) 12

unfoldable pub imm_b : ℕ → ℕ
imm_b insn =
    sign_extend
      (bit_or
        (bit_or (bit_or (field insn 8 4 * 2) (field insn 25 6 * 2 ^ 5)) (field insn 7 1 * 2 ^ 11))
        (insn / 2 ^ 31 * 2 ^ 12))
      13

unfoldable pub imm_j : ℕ → ℕ
imm_j insn =
    sign_extend
      (bit_or
        (bit_or (bit_or (field insn 21 10 * 2) (field insn 20 1 * 2 ^ 11))
          (field insn 12 8 * 2 ^ 12))
        (insn / 2 ^ 31 * 2 ^ 20))
      21

-- `break` leaves the type of the instruction and `next_pc` to the end of the function; `return`
-- leaves at once.
pub data Exit : Type 0 where
  break : InsnType → ℕ → Machine → Exit
  return : Bool → Machine → Exit
