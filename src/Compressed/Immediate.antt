-- ===== src/Compressed/Immediate.antt =====
-- The fields and immediates of a 16-bit instruction, as `execute_compressed` of
-- dpi-riscv/sim/iss/rv32_dpi.c puts them together.
use herve.Base.{ℕ, ◌+◌, ◌*◌, ◌^◌, bit_or}
use herve.Word.{field, sign_extend}

-- Bit `from` of the instruction, moved to bit `to`.
abbrev pub move : ℕ → ℕ → ℕ → ℕ
move insn from to = field insn from 1 * 2 ^ to

-- `rd_c` and `rs2_c`; `rs1_c`; `rd` and `rs1`; `rs2`.
abbrev pub rd_c : ℕ → ℕ
rd_c insn = field insn 2 3 + 8

abbrev pub rs2_c : ℕ → ℕ
rs2_c insn = field insn 2 3 + 8

abbrev pub rs1_c : ℕ → ℕ
rs1_c insn = field insn 7 3 + 8

abbrev pub c_rd : ℕ → ℕ
c_rd insn = field insn 7 5

abbrev pub c_rs2 : ℕ → ℕ
c_rs2 insn = field insn 2 5

abbrev pub c_funct3 : ℕ → ℕ
c_funct3 insn = field insn 13 3

-- C.ADDI4SPN.
unfoldable pub nzuimm_addi4spn : ℕ → ℕ
nzuimm_addi4spn insn =
    bit_or
      (bit_or
        (bit_or
          (bit_or
            (bit_or (bit_or (bit_or (move insn 12 5) (move insn 11 4)) (move insn 10 9))
              (move insn 9 8))
            (move insn 8 7))
          (move insn 7 6))
        (move insn 6 2))
      (move insn 5 3)

-- C.LW and C.SW.
unfoldable pub offset_lw : ℕ → ℕ
offset_lw insn = bit_or (field insn 10 3 * 2 ^ 3) (field insn 5 2 * 2)

-- `shamt` of the shifts, and the immediate of C.ADDI, C.LI, C.LUI and C.ANDI before it is
-- sign-extended.
unfoldable pub imm_ci : ℕ → ℕ
imm_ci insn = bit_or (move insn 12 5) (field insn 2 5)

unfoldable pub imm_ci_signed : ℕ → ℕ
unfolding imm_ci
imm_ci_signed insn = sign_extend (imm_ci insn) 6

-- C.J and C.JAL.
unfoldable pub offset_j : ℕ → ℕ
offset_j insn =
    sign_extend
      (bit_or
        (bit_or
          (bit_or
            (bit_or
              (bit_or (bit_or (bit_or (field insn 3 3 * 2) (move insn 11 4)) (move insn 2 5))
                (move insn 7 6))
              (move insn 6 7))
            (field insn 9 2 * 2 ^ 8))
          (move insn 8 10))
        (move insn 12 11))
      12

-- C.BEQZ and C.BNEZ.
unfoldable pub offset_b : ℕ → ℕ
offset_b insn =
    sign_extend
      (bit_or
        (bit_or (bit_or (bit_or (field insn 3 2 * 2) (field insn 10 2 * 2 ^ 3)) (move insn 2 5))
          (move insn 5 6))
        (move insn 12 8))
      9

-- C.ADDI16SP.
unfoldable pub imm_addi16sp : ℕ → ℕ
imm_addi16sp insn =
    sign_extend
      (bit_or
        (bit_or
          (bit_or (bit_or (bit_or (move insn 12 9) (move insn 6 8)) (move insn 5 7))
            (move insn 4 6))
          (move insn 3 5))
        (move insn 2 4))
      10

-- C.LWSP, and C.SWSP.
unfoldable pub offset_lwsp : ℕ → ℕ
offset_lwsp insn =
    bit_or (bit_or (field insn 5 2 * 2 ^ 6) (move insn 12 5)) (field insn 2 3 * 2 ^ 2)

unfoldable pub offset_swsp : ℕ → ℕ
offset_swsp insn = bit_or (field insn 10 2 * 2 ^ 6) (field insn 5 2 * 2 ^ 4)
