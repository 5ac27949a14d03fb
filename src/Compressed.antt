-- ===== src/Compressed.antt =====
-- `execute_compressed` of dpi-riscv/sim/iss/rv32_dpi.c: one 16-bit instruction. The result says
-- whether it was executed; the program counter moves on only in a jump.
pub mod Immediate
pub mod Alu
pub mod Preserve
pub mod Encode
use herve.Base.{ℕ, ◌+◌, Bool, true, Option, some, ◌==◌, if◌then◌else◌, not}
use herve.Word.{add32, shl32, field}
use herve.Machine.{Machine, Bus, write_reg, ◌>>=◌}
use herve.Memory.Access.{read_u32, write_u32}
use Immediate.{
  rd_c, rs1_c, rs2_c, c_rd, c_rs2, c_funct3, nzuimm_addi4spn, offset_lw, imm_ci, imm_ci_signed,
  offset_j, offset_b, offset_lwsp, offset_swsp,
}
use Alu.{done, illegal, write_shifted, exec_q1_alu, exec_q1_lui}

-- C.JR, C.MV, C.EBREAK, C.JALR and C.ADD: `case 0x4` of quadrant 2.
unfoldable pub exec_q2_jump : ℕ → Machine → Option (Bool × Machine)
exec_q2_jump insn s =
    let rd = c_rd insn in
    let rs2 = c_rs2 insn in
    if field insn 12 4 == 8
    then (if rs2 == 0
        then (if rd == 0 then illegal s else done (record s { pc = s.regs rd }))
        else done (write_reg rd (s.regs rs2) s))
    else if field insn 12 4 == 9
    then (if rs2 == 0
        then (if rd == 0
            then illegal s
            else (let linked = write_reg 1 (add32 s.pc 2) s in
                done (record linked { pc = linked.regs rd })))
        else done (write_reg rd (add32 (s.regs rd) (s.regs rs2)) s))
    else illegal s

-- Quadrant 1.
unfoldable pub exec_q1 : ℕ → Machine → Option (Bool × Machine)
exec_q1 insn s =
    let funct3 = c_funct3 insn in
    let rd = c_rd insn in
    if funct3 == 0
    then (if rd == 0
        then done s
        else done (write_reg rd (add32 (s.regs rd) (imm_ci_signed insn)) s))
    else if funct3 == 1
    then (let linked = write_reg 1 (add32 s.pc 2) s in
        done (record linked { pc = add32 s.pc (offset_j insn) }))
    else if funct3 == 2
    then done (write_reg rd (imm_ci_signed insn) s)
    else if funct3 == 3
    then exec_q1_lui insn s
    else if funct3 == 4
    then exec_q1_alu insn s
    else if funct3 == 5
    then done (record s { pc = add32 s.pc (offset_j insn) })
    else if funct3 == 6
    then (if s.regs (rs1_c insn) == 0
        then done (record s { pc = add32 s.pc (offset_b insn) })
        else done s)
    else (if s.regs (rs1_c insn) == 0
        then done s
        else done (record s { pc = add32 s.pc (offset_b insn) }))

module _ (dpi_mmio_read : Bus) where
  -- `write_reg(reg, read_u32(addr))` and `write_u32(addr, value)`.
  unfoldable pub load_word : ℕ → ℕ → Machine → Option (Bool × Machine)
  load_word reg addr s = do
    (value, s') ← read_u32 dpi_mmio_read addr s
    done (write_reg reg value s')

  unfoldable pub store_word : ℕ → ℕ → Machine → Option (Bool × Machine)
  store_word addr value s = do s' ← write_u32 dpi_mmio_read addr value s; done s'

  -- Quadrant 0.
  unfoldable pub exec_q0 : ℕ → Machine → Option (Bool × Machine)
  exec_q0 insn s =
      let funct3 = c_funct3 insn in
      let nzuimm = nzuimm_addi4spn insn in
      let addr = add32 (s.regs (rs1_c insn)) (offset_lw insn) in
      if funct3 == 0
      then (if nzuimm == 0
          then illegal s
          else done (write_reg (rd_c insn) (add32 (s.regs 2) nzuimm) s))
      else if funct3 == 2
      then load_word (rd_c insn) addr s
      else if funct3 == 6
      then store_word addr (s.regs (rs2_c insn)) s
      else illegal s

  -- Quadrant 2.
  unfoldable pub exec_q2 : ℕ → Machine → Option (Bool × Machine)
  exec_q2 insn s =
      let funct3 = c_funct3 insn in
      let rd = c_rd insn in
      let shamt = imm_ci insn in
      if funct3 == 0
      then write_shifted shamt rd (shl32 (s.regs rd) shamt) s
      else if funct3 == 2
      then load_word rd (add32 (s.regs 2) (offset_lwsp insn)) s
      else if funct3 == 4
      then exec_q2_jump insn s
      else if funct3 == 6
      then store_word (add32 (s.regs 2) (offset_swsp insn)) (s.regs (field insn 7 5)) s
      else illegal s

  -- The `switch (insn & 0x3u)`.
  unfoldable pub execute_compressed : ℕ → Machine → Option (Bool × Machine)
  execute_compressed insn s =
      let quadrant = field insn 0 2 in
      if quadrant == 0
      then exec_q0 insn s
      else if quadrant == 1
      then exec_q1 insn s
      else if quadrant == 2
      then exec_q2 insn s
      else illegal s
