-- ===== src/Compressed/Preserve.antt =====
-- The ranges of the variables behind `execute_compressed` of dpi-riscv/sim/iss/rv32_dpi.c.
use native.Mathlib.Nat.{div-le_self}
use herve.Base.{ℕ, ◌^◌, ◌<◌, arith, ◌==◌, ltb}
use herve.Word.{add32, shl32, field}
use herve.Word.Bits.{bit_or-lt, bit_xor-lt, bit_and-le}
use herve.Word.Extend.{sra32-lt, sign_extend-lt}
use herve.Machine.{Machine, Bus, Ensures, Ensures-bind, if-Ensures}
use herve.Machine.WellFormed.{
  IsWellFormed, if-IsWellFormed, write_reg-IsWellFormed, jump-IsWellFormed,
}
use herve.Memory.AccessWellFormed.{IsRead, read_u32-IsRead, write_u32-IsWellFormed}
use herve.Execute.Preserve.{IsKept}
use herve.Compressed.Immediate.{
  rs1_c, rs2_c, rd_c, c_rd, c_rs2, c_funct3, imm_ci, imm_ci_signed, nzuimm_addi4spn,
}
use herve.Compressed.Alu.{write_shifted, exec_ca, exec_q1_alu, exec_q1_lui}
use herve.Compressed.{
  exec_q2_jump, exec_q1, exec_q0, exec_q2, load_word, store_word, execute_compressed,
}

imm_ci_signed-lt : (insn : ℕ) → imm_ci_signed insn < 2 ^ 32
unfolding imm_ci_signed
imm_ci_signed-lt insn = sign_extend-lt (imm_ci insn) 6

write_shifted-IsKept :
    (shamt reg value : ℕ) (s : Machine)
    → value < 2 ^ 32
    → IsWellFormed s
    → Ensures IsKept (write_shifted shamt reg value s)
unfolding write_shifted
write_shifted-IsKept shamt reg value s h w =
    if-Ensures IsKept (shamt == 0) _ _ w
      (if-Ensures IsKept (ltb shamt 32) _ _ (write_reg-IsWellFormed reg value h w) tt)

exec_ca-IsWellFormed : (insn : ℕ) (s : Machine) → IsWellFormed s → IsWellFormed (exec_ca insn s)
unfolding exec_ca
exec_ca-IsWellFormed insn s w =
    let low = field insn 5 2 in
    let a-lt = w.regs_ok.regs_lt (rs1_c insn) in
    let b-lt = w.regs_ok.regs_lt (rs2_c insn) in
    let to_rd = λ (v : ℕ) (h : v < 2 ^ 32). write_reg-IsWellFormed (rs1_c insn) v {s = s} h w in
    if-IsWellFormed (low == 0) (to_rd _ (omega arith)) (
      if-IsWellFormed (low == 1) (to_rd _ (bit_xor-lt 32 _ _ a-lt b-lt)) (
        if-IsWellFormed (low == 2) (to_rd _ (bit_or-lt 32 _ _ a-lt b-lt))
          (to_rd _ (omega (arith, bit_and-le (s.regs (rs1_c insn)) (s.regs (rs2_c insn)))))))

exec_q1_alu-IsKept : (insn : ℕ) (s : Machine) → IsWellFormed s → Ensures IsKept (exec_q1_alu insn s)
unfolding exec_q1_alu
exec_q1_alu-IsKept insn s w =
    let high = field insn 10 2 in
    let shamt = imm_ci insn in
    let a = s.regs (rs1_c insn) in
    let a-lt = w.regs_ok.regs_lt (rs1_c insn) in
    if-Ensures IsKept (high == 0) _ _
      (write_shifted-IsKept shamt _ _ s (omega (arith, a-lt, div-le_self a (2 ^ shamt))) w)
      (if-Ensures IsKept (high == 1) _ _
        (write_shifted-IsKept shamt _ _ s (sra32-lt a shamt a-lt) w)
        (if-Ensures IsKept (high == 2) _ _
          (write_reg-IsWellFormed _ _ (omega (arith, a-lt, bit_and-le a (imm_ci_signed insn))) w)
          (if-Ensures IsKept (field insn 12 1 == 0) _ _ (exec_ca-IsWellFormed insn s w) w)))

exec_q1_lui-IsKept : (insn : ℕ) (s : Machine) → IsWellFormed s → Ensures IsKept (exec_q1_lui insn s)
unfolding exec_q1_lui
exec_q1_lui-IsKept insn s w =
    if-Ensures IsKept (c_rd insn == 2) _ _ (write_reg-IsWellFormed 2 _ (omega arith) w) (
      if-Ensures IsKept (c_rd insn == 0) _ _ w (
        if-Ensures IsKept (shl32 (imm_ci_signed insn) 12 == 0) _ _ w
          (write_reg-IsWellFormed (c_rd insn) _ (omega arith) w)))

exec_q2_jump-IsKept :
    (insn : ℕ) (s : Machine) → IsWellFormed s → Ensures IsKept (exec_q2_jump insn s)
unfolding exec_q2_jump
exec_q2_jump-IsKept insn s w =
    let rd = c_rd insn in
    let linked = write_reg-IsWellFormed 1 (add32 s.pc 2) {s = s} (omega arith) w in
    if-Ensures IsKept (field insn 12 4 == 8) _ _
      (if-Ensures IsKept (c_rs2 insn == 0) _ _
        (if-Ensures IsKept (rd == 0) _ _ w (jump-IsWellFormed _ (w.regs_ok.regs_lt rd) w))
        (write_reg-IsWellFormed rd _ (w.regs_ok.regs_lt (c_rs2 insn)) w))
      (if-Ensures IsKept (field insn 12 4 == 9) _ _
        (if-Ensures IsKept (c_rs2 insn == 0) _ _
          (if-Ensures IsKept (rd == 0) _ _ w
            (jump-IsWellFormed _ (linked.regs_ok.regs_lt rd) linked))
          (write_reg-IsWellFormed rd _ (omega arith) w))
        w)

exec_q1-IsKept : (insn : ℕ) (s : Machine) → IsWellFormed s → Ensures IsKept (exec_q1 insn s)
unfolding exec_q1
exec_q1-IsKept insn s w =
    let f3 = c_funct3 insn in
    let rd = c_rd insn in
    let zero = s.regs (rs1_c insn) == 0 in
    let linked = write_reg-IsWellFormed 1 (add32 s.pc 2) {s = s} (omega arith) w in
    if-Ensures IsKept (f3 == 0) _ _
      (if-Ensures IsKept (rd == 0) _ _ w (write_reg-IsWellFormed rd _ (omega arith) w))
      (if-Ensures IsKept (f3 == 1) _ _ (jump-IsWellFormed _ (omega arith) linked) (
        if-Ensures IsKept (f3 == 2) _ _ (write_reg-IsWellFormed rd _ (imm_ci_signed-lt insn) w) (
          if-Ensures IsKept (f3 == 3) _ _ (exec_q1_lui-IsKept insn s w) (
            if-Ensures IsKept (f3 == 4) _ _ (exec_q1_alu-IsKept insn s w) (
              if-Ensures IsKept (f3 == 5) _ _ (jump-IsWellFormed _ (omega arith) w) (
                if-Ensures IsKept (f3 == 6) _ _
                  (if-Ensures IsKept zero _ _ (jump-IsWellFormed _ (omega arith) w) w)
                  (if-Ensures IsKept zero _ _ w (jump-IsWellFormed _ (omega arith) w))))))))

module _ (dpi_mmio_read : Bus) where
  load_word-IsKept :
      (reg addr : ℕ) (s : Machine)
      → IsWellFormed s
      → Ensures IsKept (load_word dpi_mmio_read reg addr s)
  unfolding load_word
  load_word-IsKept reg addr s w =
      Ensures-bind IsRead IsKept _ _ (read_u32-IsRead dpi_mmio_read addr s w)
        (λ r h. write_reg-IsWellFormed reg r.0 h.0 h.1)

  store_word-IsKept :
      (addr value : ℕ) (s : Machine)
      → value < 2 ^ 32
      → IsWellFormed s
      → Ensures IsKept (store_word dpi_mmio_read addr value s)
  unfolding store_word
  store_word-IsKept addr value s h w =
      Ensures-bind IsWellFormed IsKept _ _ (write_u32-IsWellFormed dpi_mmio_read addr value s h w)
        (λ s' w'. w')

  exec_q0-IsKept :
      (insn : ℕ) (s : Machine) → IsWellFormed s → Ensures IsKept (exec_q0 dpi_mmio_read insn s)
  unfolding exec_q0
  exec_q0-IsKept insn s w =
      let f3 = c_funct3 insn in
      if-Ensures IsKept (f3 == 0) _ _
        (if-Ensures IsKept (nzuimm_addi4spn insn == 0) _ _ w
          (write_reg-IsWellFormed (rd_c insn) _ (omega arith) w))
        (if-Ensures IsKept (f3 == 2) _ _ (load_word-IsKept (rd_c insn) _ s w)
          (if-Ensures IsKept (f3 == 6) _ _ (store_word-IsKept _ _ s (w.regs_ok.regs_lt _) w) w))

  exec_q2-IsKept :
      (insn : ℕ) (s : Machine) → IsWellFormed s → Ensures IsKept (exec_q2 dpi_mmio_read insn s)
  unfolding exec_q2
  exec_q2-IsKept insn s w =
      let f3 = c_funct3 insn in
      if-Ensures IsKept (f3 == 0) _ _ (write_shifted-IsKept (imm_ci insn) _ _ s (omega arith) w) (
        if-Ensures IsKept (f3 == 2) _ _ (load_word-IsKept (c_rd insn) _ s w) (
          if-Ensures IsKept (f3 == 4) _ _ (exec_q2_jump-IsKept insn s w)
            (if-Ensures IsKept (f3 == 6) _ _ (store_word-IsKept _ _ s (w.regs_ok.regs_lt _) w) w)))

  -- Where `execute_compressed` has defined behaviour, it leaves every variable of a well-formed
  -- state in the range of its C type, and register 0 at 0.
  pub execute_compressed-IsKept :
      (insn : ℕ) (s : Machine)
      → IsWellFormed s
      → Ensures IsKept (execute_compressed dpi_mmio_read insn s)
  unfolding execute_compressed
  execute_compressed-IsKept insn s w =
      let quadrant = field insn 0 2 in
      if-Ensures IsKept (quadrant == 0) _ _ (exec_q0-IsKept insn s w) (
        if-Ensures IsKept (quadrant == 1) _ _ (exec_q1-IsKept insn s w)
          (if-Ensures IsKept (quadrant == 2) _ _ (exec_q2-IsKept insn s w) w))
