-- ===== src/Execute/WellFormed.antt =====
-- The ranges of the variables behind each group of opcodes of `execute_instruction` in
-- dpi-riscv/sim/iss/rv32_dpi.c.
use native.Mathlib.Nat.{div-le_self, mul-le-mul}
use herve.Base.{
  ℕ, ◌-◌, ◌*◌, ◌/◌, ◌^◌, ◌≤◌, ◌<◌, Bool, true, false, arith, ◌==◌, if-both, not, ◌&&◌, ◌||◌,
}
use herve.Word.{add32, shr32, not32, field, signed32}
use herve.Word.Int.{to_u32-lt, to_u64-lt, ◌*ℤ◌}
use herve.Word.Bits.{bit_or-lt, bit_xor-lt, bit_and-le}
use herve.Word.Extend.{sra32-lt, sign_extend-lt}
use herve.Profiler.{InsnType}
use herve.Machine.{Machine}
use herve.Machine.WellFormed.{
  IsWellFormed, IsWellFormed-of_parts, if-IsWellFormed, write_reg-IsWellFormed, jump-IsWellFormed,
  profile_if_enabled-IsWellFormed,
}
use herve.Execute.Decode.{Exit, break, return, rd_of, funct3_of, funct7_of, src1_of, src2_of, imm_i}
use herve.Execute.MulDiv.{
  signed_product, mixed_product, div_value, rem_value, divu_value, remu_value, muldiv_value,
  exec_muldiv, div_overflows,
}
use herve.Execute.Alu.{flag, exec_op, exec_op_imm, exec_lui, exec_auipc, upper}
use herve.Execute.Control.{branch_taken, exec_branch, exec_jal, exec_jalr}
use herve.Execute.System.{
  mie_set, csr_read, csr_write, csr_new, csr_operand, csr_addr_of, exec_csr, exec_sys, exec_system,
}

-- A well-formed state, and a word as the next program counter.
abbrev pub IsExit : Exit → Type 0
IsExit (break type next_pc s) = (next_pc < 2 ^ 32) × IsWellFormed s
IsExit (return more s) = IsWellFormed s

product-lt : (a b : ℕ) → a < 2 ^ 32 → b < 2 ^ 32 → a * b / 2 ^ 32 < 2 ^ 32
product-lt a b ha hb =
    let most : a * b ≤ (2 ^ 32 - 1) * (2 ^ 32 - 1) =
      mul-le-mul {n₂ = 2 ^ 32 - 1} {m₂ = 2 ^ 32 - 1} (omega arith) (omega arith) in
    omega arith

div_value-lt : (a b : ℕ) → div_value a b < 2 ^ 32
unfolding div_value
div_value-lt a b =
    if-both (λ v. v < 2 ^ 32) (b == 0) (omega arith)
      (if-both (λ v. v < 2 ^ 32) (div_overflows a b) (omega arith) (to_u32-lt _))

rem_value-lt : (a b : ℕ) → a < 2 ^ 32 → rem_value a b < 2 ^ 32
unfolding rem_value
rem_value-lt a b h =
    if-both (λ v. v < 2 ^ 32) (b == 0) h
      (if-both (λ v. v < 2 ^ 32) (div_overflows a b) (omega arith) (to_u32-lt _))

divu_value-lt : (a b : ℕ) → a < 2 ^ 32 → divu_value a b < 2 ^ 32
unfolding divu_value
divu_value-lt a b h = ground (arith, div-le_self a b)

remu_value-lt : (a b : ℕ) → a < 2 ^ 32 → b < 2 ^ 32 → remu_value a b < 2 ^ 32
unfolding remu_value
remu_value-lt a b h k = ground arith

muldiv_value-lt : (funct3 a b : ℕ) → a < 2 ^ 32 → b < 2 ^ 32 → muldiv_value funct3 a b < 2 ^ 32
unfolding muldiv_value signed_product mixed_product
muldiv_value-lt funct3 a b ha hb = ground (
  arith,
  to_u64-lt (signed32 a *ℤ signed32 b),
  product-lt a b ha hb,
  div_value-lt a b,
  rem_value-lt a b ha,
  divu_value-lt a b ha,
  remu_value-lt a b ha hb,
)

pub exec_muldiv-IsExit : (insn : ℕ) (s : Machine) → IsWellFormed s → IsExit (exec_muldiv insn s)
unfolding exec_muldiv
exec_muldiv-IsExit insn s w = profile_if_enabled-IsWellFormed _ _ insn (
    jump-IsWellFormed (add32 s.pc 4) (omega arith) (
      write_reg-IsWellFormed (rd_of insn) _
        (muldiv_value-lt (funct3_of insn) (src1_of insn s) (src2_of insn s) (w.regs_ok.regs_lt _)
          (w.regs_ok.regs_lt _))
        w))

flag-lt : (b : Bool) → flag b < 2 ^ 32
flag-lt true = omega arith
flag-lt false = omega arith

shr32-lt : (a k : ℕ) → a < 2 ^ 32 → shr32 a k < 2 ^ 32
shr32-lt a k h = omega (arith, div-le_self a (2 ^ k))

pub exec_op-IsWellFormed : (insn : ℕ) (s : Machine) → IsWellFormed s → IsWellFormed (exec_op insn s)
unfolding exec_op
exec_op-IsWellFormed insn s w =
    let f3 = funct3_of insn in
    let f7 = funct7_of insn in
    let a-lt = w.regs_ok.regs_lt (field insn 15 5) in
    let b-lt = w.regs_ok.regs_lt (field insn 20 5) in
    let to_rd = λ (v : ℕ) (h : v < 2 ^ 32). write_reg-IsWellFormed (rd_of insn) v {s = s} h w in
    if-IsWellFormed (f3 == 0)
      (if-IsWellFormed (f7 == 0x20) (to_rd _ (omega arith)) (to_rd _ (omega arith)))
      (if-IsWellFormed (f3 == 1) (if-IsWellFormed (f7 == 0) (to_rd _ (omega arith)) w) (
        if-IsWellFormed (f3 == 2) (to_rd _ (flag-lt _)) (
          if-IsWellFormed (f3 == 3) (to_rd _ (flag-lt _)) (
            if-IsWellFormed (f3 == 4) (to_rd _ (bit_xor-lt 32 _ _ a-lt b-lt)) (
              if-IsWellFormed (f3 == 5)
                (if-IsWellFormed (f7 == 0x20) (to_rd _ (sra32-lt _ _ a-lt))
                  (to_rd _ (shr32-lt _ _ a-lt)))
                (if-IsWellFormed (f3 == 6) (to_rd _ (bit_or-lt 32 _ _ a-lt b-lt))
                  (to_rd _ (omega (arith, bit_and-le (src1_of insn s) (src2_of insn s))))))))))

pub exec_op_imm-IsWellFormed :
    (insn : ℕ) (s : Machine) → IsWellFormed s → IsWellFormed (exec_op_imm insn s)
unfolding exec_op_imm imm_i
exec_op_imm-IsWellFormed insn s w =
    let f3 = funct3_of insn in
    let a-lt = w.regs_ok.regs_lt (field insn 15 5) in
    let imm-lt = sign_extend-lt (insn / 2 ^ 20) 12 in
    let to_rd = λ (v : ℕ) (h : v < 2 ^ 32). write_reg-IsWellFormed (rd_of insn) v {s = s} h w in
    if-IsWellFormed (f3 == 0) (to_rd _ (omega arith)) (
      if-IsWellFormed (f3 == 2) (to_rd _ (flag-lt _)) (
        if-IsWellFormed (f3 == 3) (to_rd _ (flag-lt _)) (
          if-IsWellFormed (f3 == 4) (to_rd _ (bit_xor-lt 32 _ _ a-lt imm-lt)) (
            if-IsWellFormed (f3 == 6) (to_rd _ (bit_or-lt 32 _ _ a-lt imm-lt)) (
              if-IsWellFormed (f3 == 7)
                (to_rd _ (omega (arith, bit_and-le (src1_of insn s) (imm_i insn))))
                (if-IsWellFormed (f3 == 1)
                  (if-IsWellFormed (insn / 2 ^ 25 == 0) (to_rd _ (omega arith)) w)
                  (if-IsWellFormed (insn / 2 ^ 25 == 0) (to_rd _ (shr32-lt _ _ a-lt))
                    (if-IsWellFormed (insn / 2 ^ 25 == 0x20) (to_rd _ (sra32-lt _ _ a-lt)) w))))))))

-- A break to the next instruction.
pub next-IsExit :
    (type : InsnType) (at : ℕ) {s : Machine} → IsWellFormed s → IsExit (break type (add32 at 4) s)
next-IsExit type at w = (omega arith, w)

pub exec_branch-IsExit : (insn : ℕ) (s : Machine) → IsWellFormed s → IsExit (exec_branch insn s)
unfolding exec_branch
exec_branch-IsExit insn s w = (
  if-both (λ v. v < 2 ^ 32) (branch_taken (funct3_of insn) (src1_of insn s) (src2_of insn s))
      (omega arith) (omega arith),
  w,
)

pub exec_jal-IsExit : (insn : ℕ) (s : Machine) → IsWellFormed s → IsExit (exec_jal insn s)
unfolding exec_jal
exec_jal-IsExit insn s w =
    (omega arith, write_reg-IsWellFormed (rd_of insn) (add32 s.pc 4) (omega arith) w)

pub exec_jalr-IsExit : (insn : ℕ) (s : Machine) → IsWellFormed s → IsExit (exec_jalr insn s)
unfolding exec_jalr
exec_jalr-IsExit insn s w =
    (omega arith, write_reg-IsWellFormed (rd_of insn) (add32 s.pc 4) (omega arith) w)

csr_read-lt : (addr : ℕ) (s : Machine) → IsWellFormed s → csr_read addr s < 2 ^ 32
unfolding csr_read
csr_read-lt addr s w = let ok = w.csrs_ok in ground arith

csr_write-IsWellFormed :
    (addr value : ℕ) (s : Machine)
    → value < 2 ^ 32
    → IsWellFormed s
    → IsWellFormed (csr_write addr value s)
unfolding csr_write
csr_write-IsWellFormed addr value s h w =
    let ok = w.csrs_ok in
    if-IsWellFormed (addr == 0x300)
      (IsWellFormed-of_parts _ w.regs_ok w.ram_ok w.pc_ok (omega arith) w.htif_ok)
      (if-IsWellFormed (addr == 0x304)
        (IsWellFormed-of_parts _ w.regs_ok w.ram_ok w.pc_ok (omega arith) w.htif_ok)
        (if-IsWellFormed (addr == 0x305)
          (IsWellFormed-of_parts _ w.regs_ok w.ram_ok w.pc_ok (omega arith) w.htif_ok)
          (if-IsWellFormed (addr == 0x341)
            (IsWellFormed-of_parts _ w.regs_ok w.ram_ok w.pc_ok (omega arith) w.htif_ok)
            (if-IsWellFormed (addr == 0x342)
              (IsWellFormed-of_parts _ w.regs_ok w.ram_ok w.pc_ok (omega arith) w.htif_ok) w))))

csr_new-lt : (funct3 old wr : ℕ) → old < 2 ^ 32 → wr < 2 ^ 32 → csr_new funct3 old wr < 2 ^ 32
unfolding csr_new
csr_new-lt funct3 old wr ho hw =
    ground (arith, bit_or-lt 32 old wr ho hw, bit_and-le old (not32 wr))

csr_operand-lt : (insn : ℕ) (s : Machine) → IsWellFormed s → csr_operand insn s < 2 ^ 32
csr_operand-lt insn s w =
    if-both (λ v. v < 2 ^ 32) (field (funct3_of insn) 2 1 == 1) (omega arith) (w.regs_ok.regs_lt _)

pub exec_csr-IsExit : (insn : ℕ) (s : Machine) → IsWellFormed s → IsExit (exec_csr insn s)
unfolding exec_csr
exec_csr-IsExit insn s w =
    let old-lt = csr_read-lt (csr_addr_of insn) s w in
    let new-lt = csr_new-lt (funct3_of insn) _ _ old-lt (csr_operand-lt insn s w) in
    (
      omega arith,
      write_reg-IsWellFormed (rd_of insn) _ old-lt
          (csr_write-IsWellFormed (csr_addr_of insn) _ s new-lt w),
    )

pub exec_sys-IsExit : (insn : ℕ) (s : Machine) → IsWellFormed s → IsExit (exec_sys insn s)
unfolding exec_sys
exec_sys-IsExit insn s w =
    let ok = w.csrs_ok in
    if-both IsExit (insn == 0x00100073 || insn == 0x00000073) w (
      if-both IsExit (insn == 0x30200073)
        (IsWellFormed-of_parts _ w.regs_ok w.ram_ok ok.mepc_lt
          (omega (arith, bit_or-lt 32 s.csr_mstatus 8 ok.mstatus_lt (omega arith))) w.htif_ok)
        (if-both IsExit (mie_set s.csr_mstatus && not (s.irq_mask == 0)) (omega arith, w)
          (IsWellFormed-of_parts _ w.regs_ok w.ram_ok w.pc_ok w.csrs_ok w.htif_ok)))

pub exec_system-IsExit : (insn : ℕ) (s : Machine) → IsWellFormed s → IsExit (exec_system insn s)
unfolding exec_system
exec_system-IsExit insn s w =
    if-both IsExit (funct3_of insn == 0) (exec_sys-IsExit insn s w) (exec_csr-IsExit insn s w)

pub exec_lui-IsWellFormed :
    (insn : ℕ) (s : Machine) → insn < 2 ^ 32 → IsWellFormed s → IsWellFormed (exec_lui insn s)
unfolding exec_lui
exec_lui-IsWellFormed insn s h w = write_reg-IsWellFormed (rd_of insn) (upper insn) (omega arith) w

pub exec_auipc-IsWellFormed :
    (insn : ℕ) (s : Machine) → IsWellFormed s → IsWellFormed (exec_auipc insn s)
unfolding exec_auipc
exec_auipc-IsWellFormed insn s w =
    write_reg-IsWellFormed (rd_of insn) (add32 s.pc (upper insn)) (omega arith) w
