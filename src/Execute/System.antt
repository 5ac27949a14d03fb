-- ===== src/Execute/System.antt =====
-- `case 0x73` of `execute_instruction` in dpi-riscv/sim/iss/rv32_dpi.c: ECALL, EBREAK, MRET, WFI
-- and the CSR instructions.
use herve.Base.{
  ℕ, ◌%◌, ◌^◌, Bool, true, false, not, ◌||◌, ◌&&◌, ◌==◌, if◌then◌else◌, bit_and, bit_or,
}
use herve.Word.{add32, not32, field}
use herve.Profiler.{InsnType}
use herve.Machine.{Machine, write_reg}
use herve.Execute.Decode.{rd_of, funct3_of, src1_of, Exit, break, return}

-- `csr_mstatus & 0x8`: interrupts are enabled.
abbrev pub mie_set : ℕ → Bool
mie_set mstatus = field mstatus 3 1 == 1

-- The `switch (csr_addr)` that reads. `irq_mask & MIE_MTIE` is bit 7.
unfoldable pub csr_read : ℕ → Machine → ℕ
csr_read addr s =
    if addr == 0x300
    then s.csr_mstatus
    else if addr == 0x304
    then s.csr_mie
    else if addr == 0x305
    then s.csr_mtvec
    else if addr == 0x341
    then s.csr_mepc
    else if addr == 0x342
    then s.csr_mcause
    else if addr == 0x344
    then (if field s.irq_mask 7 1 == 1 then 0x80 else 0)
    else if addr == 0xB00
    then s.csr_mcycle % 2 ^ 32
    else if addr == 0xB02
    then s.csr_mcycle % 2 ^ 32
    else if addr == 0xF12
    then 1
    else 0

-- The `switch (csr_addr)` that writes.
unfoldable pub csr_write : ℕ → ℕ → Machine → Machine
csr_write addr value s =
    if addr == 0x300
    then record s { csr_mstatus = value }
    else if addr == 0x304
    then record s { csr_mie = value }
    else if addr == 0x305
    then record s { csr_mtvec = value }
    else if addr == 0x341
    then record s { csr_mepc = value }
    else if addr == 0x342
    then record s { csr_mcause = value }
    else s

-- The `switch (funct3)` that makes the new value.
unfoldable pub csr_new : ℕ → ℕ → ℕ → ℕ
csr_new funct3 old wr =
    if funct3 == 1
    then wr
    else if funct3 == 2
    then bit_or old wr
    else if funct3 == 3
    then bit_and old (not32 wr)
    else if funct3 == 5
    then wr
    else if funct3 == 6
    then bit_or old wr
    else if funct3 == 7
    then bit_and old (not32 wr)
    else old

-- `csr_addr`, and `wr_val`: the field `rd` for the immediate variants.
abbrev pub csr_addr_of : ℕ → ℕ
csr_addr_of insn = field insn 20 12

abbrev pub csr_operand : ℕ → Machine → ℕ
csr_operand insn s = if field (funct3_of insn) 2 1 == 1 then rd_of insn else src1_of insn s

unfoldable pub exec_csr : ℕ → Machine → Exit
exec_csr insn s =
    let addr = csr_addr_of insn in
    let csr_val = csr_read addr s in
    let new_val = csr_new (funct3_of insn) csr_val (csr_operand insn s) in
    break InsnType.csr (add32 s.pc 4) (write_reg (rd_of insn) csr_val (csr_write addr new_val s))

-- `funct3 == 0`: ECALL and EBREAK stop the run, MRET returns, and all else is WFI.
unfoldable pub exec_sys : ℕ → Machine → Exit
exec_sys insn s =
    if insn == 0x00100073 || insn == 0x00000073
    then return false s
    else if insn == 0x30200073
    then return true (record s { pc = s.csr_mepc; csr_mstatus = bit_or s.csr_mstatus 8 })
    else if mie_set s.csr_mstatus && not (s.irq_mask == 0)
    then break InsnType.sys (add32 s.pc 4) s
    else return false (record s { wfi_sleep = true })

unfoldable pub exec_system : ℕ → Machine → Exit
exec_system insn s = if funct3_of insn == 0 then exec_sys insn s else exec_csr insn s
