-- ===== src/Execute.antt =====
-- `execute_instruction` of dpi-riscv/sim/iss/rv32_dpi.c: one 32-bit instruction. Tracing to the
-- standard error stream is left out.
pub mod Decode
pub mod MulDiv
pub mod Alu
pub mod Control
pub mod System
pub mod LoadStore
pub mod WellFormed
pub mod Encode
pub mod Product
pub mod Division
pub mod Preserve
pub mod Total
use herve.Base.{ℕ, Bool, true, Option, some, ◌==◌, if◌then◌else◌}
use herve.Word.{add32}
use herve.Profiler.{InsnType}
use herve.Machine.{Machine, Bus, profile_if_enabled, ◌>>=◌}
use Decode.{opcode_of, funct7_of, Exit, break, return}
use MulDiv.{exec_muldiv}
use Alu.{exec_op, exec_op_imm, exec_lui, exec_auipc}
use Control.{exec_branch, exec_jal, exec_jalr}
use System.{exec_system}
use LoadStore.{exec_load, exec_store}

-- The end of the function, behind the `switch`.
unfoldable pub finish : ℕ → Exit → Bool × Machine
finish insn (return more s) = (more, s)
finish insn (break type next_pc s) =
    (true, profile_if_enabled type s.pc insn (record s { pc = next_pc }))

module _ (dpi_mmio_read : Bus) where
  -- The `switch (opcode)`. An opcode that it does not know changes nothing.
  unfoldable pub dispatch : ℕ → Machine → Option Exit
  dispatch insn s =
      let opcode = opcode_of insn in
      let next_pc = add32 s.pc 4 in
      if opcode == 0x33
      then (if funct7_of insn == 1
          then some (exec_muldiv insn s)
          else some (break InsnType.alu next_pc (exec_op insn s)))
      else if opcode == 0x13
      then some (break InsnType.alu next_pc (exec_op_imm insn s))
      else if opcode == 0x03
      then (do s' ← exec_load dpi_mmio_read insn s; some (break InsnType.load next_pc s'))
      else if opcode == 0x23
      then (do s' ← exec_store dpi_mmio_read insn s; some (break InsnType.store next_pc s'))
      else if opcode == 0x63
      then some (exec_branch insn s)
      else if opcode == 0x6f
      then some (exec_jal insn s)
      else if opcode == 0x67
      then some (exec_jalr insn s)
      else if opcode == 0x37
      then some (break InsnType.alu next_pc (exec_lui insn s))
      else if opcode == 0x17
      then some (break InsnType.alu next_pc (exec_auipc insn s))
      else if opcode == 0x73
      then some (exec_system insn s)
      else some (break InsnType.alu next_pc s)

  unfoldable pub execute_instruction : ℕ → Machine → Option (Bool × Machine)
  execute_instruction insn s = do exit ← dispatch insn s; some (finish insn exit)
