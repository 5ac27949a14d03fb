-- ===== src/Tests/Run.antt =====
-- Runs of the model on a small program.
use herve.Base.{ℕ, ◌≡◌, refl, Bool, true, false, Option, none, some, ◌&&◌, ◌==◌}
use herve.Word.{sign_extend, sra32}
use herve.Execute.Decode.{imm_i}
use herve.Compressed.Immediate.{imm_ci, imm_ci_signed}
use herve.Machine.{Machine, profile_if_enabled, write_reg}
use herve.Memory.Ram.{valid_memory_access, peek, read_le}
use herve.Memory.Htif.{is_htif_address}
use herve.Memory.Access.{read_u32, is_mmio_address, ram_read}
use herve.Execute.{execute_instruction, dispatch, finish}
use herve.Execute.Alu.{exec_op_imm}
use herve.Execute.System.{exec_system, exec_sys}
use herve.Compressed.{execute_compressed, exec_q1}
use herve.Step.Loop.{loop, round, tick, compressed_end, advance}
use herve.Step.{step, batch}
use herve.Tests.{five_bus, booted}

abbrev ran : Option (ℕ × Machine) → ℕ → ℕ → ℕ → Bool
ran none count at value = false
ran (some r) count at value = (r.0 == count) && (r.1.pc == at) && (r.1.regs 1 == value)

-- Two instructions are executed; the third, ECALL, ends the batch.
program_runs : ran (step five_bus 10 (booted 0)) 2 6 6 ≡ true
unfolding step batch loop valid_memory_access read_u32 is_htif_address is_mmio_address ram_read peek
    round read_le execute_instruction dispatch finish tick profile_if_enabled exec_op_imm write_reg
    execute_compressed exec_q1 compressed_end advance exec_system exec_sys imm_i imm_ci_signed
    imm_ci sign_extend sra32
program_runs = refl
