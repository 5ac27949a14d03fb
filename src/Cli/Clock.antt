-- ===== src/Cli/Clock.antt =====
-- What decides how long the loop of dpi-riscv/sim/iss/herve_main.c goes on: the parts of the instructions
-- of dpi-riscv/sim/iss/rv32_dpi.c request no interrupt and do not change the counter of cycles.
use herve.Base.{ℕ, ◌≡◌, arith, refl}
use herve.Machine.{Machine, Bus, Ensures, write_reg, profile_if_enabled, profile}
use herve.Memory.Ram.{valid_memory_access, peek, poke}
use herve.Memory.Access.{
  mmio_read, mmio_write, ram_read, ram_write, read_u32, read_u16, read_u8, write_u32, write_u16,
  write_u8,
}
use herve.Memory.Htif.{
  htif_putchar, htif_reply, htif_syscall, htif_process_request, htif_read, htif_write,
}
use herve.Execute.Decode.{Exit, break, return}
use herve.Execute.MulDiv.{exec_muldiv}
use herve.Execute.Alu.{exec_op, exec_op_imm, exec_lui, exec_auipc}
use herve.Execute.Control.{exec_branch, exec_jal, exec_jalr}
use herve.Execute.System.{exec_system, exec_sys, exec_csr, csr_write}
use herve.Execute.{finish}
use herve.Compressed.Alu.{write_shifted, exec_ca, exec_q1_alu, exec_q1_lui}
use herve.Compressed.{exec_q1, exec_q2_jump}

-- The requested interrupts and the counter.
abbrev pub clock : Machine → ℕ × ℕ
clock s = (s.irq_mask, s.csr_mcycle)

abbrev pub IsTimely : ℕ × ℕ → Machine → Type 0
IsTimely c s = clock s ≡ c

-- The same of the state behind a value.
abbrev pub HasClock : {X : Type 0} → ℕ × ℕ → X × Machine → Type 0
HasClock c r = clock r.1 ≡ c

abbrev pub clock_exit : Exit → ℕ × ℕ
clock_exit (break type next_pc s) = clock s
clock_exit (return more s) = clock s

abbrev pub IsTimelyExit : ℕ × ℕ → Exit → Type 0
IsTimelyExit c e = clock_exit e ≡ c

pub clock-write_reg : (reg value : ℕ) (s : Machine) → clock (write_reg reg value s) ≡ clock s
unfolding write_reg
clock-write_reg reg value s = ground arith

pub clock-exec_op_imm : (insn : ℕ) (s : Machine) → clock (exec_op_imm insn s) ≡ clock s
unfolding exec_op_imm write_reg
clock-exec_op_imm insn s = ground arith

pub clock-exec_lui : (insn : ℕ) (s : Machine) → clock (exec_lui insn s) ≡ clock s
unfolding exec_lui write_reg
clock-exec_lui insn s = ground arith

pub clock-exec_auipc : (insn : ℕ) (s : Machine) → clock (exec_auipc insn s) ≡ clock s
unfolding exec_auipc write_reg
clock-exec_auipc insn s = ground arith

clock-exec_ca : (insn : ℕ) (s : Machine) → clock (exec_ca insn s) ≡ clock s
unfolding exec_ca write_reg
clock-exec_ca insn s = ground arith

pub clock-exec_op : (insn : ℕ) (s : Machine) → clock (exec_op insn s) ≡ clock s
unfolding exec_op write_reg
clock-exec_op insn s = ground arith steps 20000000

pub clock_exit-exec_muldiv : (insn : ℕ) (s : Machine) → clock_exit (exec_muldiv insn s) ≡ clock s
unfolding exec_muldiv write_reg profile profile_if_enabled
clock_exit-exec_muldiv insn s = ground arith

pub clock_exit-exec_branch : (insn : ℕ) (s : Machine) → clock_exit (exec_branch insn s) ≡ clock s
unfolding exec_branch
clock_exit-exec_branch insn s = ground arith

pub clock_exit-exec_jal : (insn : ℕ) (s : Machine) → clock_exit (exec_jal insn s) ≡ clock s
unfolding exec_jal write_reg
clock_exit-exec_jal insn s = ground arith

pub clock_exit-exec_jalr : (insn : ℕ) (s : Machine) → clock_exit (exec_jalr insn s) ≡ clock s
unfolding exec_jalr write_reg
clock_exit-exec_jalr insn s = ground arith

pub clock_exit-exec_system : (insn : ℕ) (s : Machine) → clock_exit (exec_system insn s) ≡ clock s
unfolding exec_system exec_sys exec_csr csr_write write_reg
clock_exit-exec_system insn s = ground arith

pub clock-finish : (insn : ℕ) (exit : Exit) → clock (finish insn exit).1 ≡ clock_exit exit
unfolding finish profile_if_enabled profile
clock-finish insn (return more s) = refl
clock-finish insn (break type next_pc s) = ground arith

pub write_shifted-HasClock :
    (shamt reg value : ℕ) (s : Machine)
    → Ensures (HasClock (clock s)) (write_shifted shamt reg value s)
unfolding write_shifted write_reg
write_shifted-HasClock shamt reg value s = ground arith

pub exec_q2_jump-HasClock :
    (insn : ℕ) (s : Machine) → Ensures (HasClock (clock s)) (exec_q2_jump insn s)
unfolding exec_q2_jump write_reg
exec_q2_jump-HasClock insn s = ground arith

exec_q1_alu-HasClock : (insn : ℕ) (s : Machine) → Ensures (HasClock (clock s)) (exec_q1_alu insn s)
unfolding exec_q1_alu write_shifted exec_ca write_reg
exec_q1_alu-HasClock insn s = ground arith

exec_q1_lui-HasClock : (insn : ℕ) (s : Machine) → Ensures (HasClock (clock s)) (exec_q1_lui insn s)
unfolding exec_q1_lui write_reg
exec_q1_lui-HasClock insn s = ground arith

pub exec_q1-HasClock : (insn : ℕ) (s : Machine) → Ensures (HasClock (clock s)) (exec_q1 insn s)
unfolding exec_q1 exec_q1_lui exec_q1_alu write_shifted exec_ca write_reg
exec_q1-HasClock insn s = ground arith

module _ (bus : Bus) where
  pub read_u32-HasClock :
      (addr : ℕ) (s : Machine) → Ensures (HasClock (clock s)) (read_u32 bus addr s)
  unfolding read_u32 mmio_read ram_read valid_memory_access peek htif_read
  read_u32-HasClock addr s = ground arith

  pub read_u16-HasClock :
      (addr : ℕ) (s : Machine) → Ensures (HasClock (clock s)) (read_u16 bus addr s)
  unfolding read_u16 mmio_read ram_read valid_memory_access peek htif_read read_u32
  read_u16-HasClock addr s = ground arith

  pub read_u8-HasClock :
      (addr : ℕ) (s : Machine) → Ensures (HasClock (clock s)) (read_u8 bus addr s)
  unfolding read_u8 mmio_read ram_read valid_memory_access peek htif_read read_u32
  read_u8-HasClock addr s = ground arith

  pub write_u32-IsTimely :
      (addr value : ℕ) (s : Machine) → Ensures (IsTimely (clock s)) (write_u32 bus addr value s)
  unfolding write_u32 mmio_write mmio_read ram_write valid_memory_access poke htif_write
      htif_process_request htif_syscall htif_reply htif_putchar peek
  write_u32-IsTimely addr value s = ground arith

  pub write_u16-IsTimely :
      (addr value : ℕ) (s : Machine) → Ensures (IsTimely (clock s)) (write_u16 bus addr value s)
  unfolding write_u16 mmio_write mmio_read ram_write valid_memory_access poke htif_write
      htif_process_request htif_syscall htif_reply htif_putchar peek
  write_u16-IsTimely addr value s = ground arith

  pub write_u8-IsTimely :
      (addr value : ℕ) (s : Machine) → Ensures (IsTimely (clock s)) (write_u8 bus addr value s)
  unfolding write_u8 mmio_write mmio_read ram_write valid_memory_access poke htif_write
      htif_process_request htif_syscall htif_reply htif_putchar peek
  write_u8-IsTimely addr value s = ground arith
