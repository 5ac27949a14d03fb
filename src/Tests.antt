-- ===== src/Tests.antt =====
-- Concrete states and instructions on which the theorems are applied, and runs of the model.
mod Examples
mod Values
mod Run
mod Doubles
mod Loader
mod ElfFile
mod Devices
mod Program
mod Runner
use herve.Base.{ℕ, ◌<◌, ◌^◌, ◌≡◌, Bool, true, false, refl, arith, [], none, ◌==◌, if◌then◌else◌}
use herve.Profiler.{Profiler, cf_none}
use herve.Machine.{Machine, Bus}
use herve.Machine.WellFormed.{IsRegs, IsRam, IsCsrs, IsHtif, IsWellFormed, IsWellFormed-of_parts}

-- A test bench that answers 5 everywhere.
abbrev pub five_bus : Bus
five_bus events addr = 5

abbrev pub idle_profiler : Profiler
idle_profiler = record {
  enabled = false;
  arch = none;
  total_cycles = 0;
  total_instructions = 0;
  insn_counts = λ _. 0;
  insn_cycles = λ _. 0;
  func_stats = [];
  last_func = none;
  call_pairs = [];
  last_cf = cf_none;
}

-- `addi x1, x0, 5` at address 0, `c.addi x1, 1` at address 4 and `ecall` at address 6.
abbrev pub program : ℕ → ℕ
program i =
    if i == 0
    then 0x93
    else if i == 2
    then 0x50
    else if i == 4
    then 0x85
    else if i == 6
    then 0x73
    else 0

-- A simulator with 1024 bytes of memory at `base`.
abbrev pub booted : ℕ → Machine
booted base = record {
  memory = program;
  memory_size = 1024;
  memory_base = base;
  regs = λ _. 0;
  pc = base;
  irq_mask = 0;
  wfi_sleep = false;
  initialized = true;
  symbols = [];
  csr_mstatus = 0;
  csr_mtvec = 0x101;
  csr_mepc = 0;
  csr_mcause = 0;
  csr_mcycle = 0;
  csr_mie = 0xFFFFFFFF;
  htif_tohost_lo = 0;
  htif_tohost_hi = 0;
  htif_fromhost_lo = 0;
  htif_fromhost_hi = 0;
  htif_exit = false;
  htif_exit_code = 0;
  htif_halted = false;
  profiler = idle_profiler;
  bus = [];
  console = [];
}

-- The same with interrupts 7 and 11 requested and interrupts on.
abbrev pub interrupted : Machine
interrupted = record (booted 0) { irq_mask = 0x880; csr_mstatus = 8; wfi_sleep = true }

program-lt : (i : ℕ) → program i < 256
program-lt i = ground arith

program-IsRam : (base : ℕ) → base < 2 ^ 32 → IsRam program 1024 base
program-IsRam base h = record { memory_lt = program-lt; size_lt = omega arith; base_lt = h }

zero-IsRegs : IsRegs (λ _. 0)
zero-IsRegs = record { zero_reg = refl; regs_lt = λ r. omega arith }

pub booted-IsWellFormed : (base : ℕ) → base < 2 ^ 32 → IsWellFormed (booted base)
booted-IsWellFormed base h =
    IsWellFormed-of_parts (booted base) zero-IsRegs (program-IsRam base h) h (omega arith)
      (omega arith)

pub interrupted-IsWellFormed : IsWellFormed interrupted
interrupted-IsWellFormed =
    IsWellFormed-of_parts interrupted zero-IsRegs (program-IsRam 0 (omega arith)) (omega arith)
      (omega arith) (omega arith)
