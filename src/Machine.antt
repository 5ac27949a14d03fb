-- ===== src/Machine.antt =====
-- The state of the instruction set simulator: the static variables of
-- dpi-riscv/sim/iss/rv32_dpi.c, `write_reg`, the symbol table and the accessors of rv32_dpi.h.
mod Fault
pub mod Symbols
pub mod WellFormed
pub use Fault.*
use herve.Base.{ℕ, ◌<◌, ◌≡◌, Bool, true, false, List, ◌==◌, ltb, if◌then◌else◌, update, String}
use herve.Profiler.{InsnType, Profiler, record_insn}
use Symbols.{Symbol, symbol_at}

-- A call of the test bench's `dpi_mmio_read` or `dpi_mmio_write`, with the value read or written.
pub data BusEvent : Type 0 where
  bus_read : ℕ → ℕ → BusEvent
  bus_write : ℕ → ℕ → BusEvent

-- `dpi_mmio_read`, which the test bench implements: what it answers at an address, after the
-- calls so far (latest first). Its return type cuts the answer to 32 bits.
abbrev pub Bus : Type 0
Bus = List BusEvent → ℕ → ℕ

-- The static variables. `memory` gives the byte at each offset; only the offsets below
-- `memory_size` belong to the buffer. `bus` and `console` are what the outside has seen: the calls
-- of the test bench and the bytes given to `putchar`, latest first.
pub record Machine : Type 0 where
  pub memory : ℕ → ℕ
  pub memory_size : ℕ
  pub memory_base : ℕ
  pub regs : ℕ → ℕ
  pub pc : ℕ
  pub irq_mask : ℕ
  pub wfi_sleep : Bool
  pub initialized : Bool
  pub symbols : List Symbol
  pub csr_mstatus : ℕ
  pub csr_mtvec : ℕ
  pub csr_mepc : ℕ
  pub csr_mcause : ℕ
  pub csr_mcycle : ℕ
  pub csr_mie : ℕ
  pub htif_tohost_lo : ℕ
  pub htif_tohost_hi : ℕ
  pub htif_fromhost_lo : ℕ
  pub htif_fromhost_hi : ℕ
  pub htif_exit : Bool
  pub htif_exit_code : ℕ
  pub htif_halted : Bool
  pub profiler : Profiler
  pub bus : List BusEvent
  pub console : List ℕ

-- `write_reg`: register 0 stays what it is.
unfoldable pub write_reg : ℕ → ℕ → Machine → Machine
write_reg reg value s = if reg == 0 then s else record s { regs = update s.regs reg value }

-- `herve_profiler_record_insn(type, pc, insn)`, with its call of `herve_get_symbol_at(pc)`.
unfoldable pub profile : InsnType → ℕ → ℕ → Machine → Machine
profile type at insn s = record s {
  profiler = record_insn type (symbol_at at s.symbols) insn s.profiler;
}

-- `if (herve_profiler_is_enabled()) herve_profiler_record_insn(type, pc, insn);`.
unfoldable pub profile_if_enabled : InsnType → ℕ → ℕ → Machine → Machine
profile_if_enabled type at insn s = if s.profiler.enabled then profile type at insn s else s

-- `rv_get_pc`.
unfoldable pub get_pc : Machine → ℕ
get_pc s = s.pc

-- `rv_get_reg`.
unfoldable pub get_reg : ℕ → Machine → ℕ
get_reg reg s = if ltb reg 32 then s.regs reg else 0
