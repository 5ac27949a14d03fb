-- ===== src/Step.antt =====
-- `ctz32` and `rv_step` of dpi-riscv/sim/iss/rv32_dpi.c: interrupts, sleep, and a batch of
-- instructions.
pub mod Loop
pub mod Preserve
pub mod Interrupt
pub mod Halt
use herve.Base.{
  ℕ, zero, suc, ◌+◌, ◌-◌, ◌*◌, ◌/◌, ◌%◌, ◌^◌, Bool, true, false, not, ◌&&◌, ◌||◌, Option, some,
  ◌==◌, if◌then◌else◌, bit_and,
}
use herve.Word.{add32, not32}
use herve.Machine.{Machine, Bus}
use herve.Execute.System.{mie_set}
use Loop.{round, round_profiled, loop}

-- `while ((x & 1) == 0) { n++; x >>= 1; }`. A word that is not 0 ends it in 31 rounds at most.
pub ctz_loop : ℕ → ℕ → ℕ → ℕ
ctz_loop zero n x = n
ctz_loop (suc fuel) n x = let rest = ctz_loop fuel (n + 1) (x / 2) in if x % 2 == 0 then rest else n

unfoldable pub ctz32 : ℕ → ℕ
unfolding ctz_loop
ctz32 x = if x == 0 then 32 else ctz_loop 32 0 x

-- `irq_mask & csr_mie`.
abbrev pub pending_of : Machine → ℕ
pending_of s = bit_and s.irq_mask s.csr_mie

-- `pending != 0 && (csr_mstatus & 0x8)`.
abbrev pub interrupt_ready : Machine → Bool
interrupt_ready s = not (pending_of s == 0) && mie_set s.csr_mstatus

-- Entry into the interrupt handler, direct or vectored.
unfoldable pub enter_interrupt : Machine → Machine
enter_interrupt s =
    let cause = ctz32 (pending_of s) in
    let base = s.csr_mtvec - s.csr_mtvec % 4 in
    record s {
      csr_mcause = cause;
      csr_mepc = s.pc;
      irq_mask = bit_and s.irq_mask (not32 (2 ^ cause));
      csr_mstatus = bit_and s.csr_mstatus (not32 8);
      pc = if s.csr_mtvec % 4 == 0 then base else add32 base (cause * 4);
    }

-- `wfi_sleep = false`, where the simulator was asleep.
abbrev pub wake : Machine → Machine
wake s = if s.wfi_sleep then record s { wfi_sleep = false } else s

module _ (dpi_mmio_read : Bus) where
  -- The choice between the two loops.
  unfoldable pub batch : ℕ → Machine → Option (ℕ × Machine)
  batch max_instructions s =
      if s.profiler.enabled
      then loop dpi_mmio_read (round_profiled dpi_mmio_read) max_instructions 0 s
      else loop dpi_mmio_read (round dpi_mmio_read) max_instructions 0 s

  -- `rv_step`; a negative bound does what the bound 0 does.
  unfoldable pub step : ℕ → Machine → Option (ℕ × Machine)
  step max_instructions s =
      if not s.initialized || max_instructions == 0
      then some (0, s)
      else if s.wfi_sleep && not (interrupt_ready s)
      then some (0, s)
      else if interrupt_ready s
      then some (1, enter_interrupt (wake s))
      else batch max_instructions s
