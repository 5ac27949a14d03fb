-- ===== src/Step/Preserve.antt =====
-- The ranges of the variables behind `rv_step` of dpi-riscv/sim/iss/rv32_dpi.c.
use herve.Base.{
  ℕ, zero, suc, ◌+◌, ◌-◌, ◌*◌, ◌/◌, ◌%◌, ◌^◌, ◌<◌, ◌≤◌, Bool, not, ◌&&◌, ◌||◌, arith, ◌==◌,
  if◌then◌else◌, Option, if-both, bit_and,
}
use herve.Word.{u16, add32, not32}
use herve.Word.Bits.{bit_and-le}
use herve.Machine.{Machine, Bus, Ensures, Ensures-bind, if-Ensures}
use herve.Machine.WellFormed.{
  IsCsrs, IsWellFormed, IsWellFormed-of_parts, if-IsWellFormed, jump-IsWellFormed,
  profile-IsWellFormed,
}
use herve.Memory.AccessWellFormed.{IsRead, read_u32-IsRead}
use herve.Execute.Preserve.{IsKept, execute_instruction-IsKept}
use herve.Compressed.Preserve.{execute_compressed-IsKept}
use herve.Step.Loop.{
  advance, tick, compressed_end, compressed_end_profiled, round, round_profiled, stops, loop,
}
use herve.Step.{ctz_loop, ctz32, pending_of, interrupt_ready, enter_interrupt, wake, batch, step}

advance-IsWellFormed :
    (pc_before : ℕ) (s : Machine) → IsWellFormed s → IsWellFormed (advance pc_before s)
unfolding advance
advance-IsWellFormed pc_before s w =
    if-IsWellFormed (s.pc == pc_before) (jump-IsWellFormed (add32 s.pc 2) (omega arith) w) w

tick-IsWellFormed : (s : Machine) → IsWellFormed s → IsWellFormed (tick s)
unfolding tick
tick-IsWellFormed s w =
    let ok = w.csrs_ok in IsWellFormed-of_parts _ w.regs_ok w.ram_ok w.pc_ok (omega arith) w.htif_ok

ctz_loop-le : (fuel n x : ℕ) → ctz_loop fuel n x ≤ n + fuel
unfolding ctz_loop
ctz_loop-le zero n x = omega arith
ctz_loop-le (suc fuel) n x = ground (arith, ctz_loop-le fuel (n + 1) (x / 2))

pub ctz32-le : (x : ℕ) → ctz32 x ≤ 32
unfolding ctz32
ctz32-le x = ground (arith, ctz_loop-le 32 0 x)

enter_interrupt-IsWellFormed : (s : Machine) → IsWellFormed s → IsWellFormed (enter_interrupt s)
unfolding enter_interrupt
enter_interrupt-IsWellFormed s w = IsWellFormed-of_parts _ w.regs_ok w.ram_ok target csrs w.htif_ok
  where
    cause : ℕ
    cause = ctz32 (pending_of s)

    target :
        (if s.csr_mtvec % 4 == 0
          then s.csr_mtvec - s.csr_mtvec % 4
          else add32 (s.csr_mtvec - s.csr_mtvec % 4) (cause * 4))
        < 2 ^ 32
    target =
        let ok = w.csrs_ok in
        if-both (λ v. v < 2 ^ 32) (s.csr_mtvec % 4 == 0) (omega arith) (omega arith)

    csrs :
        IsCsrs
          (bit_and s.irq_mask (not32 (2 ^ cause)))
          (bit_and s.csr_mstatus (not32 8))
          s.csr_mtvec
          s.pc
          cause
          s.csr_mie
          s.csr_mcycle
    csrs =
        let ok = w.csrs_ok in
        let small = w.pc_ok in
        omega (
          arith,
          bit_and-le s.irq_mask (not32 (2 ^ cause)),
          bit_and-le s.csr_mstatus (not32 8),
          ctz32-le (pending_of s),
        )

-- What holds of a batch.
abbrev pub IsBatch : ℕ × Machine → Type 0
IsBatch r = IsWellFormed r.1

module _ (dpi_mmio_read : Bus) where
  -- A body of the loop that keeps the states well formed.
  abbrev Keeps : (ℕ → Machine → Option (Bool × Machine)) → Type 0
  Keeps body =
      (insn : ℕ) (s : Machine) → insn < 2 ^ 32 → IsWellFormed s → Ensures IsKept (body insn s)

  round-Keeps : Keeps (round dpi_mmio_read)
  unfolding round
  round-Keeps insn s word w =
      if-Ensures IsKept (insn % 4 == 3) _ _ (execute_instruction-IsKept dpi_mmio_read insn s word w)
        (Ensures-bind IsKept IsKept _ _ (execute_compressed-IsKept dpi_mmio_read (u16 insn) s w)
          (λ r h. ends r h))
    where
      ends : (r : Bool × Machine) → IsKept r → IsKept (compressed_end s.pc r)
      ends (more, s') h =
          unfold compressed_end in if-IsWellFormed more (advance-IsWellFormed s.pc s' h) h

  round_profiled-Keeps : Keeps (round_profiled dpi_mmio_read)
  unfolding round_profiled
  round_profiled-Keeps insn s word w =
      if-Ensures IsKept (insn % 4 == 3) _ _ (execute_instruction-IsKept dpi_mmio_read insn s word w)
        (Ensures-bind IsKept IsKept _ _ (execute_compressed-IsKept dpi_mmio_read (u16 insn) s w)
          (λ r h. ends r h))
    where
      ends : (r : Bool × Machine) → IsKept r → IsKept (compressed_end_profiled s.pc (u16 insn) r)
      ends (more, s') h =
          unfold compressed_end_profiled in
          if-IsWellFormed more (profile-IsWellFormed _ _ _ (advance-IsWellFormed s.pc s' h)) h

  loop-IsBatch :
      (body : ℕ → Machine → Option (Bool × Machine))
      → Keeps body
      → (left executed : ℕ) (s : Machine) → IsWellFormed s
      → Ensures IsBatch (loop dpi_mmio_read body left executed s)
  unfolding loop
  loop-IsBatch body keeps zero executed s w = w
  loop-IsBatch body keeps (suc left) executed s w = if-Ensures IsBatch (stops s) _ _ w (
      Ensures-bind IsRead IsBatch _ _ (read_u32-IsRead dpi_mmio_read s.pc s w) (λ f h.
        Ensures-bind IsKept IsBatch _ _ (keeps f.0 f.1 h.0 h.1) (λ r k.
          if-Ensures IsBatch r.0 _ _
            (loop-IsBatch body keeps left (executed + 1) (tick r.1) (tick-IsWellFormed r.1 k)) k)))

  -- Where `rv_step` has defined behaviour, it leaves every variable of a well-formed state in the
  -- range of its C type, and register 0 at 0.
  pub step-IsBatch :
      (max_instructions : ℕ) (s : Machine)
      → IsWellFormed s
      → Ensures IsBatch (step dpi_mmio_read max_instructions s)
  unfolding step batch
  step-IsBatch n s w = if-Ensures IsBatch (not s.initialized || n == 0) _ _ w (
      if-Ensures IsBatch (s.wfi_sleep && not (interrupt_ready s)) _ _ w (
        if-Ensures IsBatch (interrupt_ready s) _ _ (enter_interrupt-IsWellFormed (wake s) woken) (
          if-Ensures IsBatch s.profiler.enabled _ _
            (loop-IsBatch (round_profiled dpi_mmio_read) round_profiled-Keeps n 0 s w)
            (loop-IsBatch (round dpi_mmio_read) round-Keeps n 0 s w))))
    where
      woken : IsWellFormed (wake s)
      woken =
          if-IsWellFormed s.wfi_sleep
            (IsWellFormed-of_parts _ w.regs_ok w.ram_ok w.pc_ok w.csrs_ok w.htif_ok) w
