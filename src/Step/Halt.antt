-- ===== src/Step/Halt.antt =====
-- How a batch of dpi-riscv/sim/iss/rv32_dpi.c ends: the bound, the exit request of HTIF, and sleep.
use herve.Base.{
  ℕ, zero, suc, ◌+◌, ◌/◌, ◌%◌, ◌≤◌, ◌≡◌, refl, Bool, true, false, not, ◌&&◌, ◌||◌, arith, ◌==◌,
  Option, some, Bool-cases, inl, inr,
}
use herve.Machine.{Machine, Bus, Ensures, Ensures-bind, if-Ensures}
use herve.Memory.Htif.{is_htif_address, htif_write, htif_process_request}
use herve.Memory.Access.{read_u32, write_u32}
use herve.Step.Loop.{round, round_profiled, stops, tick, loop}
use herve.Step.{interrupt_ready, batch, step}

-- The number of instructions of a batch is at most `most`.
abbrev pub IsAtMost : ℕ → ℕ × Machine → Type 0
IsAtMost most r = r.0 ≤ most

module _ (dpi_mmio_read : Bus) where
  loop-IsAtMost :
      (body : ℕ → Machine → Option (Bool × Machine)) (left executed most : ℕ) (s : Machine)
      → executed + left ≤ most
      → Ensures (IsAtMost most) (loop dpi_mmio_read body left executed s)
  unfolding loop
  loop-IsAtMost body zero executed most s h = omega arith
  loop-IsAtMost body (suc left) executed most s h =
      let small : executed ≤ most = omega arith in
      if-Ensures (IsAtMost most) (stops s) _ _ small (
        Ensures-bind (λ _. Unit {0}) (IsAtMost most) (read_u32 dpi_mmio_read s.pc s) _ (always _)
          (λ f _.
            Ensures-bind (λ _. Unit {0}) (IsAtMost most) (body f.0 f.1) _ (always _)
              (λ r _.
                if-Ensures (IsAtMost most) r.0 _ _
                  (loop-IsAtMost body left (executed + 1) most (tick r.1) (omega arith)) small)))
    where
      always : {A : Type 0} (m : Option A) → Ensures (λ _. Unit {0}) m
      always Option.none = tt
      always (some a) = tt

  -- Where `rv_step` has defined behaviour, it executes at most as many instructions as it is asked
  -- for.
  pub step-IsAtMost :
      (max_instructions : ℕ) (s : Machine)
      → Ensures (IsAtMost max_instructions) (step dpi_mmio_read max_instructions s)
  unfolding step batch
  step-IsAtMost n s = elim (Bool-cases (not s.initialized || n == 0)) [
    | inl e ↦ rw e (omega arith)
    | inr e ↦
        let one : 1 ≤ n = ground arith in
        rw e (
          if-Ensures (IsAtMost n) (s.wfi_sleep && not (interrupt_ready s)) _ _ (omega arith) (
            if-Ensures (IsAtMost n) (interrupt_ready s) _ _ one (
              if-Ensures (IsAtMost n) s.profiler.enabled _ _
                (loop-IsAtMost (round_profiled dpi_mmio_read) n 0 n s (omega arith))
                (loop-IsAtMost (round dpi_mmio_read) n 0 n s (omega arith)))))
  ]

  pub step_uninitialized :
      (max_instructions : ℕ) (s : Machine)
      → s.initialized ≡ false
      → step dpi_mmio_read max_instructions s ≡ some (0, s)
  unfolding step
  step_uninitialized n s e = rw e refl

  -- In a halted simulator, with no interrupt that it may take, `rv_step` executes nothing and
  -- changes nothing, whatever else its state is.
  pub step_halted :
      (max_instructions : ℕ) (s : Machine)
      → s.htif_halted ≡ true
      → interrupt_ready s ≡ false
      → step dpi_mmio_read max_instructions s ≡ some (0, s)
  unfolding step batch loop
  step_halted zero s halted quiet = ground arith
  step_halted (suc n) s halted quiet = ground arith

  -- A word `value` with bit 0 set, stored to `tohost`, ends the run: the store is defined, the
  -- simulator is halted with the exit code `value >> 1`, registers and memory are unchanged, and
  -- with no interrupt that it may take, `rv_step` executes nothing from then on.
  pub write_u32_exit :
      (value max_instructions : ℕ) (s : Machine)
      → value % 2 ≡ 1
      → interrupt_ready s ≡ false
      → (t : Machine) × (write_u32 dpi_mmio_read 0x80001000 value s ≡ some t)
        × (t.htif_halted ≡ true)
        × (t.htif_exit_code ≡ value / 2)
        × (t.regs ≡ s.regs)
        × (t.memory ≡ s.memory)
        × (step dpi_mmio_read max_instructions t ≡ some (0, t))
  unfolding write_u32 is_htif_address htif_write htif_process_request
  write_u32_exit value n s odd quiet = (
    record s {
      htif_tohost_lo = value;
      htif_exit_code = value / 2;
      htif_exit = true;
      htif_halted = true;
    },
    ground arith,
    refl,
    refl,
    refl,
    refl,
    step_halted n _ refl quiet,
  )
