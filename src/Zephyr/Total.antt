-- ===== src/Zephyr/Total.antt =====
-- What dpi-riscv/sim/iss/rv32_dpi_zephyr_standalone.c prints.
use herve.Base.{
  ℕ, zero, suc, ◌+◌, ◌^◌, ◌<◌, ◌≡◌, ap, arith, Bool, Option, ltb, Bool-cases, inl, inr,
}
use herve.Word.Int.{ℤ, pos_part}
use herve.Machine.{Machine, Bus, get_pc, Ensures, Ensures-bind}
use herve.Boot.{reset}
use herve.Elf.Header.{Image}
use herve.Elf.File.{init_elf}
use herve.Step.{step}
use herve.Cli.Clock.{clock}
use herve.Cli.Loop.{IsCounted, step-IsCounted}
use herve.Cli.Booted.{HoldsBytes, booted-clock, reset-clock}
use herve.Zephyr.{tick_loop, run_ticks, profiled}

abbrev pub SameNumbers : ℕ × Machine → Type 0
SameNumbers (total, t) = t.csr_mcycle ≡ total

module _ (bus : Bus) where
  tick_loop-SameNumbers :
      (left total : ℕ) (s : Machine)
      → s.irq_mask ≡ 0
      → s.csr_mcycle ≡ total
      → total < 2 ^ 31
      → Ensures SameNumbers (tick_loop bus left total s)
  unfolding tick_loop
  tick_loop-SameNumbers zero total s quiet same small = same
  tick_loop-SameNumbers (suc left) total s quiet same small =
      Ensures-bind (IsCounted 0 s.csr_mcycle 0) SameNumbers (step bus 1000 s) _
        (step-IsCounted bus 1000 s quiet (omega arith))
        (λ r h.
          let number = h.number in
          let cycles = h.cycles in
          elim (Bool-cases (ltb (total + r.0) (2 ^ 31))) [
            | inl e ↦
                let fits : total + r.0 < 2 ^ 31 = ground arith in
                rw e (tick_loop-SameNumbers left (total + r.0) r.1 h.mask_same (omega arith) fits)
            | inr e ↦ rw e tt
          ])

module _ (malloc fseek : ℕ → Bool) (bus : Bus) where
  -- For any number of batches, any file of bytes or none, any memory and bus: where the behaviour is
  -- defined, and no interrupt is requested and no cycle counted at first, the runner prints the same number
  -- of instructions as of cycles.
  pub run_ticks-SameNumbers :
      (max_ticks : ℤ) (image : Option Image) (s : Machine)
      → HoldsBytes image
      → clock s ≡ (0, 0)
      → Ensures SameNumbers (run_ticks malloc fseek bus max_ticks image s)
  unfolding run_ticks
  run_ticks-SameNumbers max_ticks image s bytes start =
      Ensures-bind (λ r. clock r.1 ≡ (0, 0)) SameNumbers
        (init_elf malloc fseek image (2 ^ 20) (profiled s)) _
        (booted-clock malloc fseek image (2 ^ 20) (profiled s) bytes start)
        (λ r h.
          let none_yet = reset-clock (get_pc r.1) r.1 h in
          tick_loop-SameNumbers bus (pos_part max_ticks) 0 (reset (get_pc r.1) r.1)
            (ap (λ c. c.0) none_yet) (ap (λ c. c.1) none_yet) (omega arith))
