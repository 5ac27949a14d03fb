-- ===== src/Cli/Loop.antt =====
-- The end of the loop of dpi-riscv/sim/iss/herve_main.c.
use herve.Base.{
  ℕ, zero, suc, ◌+◌, ◌%◌, ◌^◌, ◌<◌, ◌≡◌, ◌∙◌, refl, ap, arith, Bool, false, not, ◌&&◌, ◌||◌, Option,
  ◌==◌,
}
use mathlib.Core.Path.{subst}
use herve.Word.{u16, u64}
use herve.Word.Bits.{bit_and-le}
use herve.Machine.{Machine, Bus, Ensures, Ensures-bind, if-Ensures, Ensures-map, profile}
use herve.Step.Loop.{
  round, round_profiled, compressed_end, compressed_end_profiled, advance, tick, loop, stops,
}
use herve.Step.{batch, step, interrupt_ready}
use herve.Cli.Clock.{clock, HasClock, read_u32-HasClock}
use herve.Cli.Pace.{execute_instruction-HasClock, execute_compressed-HasClock}

clock-compressed_end : (at : ℕ) (r : Bool × Machine) → clock (compressed_end at r).1 ≡ clock r.1
unfolding compressed_end advance
clock-compressed_end at r = ground arith

clock-compressed_end_profiled :
    (at insn : ℕ) (r : Bool × Machine) → clock (compressed_end_profiled at insn r).1 ≡ clock r.1
unfolding compressed_end_profiled advance profile
clock-compressed_end_profiled at insn r = ground arith

-- A result of the loop from a state with the clock `(mask, cycle)` and `executed` instructions behind it: it
-- counts a cycle for each instruction, up to the wrap-around of 64 bits, and requests no interrupt.
pub record IsCounted (mask cycle executed : ℕ) (r : ℕ × Machine) : Type 0 where
  pub rounds : ℕ
  pub number : r.0 ≡ executed + rounds
  pub mask_same : r.1.irq_mask ≡ mask
  pub cycles : r.1.csr_mcycle ≡ u64 (cycle + rounds)

no_rounds :
    (mask cycle executed : ℕ) (t : Machine)
    → cycle < 2 ^ 64
    → clock t ≡ (mask, cycle)
    → IsCounted mask cycle executed (executed, t)
no_rounds mask cycle executed t small h = record {
  rounds = 0;
  number = omega arith;
  mask_same = ap (λ c. c.0) h;
  cycles = ap (λ c. c.1) h ∙ omega arith;
}

next_round :
    (mask cycle executed : ℕ) (t : Machine) (r : ℕ × Machine)
    → clock t ≡ (mask, cycle)
    → IsCounted t.irq_mask (u64 (t.csr_mcycle + 1)) (executed + 1) r
    → IsCounted mask cycle executed r
next_round mask cycle executed t r h c =
    let same_cycle : t.csr_mcycle ≡ cycle = ap (λ c. c.1) h in
    let number = c.number in
    let cycles = c.cycles in
    record {
      rounds = suc c.rounds;
      number = omega arith;
      mask_same = c.mask_same ∙ ap (λ c. c.0) h;
      cycles = omega arith;
    }

module _ (bus : Bus) where
  abbrev KeepsClock : (ℕ → Machine → Option (Bool × Machine)) → Type 0
  KeepsClock body = (insn : ℕ) (s : Machine) → Ensures (HasClock (clock s)) (body insn s)

  round-KeepsClock : KeepsClock (round bus)
  unfolding round
  round-KeepsClock insn s =
      let P = HasClock {X = Bool} (clock s) in
      if-Ensures P (insn % 4 == 3) _ _ (execute_instruction-HasClock bus insn s) (
        Ensures-bind P P _ _ (execute_compressed-HasClock bus (u16 insn) s)
          (λ r h. clock-compressed_end s.pc r ∙ h))

  round_profiled-KeepsClock : KeepsClock (round_profiled bus)
  unfolding round_profiled
  round_profiled-KeepsClock insn s =
      let P = HasClock {X = Bool} (clock s) in
      if-Ensures P (insn % 4 == 3) _ _ (execute_instruction-HasClock bus insn s) (
        Ensures-bind P P _ _ (execute_compressed-HasClock bus (u16 insn) s)
          (λ r h. clock-compressed_end_profiled s.pc (u16 insn) r ∙ h))

  module _ (body : ℕ → Machine → Option (Bool × Machine)) (keeps : KeepsClock body) where
    loop-IsCounted :
        (left executed : ℕ) (s : Machine)
        → s.csr_mcycle < 2 ^ 64
        → Ensures (IsCounted s.irq_mask s.csr_mcycle executed) (loop bus body left executed s)
    unfolding loop tick
    loop-IsCounted zero executed s small = no_rounds _ _ executed s small refl
    loop-IsCounted (suc left) executed s small =
        let P = IsCounted s.irq_mask s.csr_mcycle executed in
        let ends = no_rounds s.irq_mask s.csr_mcycle executed in
        if-Ensures P (stops s) _ _ (ends s small refl) (
          Ensures-bind (HasClock {X = ℕ} (clock s)) P _ _ (read_u32-HasClock bus s.pc s) (λ f h.
            Ensures-bind (HasClock {X = Bool} (clock f.1)) P _ _ (keeps f.0 f.1) (λ r k.
              if-Ensures P r.0 _ _
                (Ensures-map (loop bus body left (executed + 1) (tick r.1))
                  (loop-IsCounted left (executed + 1) (tick r.1) (omega arith))
                  (λ t c. next_round s.irq_mask s.csr_mcycle executed r.1 t (k ∙ h) c))
                (ends r.1 small (k ∙ h)))))

  -- With no interrupt requested, a call of `rv_step` counts its instructions.
  pub step-IsCounted :
      (max : ℕ) (s : Machine)
      → s.irq_mask ≡ 0
      → s.csr_mcycle < 2 ^ 64
      → Ensures (IsCounted 0 s.csr_mcycle 0) (step bus max s)
  unfolding step batch
  step-IsCounted max s quiet small =
      let P = IsCounted 0 s.csr_mcycle 0 in
      let none_done = no_rounds 0 s.csr_mcycle 0 s small (ap (λ m. (m, s.csr_mcycle)) quiet) in
      let pending = bit_and-le s.irq_mask s.csr_mie in
      let no_interrupt : interrupt_ready s ≡ false = ground arith in
      if-Ensures P (not s.initialized || max == 0) _ _ none_done (
        if-Ensures P (s.wfi_sleep && not (interrupt_ready s)) _ _ none_done (
          rw no_interrupt (
            if-Ensures P s.profiler.enabled _ _
              (batch_counted (round_profiled bus) round_profiled-KeepsClock)
              (batch_counted (round bus) round-KeepsClock))))
    where
      batch_counted :
          (body : ℕ → Machine → Option (Bool × Machine))
          → KeepsClock body
          → Ensures (IsCounted 0 s.csr_mcycle 0) (loop bus body max 0 s)
      batch_counted body keeps =
          subst (λ m. Ensures (IsCounted m s.csr_mcycle 0) (loop bus body max 0 s)) quiet
            (loop-IsCounted body keeps max 0 s small)
