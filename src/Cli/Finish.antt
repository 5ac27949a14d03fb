-- ===== src/Cli/Finish.antt =====
-- The loop of dpi-riscv/sim/iss/herve_main.c ends, and so does the program.
use herve.Base.{
  ℕ, zero, suc, ◌+◌, ◌-◌, ◌^◌, ◌<◌, ◌≤◌, ◌≡◌, ◌⊎◌, refl, ap, arith, Bool, true, false, Option, some,
  Bool-cases, inl, inr, ◌==◌, String, if◌then◌else◌,
}
use mathlib.Core.Path.{subst}
use herve.Word.Int.{to_u64}
use herve.Machine.{
  Machine, get_pc, Bus, Ensures, Ensures-bind, Ensures-map, Ensures-both, some_result,
}
use herve.Step.{step}
use herve.Step.Halt.{IsAtMost, step-IsAtMost}
use herve.Boot.{reset}
use herve.Elf.Header.{Image}
use herve.Elf.File.{init_elf}
use herve.Cli.Clock.{clock}
use herve.Cli.Booted.{HoldsBytes, booted-clock, reset-clock}
use herve.Cli.Loop.{IsCounted, step-IsCounted}
use herve.Cli.{
  Run, ended, running, goes_on, is_stuck, is_halted, get_cycles, run_loop, Outcome, Options,
  refused, out_of_fuel, returned, outcome_of, get_exit_code, simulate,
}

-- How the loop ends in the state `t`: the simulator is halted, or the limit is reached, or the last batch
-- executed nothing; and the limit is exceeded by less than a batch.
pub record IsEnd (bus : Bus) (limit : ℕ) (t : Machine) : Type 0 where
  pub reason :
      (t.htif_halted ≡ true)
      ⊎ (limit ≤ t.csr_mcycle)
      ⊎ ((u : Machine) × (step bus 1000 u ≡ some (0, t)))
  pub within : t.csr_mcycle < limit + 1000

abbrev pub HasEnded : Bus → ℕ → Run → Type 0
HasEnded bus limit (ended t) = IsEnd bus limit t
HasEnded bus limit (running t) = ⊥

module _ (bus : Bus) (limit : ℕ) where
  run_loop_halted :
      (fuel : ℕ) (t : Machine)
      → t.htif_halted ≡ true
      → t.csr_mcycle < limit + 1000
      → 0 < fuel
      → Ensures (HasEnded bus limit) (run_loop bus fuel limit t)
  unfolding run_loop is_halted get_cycles
  run_loop_halted zero t halted within more = absurd (omega arith)
  run_loop_halted (suc fuel) t halted within more =
      let stop : goes_on limit t ≡ false = ground arith in
      rw stop (record { reason = inl halted; within = within })

  stopped-IsEnd :
      (t : Machine) → goes_on limit t ≡ false → t.csr_mcycle < limit + 1000 → IsEnd bus limit t
  unfolding is_halted get_cycles
  stopped-IsEnd t stop within = elim (Bool-cases t.htif_halted) [
    | inl e ↦ record { reason = inl e; within = within }
    | inr e ↦ record { reason = inr (inl (ground arith)); within = within }
  ]

  -- What is known of a batch from a state that the loop goes on from.
  abbrev IsRound : Machine → ℕ × Machine → Type 0
  IsRound s r = (step bus 1000 s ≡ some r) × IsCounted 0 s.csr_mcycle 0 r × IsAtMost 1000 r

  step-IsRound :
      (s : Machine) → s.irq_mask ≡ 0 → s.csr_mcycle < 2 ^ 64 → Ensures (IsRound s) (step bus 1000 s)
  step-IsRound s quiet small =
      let counted =
        Ensures-both (IsCounted 0 s.csr_mcycle 0) (IsAtMost 1000) (step bus 1000 s)
          (step-IsCounted bus 1000 s quiet small) (step-IsAtMost bus 1000 s) in
      Ensures-map (step bus 1000 s)
        (Ensures-both (λ r. step bus 1000 s ≡ some r) _ (step bus 1000 s)
          (some_result (step bus 1000 s)) counted)
        (λ r h. (h.0, h.1.0, h.1.1))

  goes_on_below : (s : Machine) → goes_on limit s ≡ true → s.csr_mcycle < limit
  unfolding is_halted get_cycles
  goes_on_below s e = ground arith

  -- The cycles behind a batch.
  round_cycles :
      (s : Machine) (r : ℕ × Machine)
      → IsRound s r
      → s.csr_mcycle < limit
      → limit + 1000 ≤ 2 ^ 64
      → r.1.csr_mcycle ≡ s.csr_mcycle + r.0
  round_cycles s r (run, counted, most) below word =
      let number = counted.number in let cycles = counted.cycles in omega arith

  round_within :
      (s : Machine) (r : ℕ × Machine)
      → IsRound s r
      → s.csr_mcycle < limit
      → limit + 1000 ≤ 2 ^ 64
      → r.1.csr_mcycle < limit + 1000
  round_within s r h below word =
      let cycles = round_cycles s r h below word in let most = h.2 in omega arith

  after_round :
      (fuel : ℕ) (s : Machine) (r : ℕ × Machine)
      → IsRound s r
      → s.csr_mcycle < limit
      → limit + 1000 ≤ 2 ^ 64
      → 0 < fuel
      → (s.csr_mcycle < r.1.csr_mcycle → Ensures (HasEnded bus limit) (run_loop bus fuel limit r.1))
      → Ensures
          (HasEnded bus limit)
          (if is_stuck r.0 r.1 then some (ended r.1) else run_loop bus fuel limit r.1)
  unfolding is_halted
  after_round fuel s (k, t) h below word more rest =
      let within = round_within s (k, t) h below word in
      let cycles = round_cycles s (k, t) h below word in
      elim (Bool-cases t.htif_halted) [
        | inl halted ↦
            let again : is_stuck k t ≡ false = ground arith in
            rw again (run_loop_halted fuel t halted within more)
        | inr going ↦ elim (Bool-cases (k == 0)) [
          | inl e ↦
              let stuck : is_stuck k t ≡ true = ground arith in
              let none_done : k ≡ 0 = ground arith in
              rw stuck (record {
                reason = inr (inr (s, subst (λ n. step bus 1000 s ≡ some (n, t)) none_done h.0));
                within = within;
              })
          | inr e ↦
              let again : is_stuck k t ≡ false = ground arith in
              let some_done : 0 < k = ground arith in rw again (rest (omega arith))
        ]
      ]

  -- Where the batches have defined behaviour: from a state with no interrupt requested, with more fuel than
  -- cycles to the limit, the loop ends; then the simulator is halted, or the limit is reached, or the
  -- last batch executed nothing, and fewer than 1000 cycles are counted beyond the limit.
  pub run_loop-HasEnded :
      (fuel : ℕ) (s : Machine)
      → s.irq_mask ≡ 0
      → s.csr_mcycle < limit + 1000
      → limit + 1000 ≤ 2 ^ 64
      → limit - s.csr_mcycle < fuel
      → Ensures (HasEnded bus limit) (run_loop bus fuel limit s)
  unfolding run_loop
  run_loop-HasEnded zero s quiet within word enough = absurd (omega arith)
  run_loop-HasEnded (suc fuel) s quiet within word enough = elim (Bool-cases (goes_on limit s)) [
    | inr e ↦ rw e (stopped-IsEnd s e within)
    | inl e ↦
        let below = goes_on_below s e in
        let small : s.csr_mcycle < 2 ^ 64 = omega arith in
        rw e (
          Ensures-bind (IsRound s) (HasEnded bus limit) (step bus 1000 s) _
            (step-IsRound s quiet small)
            (λ r h. after_round fuel s r h (omega arith) word (omega arith) (λ more.
              run_loop-HasEnded fuel r.1 h.1.mask_same (round_within s r h (omega arith) word) word
                (omega (arith, more)))))
  ]

-- The program returns the exit code of a state in which the loop ends.
abbrev pub HasReturned : Bus → ℕ → Outcome → Type 0
HasReturned bus limit refused = ⊥
HasReturned bus limit out_of_fuel = ⊥
HasReturned bus limit (returned code report t) = (code ≡ t.htif_exit_code) × IsEnd bus limit t

module _ (malloc fseek : ℕ → Bool) (bus : Bus) (fopen : String → Bool) where
  outcome_of-HasReturned :
      (o : Options) (limit : ℕ) (run : Run)
      → HasEnded bus limit run
      → HasReturned bus limit (outcome_of fopen o run)
  unfolding get_exit_code
  outcome_of-HasReturned o limit (ended t) h = (refl, h)
  outcome_of-HasReturned o limit (running t) h = h

  -- For any options, any file of bytes or none, any memory and bus: where the behaviour is defined, no
  -- interrupt is requested and no cycle counted at first, the limit is at most 2^64 - 1000 and there is more
  -- fuel than that, the program from the load of the file on returns, with the exit code of the state
  -- in which its loop ends: the simulator is halted, or the limit is reached, or the last batch executed
  -- nothing, and fewer than 1000 cycles are counted beyond the limit.
  pub simulate-HasReturned :
      (fuel : ℕ) (o : Options) (image : Option Image) (s : Machine)
      → HoldsBytes image
      → clock s ≡ (0, 0)
      → to_u64 o.max_cycles + 1000 ≤ 2 ^ 64
      → to_u64 o.max_cycles < fuel
      → Ensures
          (HasReturned bus (to_u64 o.max_cycles))
          (simulate malloc fseek bus fopen fuel o image s)
  unfolding simulate
  simulate-HasReturned fuel o image s bytes start word enough =
      let limit = to_u64 o.max_cycles in
      Ensures-bind (λ r. clock r.1 ≡ (0, 0)) (HasReturned bus limit)
        (init_elf malloc fseek image 0 s) _ (booted-clock malloc fseek image 0 s bytes start)
        (λ r h.
          let t = reset (get_pc r.1) r.1 in
          let none_yet = reset-clock (get_pc r.1) r.1 h in
          let no_cycles : t.csr_mcycle ≡ 0 = ap (λ c. c.1) none_yet in
          Ensures-bind (HasEnded bus limit) (HasReturned bus limit) (run_loop bus fuel limit t) _
            (run_loop-HasEnded bus limit fuel t (ap (λ c. c.0) none_yet) (omega arith) word
              (omega arith))
            (λ run k. outcome_of-HasReturned o limit run k))
