-- ===== src/Bench/Finish.antt =====
-- The loops of the runners in dpi-riscv/sim/iss end.
use herve.Base.{
  ℕ, zero, suc, ◌+◌, ◌-◌, ◌<◌, ◌≤◌, ◌≡◌, arith, Bool, true, Option, some, none, Bool-cases, inl,
  inr, ltb, if◌then◌else◌,
}
use herve.Word.Int.{ℤ}
use herve.Machine.{Machine, Bus, Ensures, Ensures-bind}
use herve.Step.Halt.{IsAtMost, step-IsAtMost}
use herve.Bench.{Progress, Ended, ended, running, check_stale, after_step, bench_round, bench_loop}

-- The loop has ended, with fewer than 1000 instructions beyond the limit.
abbrev pub HasEnded : ℕ → Ended → Type 0
HasEnded limit (ended p) = p.total_executed < limit + 1000
HasEnded limit (running p) = ⊥

-- A round executes 1000 instructions at most, and one at least if the loop goes on.
abbrev IsRound : Progress → Bool × Progress → Type 0
IsRound p r =
    (r.1.total_executed ≤ p.total_executed + 1000)
    × (r.0 ≡ true → p.total_executed < r.1.total_executed)

after_step-IsRound :
    (max_stale executed : ℕ) (code : ℤ) (s : Machine) (p : Progress)
    → executed ≤ 1000
    → IsRound p (after_step max_stale executed code s p)
unfolding after_step check_stale
after_step-IsRound max_stale executed code s p most = ground arith

anything : {A : Type 0} (m : Option A) → Ensures (λ _. Unit {0}) m
anything none = tt
anything (some a) = tt

module _ (bus : Bus) (check : Machine → Option (ℤ × Machine)) (limit max_stale : ℕ) where
  bench_round-IsRound :
      (p : Progress) → Ensures (IsRound p) (bench_round bus check limit max_stale p)
  unfolding bench_round
  bench_round-IsRound p =
      Ensures-bind (IsAtMost 1000) (IsRound p) _ _ (step-IsAtMost bus 1000 p.machine) (λ r most.
        Ensures-bind (λ _. Unit {0}) (IsRound p) _ _ (anything (check r.1))
          (λ c _. after_step-IsRound max_stale r.0 c.0 c.1 p most))

  ends :
      (fuel : ℕ) (p : Progress) (r : Bool × Progress)
      → p.total_executed < limit
      → limit - p.total_executed < suc fuel
      → IsRound p r
      → (r.1.total_executed < limit + 1000
          → limit - r.1.total_executed < fuel
          → Ensures (HasEnded limit) (bench_loop bus check limit max_stale fuel r.1))
      → Ensures
          (HasEnded limit)
          (if r.0 then bench_loop bus check limit max_stale fuel r.1 else some (ended r.1))
  ends fuel p r below enough h rest = elim (Bool-cases r.0) [
    | inl e ↦ let progress = h.1 e in let most = h.0 in rw e (rest (omega arith) (omega arith))
    | inr e ↦ let most = h.0 in rw e (omega arith)
  ]

  -- Where the batches and what is done between them have defined behaviour, with more fuel than
  -- instructions to the limit, the loop of the runners ends, whatever is done between the batches, and fewer than
  -- 1000 instructions are executed beyond the limit.
  pub bench_loop-HasEnded :
      (fuel : ℕ) (p : Progress)
      → p.total_executed < limit + 1000
      → limit - p.total_executed < fuel
      → Ensures (HasEnded limit) (bench_loop bus check limit max_stale fuel p)
  unfolding bench_loop
  bench_loop-HasEnded zero p within enough = absurd (omega arith)
  bench_loop-HasEnded (suc fuel) p within enough = elim (Bool-cases (ltb p.total_executed limit)) [
    | inr e ↦ rw e within
    | inl e ↦
        let below : p.total_executed < limit = ground arith in
        rw e (
          Ensures-bind (IsRound p) (HasEnded limit) (bench_round bus check limit max_stale p) _
            (bench_round-IsRound p)
            (λ r h.
              ends fuel p r below enough h
                (λ q_within q_enough. bench_loop-HasEnded fuel r.1 q_within q_enough)))
  ]
