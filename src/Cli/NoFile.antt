-- ===== src/Cli/NoFile.antt =====
-- `main` of dpi-riscv/sim/iss/herve_main.c with a file that does not open.
use herve.Base.{ℕ, suc, ◌≡◌, refl, Bool, false, some, none, Bool-cases, inl, inr, String}
use herve.Word.Int.{to_u64}
use herve.Machine.{Machine, Bus, get_pc}
use herve.Boot.{reset}
use herve.Elf.File.{init_elf}
use herve.Step.Halt.{step_uninitialized}
use herve.Cli.{
  ended, run_loop, goes_on, is_halted, get_cycles, Options, returned, report_of, simulate,
  get_exit_code,
}

run_loop_uninitialized :
    (bus : Bus) (fuel limit : ℕ) (s : Machine)
    → s.initialized ≡ false
    → s.htif_halted ≡ false
    → run_loop bus (suc fuel) limit s ≡ some (ended s)
unfolding run_loop is_halted get_cycles
run_loop_uninitialized bus fuel limit s e running = elim (Bool-cases (goes_on limit s)) [
  | inl on ↦ rw (on, step_uninitialized bus 1000 s e, running) refl
  | inr off ↦ rw off refl
]

reset_uninitialized : (start_pc : ℕ) (s : Machine) → s.initialized ≡ false → reset start_pc s ≡ s
unfolding reset
reset_uninitialized start_pc s e = simp e refl

-- For any options, where the simulator is not initialised and not halted and the file does not open: the
-- program ends with the simulator as it was, and returns the exit code of that state, and with
-- `--profile` writes the report, as it does behind a run.
pub simulate_no_file :
    (malloc fseek : ℕ → Bool) (bus : Bus) (fopen : String → Bool) (fuel : ℕ) (o : Options)
    (s : Machine)
    → s.initialized ≡ false
    → s.htif_halted ≡ false
    → simulate malloc fseek bus fopen (suc fuel) o none s
      ≡ some (returned s.htif_exit_code (report_of fopen o s.profiler) s)
unfolding simulate init_elf get_exit_code
simulate_no_file malloc fseek bus fopen fuel o s e running =
    rw
      (
        reset_uninitialized (get_pc s) s e,
        run_loop_uninitialized bus fuel (to_u64 o.max_cycles) s e running,
      )
      refl
