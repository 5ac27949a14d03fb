-- ===== src/Transparent/Cli.antt =====
-- The options `--profile`, `--arch` and `--out` of dpi-riscv/sim/iss/herve_main.c decide what is reported, and nothing else.
use herve.Base.{
  ℕ, zero, suc, ◌≡◌, ◌∙◌, sym, refl, ap, Bool, Option, some, none, String, if◌then◌else◌,
}
use herve.Word.Int.{to_u64}
use herve.Profiler.{Profiler}
use herve.Profiler.Arch.{Arch}
use herve.Machine.{Machine, Bus, get_pc, ◌>>=◌}
use herve.Boot.{reset}
use herve.Elf.Header.{Image}
use herve.Elf.File.{init_elf}
use herve.Cli.{
  Run, ended, running, goes_on, is_stuck, is_halted, get_cycles, run_loop, Outcome, Options,
  refused, out_of_fuel, returned, outcome_of, get_exit_code, simulate, armed,
}
use herve.Transparent.Agree.{
  with_profiler, map_option, keep, Agrees, some-Agrees, if-Agrees, bind-Agrees,
}
use herve.Transparent.Boot.{init_elf-keep, reset-with_profiler}
use herve.Transparent.Step.{step-Agrees}

abbrev erase_run : Profiler → Run → Run
erase_run r (ended t) = ended (with_profiler r t)
erase_run r (running t) = running (with_profiler r t)

-- An outcome without the report, and with the variables `r` of the profiler.
abbrev pub without_report : Profiler → Outcome → Outcome
without_report r refused = refused
without_report r out_of_fuel = out_of_fuel
without_report r (returned code report t) = returned code none (with_profiler r t)

module _ (r : Profiler) (bus : Bus) (limit : ℕ) where
  next : ℕ → ℕ × Machine → Option Run
  next fuel (steps, t) = if is_stuck steps t then some (ended t) else run_loop bus fuel limit t

  next-Agrees :
      (fuel : ℕ)
      → ((p : Profiler) (s : Machine)
          → Agrees
              (erase_run r)
              (run_loop bus fuel limit (with_profiler p s))
              (run_loop bus fuel limit s))
      → (p : Profiler) (a : ℕ × Machine) → Agrees (erase_run r) (next fuel (keep p a)) (next fuel a)
  unfolding next is_halted
  next-Agrees fuel rest p (steps, t) =
      if-Agrees (is_stuck steps t)
        (some-Agrees {erase = erase_run r} {a = ended (with_profiler p t)} {a' = ended t} refl)
        (rest p t)

  run_loop-Agrees :
      (fuel : ℕ) (p : Profiler) (s : Machine)
      → Agrees
          (erase_run r)
          (run_loop bus fuel limit (with_profiler p s))
          (run_loop bus fuel limit s)
  unfolding run_loop next is_halted get_cycles
  run_loop-Agrees zero p s =
      some-Agrees {erase = erase_run r} {a = running (with_profiler p s)} {a' = running s} refl
  run_loop-Agrees (suc fuel) p s =
      if-Agrees (goes_on limit s)
        (bind-Agrees r (erase_run r) (next fuel) (next fuel)
          (next-Agrees fuel (run_loop-Agrees fuel)) (step-Agrees p r bus 1000 s))
        (some-Agrees {erase = erase_run r} {a = ended (with_profiler p s)} {a' = ended s} refl)

module _ (malloc fseek : ℕ → Bool) (bus : Bus) (fopen : String → Bool) (r : Profiler) where
  finished : Options → Option Run → Option Outcome
  finished o m = m >>= (λ run. some (outcome_of fopen o run))

  -- Options play no part in the outcome but for the report.
  finished-erased :
      (o o' : Options) (m : Option Run)
      → map_option (without_report r) (finished o m)
        ≡ map_option (without_report r) (finished o' (map_option (erase_run r) m))
  unfolding finished get_exit_code
  finished-erased o o' none = refl
  finished-erased o o' (some (ended t)) = refl
  finished-erased o o' (some (running t)) = refl

  finished-Agrees :
      (o o' : Options) (m m' : Option Run)
      → Agrees (erase_run r) m m'
      → Agrees (without_report r) (finished o m) (finished o' m')
  finished-Agrees o o' m m' h = record {
    same =
        finished-erased o o' m
        ∙ ap (λ n. map_option (without_report r) (finished o' n)) h.same
        ∙ sym (finished-erased o' o' m');
  }

  booted-Agrees :
      (image : Option Image) (p p' : Profiler) (s : Machine)
      → Agrees
          (keep r)
          (init_elf malloc fseek image 0 (with_profiler p s))
          (init_elf malloc fseek image 0 (with_profiler p' s))
  booted-Agrees image p p' s = record {
    same =
        rw (init_elf-keep p malloc fseek image 0 s, init_elf-keep p' malloc fseek image 0 s)
          (kept_twice (init_elf malloc fseek image 0 s));
  }
    where
      kept_twice :
          (m : Option (ℕ × Machine))
          → map_option (keep r) (map_option (keep p) m)
            ≡ map_option (keep r) (map_option (keep p') m)
      kept_twice none = refl
      kept_twice (some a) = refl

  -- The rest of the program behind `rv_init_elf`.
  behind_init : ℕ → Options → ℕ → ℕ × Machine → Option Outcome
  behind_init fuel o limit (entry, t) = finished o (run_loop bus fuel limit (reset (get_pc t) t))

  behind_init-Agrees :
      (fuel limit : ℕ) (o o' : Options) (p : Profiler) (a : ℕ × Machine)
      → Agrees
          (without_report r)
          (behind_init fuel o limit (keep p a))
          (behind_init fuel o' limit a)
  unfolding behind_init get_pc
  behind_init-Agrees fuel limit o o' p (entry, t) =
      rw (reset-with_profiler p t.pc t)
        (finished-Agrees o o' _ _ (run_loop-Agrees r bus limit fuel p (reset t.pc t)))

  -- For any two settings of the options that have the same limit on the cycles, any two architectures, any
  -- file, memory, bus, fuel and state: the program from the load of the file on does the same with the one
  -- as with the other, up to the report that it writes and the variables of the profiler, which are
  -- set to `r` on both sides: it returns the same exit code, with the simulator in the same state.
  pub simulate_transparent :
      (fuel : ℕ) (o o' : Options) (arch arch' : Arch) (image : Option Image) (s : Machine)
      → o.max_cycles ≡ o'.max_cycles
      → map_option
          (without_report r)
          (simulate malloc fseek bus fopen fuel o image (armed o arch s))
        ≡ map_option
            (without_report r)
            (simulate malloc fseek bus fopen fuel o' image (armed o' arch' s))
  unfolding simulate behind_init finished
  simulate_transparent fuel o o' arch arch' image s same =
      rw same
        (bind-Agrees r (without_report r) (behind_init fuel o (to_u64 o'.max_cycles))
          (behind_init fuel o' (to_u64 o'.max_cycles))
          (behind_init-Agrees fuel (to_u64 o'.max_cycles) o o')
          (booted-Agrees image (armed o arch s).profiler (armed o' arch' s).profiler s)).same
