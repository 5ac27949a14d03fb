-- ===== src/Bench.antt =====
-- The runners of the riscv-tests: what dpi-riscv/sim/iss/rv32_dpi_riscv_tests.cpp, rv32_dpi_benchmark.cpp and
-- rv32_dpi_benchmark_htif.cpp of the same directory do with one file. The three have the same loop, which in
-- the last one also calls `handle_htif`. Times and messages are left out.
pub mod Host
pub mod Finish
pub mod Unseen
use herve.Base.{
  ℕ, zero, suc, ◌+◌, Bool, true, false, not, ◌||◌, Option, none, some, List, [], ◌∷◌, ltb, leb,
  ◌==◌, if◌then◌else◌,
}
use herve.Word.Int.{ℤ, pos, negsuc}
use herve.Machine.{Machine, Bus, get_pc, get_reg, ◌>>=◌}
use herve.Boot.{reset}
use herve.Elf.Header.{Image}
use herve.Elf.Buffer.{load_elf}
use herve.Step.{step}

-- The variables of the loop, and the simulator.
pub record Progress : Type 0 where
  pub total_executed : ℕ
  pub prev_pc : ℕ
  pub stale_count : ℕ
  pub exit_code : ℤ
  pub machine : Machine

abbrev pub first_progress : Machine → Progress
first_progress s = record {
  total_executed = 0;
  prev_pc = 0;
  stale_count = 0;
  exit_code = negsuc 0;
  machine = s;
}

-- `exit_code >= 0`.
abbrev pub is_exit : ℤ → Bool
is_exit (pos code) = true
is_exit (negsuc below) = false

-- `exit_code` where there is no `handle_htif`.
abbrev pub no_check : Machine → Option (ℤ × Machine)
no_check s = some (negsuc 0, s)

-- The end of the loop, or of its fuel.
pub data Ended : Type 0 where
  ended : Progress → Ended
  running : Progress → Ended

-- The part of a round behind the test of `exit_code`: `false` is the `break`.
unfoldable pub check_stale : ℕ → Progress → Bool × Progress
check_stale max_stale_checks p =
    let current_pc = get_pc p.machine in
    let stale = p.stale_count + 1 in
    if current_pc == p.prev_pc
    then (if leb max_stale_checks stale
        then (false, record p { stale_count = stale })
        else (true, record p { stale_count = stale; prev_pc = current_pc }))
    else (true, record p { stale_count = 0; prev_pc = current_pc })

-- The part behind `rv_step`, which executed `executed` instructions.
unfoldable pub after_step : ℕ → ℕ → ℤ → Machine → Progress → Bool × Progress
after_step max_stale_checks executed code s p =
    let seen = record p {
      total_executed = p.total_executed + executed;
      exit_code = code;
      machine = s;
    } in
    if executed == 0 || is_exit code then (false, seen) else check_stale max_stale_checks seen

module _ (dpi_mmio_read : Bus) (check : Machine → Option (ℤ × Machine))
    (max_instructions max_stale_checks : ℕ) where
  -- The body of the loop.
  unfoldable pub bench_round : Progress → Option (Bool × Progress)
  bench_round p = do
    (executed, t) ← step dpi_mmio_read 1000 p.machine
    (code, u) ← check t
    some (after_step max_stale_checks executed code u p)

  -- `while (total_executed < MAX_INSTRUCTIONS)`.
  unfoldable pub bench_loop : ℕ → Progress → Option Ended
  bench_loop zero p = some (running p)
  bench_loop (suc fuel) p =
      let next : Bool × Progress → Option Ended = λ result.
        (let rest = bench_loop fuel result.1 in if result.0 then rest else some (ended result.1)) in
      let ran = bench_round p >>= next in
      if ltb p.total_executed max_instructions then ran else some (ended p)

-- What a runner makes of a file; `no_verdict` is the end of the fuel.
pub data Verdict : Type 0 where
  passed : Verdict
  failed : ℕ → Verdict
  elf_load_failed : Verdict
  instruction_limit : Verdict
  stale_pc : ℕ → Verdict
  unknown_termination : Verdict
  no_verdict : Verdict

-- The end of `run_test` of rv32_dpi_riscv_tests.cpp and rv32_dpi_benchmark.cpp.
unfoldable pub gp_verdict : ℕ → ℕ → Ended → Verdict
gp_verdict max_instructions max_stale_checks (running p) = no_verdict
gp_verdict max_instructions max_stale_checks (ended p) =
    let gp = get_reg 3 p.machine in
    if leb max_instructions p.total_executed || leb max_stale_checks p.stale_count
    then (if leb max_stale_checks p.stale_count
        then stale_pc (get_pc p.machine)
        else instruction_limit)
    else if gp == 1
    then passed
    else failed gp

-- `memset(mmio_region, 0, sizeof(mmio_region))`: the registers of the test bench forget the calls.
abbrev pub clear_mmio : Machine → Machine
clear_mmio s = record s { bus = [] }

-- The load and the reset before the loop, and whether the load succeeded.
unfoldable pub load_program : Image → Machine → Option (Bool × Machine)
load_program image s = do
  (entry, t) ← load_elf (some image) (clear_mmio s)
  some (if entry == 0 then (false, t) else (true, reset entry t))

-- The simulator behind the loop.
abbrev pub machine_of : Ended → Machine
machine_of (ended p) = p.machine
machine_of (running p) = p.machine

-- The counts of files passed, failed and skipped.
pub record Tally : Type 0 where
  pub pass_count : ℕ
  pub fail_count : ℕ
  pub skip_count : ℕ

unfoldable pub add_verdict : Verdict → Tally → Tally
add_verdict passed t = record t { pass_count = t.pass_count + 1 }
add_verdict (failed code) t = record t { fail_count = t.fail_count + 1 }
add_verdict _ t = record t { skip_count = t.skip_count + 1 }

-- `(failed > 0) ? 1 : 0`.
unfoldable pub exit_status : Tally → ℕ
exit_status t = if ltb 0 t.fail_count then 1 else 0

-- "Run each test" with a runner for one file; the simulator goes on from file to file. `none` is a file that
-- cannot be loaded.
unfoldable pub run_files :
    (Image → Machine → Option (Verdict × Machine))
    → List (Option Image)
    → Tally
    → Machine
    → Option (Tally × Machine)
run_files run [] t s = some (t, s)
run_files run (none ∷ files) t s =
    run_files run files (record t { skip_count = t.skip_count + 1 }) s
run_files run (some image ∷ files) t s = do
  (verdict, s') ← run image s
  run_files run files (add_verdict verdict t) s'

module _ (dpi_mmio_read : Bus) (max_instructions max_stale_checks : ℕ) where
  unfoldable pub run_loaded : ℕ → Machine → Option (Verdict × Machine)
  run_loaded fuel s = do
    run ←
        bench_loop dpi_mmio_read no_check max_instructions max_stale_checks fuel (first_progress s)
    some (gp_verdict max_instructions max_stale_checks run, machine_of run)

  -- `run_test`.
  unfoldable pub run_test : ℕ → Image → Machine → Option (Verdict × Machine)
  run_test fuel image s = do
    (loaded, t) ← load_program image s
    if loaded then run_loaded fuel t else some (elf_load_failed, t)
