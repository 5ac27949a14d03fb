-- ===== src/Cli.antt =====
-- The command line program, dpi-riscv/sim/iss/herve_main.c, and the functions of
-- dpi-riscv/sim/iss/rv32_dpi.c that only it calls. What it prints to the standard error stream is left
-- out. Parameters: `atoll`, which reads the number at the head of a text; the file of a name, with what can
-- be read of it; whether a file opens for writing; `malloc` and `fseek` as in `rv_init_elf`; and the bus.
pub mod Clock
pub mod Pace
pub mod Loop
pub mod Booted
pub mod NoFile
pub mod Finish
use herve.Base.{
  ℕ, zero, suc, ◌+◌, Bool, true, false, not, ◌&&◌, Option, none, some, List, [], ◌∷◌, String,
  str_eq, starts_with, slice, len, ◌==◌, ltb, if◌then◌else◌,
}
use herve.Word.Int.{ℤ, pos, to_u64}
use herve.Profiler.{Profiler, profiler_set_arch, profiler_enable}
use herve.Profiler.Arch.{Arch, arch_get_by_name}
use herve.Profiler.Report.{Sink, Row, report_csv}
use herve.Machine.{Machine, Bus, get_pc, ◌>>=◌}
use herve.Boot.{reset}
use herve.Elf.Header.{Image}
use herve.Elf.File.{init_elf}
use herve.Step.{step}

-- `rv_get_cycles`, `rv_is_halted` and `rv_get_exit_code`.
unfoldable pub get_cycles : Machine → ℕ
get_cycles s = s.csr_mcycle

unfoldable pub is_halted : Machine → Bool
is_halted s = s.htif_halted

unfoldable pub get_exit_code : Machine → ℕ
get_exit_code s = s.htif_exit_code

-- `dpi_mmio_read` of dpi-riscv/sim/iss/herve_stubs.c, with which the program is linked.
abbrev pub stub_bus : Bus
stub_bus events addr = 0

-- The local variables that the options set.
pub record Options : Type 0 where
  pub arch_name : String
  pub profiling : Bool
  pub out_file : Option String
  pub max_cycles : ℤ

abbrev pub default_options : Options
default_options = record {
  arch_name = "ibex_small";
  profiling = false;
  out_file = none;
  max_cycles = pos 1000000000;
}

-- `s + n`: the text from byte `n` on.
abbrev pub text_from : ℕ → String → String
text_from n s = slice s n (len s)

-- The body of the loop over the options; `none` is "Unknown option".
unfoldable pub parse_option : (String → ℤ) → String → Options → Option Options
parse_option atoll arg o =
    if starts_with arg "--arch="
    then some (record o { arch_name = text_from 7 arg })
    else if str_eq arg "--profile"
    then some (record o { profiling = true })
    else if str_eq arg "--no-profile"
    then some (record o { profiling = false })
    else if starts_with arg "--out="
    then some (record o { out_file = some (text_from 6 arg) })
    else if starts_with arg "--max-cycles="
    then some (record o { max_cycles = atoll (text_from 13 arg) })
    else none

unfoldable pub parse_options : (String → ℤ) → List String → Options → Option Options
parse_options atoll [] o = some o
parse_options atoll (arg ∷ args) o = do o' ← parse_option atoll arg o; parse_options atoll args o'

-- The loop's end, or its fuel's.
pub data Run : Type 0 where
  ended : Machine → Run
  running : Machine → Run

-- `while (rv_get_cycles() < (uint64_t)max_cycles && !rv_is_halted())`.
abbrev pub goes_on : ℕ → Machine → Bool
goes_on limit s = ltb (get_cycles s) limit && not (is_halted s)

-- `if (steps == 0 && !rv_is_halted()) break;`.
abbrev pub is_stuck : ℕ → Machine → Bool
is_stuck steps s = (steps == 0) && not (is_halted s)

module _ (dpi_mmio_read : Bus) where
  -- The loop, with batches of 1000 instructions.
  unfoldable pub run_loop : ℕ → ℕ → Machine → Option Run
  run_loop zero limit s = some (running s)
  run_loop (suc fuel) limit s =
      let next : ℕ × Machine → Option Run = λ result.
        (let rest = run_loop fuel limit result.1 in
          if is_stuck result.0 result.1 then some (ended result.1) else rest) in
      let ran = step dpi_mmio_read 1000 s >>= next in
      if goes_on limit s then ran else some (ended s)

-- What the program returns, with the report that it wrote.
pub data Outcome : Type 0 where
  refused : Outcome
  out_of_fuel : Outcome
  returned : ℕ → Option (Sink × List Row) → Machine → Outcome

abbrev pub report_of : (String → Bool) → Options → Profiler → Option (Sink × List Row)
report_of fopen o p = if o.profiling then report_csv fopen o.out_file p else none

abbrev pub outcome_of : (String → Bool) → Options → Run → Outcome
outcome_of fopen o (running s) = out_of_fuel
outcome_of fopen o (ended s) = returned (get_exit_code s) (report_of fopen o s.profiler) s

abbrev pub armed : Options → Arch → Machine → Machine
armed o arch s = record s {
  profiler = profiler_enable o.profiling (profiler_set_arch (some arch) s.profiler);
}

module _ (malloc fseek : ℕ → Bool) (dpi_mmio_read : Bus) (fopen : String → Bool) where
  -- From `rv_init_elf` on.
  unfoldable pub simulate : ℕ → Options → Option Image → Machine → Option Outcome
  simulate fuel o image s = do
    (entry, booted) ← init_elf malloc fseek image 0 s
    run ← run_loop dpi_mmio_read fuel (to_u64 o.max_cycles) (reset (get_pc booted) booted)
    some (outcome_of fopen o run)

  -- From the look-up of the architecture on.
  unfoldable pub run_with_arch : ℕ → Options → Option Arch → Option Image → Machine → Option Outcome
  run_with_arch fuel o none image s = some refused
  run_with_arch fuel o (some arch) image s = simulate fuel o image (armed o arch s)

  -- `main`; the first of `argv` is the program's name, and `refused` is the status 1.
  unfoldable pub main :
      (String → ℤ) → (String → Option Image) → ℕ → List String → Machine → Option Outcome
  main atoll image_of fuel (name ∷ command ∷ elf_path ∷ args) s =
      let parsed = parse_options atoll args default_options in
      if not (str_eq command "run") then some refused else run parsed
    where
      run : Option Options → Option Outcome
      run none = some refused
      run (some o) = run_with_arch fuel o (arch_get_by_name o.arch_name) (image_of elf_path) s
  main atoll image_of fuel [] s = some refused
  main atoll image_of fuel (name ∷ []) s = some refused
  main atoll image_of fuel (name ∷ command ∷ []) s = some refused
