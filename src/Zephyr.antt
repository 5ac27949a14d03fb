-- ===== src/Zephyr.antt =====
-- The runner dpi-riscv/sim/iss/rv32_dpi_zephyr_standalone.c: a fixed number of batches with the profiler on.
-- Its messages are left out. Parameters: `atoi`, the file of a name, whether a file opens for writing,
-- `malloc` and `fseek` as in `rv_init_elf`, and the bus. A sum beyond `int` is undefined behaviour.
pub mod Total
use herve.Base.{
  ℕ, zero, suc, ◌+◌, ◌^◌, Bool, true, false, not, ◌&&◌, Option, none, some, List, [], ◌∷◌, String,
  str_eq, starts_with, ltb, if◌then◌else◌,
}
use herve.Word.Int.{ℤ, pos, pos_part}
use herve.Profiler.{profiler_set_arch, profiler_enable}
use herve.Profiler.Arch.{arch_get_by_name}
use herve.Profiler.Report.{Sink, Row, report_csv}
use herve.Machine.{Machine, Bus, get_pc, ◌>>=◌}
use herve.Boot.{reset}
use herve.Elf.Header.{Image}
use herve.Elf.File.{init_elf}
use herve.Step.{step}
use herve.Cli.{text_from}

-- The local variables that the arguments set.
pub record Settings : Type 0 where
  pub elf_path : String
  pub max_ticks : ℤ
  pub profile_out : String

abbrev pub default_settings : Settings
default_settings = record {
  elf_path = "firmware_timer.elf";
  max_ticks = pos 8;
  profile_out = "profile.csv";
}

abbrev is_last : List String → Bool
is_last [] = true
is_last (arg ∷ args) = false

-- What follows the test for "-c".
abbrev pub parse_other : String → Settings → Settings
parse_other arg o =
    if starts_with arg "--out="
    then record o { profile_out = text_from 6 arg }
    else if not (starts_with arg "-")
    then record o { elf_path = arg }
    else o

-- The loop over the arguments; `value` says that the one at hand is the value of a "-c" before it.
unfoldable pub parse_settings : (String → ℤ) → Bool → List String → Settings → Settings
parse_settings atoi value [] o = o
parse_settings atoi true (arg ∷ args) o =
    parse_settings atoi false args (record o { max_ticks = atoi arg })
parse_settings atoi false (arg ∷ args) o =
    let takes = str_eq arg "-c" && not (is_last args) in
    parse_settings atoi takes args (if takes then o else parse_other arg o)

module _ (dpi_mmio_read : Bus) where
  -- The loop, with `left` batches to go.
  unfoldable pub tick_loop : ℕ → ℕ → Machine → Option (ℕ × Machine)
  tick_loop zero total s = some (total, s)
  tick_loop (suc left) total s = do
    (executed, t) ← step dpi_mmio_read 1000 s
    let rest = tick_loop left (total + executed) t
    if ltb (total + executed) (2 ^ 31) then rest else none

abbrev pub profiled : Machine → Machine
profiled s = record s {
  profiler = profiler_enable true (profiler_set_arch (arch_get_by_name "ibex_small") s.profiler);
}

module _ (malloc fseek : ℕ → Bool) (dpi_mmio_read : Bus) where
  -- From the set-up of the profiler to the end of the loop: the number of instructions that is printed, and
  -- the state, whose cycle counter is printed behind it.
  unfoldable pub run_ticks : ℤ → Option Image → Machine → Option (ℕ × Machine)
  run_ticks max_ticks image s = do
    (entry, booted) ← init_elf malloc fseek image (2 ^ 20) (profiled s)
    tick_loop dpi_mmio_read (pos_part max_ticks) 0 (reset (get_pc booted) booted)

  -- `main`, without the name of the program in `argv`; the result has the number, the cycles and the report.
  unfoldable pub standalone :
      (String → ℤ)
      → (String → Option Image)
      → (String → Bool)
      → List String
      → Machine
      → Option (ℕ × ℕ × Option (Sink × List Row))
  standalone atoi image_of fopen args s = do
    let o = parse_settings atoi false args default_settings
    (total, t) ← run_ticks o.max_ticks (image_of o.elf_path) s
    some (total, t.csr_mcycle, report_csv fopen (some o.profile_out) t.profiler)
