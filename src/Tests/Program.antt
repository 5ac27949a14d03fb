-- ===== src/Tests/Program.antt =====
-- The theorems on the programs around the simulator, on the profiler and its report, applied to a small
-- ELF file, concrete options and a few recorded instructions.
use herve.Base.{
  ◌≡◌, ◌≢◌, refl, ap, arith, Bool, true, false, Option, none, some, List, [], ◌∷◌, String,
}
use herve.Word.{u64}
use herve.Word.Int.{pos, to_u64}
use herve.Profiler.{index, Profiler, SymbolName, profiler_enable}
use herve.Profiler.InsnType.{alu, load, unknown}
use herve.Profiler.Arch.{arch_serv, arch_boom}
use herve.Profiler.Totals.{Event, record_all}
use herve.Profiler.Counts.{events_of}
use herve.Profiler.Report.{insn_type_to_str, report_rows}
use herve.Profiler.Report.Read.{total_of, report_rows-events_of}
use herve.Machine.{Machine, Ensures}
use herve.Step.{step}
use herve.Cli.NoFile.{simulate_no_file}
use herve.Cli.{returned, stub_bus, Options, default_options, simulate, armed}
use herve.Cli.Finish.{HasReturned, simulate-HasReturned}
use herve.Zephyr.{run_ticks}
use herve.Zephyr.Total.{SameNumbers, run_ticks-SameNumbers}
use herve.Transparent.Agree.{with_profiler, map_option, keep}
use herve.Transparent.Step.{step-with_profiler}
use herve.Transparent.Cli.{without_report, simulate_transparent}
use herve.Tests.{five_bus, booted, idle_profiler}
use herve.Tests.ElfFile.{elf_file, elf_file-IsByteImage, always}

abbrev busy_profiler : Profiler
busy_profiler = profiler_enable true idle_profiler

step-with_profiler_example :
    map_option (keep idle_profiler) (step five_bus 10 (with_profiler busy_profiler (booted 0)))
    ≡ map_option (keep idle_profiler) (step five_bus 10 (booted 0))
step-with_profiler_example = step-with_profiler busy_profiler idle_profiler five_bus 10 (booted 0)

-- `--max-cycles=5`, and the same with `--profile`.
abbrev five_cycles : Options
five_cycles = record default_options { max_cycles = pos 5 }

abbrev five_profiled : Options
five_profiled = record default_options { max_cycles = pos 5; profiling = true }

abbrev writable : String → Bool
writable name = true

simulate_transparent_example :
    map_option (without_report idle_profiler) (
      simulate always always stub_bus writable 6 five_profiled
        (some elf_file)
        (armed five_profiled arch_serv (booted 0)))
    ≡ map_option (without_report idle_profiler) (
        simulate always always stub_bus writable 6 five_cycles
          (some elf_file)
          (armed five_cycles arch_boom (booted 0)))
simulate_transparent_example =
    simulate_transparent always always stub_bus writable idle_profiler 6 five_profiled five_cycles
      arch_serv arch_boom (some elf_file) (booted 0) refl

five_cycles_limit : to_u64 five_cycles.max_cycles ≡ 5
unfolding to_u64
five_cycles_limit = refl

simulate-HasReturned_example :
    Ensures
      (HasReturned stub_bus (to_u64 five_cycles.max_cycles))
      (simulate always always stub_bus writable 6 five_cycles (some elf_file) (booted 0))
simulate-HasReturned_example =
    simulate-HasReturned always always stub_bus writable 6 five_cycles (some elf_file) (booted 0)
      elf_file-IsByteImage refl (omega (arith, five_cycles_limit))
      (omega (arith, five_cycles_limit))

run_ticks-SameNumbers_example :
    Ensures SameNumbers (run_ticks always always five_bus (pos 8) (some elf_file) (booted 0))
run_ticks-SameNumbers_example =
    run_ticks-SameNumbers always always five_bus (pos 8) (some elf_file) (booted 0)
      elf_file-IsByteImage refl

-- The simulator at the start of the process: no memory.
abbrev no_program : Machine
no_program = record (booted 0) { memory_size = 0; initialized = false }

simulate_no_file_example :
    simulate always always stub_bus writable 6 five_cycles none no_program
    ≡ some (returned 0 none no_program)
simulate_no_file_example =
    simulate_no_file always always stub_bus writable 5 five_cycles no_program refl refl

-- Two instructions of "f" and a load outside of all functions.
abbrev in_f : Option SymbolName
in_f = some (record { pointer = 0; name = "f" })

abbrev three_events : List Event
three_events = (alu, in_f, 0x00500093) ∷ (load, none, 0x2083) ∷ (alu, in_f, 0x00500093) ∷ []

alu-known : alu ≢ unknown
alu-known e = absurd (omega (arith, ap index e))

report_rows-events_of_example :
    u64 (
      total_of "ICOUNT" "f"
        (insn_type_to_str alu)
        (report_rows (record_all three_events (profiler_enable true idle_profiler))))
    ≡ u64 (events_of "f" 1 three_events)
report_rows-events_of_example = report_rows-events_of "f" alu three_events idle_profiler alu-known

-- Which is 2.
two_of_f : events_of "f" 1 three_events ≡ 2
two_of_f = refl
