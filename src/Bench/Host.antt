-- ===== src/Bench/Host.antt =====
-- `handle_htif` and `run_htif_benchmark` of dpi-riscv/sim/iss/rv32_dpi_benchmark_htif.cpp. `global_ram` is the buffer
-- that `rv_set_ram` gave to the simulator: its memory.
use herve.Base.{ℕ, ◌+◌, ◌/◌, ◌%◌, ◌&&◌, Option, some, ◌∷◌, ltb, leb, ◌==◌, if◌then◌else◌}
use herve.Word.{u32, signed32}
use herve.Word.Int.{ℤ, pos, negsuc}
use herve.Machine.{Machine, Bus, get_pc, ◌>>=◌}
use herve.Memory.Ram.{peek, poke}
use herve.Elf.Header.{Image}
use herve.Vpi.Registers.{vpi_bus}
use herve.Bench.{
  first_progress, is_exit, Ended, ended, running, bench_loop, Verdict, passed, failed,
  elf_load_failed, instruction_limit, stale_pc, unknown_termination, no_verdict, load_program,
}

-- `dpi_mmio_read` and `dpi_mmio_write` of the runners: 64 registers, which are those of the VPI library.
abbrev pub bench_bus : Bus
bench_bus = vpi_bus

-- `TOHOST_ADDR`.
abbrev pub tohost_addr : ℕ
tohost_addr = 0x80001000

-- "Handle SYS_write to console".
unfoldable pub host_putchar : ℕ → ℕ → ℕ → ℕ → Machine → Option Machine
host_putchar syscall_no arg0 arg1 arg2 s =
    if (syscall_no == 64) && ((arg0 == 1) && (arg2 == 1))
    then (do ch ← peek arg1 1 s; some (record s { console = ch ∷ s.console }))
    else some s

-- The part of `handle_htif` for a request that is no exit. The indices are sums of `uint32_t`.
unfoldable pub host_syscall : ℕ → Machine → Option Machine
host_syscall magic_ptr s = do
  syscall_no ← peek magic_ptr 4 s
  arg0 ← peek (u32 (magic_ptr + 4)) 4 s
  arg1 ← peek (u32 (magic_ptr + 8)) 4 s
  arg2 ← peek (u32 (magic_ptr + 12)) 4 s
  t ← host_putchar syscall_no arg0 arg1 arg2 s
  u ← poke (tohost_addr + 8) 8 1 t
  poke tohost_addr 8 0 u

-- The part behind the first test, for the value of `tohost`; an exit code is cut to an `int`.
unfoldable pub host_request : ℕ → Machine → Option (ℤ × Machine)
host_request tohost_val s =
    if tohost_val == 0
    then some (negsuc 0, s)
    else if tohost_val % 2 == 1
    then some (signed32 (u32 (tohost_val / 2)), s)
    else (do t ← host_syscall (u32 tohost_val) s; some (negsuc 0, t))

-- `handle_htif`; -1 is `negsuc 0`.
unfoldable pub handle_htif : Machine → Option (ℤ × Machine)
handle_htif s =
    if ltb s.memory_size (tohost_addr + 16)
    then some (negsuc 0, s)
    else (do tohost_val ← peek tohost_addr 8 s; host_request tohost_val s)

-- A result for an exit code that is not negative.
abbrev pub exit_verdict : ℤ → Verdict
exit_verdict (pos code) = if code == 0 then passed else failed code
exit_verdict (negsuc below) = unknown_termination

-- The end of `run_htif_benchmark`.
unfoldable pub htif_verdict : ℕ → ℕ → Ended → Option (Verdict × Machine)
htif_verdict max_instructions max_stale_checks (running p) = some (no_verdict, p.machine)
htif_verdict max_instructions max_stale_checks (ended p) =
    if is_exit p.exit_code
    then some (exit_verdict p.exit_code, p.machine)
    else if leb max_instructions p.total_executed
    then some (instruction_limit, p.machine)
    else if leb max_stale_checks p.stale_count
    then some (stale_pc (get_pc p.machine), p.machine)
    else (do (code, t) ← handle_htif p.machine; some (exit_verdict code, t))

module _ (dpi_mmio_read : Bus) (max_instructions max_stale_checks : ℕ) where
  unfoldable pub run_htif_loaded : ℕ → Machine → Option (Verdict × Machine)
  run_htif_loaded fuel s = do
    run ←
        bench_loop dpi_mmio_read handle_htif max_instructions max_stale_checks fuel
          (first_progress s)
    htif_verdict max_instructions max_stale_checks run

  -- `run_htif_benchmark`.
  unfoldable pub run_htif_benchmark : ℕ → Image → Machine → Option (Verdict × Machine)
  run_htif_benchmark fuel image s = do
    (loaded, t) ← load_program image s
    if loaded then run_htif_loaded fuel t else some (elf_load_failed, t)
