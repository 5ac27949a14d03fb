-- ===== src/Bench/Unseen.antt =====
-- `handle_htif` of dpi-riscv/sim/iss/rv32_dpi_benchmark_htif.cpp reads the words of HTIF in the memory, where
-- the stores of dpi-riscv/sim/iss/rv32_dpi.c to their addresses do not put anything.
use herve.Base.{
  ℕ, suc, ◌+◌, ◌/◌, ◌%◌, ◌<◌, ◌≤◌, ◌≡◌, refl, arith, true, false, some, leb, ltb-false, lt→ltb,
  leb-false, le→leb,
}
use herve.Word.Int.{negsuc}
use herve.Machine.{Machine, Bus}
use herve.Memory.Ram.{peek, read_le}
use herve.Memory.Htif.{is_htif_address, htif_write, htif_process_request}
use herve.Memory.Access.{write_u32}
use herve.Step.{interrupt_ready}
use herve.Step.Halt.{step_halted}
use herve.Bench.{Progress, ended, after_step, bench_round, bench_loop, unknown_termination}
use herve.Bench.Host.{tohost_addr, host_request, handle_htif, htif_verdict}

-- The words of HTIF in the memory hold no request.
pub record HasNoRequest (s : Machine) : Type 0 where
  pub room : tohost_addr + 16 ≤ s.memory_size
  pub no_value : read_le s.memory tohost_addr 8 ≡ 0

handle_htif_idle : (s : Machine) → HasNoRequest s → handle_htif s ≡ some (negsuc 0, s)
unfolding handle_htif host_request peek
handle_htif_idle s h =
    let room = h.room in
    let inside : leb (tohost_addr + 8) s.memory_size ≡ true = le→leb _ _ (omega arith) in
    rw (ltb-false s.memory_size (tohost_addr + 16) room, inside, h.no_value) refl

module _ (bus : Bus) (limit max_stale : ℕ) where
  halted_round :
      (p : Progress)
      → p.machine.htif_halted ≡ true
      → interrupt_ready p.machine ≡ false
      → HasNoRequest p.machine
      → bench_round bus handle_htif limit max_stale p
        ≡ some (false, record p { total_executed = p.total_executed + 0; exit_code = negsuc 0 })
  unfolding bench_round after_step
  halted_round p halted quiet idle =
      rw (step_halted bus 1000 p.machine halted quiet, handle_htif_idle p.machine idle) refl

  halted_loop :
      (fuel : ℕ) (p : Progress)
      → p.machine.htif_halted ≡ true
      → interrupt_ready p.machine ≡ false
      → HasNoRequest p.machine
      → p.total_executed < limit
      → bench_loop bus handle_htif limit max_stale (suc fuel) p
        ≡ some (ended (record p { total_executed = p.total_executed + 0; exit_code = negsuc 0 }))
  unfolding bench_loop
  halted_loop fuel p halted quiet idle below =
      rw (lt→ltb p.total_executed limit below, halted_round p halted quiet idle) refl

  halted_verdict :
      (p : Progress)
      → HasNoRequest p.machine
      → p.total_executed < limit
      → p.stale_count < max_stale
      → htif_verdict limit max_stale
          (ended (record p { total_executed = p.total_executed + 0; exit_code = negsuc 0 }))
        ≡ some (unknown_termination, p.machine)
  unfolding htif_verdict
  halted_verdict p idle below fresh =
      rw
        (
          leb-false limit (p.total_executed + 0) (omega arith),
          leb-false max_stale p.stale_count fresh,
          handle_htif_idle p.machine idle,
        )
        refl

  -- In a simulator with no interrupt that it may take and no request in the memory words of HTIF, a program's
  -- store of a word with bit 0 set to `tohost`, with which it exits, is defined, and the runner that goes
  -- on with the loop below its two limits leaves it at once with the verdict "unknown termination",
  -- whatever the exit code is.
  pub write_u32-htif_verdict :
      (fuel value : ℕ) (p : Progress)
      → value % 2 ≡ 1
      → interrupt_ready p.machine ≡ false
      → HasNoRequest p.machine
      → p.total_executed < limit
      → p.stale_count < max_stale
      → (t : Machine) × (write_u32 bus tohost_addr value p.machine ≡ some t)
        × ((q : Progress) × (bench_loop bus handle_htif limit max_stale
                (suc fuel)
                (record p { machine = t })
              ≡ some (ended q))
            × (htif_verdict limit max_stale (ended q) ≡ some (unknown_termination, t)))
  unfolding write_u32 is_htif_address htif_write htif_process_request
  write_u32-htif_verdict fuel value p odd quiet idle below fresh =
      let t : Machine = record p.machine {
        htif_tohost_lo = value;
        htif_exit_code = value / 2;
        htif_exit = true;
        htif_halted = true;
      } in
      let still : HasNoRequest t = record { room = idle.room; no_value = idle.no_value } in
      let p' : Progress = record p { machine = t } in
      (
        t,
        ground arith,
        (
          record p' { total_executed = p.total_executed + 0; exit_code = negsuc 0 },
          halted_loop fuel p' refl quiet still below,
          halted_verdict p' still below fresh,
        ),
      )
