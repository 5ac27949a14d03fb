-- ===== src/Tests/Runner.antt =====
-- The theorems on the runners of the riscv-tests, applied to concrete simulators.
use herve.Base.{suc, ◌≡◌, refl, arith, some}
use herve.Machine.{Machine, Ensures}
use herve.Memory.Ram.{read_le}
use herve.Memory.Access.{write_u32}
use herve.Bench.{Progress, first_progress, ended, bench_loop, unknown_termination, no_check}
use herve.Bench.Host.{tohost_addr, bench_bus, handle_htif, htif_verdict}
use herve.Bench.Finish.{HasEnded, bench_loop-HasEnded}
use herve.Bench.Unseen.{HasNoRequest, write_u32-htif_verdict}
use herve.Tests.{booted}

-- The small program, with `MAX_INSTRUCTIONS` and `MAX_STALE_CHECKS` of rv32_dpi_riscv_tests.cpp.
bench_loop-HasEnded_example :
    Ensures
      (HasEnded 50000)
      (bench_loop bench_bus no_check 50000 100 50001 (first_progress (booted 0)))
bench_loop-HasEnded_example =
    bench_loop-HasEnded bench_bus no_check 50000 100 50001 (first_progress (booted 0)) (omega arith)
      (omega arith)

-- A memory that reaches beyond the words of HTIF, which are zeroes.
abbrev large : Machine
large = record (booted 0) { memory_size = 0x81000000 }

large-HasNoRequest : HasNoRequest large
unfolding read_le
large-HasNoRequest = record { room = omega arith; no_value = refl }

write_u32-htif_verdict_example :
    (t : Machine) × (write_u32 bench_bus tohost_addr 1 large ≡ some t)
    × ((q : Progress) × (bench_loop bench_bus handle_htif 500000000 50000
            (suc 7)
            (record (first_progress large) { machine = t })
          ≡ some (ended q))
        × (htif_verdict 500000000 50000 (ended q) ≡ some (unknown_termination, t)))
write_u32-htif_verdict_example =
    write_u32-htif_verdict bench_bus 500000000 50000 7 1 (first_progress large) refl refl
      large-HasNoRequest (omega arith) (omega arith)
