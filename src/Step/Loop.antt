-- ===== src/Step/Loop.antt =====
-- The body of the two loops of `rv_step` in dpi-riscv/sim/iss/rv32_dpi.c, and the loops. A batch
-- is the number of instructions executed, with the state behind it.
use herve.Base.{ℕ, zero, suc, ◌+◌, ◌%◌, Bool, not, ◌||◌, Option, some, ◌==◌, if◌then◌else◌}
use herve.Word.{u16, u64, add32}
use herve.Profiler.{compressed}
use herve.Machine.{Machine, Bus, profile, ◌>>=◌}
use herve.Memory.Ram.{valid_memory_access}
use herve.Memory.Access.{read_u32}
use herve.Execute.{execute_instruction}
use herve.Compressed.{execute_compressed}

-- `if (pc == pc_before) pc += 2;`.
unfoldable pub advance : ℕ → Machine → Machine
advance pc_before s = if s.pc == pc_before then record s { pc = add32 s.pc 2 } else s

-- `executed += 1; csr_mcycle++;`: the second.
unfoldable pub tick : Machine → Machine
tick s = record s { csr_mcycle = u64 (s.csr_mcycle + 1) }

-- The end of a round behind `execute_compressed`: nothing where it failed, else the program
-- counter moves on. The second is that of the loop that profiles.
unfoldable pub compressed_end : ℕ → Bool × Machine → Bool × Machine
compressed_end pc_before (more, s) = (more, (if more then advance pc_before s else s))

unfoldable pub compressed_end_profiled : ℕ → ℕ → Bool × Machine → Bool × Machine
compressed_end_profiled pc_before c_insn (more, s) =
    (more, (if more then profile compressed pc_before c_insn (advance pc_before s) else s))

-- The tests at the head of both loops.
abbrev pub stops : Machine → Bool
stops s = s.htif_halted || not (valid_memory_access s.pc 4 s)

module _ (dpi_mmio_read : Bus) where
  -- One instruction `insn`, read at the program counter of `s`; `false` in the result is the
  -- `break` of the loop.
  unfoldable pub round : ℕ → Machine → Option (Bool × Machine)
  round insn s = if insn % 4 == 3 then execute_instruction dpi_mmio_read insn s else (do
    result ← execute_compressed dpi_mmio_read (u16 insn) s
    some (compressed_end s.pc result))

  unfoldable pub round_profiled : ℕ → Machine → Option (Bool × Machine)
  round_profiled insn s = if insn % 4 == 3 then execute_instruction dpi_mmio_read insn s else (do
    result ← execute_compressed dpi_mmio_read (u16 insn) s
    some (compressed_end_profiled s.pc (u16 insn) result))

  -- `for (int i = 0; i < max_instructions; ++i)` with `left` rounds to go, by the rounds of the
  -- loop without the profiler or of the loop with it.
  unfoldable pub loop :
      (ℕ → Machine → Option (Bool × Machine)) → ℕ → ℕ → Machine → Option (ℕ × Machine)
  loop body zero executed s = some (executed, s)
  loop body (suc left) executed s =
      let next : Bool × Machine → Option (ℕ × Machine) = λ result.
        (let rest = loop body left (executed + 1) (tick result.1) in
          if result.0 then rest else some (executed, result.1)) in
      let run = read_u32 dpi_mmio_read s.pc s >>= (λ fetched. body fetched.0 fetched.1 >>= next) in
      if stops s then some (executed, s) else run
