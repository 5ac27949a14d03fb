-- ===== src/Transparent/Compressed.antt =====
-- The 16-bit instructions of dpi-riscv/sim/iss/rv32_dpi.c do not depend on the profiler.
use herve.Base.{ℕ, ◌≡◌, arith}
use herve.Profiler.{Profiler}
use herve.Machine.{Machine, Bus, write_reg}
use herve.Compressed.Alu.{write_shifted, exec_ca, exec_q1_alu, exec_q1_lui}
use herve.Compressed.{
  exec_q0, exec_q1, exec_q2, exec_q2_jump, load_word, store_word, execute_compressed,
}
use herve.Transparent.Agree.{with_profiler, map_option, keep}
use herve.Transparent.Memory.{read_u32-keep, write_u32-with_profiler}

module _ (p : Profiler) where
  write_shifted-keep :
      (shamt reg value : ℕ) (s : Machine)
      → write_shifted shamt reg value (with_profiler p s)
        ≡ map_option (keep p) (write_shifted shamt reg value s)
  unfolding write_shifted write_reg
  write_shifted-keep shamt reg value s = ground arith

  exec_ca-with_profiler :
      (insn : ℕ) (s : Machine) → exec_ca insn (with_profiler p s) ≡ with_profiler p (exec_ca insn s)
  unfolding exec_ca write_reg
  exec_ca-with_profiler insn s = ground arith

  exec_q1_alu-keep :
      (insn : ℕ) (s : Machine)
      → exec_q1_alu insn (with_profiler p s) ≡ map_option (keep p) (exec_q1_alu insn s)
  unfolding exec_q1_alu write_shifted write_reg
  exec_q1_alu-keep insn s = rw (exec_ca-with_profiler insn s) (ground arith)

  exec_q1_lui-keep :
      (insn : ℕ) (s : Machine)
      → exec_q1_lui insn (with_profiler p s) ≡ map_option (keep p) (exec_q1_lui insn s)
  unfolding exec_q1_lui write_reg
  exec_q1_lui-keep insn s = ground arith

  exec_q2_jump-keep :
      (insn : ℕ) (s : Machine)
      → exec_q2_jump insn (with_profiler p s) ≡ map_option (keep p) (exec_q2_jump insn s)
  unfolding exec_q2_jump write_reg
  exec_q2_jump-keep insn s = ground arith

  exec_q1-keep :
      (insn : ℕ) (s : Machine)
      → exec_q1 insn (with_profiler p s) ≡ map_option (keep p) (exec_q1 insn s)
  unfolding exec_q1 write_reg
  exec_q1-keep insn s = rw (exec_q1_lui-keep, exec_q1_alu-keep) (ground arith)

  module _ (bus : Bus) where
    load_word-keep :
        (reg addr : ℕ) (s : Machine)
        → load_word bus reg addr (with_profiler p s)
          ≡ map_option (keep p) (load_word bus reg addr s)
    unfolding load_word write_reg
    load_word-keep reg addr s = rw (read_u32-keep p bus) (ground arith)

    store_word-keep :
        (addr value : ℕ) (s : Machine)
        → store_word bus addr value (with_profiler p s)
          ≡ map_option (keep p) (store_word bus addr value s)
    unfolding store_word
    store_word-keep addr value s = rw (write_u32-with_profiler p bus) (ground arith)

    exec_q0-keep :
        (insn : ℕ) (s : Machine)
        → exec_q0 bus insn (with_profiler p s) ≡ map_option (keep p) (exec_q0 bus insn s)
    unfolding exec_q0 write_reg
    exec_q0-keep insn s = rw (load_word-keep, store_word-keep) (ground arith)

    exec_q2-keep :
        (insn : ℕ) (s : Machine)
        → exec_q2 bus insn (with_profiler p s) ≡ map_option (keep p) (exec_q2 bus insn s)
    unfolding exec_q2
    exec_q2-keep insn s =
        rw (write_shifted-keep, exec_q2_jump-keep, load_word-keep, store_word-keep) (ground arith)

    pub execute_compressed-keep :
        (insn : ℕ) (s : Machine)
        → execute_compressed bus insn (with_profiler p s)
          ≡ map_option (keep p) (execute_compressed bus insn s)
    unfolding execute_compressed
    execute_compressed-keep insn s = rw (exec_q0-keep, exec_q1-keep, exec_q2-keep) (ground arith)
