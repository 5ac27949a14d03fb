-- ===== src/Transparent.antt =====
-- The profiler of dpi-riscv/sim/iss/herve_profiler.c only watches: what dpi-riscv/sim/iss/rv32_dpi.c does
-- to the rest of the simulator does not depend on it.
pub mod Agree
pub mod Memory
pub mod Execute
pub mod Compressed
pub mod Boot
pub mod Step
pub mod Cli
