-- ===== src/Memory.antt =====
-- The guest's view of memory: HTIF registers, memory-mapped devices and RAM.
-- `htif_process_request`, `read_u8` to `write_u32` of dpi-riscv/sim/iss/rv32_dpi.c.
pub mod Ram
pub mod Htif
pub mod Access
pub mod WellFormed
pub mod AccessWellFormed
pub mod Defined
pub mod RoundTrip
