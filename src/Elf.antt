-- ===== src/Elf.antt =====
-- The ELF loaders of dpi-riscv/sim/iss/rv32_dpi.c: the headers, `rv_load_elf` from a buffer and
-- `rv_init_elf` from a file.
pub mod Header
pub mod Buffer
pub mod SymbolTable
pub mod File
pub mod Reject
pub mod Preserve
pub mod Contents
pub mod Loaded
pub mod Range
pub mod FilePreserve
pub mod Outcome
pub mod Booted
pub mod Init
pub mod Stale
