-- ===== src/Profiler.antt =====
-- dpi-riscv/sim/iss/herve_profiler.c and herve_arch.c: counts, cycles and call edges of a run.
mod Defs
mod Classify
mod Record
pub mod Totals
pub mod Edges
pub mod Arch
pub mod Counts
pub mod Report
pub use Defs.*
unfoldable pub use Classify.*
unfoldable pub use Record.*
