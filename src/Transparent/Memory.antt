-- ===== src/Transparent/Memory.antt =====
-- The memory accesses of dpi-riscv/sim/iss/rv32_dpi.c do not depend on the profiler.
use herve.Base.{ℕ, ◌≡◌, arith}
use herve.Profiler.{Profiler}
use herve.Machine.{Machine, Bus}
use herve.Memory.Ram.{valid_memory_access, peek, poke}
use herve.Memory.Htif.{
  htif_putchar, htif_reply, htif_syscall, htif_process_request, htif_read, htif_write,
}
use herve.Memory.Access.{
  mmio_read, mmio_write, ram_read, ram_write, read_u32, read_u16, read_u8, write_u32, write_u16,
  write_u8,
}
use herve.Transparent.Agree.{with_profiler, map_option, keep}

module _ (p : Profiler) where
  ram_read-keep :
      (addr width : ℕ) (s : Machine)
      → ram_read addr width (with_profiler p s) ≡ map_option (keep p) (ram_read addr width s)
  unfolding ram_read valid_memory_access peek
  ram_read-keep addr width s = ground arith

  ram_write-with_profiler :
      (addr width value : ℕ) (s : Machine)
      → ram_write addr width value (with_profiler p s)
        ≡ map_option (with_profiler p) (ram_write addr width value s)
  unfolding ram_write valid_memory_access poke
  ram_write-with_profiler addr width value s = ground arith

  htif_write-with_profiler :
      (addr value : ℕ) (s : Machine)
      → htif_write addr value (with_profiler p s)
        ≡ map_option (with_profiler p) (htif_write addr value s)
  unfolding htif_write htif_process_request htif_syscall htif_reply htif_putchar peek
  htif_write-with_profiler addr value s = ground arith

  module _ (bus : Bus) where
    pub read_u32-keep :
        (addr : ℕ) (s : Machine)
        → read_u32 bus addr (with_profiler p s) ≡ map_option (keep p) (read_u32 bus addr s)
    unfolding read_u32 mmio_read htif_read
    read_u32-keep addr s = rw (ram_read-keep addr 4 s) (ground arith)

    pub read_u16-keep :
        (addr : ℕ) (s : Machine)
        → read_u16 bus addr (with_profiler p s) ≡ map_option (keep p) (read_u16 bus addr s)
    unfolding read_u16 mmio_read
    read_u16-keep addr s = rw (ram_read-keep addr 2 s, read_u32-keep addr s) (ground arith)

    pub read_u8-keep :
        (addr : ℕ) (s : Machine)
        → read_u8 bus addr (with_profiler p s) ≡ map_option (keep p) (read_u8 bus addr s)
    unfolding read_u8 mmio_read
    read_u8-keep addr s = rw (ram_read-keep addr 1 s, read_u32-keep addr s) (ground arith)

    pub write_u32-with_profiler :
        (addr value : ℕ) (s : Machine)
        → write_u32 bus addr value (with_profiler p s)
          ≡ map_option (with_profiler p) (write_u32 bus addr value s)
    unfolding write_u32 mmio_write
    write_u32-with_profiler addr value s =
        rw (ram_write-with_profiler addr 4 value s, htif_write-with_profiler addr value s)
          (ground arith)

    pub write_u16-with_profiler :
        (addr value : ℕ) (s : Machine)
        → write_u16 bus addr value (with_profiler p s)
          ≡ map_option (with_profiler p) (write_u16 bus addr value s)
    unfolding write_u16 mmio_read mmio_write
    write_u16-with_profiler addr value s =
        rw (ram_write-with_profiler addr 2 value s) (ground arith)

    pub write_u8-with_profiler :
        (addr value : ℕ) (s : Machine)
        → write_u8 bus addr value (with_profiler p s)
          ≡ map_option (with_profiler p) (write_u8 bus addr value s)
    unfolding write_u8 mmio_read mmio_write
    write_u8-with_profiler addr value s = rw (ram_write-with_profiler addr 1 value s) (ground arith)
