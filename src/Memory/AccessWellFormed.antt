-- ===== src/Memory/AccessWellFormed.antt =====
-- The ranges of the variables and of the value behind `read_u8` to `write_u32` of
-- dpi-riscv/sim/iss/rv32_dpi.c.
use native.Mathlib.Nat.{div-le_self}
use herve.Base.{ℕ, ◌-◌, ◌^◌, ◌≤◌, ◌<◌, arith}
use herve.Word.{shr32}
use herve.Machine.{Machine, Bus, Ensures, Ensures-bind, if-Ensures}
use herve.Machine.WellFormed.{IsWellFormed, IsWellFormed-of_parts}
use herve.Memory.Ram.{valid_memory_access}
use herve.Memory.Htif.{is_htif_address}
use herve.Memory.WellFormed.{peek-lt, poke-IsWellFormed, htif_write-IsWellFormed, htif_read-lt}
use herve.Memory.Access.{
  is_mmio_address, mmio_write, word_base, half_shift, byte_shift, merge, ram_read, ram_write,
  mmio_read, read_u32, read_u16, read_u8, write_u32, write_u16, write_u8,
}

-- What holds of the result of a read.
abbrev pub IsRead : ℕ × Machine → Type 0
IsRead r = (r.0 < 2 ^ 32) × IsWellFormed r.1

mmio_write-IsWellFormed :
    (addr value : ℕ) (s : Machine) → IsWellFormed s → IsWellFormed (mmio_write addr value s)
unfolding mmio_write
mmio_write-IsWellFormed addr value s w =
    IsWellFormed-of_parts _ w.regs_ok w.ram_ok w.pc_ok w.csrs_ok w.htif_ok

-- Only widths of 1, 2 and 4 bytes occur.
ram_read-IsRead :
    (addr width : ℕ) (s : Machine)
    → 256 ^ width ≤ 2 ^ 32
    → IsWellFormed s
    → Ensures IsRead (ram_read addr width s)
unfolding ram_read
ram_read-IsRead addr width s narrow w =
    if-Ensures IsRead (valid_memory_access addr width s) _ _
      (Ensures-bind (λ v. v < 256 ^ width) IsRead _ _ (peek-lt (addr - s.memory_base) width s w)
        (λ v h. (omega arith, w)))
      (omega arith, w)

ram_write-IsWellFormed :
    (addr width value : ℕ) (s : Machine)
    → IsWellFormed s
    → Ensures IsWellFormed (ram_write addr width value s)
unfolding ram_write
ram_write-IsWellFormed addr width value s w =
    if-Ensures IsWellFormed (valid_memory_access addr width s) _ _
      (poke-IsWellFormed (addr - s.memory_base) width value s w) w

module _ (dpi_mmio_read : Bus) where
  mmio_read-IsRead :
      (addr : ℕ) (s : Machine) → IsWellFormed s → IsRead (mmio_read dpi_mmio_read addr s)
  unfolding mmio_read
  mmio_read-IsRead addr s w =
      (omega arith, IsWellFormed-of_parts _ w.regs_ok w.ram_ok w.pc_ok w.csrs_ok w.htif_ok)

  shifted-lt : (word k : ℕ) → word < 2 ^ 32 → shr32 word k < 2 ^ 32
  shifted-lt word k h = omega (arith, div-le_self word (2 ^ k))

  pub read_u32-IsRead :
      (addr : ℕ) (s : Machine) → IsWellFormed s → Ensures IsRead (read_u32 dpi_mmio_read addr s)
  unfolding read_u32
  read_u32-IsRead addr s w =
      if-Ensures IsRead (is_htif_address addr) _ _ (htif_read-lt addr s w, w)
        (if-Ensures IsRead (is_mmio_address addr) _ _ (mmio_read-IsRead addr s w)
          (ram_read-IsRead addr 4 s (omega arith) w))

  -- A part of a word on the bus.
  part-IsRead :
      (addr k : ℕ) (s : Machine)
      → IsWellFormed s
      → let (word, s') = mmio_read dpi_mmio_read (word_base addr) s in IsRead (shr32 word k, s')
  part-IsRead addr k s w =
      let r = mmio_read-IsRead (word_base addr) s w in (shifted-lt _ k (r.0), r.1)

  pub read_u16-IsRead :
      (addr : ℕ) (s : Machine) → IsWellFormed s → Ensures IsRead (read_u16 dpi_mmio_read addr s)
  unfolding read_u16
  read_u16-IsRead addr s w =
      if-Ensures IsRead (is_htif_address addr) _ _ (read_u32-IsRead addr s w) (
        if-Ensures IsRead (is_mmio_address addr) _ _ (part-IsRead addr (half_shift addr) s w)
          (ram_read-IsRead addr 2 s (omega arith) w))

  pub read_u8-IsRead :
      (addr : ℕ) (s : Machine) → IsWellFormed s → Ensures IsRead (read_u8 dpi_mmio_read addr s)
  unfolding read_u8
  read_u8-IsRead addr s w =
      if-Ensures IsRead (is_htif_address addr) _ _ (read_u32-IsRead addr s w) (
        if-Ensures IsRead (is_mmio_address addr) _ _ (part-IsRead addr (byte_shift addr) s w)
          (ram_read-IsRead addr 1 s (omega arith) w))

  pub write_u32-IsWellFormed :
      (addr value : ℕ) (s : Machine)
      → value < 2 ^ 32
      → IsWellFormed s
      → Ensures IsWellFormed (write_u32 dpi_mmio_read addr value s)
  unfolding write_u32
  write_u32-IsWellFormed addr value s h w =
      if-Ensures IsWellFormed (is_htif_address addr) _ _ (htif_write-IsWellFormed addr value s h w)
        (if-Ensures IsWellFormed (is_mmio_address addr) _ _ (mmio_write-IsWellFormed addr value s w)
          (ram_write-IsWellFormed addr 4 value s w))

  -- A read of a word on the bus and a write of the merged word.
  merged-IsWellFormed :
      (addr mask value k : ℕ) (s : Machine)
      → IsWellFormed s
      → let (old, s') = mmio_read dpi_mmio_read (word_base addr) s in
        IsWellFormed (mmio_write (word_base addr) (merge old mask value k) s')
  merged-IsWellFormed addr mask value k s w =
      mmio_write-IsWellFormed _ _ _ ((mmio_read-IsRead (word_base addr) s w).1)

  pub write_u16-IsWellFormed :
      (addr value : ℕ) (s : Machine)
      → IsWellFormed s
      → Ensures IsWellFormed (write_u16 dpi_mmio_read addr value s)
  unfolding write_u16
  write_u16-IsWellFormed addr value s w =
      if-Ensures IsWellFormed (is_mmio_address addr) _ _
        (merged-IsWellFormed addr 0xffff value (half_shift addr) s w)
        (ram_write-IsWellFormed addr 2 value s w)

  pub write_u8-IsWellFormed :
      (addr value : ℕ) (s : Machine)
      → IsWellFormed s
      → Ensures IsWellFormed (write_u8 dpi_mmio_read addr value s)
  unfolding write_u8
  write_u8-IsWellFormed addr value s w =
      if-Ensures IsWellFormed (is_mmio_address addr) _ _
        (merged-IsWellFormed addr 0xff value (byte_shift addr) s w)
        (ram_write-IsWellFormed addr 1 value s w)
