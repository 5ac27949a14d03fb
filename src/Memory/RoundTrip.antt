-- ===== src/Memory/RoundTrip.antt =====
-- Stores to RAM and later loads, for `read_u8` to `write_u32` of dpi-riscv/sim/iss/rv32_dpi.c.
use native.Mathlib.Nat.{
  pow-succ', div-div-eq-div-mul, mod-eq-sub-div-mul, div-add-mod, mod-eq_of_lt,
}
use herve.Base.{
  ℕ, zero, suc, ◌+◌, ◌-◌, ◌*◌, ◌/◌, ◌%◌, ◌^◌, ◌≤◌, ◌<◌, ◌≡◌, ◌⊎◌, inl, refl, sym, ◌∙◌, true, false,
  arith, update, update_self, Option, some, le→leb,
}
use herve.Machine.{Machine, Bus}
use herve.Memory.Ram.{read_le, write_le, peek, poke, valid_memory_access}
use herve.Memory.Htif.{is_htif_address}
use herve.Memory.Access.{
  is_mmio_address, ram_read, ram_write, read_u32, read_u16, read_u8, write_u32, write_u16, write_u8,
}

-- `width` bytes of RAM from `addr` on: no device register, and inside of the buffer.
pub record IsRamAt (addr width : ℕ) (s : Machine) : Type 0 where
  pub no_htif : is_htif_address addr ≡ false
  pub no_mmio : is_mmio_address addr ≡ false
  pub above : s.memory_base ≤ addr
  pub inside : addr - s.memory_base + width ≤ s.memory_size

pub write_le_outside :
    (memory : ℕ → ℕ) (off width value i : ℕ)
    → (i < off) ⊎ (off + width ≤ i)
    → write_le memory off width value i ≡ memory i
unfolding write_le
write_le_outside memory off zero value i h = refl
write_le_outside memory off (suc width) value i h =
    ground
      (arith, write_le_outside (update memory off (value % 256)) (off + 1) width (value / 256) i)

-- The lowest byte of a number, and those above it.
mod_split : (v p : ℕ) → v % 256 + 256 * (v / 256 % p) ≡ v % (256 * p)
mod_split v p =
    let same : v / (256 * p) ≡ v / 256 / p = sym (div-div-eq-div-mul v 256 p) in
    let whole : v % (256 * p) ≡ v - v / 256 / p * (256 * p) =
      rw (mod-eq-sub-div-mul v (256 * p), same) in
    rw whole (omega (arith, div-add-mod (v / 256) p))

pub read_le-write_le :
    (memory : ℕ → ℕ) (off width value : ℕ)
    → read_le (write_le memory off width value) off width ≡ value % 256 ^ width
unfolding read_le write_le
read_le-write_le memory off zero value = omega arith
read_le-write_le memory off (suc width) value =
    let later = update memory off (value % 256) in
    let low = write_le_outside later (off + 1) width (value / 256) off (inl (omega arith)) in
    let high = read_le-write_le later (off + 1) width (value / 256) in
    let first : later off ≡ value % 256 = update_self memory off (value % 256) in
    rw (low, first, high, pow-succ') (mod_split value (256 ^ width))

-- The C test passes for RAM that is inside of the buffer.
valid-IsRamAt :
    (addr width : ℕ) (s : Machine)
    → s.memory_size < 2 ^ 32
    → IsRamAt addr width s
    → valid_memory_access addr width s ≡ true
unfolding valid_memory_access
valid-IsRamAt addr width s small h = ground arith

ram_write_lem :
    (addr width value : ℕ) (s : Machine)
    → s.memory_size < 2 ^ 32
    → IsRamAt addr width s
    → ram_write addr width value s
      ≡ some (record s { memory = write_le s.memory (addr - s.memory_base) width value })
unfolding ram_write poke
ram_write_lem addr width value s small h =
    rw (valid-IsRamAt addr width s small h, le→leb _ _ h.inside)

ram_read_lem :
    (addr width : ℕ) (s : Machine)
    → s.memory_size < 2 ^ 32
    → IsRamAt addr width s
    → ram_read addr width s ≡ some (read_le s.memory (addr - s.memory_base) width, s)
unfolding ram_read peek
ram_read_lem addr width s small h = rw (valid-IsRamAt addr width s small h, le→leb _ _ h.inside)

module _ (dpi_mmio_read : Bus) (addr : ℕ) (s : Machine) (small : s.memory_size < 2 ^ 32) where
  pub read_u32_ram :
      IsRamAt addr 4 s
      → read_u32 dpi_mmio_read addr s ≡ some (read_le s.memory (addr - s.memory_base) 4, s)
  unfolding read_u32
  read_u32_ram h = rw (h.no_htif, h.no_mmio, ram_read_lem addr 4 s small h)

  read_u16_ram :
      IsRamAt addr 2 s
      → read_u16 dpi_mmio_read addr s ≡ some (read_le s.memory (addr - s.memory_base) 2, s)
  unfolding read_u16
  read_u16_ram h = rw (h.no_htif, h.no_mmio, ram_read_lem addr 2 s small h)

  read_u8_ram :
      IsRamAt addr 1 s
      → read_u8 dpi_mmio_read addr s ≡ some (read_le s.memory (addr - s.memory_base) 1, s)
  unfolding read_u8
  read_u8_ram h = rw (h.no_htif, h.no_mmio, ram_read_lem addr 1 s small h)

  write_u32_ram :
      (value : ℕ)
      → IsRamAt addr 4 s
      → write_u32 dpi_mmio_read addr value s
        ≡ some (record s { memory = write_le s.memory (addr - s.memory_base) 4 value })
  unfolding write_u32
  write_u32_ram value h = rw (h.no_htif, h.no_mmio, ram_write_lem addr 4 value s small h)

  write_u16_ram :
      (value : ℕ)
      → IsRamAt addr 2 s
      → write_u16 dpi_mmio_read addr value s
        ≡ some (record s { memory = write_le s.memory (addr - s.memory_base) 2 value })
  unfolding write_u16
  write_u16_ram value h = rw (h.no_mmio, ram_write_lem addr 2 value s small h)

  write_u8_ram :
      (value : ℕ)
      → IsRamAt addr 1 s
      → write_u8 dpi_mmio_read addr value s
        ≡ some (record s { memory = write_le s.memory (addr - s.memory_base) 1 value })
  unfolding write_u8
  write_u8_ram value h = rw (h.no_mmio, ram_write_lem addr 1 value s small h)

-- The bytes of the buffer that an access of `width` bytes at `addr` does not touch.
abbrev pub IsElsewhere : ℕ → ℕ → Machine → ℕ → Type 0
IsElsewhere addr width s off = (off < addr - s.memory_base) ⊎ (addr - s.memory_base + width ≤ off)

-- A store of `width` bytes of `value` at `addr` and a load of as many there: both are defined, the
-- load gives the value back, and the bytes elsewhere are what they were.
abbrev pub RoundTrips :
    (ℕ → ℕ → Machine → Option Machine)
    → (ℕ → Machine → Option (ℕ × Machine))
    → ℕ
    → ℕ
    → ℕ
    → Machine
    → Type 0
RoundTrips write read addr width value s =
    (t : Machine) × (write addr value s ≡ some t)
    × (read addr t ≡ some (value, t))
    × ((off : ℕ) → IsElsewhere addr width s off → t.memory off ≡ s.memory off)

module _ (dpi_mmio_read : Bus) (addr value : ℕ) (s : Machine) (small : s.memory_size < 2 ^ 32) where
  abbrev stored : ℕ → Machine
  stored width = record s { memory = write_le s.memory (addr - s.memory_base) width value }

  again : (width : ℕ) → IsRamAt addr width s → IsRamAt addr width (stored width)
  again width h = record {
    no_htif = h.no_htif;
    no_mmio = h.no_mmio;
    above = h.above;
    inside = h.inside;
  }

  reads_back :
      (width : ℕ)
      → value < 256 ^ width
      → read_le (stored width).memory (addr - s.memory_base) width ≡ value
  reads_back width h = read_le-write_le s.memory (addr - s.memory_base) width value ∙ mod-eq_of_lt h

  -- A word that is stored to RAM, at a place that is no device register and inside of a buffer of
  -- less than 2 ^ 32 bytes, is given back by a load of as many bytes there: both are defined, the
  -- load changes nothing, and the bytes elsewhere do not change.
  pub read_u32-write_u32 :
      value < 2 ^ 32
      → IsRamAt addr 4 s
      → RoundTrips (write_u32 dpi_mmio_read) (read_u32 dpi_mmio_read) addr 4 value s
  read_u32-write_u32 fits h = (
    stored 4,
    write_u32_ram dpi_mmio_read addr s small value h,
    rw (read_u32_ram dpi_mmio_read addr (stored 4) small (again 4 h), reads_back 4 fits),
    λ off e. write_le_outside s.memory (addr - s.memory_base) 4 value off e,
  )

  -- A half word that is stored to RAM, at a place that is no device register and inside of a buffer of
  -- less than 2 ^ 32 bytes, is given back by a load of as many bytes there: both are defined, the
  -- load changes nothing, and the bytes elsewhere do not change.
  pub read_u16-write_u16 :
      value < 2 ^ 16
      → IsRamAt addr 2 s
      → RoundTrips (write_u16 dpi_mmio_read) (read_u16 dpi_mmio_read) addr 2 value s
  read_u16-write_u16 fits h = (
    stored 2,
    write_u16_ram dpi_mmio_read addr s small value h,
    rw (read_u16_ram dpi_mmio_read addr (stored 2) small (again 2 h), reads_back 2 fits),
    λ off e. write_le_outside s.memory (addr - s.memory_base) 2 value off e,
  )

  -- A byte that is stored to RAM, at a place that is no device register and inside of a buffer of
  -- less than 2 ^ 32 bytes, is given back by a load of as many bytes there: both are defined, the
  -- load changes nothing, and the bytes elsewhere do not change.
  pub read_u8-write_u8 :
      value < 2 ^ 8
      → IsRamAt addr 1 s
      → RoundTrips (write_u8 dpi_mmio_read) (read_u8 dpi_mmio_read) addr 1 value s
  read_u8-write_u8 fits h = (
    stored 1,
    write_u8_ram dpi_mmio_read addr s small value h,
    rw (read_u8_ram dpi_mmio_read addr (stored 1) small (again 1 h), reads_back 1 fits),
    λ off e. write_le_outside s.memory (addr - s.memory_base) 1 value off e,
  )
