-- ===== src/Memory/Access.antt =====
-- `read_u32`, `read_u16`, `read_u8`, `write_u32`, `write_u16` and `write_u8` of
-- dpi-riscv/sim/iss/rv32_dpi.c.
use herve.Base.{
  ℕ, ◌+◌, ◌-◌, ◌*◌, ◌%◌, Bool, ◌&&◌, Option, some, ◌∷◌, leb, ltb, if◌then◌else◌, bit_and, bit_or,
}
use herve.Word.{u32, shl32, shr32, not32, field}
use herve.Machine.{Machine, Bus, bus_read, bus_write, ◌>>=◌}
use herve.Memory.Ram.{valid_memory_access, peek, poke}
use herve.Memory.Htif.{is_htif_address, htif_read, htif_write}

-- `MMIO_BASE` and `MMIO_SIZE`.
abbrev pub mmio_base : ℕ
mmio_base = 0x10000000

abbrev pub mmio_size : ℕ
mmio_size = 0x00100000

unfoldable pub is_mmio_address : ℕ → Bool
is_mmio_address addr = leb mmio_base addr && ltb addr (mmio_base + mmio_size)

-- The call of `dpi_mmio_write`.
unfoldable pub mmio_write : ℕ → ℕ → Machine → Machine
mmio_write addr value s = record s { bus = bus_write addr value ∷ s.bus }

-- `addr & ~0x3u`, and the number of bits in front of the bytes at `addr` in that word.
abbrev pub word_base : ℕ → ℕ
word_base addr = addr - addr % 4

abbrev pub half_shift : ℕ → ℕ
half_shift addr = field addr 1 1 * 2 * 8

abbrev pub byte_shift : ℕ → ℕ
byte_shift addr = addr % 4 * 8

-- `(old & ~(mask << shift)) | (value << shift)`.
unfoldable pub merge : ℕ → ℕ → ℕ → ℕ → ℕ
merge old mask value shift = bit_or (bit_and old (not32 (shl32 mask shift))) (shl32 value shift)

-- The RAM part of each read: 0 where the access is not valid.
unfoldable pub ram_read : ℕ → ℕ → Machine → Option (ℕ × Machine)
ram_read addr width s =
    if valid_memory_access addr width s
    then (do value ← peek (addr - s.memory_base) width s; some (value, s))
    else some (0, s)

-- The RAM part of each write: nothing where the access is not valid.
unfoldable pub ram_write : ℕ → ℕ → ℕ → Machine → Option Machine
ram_write addr width value s =
    if valid_memory_access addr width s then poke (addr - s.memory_base) width value s else some s

module _ (dpi_mmio_read : Bus) where
  -- The call of `dpi_mmio_read`.
  unfoldable pub mmio_read : ℕ → Machine → ℕ × Machine
  mmio_read addr s =
      let value = u32 (dpi_mmio_read s.bus addr) in
      (value, record s { bus = bus_read addr value ∷ s.bus })

  unfoldable pub read_u32 : ℕ → Machine → Option (ℕ × Machine)
  read_u32 addr s =
      if is_htif_address addr
      then some (htif_read addr s, s)
      else if is_mmio_address addr
      then some (mmio_read addr s)
      else ram_read addr 4 s

  unfoldable pub read_u16 : ℕ → Machine → Option (ℕ × Machine)
  read_u16 addr s =
      if is_htif_address addr
      then read_u32 addr s
      else if is_mmio_address addr
      then (let (word, s') = mmio_read (word_base addr) s in
          some (shr32 word (half_shift addr), s'))
      else ram_read addr 2 s

  unfoldable pub read_u8 : ℕ → Machine → Option (ℕ × Machine)
  read_u8 addr s =
      if is_htif_address addr
      then read_u32 addr s
      else if is_mmio_address addr
      then (let (word, s') = mmio_read (word_base addr) s in
          some (shr32 word (byte_shift addr), s'))
      else ram_read addr 1 s

  unfoldable pub write_u32 : ℕ → ℕ → Machine → Option Machine
  write_u32 addr value s =
      if is_htif_address addr
      then htif_write addr value s
      else if is_mmio_address addr
      then some (mmio_write addr value s)
      else ram_write addr 4 value s

  unfoldable pub write_u16 : ℕ → ℕ → Machine → Option Machine
  write_u16 addr value s =
      if is_mmio_address addr
      then (let (old, s') = mmio_read (word_base addr) s in
          some (mmio_write (word_base addr) (merge old 0xffff value (half_shift addr)) s'))
      else ram_write addr 2 value s

  unfoldable pub write_u8 : ℕ → ℕ → Machine → Option Machine
  write_u8 addr value s =
      if is_mmio_address addr
      then (let (old, s') = mmio_read (word_base addr) s in
          some (mmio_write (word_base addr) (merge old 0xff value (byte_shift addr)) s'))
      else ram_write addr 1 value s
