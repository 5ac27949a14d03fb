-- ===== src/Memory/Ram.antt =====
-- The memory buffer: `valid_memory_access` and the `memcpy` of 1, 2 or 4 bytes between it and a
-- word, on a little-endian host. A byte outside of the buffer is undefined behaviour: `none`.
use herve.Base.{
  ℕ, zero, suc, ◌+◌, ◌-◌, ◌*◌, ◌/◌, ◌%◌, Bool, ◌&&◌, Option, none, some, leb, if◌then◌else◌, update,
}
use herve.Word.{u32}
use herve.Machine.{Machine}

unfoldable pub valid_memory_access : ℕ → ℕ → Machine → Bool
valid_memory_access addr width s =
    leb s.memory_base addr && leb (u32 (addr - s.memory_base + width)) s.memory_size

-- `width` bytes from offset `off` on, as a number, the lowest byte first.
unfoldable pub read_le : (ℕ → ℕ) → ℕ → ℕ → ℕ
read_le memory off zero = 0
read_le memory off (suc width) = memory off + 256 * read_le memory (off + 1) width

unfoldable pub write_le : (ℕ → ℕ) → ℕ → ℕ → ℕ → ℕ → ℕ
write_le memory off zero value = memory
write_le memory off (suc width) value =
    write_le (update memory off (value % 256)) (off + 1) width (value / 256)

-- `memcpy(&value, &memory[off], width)`.
unfoldable pub peek : ℕ → ℕ → Machine → Option ℕ
peek off width s =
    if leb (off + width) s.memory_size then some (read_le s.memory off width) else none

-- `memcpy(&memory[off], &value, width)`.
unfoldable pub poke : ℕ → ℕ → ℕ → Machine → Option Machine
poke off width value s =
    if leb (off + width) s.memory_size
    then some (record s { memory = write_le s.memory off width value })
    else none
