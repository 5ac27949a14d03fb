-- ===== src/Modelsim.antt =====
-- dpi-riscv/sim/modelsim/rv32_dpi_mti.c: what a test bench in ModelSim calls besides the simulator's own
-- functions. `rv_get_ram()` is null where the simulator is not initialised. An access outside of the
-- buffer is undefined behaviour.
use herve.Base.{
  ℕ, ◌+◌, ◌*◌, ◌<◌, ◌≤◌, ◌≡◌, arith, true, false, Option, none, some, if◌then◌else◌, ◌^◌,
}
use herve.Word.Int.{ℤ, pos, negsuc, to_u32}
use herve.Machine.{Machine, Bus}
use herve.Boot.{set_irq}
use herve.Memory.Ram.{poke, valid_memory_access}
use herve.Memory.Access.{ram_write, write_u32, is_mmio_address}
use herve.Memory.Htif.{is_htif_address}

-- `ram[word_offset] = (uint32_t)value`.
unfoldable pub write_word : ℤ → ℤ → Machine → Option Machine
write_word (pos word_offset) value s = poke (4 * word_offset) 4 (to_u32 value) s
write_word (negsuc below) value s = none

-- `rv_mti_write_ram`.
unfoldable pub mti_write_ram : ℤ → ℤ → Machine → Option Machine
mti_write_ram word_offset value s = if s.initialized then write_word word_offset value s else some s

-- `rv_mti_set_irq`.
unfoldable pub mti_set_irq : ℤ → Machine → Machine
mti_set_irq mask s = set_irq (to_u32 mask) s

-- In an initialised simulator whose memory ends below 4 GB, for a word that lies in the memory and whose
-- address is no device register and no HTIF register, `rv_mti_write_ram` does what a store of the word by
-- the program does, with any bus.
pub mti_write_ram-write_u32 :
    (bus : Bus) (word_offset : ℕ) (value : ℤ) (s : Machine)
    → s.initialized ≡ true
    → s.memory_base + s.memory_size < 2 ^ 32
    → 4 * word_offset + 4 ≤ s.memory_size
    → is_htif_address (s.memory_base + 4 * word_offset) ≡ false
    → is_mmio_address (s.memory_base + 4 * word_offset) ≡ false
    → mti_write_ram (pos word_offset) value s
      ≡ write_u32 bus (s.memory_base + 4 * word_offset) (to_u32 value) s
unfolding mti_write_ram write_word write_u32 ram_write valid_memory_access poke
mti_write_ram-write_u32 bus word_offset value s ready small inside no_htif no_mmio = ground arith
