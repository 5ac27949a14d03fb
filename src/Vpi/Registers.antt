-- ===== src/Vpi/Registers.antt =====
-- The register file `mmio_regs` of dpi-riscv/sim/vpi/rv32_dpi_vpi.c, with the functions
-- `dpi_mmio_read` and `dpi_mmio_write` that the simulator calls.
use herve.Base.{ℕ, ◌+◌, ◌-◌, ◌/◌, Bool, ◌&&◌, List, [], ◌∷◌, leb, ltb, if◌then◌else◌, update}
use herve.Memory.Access.{mmio_base}
use herve.Machine.{BusEvent, bus_read, bus_write, Bus}

-- `MMIO_REGS`.
abbrev pub mmio_regs_count : ℕ
mmio_regs_count = 64

-- `addr >= MMIO_BASE && addr < MMIO_BASE + 0x100u`, and `(addr - MMIO_BASE) / 4`.
abbrev pub in_registers : ℕ → Bool
in_registers addr = leb mmio_base addr && ltb addr (mmio_base + 0x100)

abbrev pub register_index : ℕ → ℕ
register_index addr = (addr - mmio_base) / 4

-- `dpi_mmio_read`.
unfoldable pub registers_read : (ℕ → ℕ) → ℕ → ℕ
registers_read mmio_regs addr =
    if in_registers addr
    then (if ltb (register_index addr) mmio_regs_count then mmio_regs (register_index addr) else 0)
    else 0

-- `dpi_mmio_write`.
unfoldable pub registers_write : ℕ → ℕ → (ℕ → ℕ) → ℕ → ℕ
registers_write addr value mmio_regs =
    if in_registers addr
    then (if ltb (register_index addr) mmio_regs_count
        then update mmio_regs (register_index addr) value
        else mmio_regs)
    else mmio_regs

-- The registers after the simulator's calls, the latest first; they start as zeroes.
unfoldable pub registers_after : List BusEvent → ℕ → ℕ
registers_after [] = λ _. 0
registers_after (bus_read addr value ∷ before) = registers_after before
registers_after (bus_write addr value ∷ before) =
    registers_write addr value (registers_after before)

-- This test bench, as the simulator sees it.
unfoldable pub vpi_bus : Bus
vpi_bus events addr = registers_read (registers_after events) addr
