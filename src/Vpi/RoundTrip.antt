-- ===== src/Vpi/RoundTrip.antt =====
-- Device registers seen from both sides: the simulated program's accesses and the test bench of
-- dpi-riscv/sim/vpi/rv32_dpi_vpi.c.
use herve.Base.{
  ℕ, ◌+◌, ◌-◌, ◌*◌, ◌/◌, ◌^◌, ◌<◌, ◌≡◌, refl, arith, true, false, ◌&&◌, ◌==◌, leb, ltb,
  if◌then◌else◌, some, ◌∷◌, update, lt→ltb,
}
use herve.Word.{u32}
use herve.Machine.WellFormed.{update-lt}
use herve.Machine.{Machine, bus_read, bus_write}
use herve.Memory.Htif.{is_htif_address}
use herve.Memory.Access.{mmio_base, is_mmio_address, mmio_read, mmio_write, read_u32, write_u32}
use herve.Vpi.Registers.{registers_read, registers_write, registers_after, vpi_bus}
use herve.Vpi.Systf.{calltf_read_mmio}

-- The address of register `i`.
abbrev pub register_address : ℕ → ℕ
register_address i = mmio_base + 4 * i

no_htif : (i : ℕ) → i < 64 → is_htif_address (register_address i) ≡ false
unfolding is_htif_address
no_htif i h = ground arith

mmio : (i : ℕ) → i < 64 → is_mmio_address (register_address i) ≡ true
unfolding is_mmio_address
mmio i h = ground arith

pub registers_read_lem :
    (regs : ℕ → ℕ) (i : ℕ) → i < 64 → registers_read regs (register_address i) ≡ regs i
unfolding registers_read
registers_read_lem regs i h =
    let index : (mmio_base + 4 * i - mmio_base) / 4 ≡ i = omega arith in
    let inside : (leb mmio_base (mmio_base + 4 * i) && ltb (mmio_base + 4 * i) (mmio_base + 0x100))
        ≡ true =
      ground arith in
    rw (inside, index, lt→ltb i 64 h) refl

pub registers_write_lem :
    (regs : ℕ → ℕ) (i value : ℕ)
    → i < 64
    → registers_write (register_address i) value regs ≡ update regs i value
unfolding registers_write
registers_write_lem regs i value h =
    let index : (mmio_base + 4 * i - mmio_base) / 4 ≡ i = omega arith in
    let inside : (leb mmio_base (mmio_base + 4 * i) && ltb (mmio_base + 4 * i) (mmio_base + 0x100))
        ≡ true =
      ground arith in
    rw (inside, index, lt→ltb i 64 h) refl

-- A word that the simulated program stores in one of the 64 registers is what `$vpi_read_mmio` shows
-- there and what the program loads back, the other registers keep their words, and the program loads
-- them as `$vpi_read_mmio` shows them.
pub read_u32-write_u32_register :
    (i j value : ℕ) (s : Machine)
    → i < 64
    → j < 64
    → value < 2 ^ 32
    → registers_after s.bus j < 2 ^ 32
    → (t : Machine) × (write_u32 vpi_bus (register_address i) value s ≡ some t)
      × (calltf_read_mmio (some j) t ≡ (if i == j then value else calltf_read_mmio (some j) s))
      × ((u : Machine) × (read_u32 vpi_bus (register_address j) t
            ≡ some (calltf_read_mmio (some j) t, u))
          × (calltf_read_mmio (some j) u ≡ calltf_read_mmio (some j) t))
unfolding write_u32 read_u32 mmio_write mmio_read calltf_read_mmio registers_after vpi_bus
read_u32-write_u32_register i j value s hi hj word ok =
    let t : Machine = record s { bus = bus_write (register_address i) value ∷ s.bus } in
    let u : Machine = record t { bus = bus_read (register_address j) (updated j) ∷ t.bus } in
    let written = registers_write_lem (registers_after s.bus) i value hi in
    let index = lt→ltb j 64 hj in
    let cut : u32 (updated j) ≡ updated j =
      (let lt = update-lt (registers_after s.bus) i value (2 ^ 32) j ok word in omega arith) in
    (
      t,
      rw (no_htif i hi, mmio i hi) refl,
      rw (written, index) refl,
      (u, rw (no_htif j hj, mmio j hj, registers_read_lem _ j hj, written, index, cut) refl, refl),
    )
  where
    updated : ℕ → ℕ
    updated = update (registers_after s.bus) i value
