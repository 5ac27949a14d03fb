-- ===== src/Vpi/Lanes.antt =====
-- A byte that is stored in a device register of dpi-riscv/sim/vpi/rv32_dpi_vpi.c, through the reading
-- and writing of the whole word by `write_u8` of dpi-riscv/sim/iss/rv32_dpi.c.
use herve.Base.{
  ℕ, zero, suc, ◌+◌, ◌-◌, ◌*◌, ◌/◌, ◌%◌, ◌^◌, ◌<◌, ◌≡◌, refl, arith, true, ◌==◌, if◌then◌else◌,
  some, ◌∷◌, lt→ltb, bit_and, bit_or,
}
use herve.Word.{u32}
use herve.Word.Bits.{bit_or-high_low, bit_or-zero}
use herve.Word.Bits.Split.{bit_and-split, bit_or-split, bit_and-ones, bit_and-none}
use herve.Machine.{Machine, bus_read, bus_write}
use herve.Memory.Access.{
  is_mmio_address, mmio_read, mmio_write, merge, word_base, byte_shift, write_u8,
}
use herve.Vpi.Registers.{registers_after, vpi_bus}
use herve.Vpi.Systf.{calltf_read_mmio}
use herve.Vpi.RoundTrip.{register_address, registers_read_lem, registers_write_lem}

-- Eight bits `o` between `s` lower ones and `r` upper ones are cleared and set to `value`.
lane_lem :
    (s r x o h value : ℕ)
    → x < 2 ^ s
    → o < 2 ^ 8
    → h < 2 ^ r
    → value < 2 ^ 8
    → bit_or
        (bit_and (x + (o + h * 2 ^ 8) * 2 ^ s) (2 ^ s - 1 + (0 + (2 ^ r - 1) * 2 ^ 8) * 2 ^ s))
        (0 + value * 2 ^ s)
      ≡ x + (h * 2 ^ 8 + value) * 2 ^ s
lane_lem s r x o h value hx ho hh hv =
    let power : 0 < 2 ^ s = omega arith in
    let outer =
      bit_and-split s x (2 ^ s - 1) (o + h * 2 ^ 8) (0 + (2 ^ r - 1) * 2 ^ 8) hx (omega arith) in
    let inner = bit_and-split 8 o 0 h (2 ^ r - 1) ho (omega arith) in
    let cleared : 0 + h * 2 ^ 8 ≡ h * 2 ^ 8 = omega arith in
    let set = bit_or-split s x 0 (h * 2 ^ 8) value hx (omega arith) in
    rw
      (
        outer,
        inner,
        bit_and-ones s x hx,
        bit_and-none 8 o ho,
        bit_and-ones r h hh,
        cleared,
        set,
        bit_or-zero x,
        bit_or-high_low 8 value h hv,
      )
      refl

lane_at :
    (s r x o h value old mask shifted : ℕ)
    → old ≡ x + (o + h * 2 ^ 8) * 2 ^ s
    → mask ≡ 2 ^ s - 1 + (0 + (2 ^ r - 1) * 2 ^ 8) * 2 ^ s
    → shifted ≡ 0 + value * 2 ^ s
    → x < 2 ^ s
    → o < 2 ^ 8
    → h < 2 ^ r
    → value < 2 ^ 8
    → bit_or (bit_and old mask) shifted ≡ x + (h * 2 ^ 8 + value) * 2 ^ s
lane_at s r x o h value old mask shifted p q e hx ho hh hv =
    rw (p, q, e) (lane_lem s r x o h value hx ho hh hv)

-- The word that `write_u8` stores, for the four places of a byte in it.
merge_lane :
    (l old value : ℕ)
    → l < 4
    → old < 2 ^ 32
    → value < 256
    → merge old 0xff value (l * 8)
      ≡ old % 2 ^ (l * 8) + (old / 2 ^ (l * 8 + 8) * 2 ^ 8 + value) * 2 ^ (l * 8)
unfolding merge
merge_lane zero old value hl word byte =
    lane_at 0 24 (old % 1) (old % 2 ^ 8) (old / 2 ^ 8) value old _ (value * 1 % 2 ^ 32)
      (omega arith) refl (omega arith) (omega arith) (omega arith) (omega arith) byte
merge_lane (suc zero) old value hl word byte =
    lane_at 8 16 (old % 2 ^ 8) (old / 2 ^ 8 % 2 ^ 8) (old / 2 ^ 16) value old _
      (value * 2 ^ 8 % 2 ^ 32) (omega arith) refl (omega arith) (omega arith) (omega arith)
      (omega arith) byte
merge_lane (suc (suc zero)) old value hl word byte =
    lane_at 16 8 (old % 2 ^ 16) (old / 2 ^ 16 % 2 ^ 8) (old / 2 ^ 24) value old _
      (value * 2 ^ 16 % 2 ^ 32) (omega arith) refl (omega arith) (omega arith) (omega arith)
      (omega arith) byte
merge_lane (suc (suc (suc zero))) old value hl word byte =
    lane_at 24 0 (old % 2 ^ 24) (old / 2 ^ 24) (old / 2 ^ 32) value old _ (value * 2 ^ 24 % 2 ^ 32)
      (omega arith) refl (omega arith) (omega arith) (omega arith) (omega arith) byte
merge_lane (suc (suc (suc (suc l)))) old value hl word byte = absurd (omega arith)

-- The word `old` with the byte at place `l` set to `value`.
abbrev pub with_byte : ℕ → ℕ → ℕ → ℕ
with_byte old l value = old % 2 ^ (l * 8) + (old / 2 ^ (l * 8 + 8) * 2 ^ 8 + value) * 2 ^ (l * 8)

mmio_byte : (i l : ℕ) → i < 64 → l < 4 → is_mmio_address (register_address i + l) ≡ true
unfolding is_mmio_address
mmio_byte i l h k = ground arith

-- A byte that the simulated program stores in one of the 64 registers takes its place in the word that
-- `$vpi_read_mmio` shows there; the bits below and above that place stay as they are, and so do the
-- other registers.
pub write_u8_register :
    (i j l value : ℕ) (s : Machine)
    → i < 64
    → j < 64
    → l < 4
    → value < 256
    → registers_after s.bus i < 2 ^ 32
    → (t : Machine) × (write_u8 vpi_bus (register_address i + l) value s ≡ some t)
      × (calltf_read_mmio (some j) t ≡ (
          if i == j
          then with_byte (calltf_read_mmio (some i) s) l value
          else calltf_read_mmio (some j) s))
unfolding write_u8 mmio_write mmio_read calltf_read_mmio registers_after vpi_bus
write_u8_register i j l value s hi hj hl byte word =
    let old = registers_after s.bus i in
    let base : word_base (register_address i + l) ≡ register_address i = omega arith in
    let shift : byte_shift (register_address i + l) ≡ l * 8 = omega arith in
    let cut : u32 old ≡ old = omega arith in
    (
      record s {
        bus =
            bus_write (register_address i) (with_byte old l value)
            ∷ bus_read (register_address i) old
            ∷ s.bus;
      },
      rw
          (
            mmio_byte i l hi hl,
            base,
            shift,
            registers_read_lem (registers_after s.bus) i hi,
            cut,
            merge_lane l old value hl word byte,
          )
          refl,
      rw
          (
            registers_write_lem (registers_after s.bus) i (with_byte old l value) hi,
            lt→ltb j 64 hj,
            lt→ltb i 64 hi,
          )
          refl,
    )
