-- ===== src/Tests/Devices.antt =====
-- The theorems on device registers, applied to concrete words.
use herve.Base.{◌+◌, ◌≡◌, refl, arith, some, if◌then◌else◌, ◌==◌, ◌∷◌, []}
use herve.Machine.{Machine, bus_write}
use herve.Memory.Access.{write_u8}
use herve.Vpi.Registers.{registers_after, registers_write, vpi_bus}
use herve.Vpi.Systf.{calltf_read_mmio}
use herve.Vpi.RoundTrip.{register_address}
use herve.Vpi.Lanes.{with_byte, write_u8_register}
use herve.Tests.{booted}

-- Register 5 holds 0x11223344.
abbrev with_register : Machine
with_register = record (booted 0) { bus = bus_write 0x10000014 0x11223344 ∷ [] }

register_word : registers_after with_register.bus 5 ≡ 0x11223344
unfolding registers_after registers_write
register_word = refl

write_u8_register_example :
    (t : Machine) × (write_u8 vpi_bus (register_address 5 + 2) 0x99 with_register ≡ some t)
    × (calltf_read_mmio (some 5) t ≡ (
        if 5 == 5
        then with_byte (calltf_read_mmio (some 5) with_register) 2 0x99
        else calltf_read_mmio (some 5) with_register))
write_u8_register_example =
    write_u8_register 5 5 2 0x99 with_register (omega arith) (omega arith) (omega arith)
      (omega arith) (omega (arith, register_word))
