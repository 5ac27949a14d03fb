-- ===== src/Vpi/Systf.antt =====
-- The system functions of dpi-riscv/sim/vpi/rv32_dpi_vpi.c. The VPI library hands over the arguments,
-- `none` where there are none; an `int` is its bit pattern. A result is what `set_int_return` gets.
use herve.Base.{ℕ, ◌^◌, Bool, ◌||◌, ◌==◌, leb, ltb, if◌then◌else◌, Option, none, some, List}
use herve.Machine.{Machine, get_reg, get_pc}
use herve.Boot.{init, reset}
use herve.Step.{step}
use herve.Vpi.Registers.{mmio_regs_count, registers_after, vpi_bus}

-- `ram_size <= 0` on the bit pattern of an `int`.
abbrev pub not_positive : ℕ → Bool
not_positive n = n == 0 || leb (2 ^ 31) n

-- `calltf_rv_init`, with the content of the file that the first argument names, if there is one.
unfoldable pub calltf_init : (ℕ → Bool) → Option (Option (List ℕ) × ℕ) → Machine → Machine
calltf_init malloc none s = s
calltf_init malloc (some (firmware, ram_size)) s =
    init malloc firmware (if not_positive ram_size then 2 ^ 20 else ram_size) s

-- `calltf_rv_reset`.
unfoldable pub calltf_reset : Option ℕ → Machine → Machine
calltf_reset none s = s
calltf_reset (some pc) s = reset pc s

-- `calltf_rv_step`, with the registers as the test bench; a negative bound does what the bound 0 does.
unfoldable pub calltf_step : Option ℕ → Machine → Option (ℕ × Machine)
calltf_step none s = some (0, s)
calltf_step (some max_insn) s = step vpi_bus (if leb (2 ^ 31) max_insn then 0 else max_insn) s

-- `calltf_rv_get_reg` and `calltf_rv_get_pc`.
unfoldable pub calltf_get_reg : Option ℕ → Machine → ℕ
calltf_get_reg none s = 0
calltf_get_reg (some reg) s = get_reg reg s

unfoldable pub calltf_get_pc : Machine → ℕ
calltf_get_pc s = get_pc s

-- `calltf_vpi_read_mmio`.
unfoldable pub calltf_read_mmio : Option ℕ → Machine → ℕ
calltf_read_mmio none s = 0
calltf_read_mmio (some idx) s = if ltb idx mmio_regs_count then registers_after s.bus idx else 0
