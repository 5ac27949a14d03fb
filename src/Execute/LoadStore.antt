-- ===== src/Execute/LoadStore.antt =====
-- `case 0x03` and `case 0x23` of `execute_instruction` in dpi-riscv/sim/iss/rv32_dpi.c.
use herve.Base.{ℕ, Option, some, ◌==◌, if◌then◌else◌}
use herve.Word.{u8, u16, add32, sign_extend}
use herve.Machine.{Machine, Bus, write_reg, ◌>>=◌}
use herve.Memory.Access.{read_u8, read_u16, read_u32, write_u8, write_u16, write_u32}
use herve.Execute.Decode.{rd_of, funct3_of, src1_of, src2_of, imm_i, imm_s}

module _ (dpi_mmio_read : Bus) where
  -- The `switch (funct3)` that loads.
  unfoldable pub load_value : ℕ → ℕ → Machine → Option (ℕ × Machine)
  load_value funct3 addr s =
      if funct3 == 0
      then (do (byte, s') ← read_u8 dpi_mmio_read addr s; some (sign_extend byte 8, s'))
      else if funct3 == 1
      then (do (half, s') ← read_u16 dpi_mmio_read addr s; some (sign_extend half 16, s'))
      else if funct3 == 2
      then read_u32 dpi_mmio_read addr s
      else if funct3 == 4
      then read_u8 dpi_mmio_read addr s
      else if funct3 == 5
      then read_u16 dpi_mmio_read addr s
      else some (0, s)

  unfoldable pub exec_load : ℕ → Machine → Option Machine
  exec_load insn s = do
    (value, s') ← load_value (funct3_of insn) (add32 (src1_of insn s) (imm_i insn)) s
    some (write_reg (rd_of insn) value s')

  -- The `switch (funct3)` that stores.
  unfoldable pub store_value : ℕ → ℕ → ℕ → Machine → Option Machine
  store_value funct3 addr value s =
      if funct3 == 0
      then write_u8 dpi_mmio_read addr (u8 value) s
      else if funct3 == 1
      then write_u16 dpi_mmio_read addr (u16 value) s
      else if funct3 == 2
      then write_u32 dpi_mmio_read addr value s
      else some s

  unfoldable pub exec_store : ℕ → Machine → Option Machine
  exec_store insn s =
      store_value (funct3_of insn) (add32 (src1_of insn s) (imm_s insn)) (src2_of insn s) s
