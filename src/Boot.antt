-- ===== src/Boot.antt =====
-- `rv_init`, `rv_init_from_buffer`, `rv_reset`, `rv_set_irq` and `rv_set_ram` of
-- dpi-riscv/sim/iss/rv32_dpi.c. `malloc` is a parameter: whether it gives a buffer of a size.
pub mod Establish
pub mod Firmware
use herve.Base.{ℕ, ◌^◌, Bool, true, false, Option, none, some, List, [], ◌∷◌, zero, suc}
use herve.Base.{ltb, ◌==◌, if◌then◌else◌}
use herve.Word.{u32}
use herve.Machine.{Machine}

-- `1 << 20` where the caller asks for no size.
abbrev pub ram_bytes : ℕ → ℕ
ram_bytes ram_size = if ram_size == 0 then 2 ^ 20 else ram_size

-- The byte at an offset of a list of bytes, and 0 behind its end.
abbrev pub byte_or_zero : List ℕ → ℕ → ℕ
byte_or_zero [] off = 0
byte_or_zero (b ∷ bs) zero = b
byte_or_zero (b ∷ bs) (suc off) = byte_or_zero bs off

-- The first `size` bytes of `image` in a buffer of zeroes.
abbrev pub image_memory : ℕ → List ℕ → ℕ → ℕ
image_memory size image off = if ltb off size then byte_or_zero image off else 0

-- The state behind a failed `malloc`.
abbrev pub no_memory : Machine → Machine
no_memory s = record s { memory = λ _. 0; memory_size = 0; initialized = false }

-- The state behind the resets that follow a successful one, with the buffer's bytes.
abbrev pub fresh_memory : ℕ → (ℕ → ℕ) → Machine → Machine
fresh_memory size memory s = record s {
  memory = memory;
  memory_size = u32 size;
  memory_base = 0;
  regs = λ _. 0;
  pc = 0;
  irq_mask = 0;
  wfi_sleep = false;
  csr_mie = 0xFFFFFFFF;
  initialized = true;
}

-- `rv_set_irq`.
unfoldable pub set_irq : ℕ → Machine → Machine
set_irq mask s = record s { irq_mask = mask }

-- `rv_set_ram`: the caller's buffer, with the bytes that are in it.
unfoldable pub set_ram : (ℕ → ℕ) → ℕ → Machine → Machine
set_ram memory size s = record s {
  memory = memory;
  memory_size = u32 size;
  memory_base = 0;
  wfi_sleep = false;
  initialized = true;
}

-- `rv_reset`.
unfoldable pub reset : ℕ → Machine → Machine
reset start_pc s =
    if s.initialized
    then record s {
      regs = λ _. 0;
      pc = start_pc;
      irq_mask = 0;
      wfi_sleep = false;
      csr_mcycle = 0;
      csr_mie = 0xFFFFFFFF;
    }
    else s

module _ (malloc : ℕ → Bool) where
  -- `rv_init`; `firmware` is what the file holds, if there is a name and the file opens. `fread`
  -- takes `memory_size` bytes at most.
  unfoldable pub init : Option (List ℕ) → ℕ → Machine → Machine
  init none ram_size s =
      let size = ram_bytes ram_size in
      if malloc size then fresh_memory size (λ _. 0) s else no_memory s
  init (some image) ram_size s =
      let size = ram_bytes ram_size in
      if malloc size then fresh_memory size (image_memory (u32 size) image) s else no_memory s

  -- `rv_init_from_buffer`; an absent buffer is an empty one.
  unfoldable pub init_from_buffer : List ℕ → ℕ → Machine → Machine
  init_from_buffer image ram_size s =
      let size = ram_bytes ram_size in
      if malloc size then fresh_memory size (image_memory size image) s else no_memory s
