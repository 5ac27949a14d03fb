-- ===== src/Boot/Firmware.antt =====
-- The state in which `rv_init` of dpi-riscv/sim/iss/rv32_dpi.c leaves the simulator with a file.
use herve.Base.{
  ℕ, zero, suc, ◌+◌, ◌-◌, ◌^◌, ◌<◌, ◌≤◌, ◌≡◌, refl, Bool, true, false, ltb, lt→ltb, arith, some,
  List,
}
use herve.Word.{u32}
use herve.Word.Bits.Split.{bit_and-ones}
use herve.Step.{pending_of}
use herve.Machine.{Machine, Bus, get_reg, get_pc}
use herve.Memory.Ram.{read_le}
use herve.Memory.Htif.{is_htif_address}
use herve.Memory.Access.{is_mmio_address, read_u32}
use herve.Memory.RoundTrip.{read_u32_ram}
use herve.Boot.{
  ram_bytes, byte_or_zero, image_memory, fresh_memory, set_irq, init, init_from_buffer,
}
use herve.Boot.Establish.{init-init_from_buffer}

-- The variables of the simulator that a program changes as it runs, or that `rv_set_ram` sets.
pub record Scratch : Type 0 where
  pub regs : ℕ → ℕ
  pub pc : ℕ
  pub irq_mask : ℕ
  pub wfi_sleep : Bool
  pub csr_mie : ℕ
  pub memory : ℕ → ℕ
  pub memory_size : ℕ
  pub memory_base : ℕ
  pub initialized : Bool

-- The state with other values of these variables.
abbrev pub scribble : Scratch → Machine → Machine
scribble before s = record s {
  regs = before.regs;
  pc = before.pc;
  irq_mask = before.irq_mask;
  wfi_sleep = before.wfi_sleep;
  csr_mie = before.csr_mie;
  memory = before.memory;
  memory_size = before.memory_size;
  memory_base = before.memory_base;
  initialized = before.initialized;
}

-- The bytes of the image inside of the buffer, read as a number.
read_le-image_memory :
    (size : ℕ) (image : List ℕ) (width off : ℕ)
    → off + width ≤ size
    → read_le (image_memory size image) off width ≡ read_le (byte_or_zero image) off width
unfolding read_le
read_le-image_memory size image zero off inside = refl
read_le-image_memory size image (suc width) off inside =
    let here : ltb off size ≡ true = lt→ltb off size (omega arith) in
    rw (here, read_le-image_memory size image width (off + 1) (omega arith)) refl

module _ (dpi_mmio_read : Bus) (image : List ℕ) (addr : ℕ) (no_htif : is_htif_address addr ≡ false)
    (no_mmio : is_mmio_address addr ≡ false) where
  read_u32-fresh_memory :
      (size : ℕ) (s : Machine)
      → size < 2 ^ 32
      → addr + 4 ≤ size
      → read_u32 dpi_mmio_read addr (fresh_memory size (image_memory (u32 size) image) s)
        ≡ some (
          read_le (byte_or_zero image) addr 4,
          fresh_memory size (image_memory (u32 size) image) s,
        )
  read_u32-fresh_memory size s small inside =
      let start : addr - 0 ≡ addr = omega arith in
      let bytes : read_le (image_memory (u32 size) image) (addr - 0) 4
          ≡ read_le (byte_or_zero image) addr 4 =
        rw start (read_le-image_memory (u32 size) image 4 addr (omega arith)) in
      let found =
        read_u32_ram dpi_mmio_read addr (fresh_memory size (image_memory (u32 size) image) s)
          (omega arith)
          (record {
            no_htif = no_htif;
            no_mmio = no_mmio;
            above = omega arith;
            inside = omega arith;
          }) in
      rw (found, bytes) refl

  -- With a file, where `malloc` gives a memory of less than 4 GB, `rv_init` leads to the same state as
  -- `rv_init_from_buffer` with the content of the file, and forgets the registers, the program counter,
  -- the interrupt requests, the sleep flag, `mie` and the memory of before. Each register and the
  -- program counter read as 0, the simulator is awake, no request is pending, and each request that
  -- `rv_set_irq` then makes, as a mask of 32 bits, is pending. A word that is loaded from an address
  -- inside of the memory that is no device and no HTIF register consists of the four bytes of the file
  -- at that address, with 0 for each byte behind the file's end. The load changes nothing.
  pub read_u32-init :
      (malloc : ℕ → Bool) (ram_size reg mask : ℕ) (before : Scratch) (s : Machine)
      → ram_size < 2 ^ 32
      → mask < 2 ^ 32
      → malloc (ram_bytes ram_size) ≡ true
      → addr + 4 ≤ ram_bytes ram_size
      → (init malloc (some image) ram_size s ≡ init_from_buffer malloc image ram_size s)
        × (init malloc (some image) ram_size (scribble before s)
            ≡ init malloc (some image) ram_size s)
        × (get_reg reg (init malloc (some image) ram_size s) ≡ 0)
        × (get_pc (init malloc (some image) ram_size s) ≡ 0)
        × ((init malloc (some image) ram_size s).wfi_sleep ≡ false)
        × (pending_of (init malloc (some image) ram_size s) ≡ 0)
        × (pending_of (set_irq mask (init malloc (some image) ram_size s)) ≡ mask)
        × (read_u32 dpi_mmio_read addr (init malloc (some image) ram_size s)
            ≡ some (read_le (byte_or_zero image) addr 4, init malloc (some image) ram_size s))
  unfolding init get_reg get_pc set_irq
  read_u32-init malloc ram_size reg mask before s small word enough inside = (
    init-init_from_buffer malloc image ram_size s small,
    rw enough refl,
    rw enough (ground arith),
    rw enough refl,
    rw enough refl,
    rw enough refl,
    rw enough (bit_and-ones 32 mask word),
    rw enough (read_u32-fresh_memory (ram_bytes ram_size) s (ground arith) inside),
  )
