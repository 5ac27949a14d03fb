-- ===== src/Memory/Defined.antt =====
-- Accesses of dpi-riscv/sim/iss/rv32_dpi.c inside and outside of the memory buffer.
use herve.Base.{
  ℕ, ◌+◌, ◌-◌, ◌^◌, ◌≤◌, ◌<◌, ◌≡◌, inl, inr, Bool, true, false, arith, leb, if◌then◌else◌, Option,
  none, Bool-cases, ◌%◌, ◌≢◌, ◌==◌, ==-false, refl,
}
use herve.Machine.{Machine, Bus, Returns}
use herve.Word.{u32}
use herve.Memory.Ram.{peek, poke, valid_memory_access}
use herve.Memory.Htif.{in_ram, is_htif_address, htif_write, htif_process_request, htif_syscall}
use herve.Memory.Access.{
  is_mmio_address, ram_read, ram_write, read_u32, read_u16, read_u8, write_u32, write_u16, write_u8,
}

-- The behaviour is defined.
abbrev pub IsDefined : {A : Type 0} → Option A → Type 0
IsDefined m = Returns (λ _. Unit {0}) m

pub if-IsDefined :
    {A : Type 0} (b : Bool) (x y : Option A)
    → IsDefined x
    → IsDefined y
    → IsDefined (if b then x else y)
if-IsDefined true x y hx hy = hx
if-IsDefined false x y hx hy = hy

valid-inside :
    (addr width : ℕ) (s : Machine)
    → 4 ≤ s.memory_base
    → width ≤ 4
    → addr < 2 ^ 32
    → valid_memory_access addr width s ≡ true
    → leb (addr - s.memory_base + width) s.memory_size ≡ true
unfolding valid_memory_access
valid-inside addr width s high narrow word h = ground arith

ram_read-IsDefined :
    (addr width : ℕ) (s : Machine)
    → 4 ≤ s.memory_base
    → width ≤ 4
    → addr < 2 ^ 32
    → IsDefined (ram_read addr width s)
unfolding ram_read peek
ram_read-IsDefined addr width s high narrow word =
    elim (Bool-cases (valid_memory_access addr width s)) [
      | inl e ↦ rw (e, valid-inside addr width s high narrow word e) tt
      | inr e ↦ rw e tt
    ]

ram_write-IsDefined :
    (addr width value : ℕ) (s : Machine)
    → 4 ≤ s.memory_base
    → width ≤ 4
    → addr < 2 ^ 32
    → IsDefined (ram_write addr width value s)
unfolding ram_write poke
ram_write-IsDefined addr width value s high narrow word =
    elim (Bool-cases (valid_memory_access addr width s)) [
      | inl e ↦ rw (e, valid-inside addr width s high narrow word e) tt
      | inr e ↦ rw e tt
    ]

htif_syscall_outside :
    (off : ℕ) (s : Machine)
    → off + 24 < 2 ^ 32
    → s.memory_size < off + 28
    → htif_syscall off s ≡ none
unfolding htif_syscall peek
htif_syscall_outside off s word short =
    let second : u32 (off + 8) ≡ off + 8 = omega arith in
    let third : u32 (off + 16) ≡ off + 16 = omega arith in
    let fourth : u32 (off + 24) ≡ off + 24 = omega arith in
    let too_long : leb (off + 24 + 4) s.memory_size ≡ false = ground arith in
    elim (Bool-cases (leb (off + 4) s.memory_size)) [
      | inr e ↦ rw e refl
      | inl e ↦ elim (Bool-cases (leb (off + 8 + 4) s.memory_size)) [
        | inr f ↦ rw (second, e, f) refl
        | inl f ↦ elim (Bool-cases (leb (off + 16 + 4) s.memory_size)) [
          | inr g ↦ rw (second, third, e, f, g) refl
          | inl g ↦ rw (second, third, fourth, e, f, g, too_long) refl
        ]
      ]
    ]

module _ (dpi_mmio_read : Bus) where
  -- With the memory at address 4 or above, no load of 1, 2 or 4 bytes and no store of 1 or 2 bytes
  -- touches a byte outside of the buffer, whatever its address.
  pub access-IsDefined :
      (addr value : ℕ) (s : Machine)
      → 4 ≤ s.memory_base
      → addr < 2 ^ 32
      → IsDefined (read_u32 dpi_mmio_read addr s)
        × IsDefined (read_u16 dpi_mmio_read addr s)
        × IsDefined (read_u8 dpi_mmio_read addr s)
        × IsDefined (write_u16 dpi_mmio_read addr value s)
        × IsDefined (write_u8 dpi_mmio_read addr value s)
  unfolding read_u32 read_u16 read_u8 write_u16 write_u8
  access-IsDefined addr value s high word = (
    word_read,
    if-IsDefined htif _ _ word_read
        (if-IsDefined mmio _ _ tt (ram_read-IsDefined addr 2 s high (omega arith) word)),
    if-IsDefined htif _ _ word_read
        (if-IsDefined mmio _ _ tt (ram_read-IsDefined addr 1 s high (omega arith) word)),
    if-IsDefined mmio _ _ tt (ram_write-IsDefined addr 2 value s high (omega arith) word),
    if-IsDefined mmio _ _ tt (ram_write-IsDefined addr 1 value s high (omega arith) word),
  )
    where
      htif : Bool
      htif = is_htif_address addr

      mmio : Bool
      mmio = is_mmio_address addr

      word_read : IsDefined (read_u32 dpi_mmio_read addr s)
      word_read =
          if-IsDefined htif _ _ tt
            (if-IsDefined mmio _ _ tt (ram_read-IsDefined addr 4 s high (omega arith) word))

  -- A word store that is not to an HTIF register is defined as well.
  pub write_u32-IsDefined :
      (addr value : ℕ) (s : Machine)
      → 4 ≤ s.memory_base
      → addr < 2 ^ 32
      → is_htif_address addr ≡ false
      → IsDefined (write_u32 dpi_mmio_read addr value s)
  unfolding write_u32
  write_u32-IsDefined addr value s high word plain = rw plain (
      if-IsDefined (is_mmio_address addr) _ _ tt
        (ram_write-IsDefined addr 4 value s high (omega arith) word))

  -- With the memory below address 4, as `rv_init` places it, the bounds check of a word read wraps:
  -- the read at 4 bytes before the end of the address space, counted from the start of the memory,
  -- passes the check and leaves the buffer.
  pub read_u32_wraps :
      (s : Machine)
      → s.memory_base < 4
      → s.memory_size < 2 ^ 32
      → (valid_memory_access (2 ^ 32 - 4 + s.memory_base) 4 s ≡ true)
        × (read_u32 dpi_mmio_read (2 ^ 32 - 4 + s.memory_base) s ≡ none)
  unfolding valid_memory_access read_u32 ram_read peek is_htif_address is_mmio_address
  read_u32_wraps s low small = (ground arith, ground arith)

  -- A request structure that starts inside of the memory and does not end there: the store to
  -- `tohost` that hands it over reads behind the end of the buffer, for any even address of the
  -- structure, other than 0, in the last 27 bytes of a memory that ends below 4 GB, where the offset
  -- of the structure's last field does not wrap at 4 GB.
  pub write_u32_outside :
      (value : ℕ) (s : Machine)
      → value % 2 ≡ 0
      → value ≢ 0
      → s.memory_base ≤ value
      → value < s.memory_base + s.memory_size
      → s.memory_base + s.memory_size < value + 28
      → s.memory_base + s.memory_size < 2 ^ 32
      → value - s.memory_base + 24 < 2 ^ 32
      → write_u32 dpi_mmio_read 0x80001000 value s ≡ none
  unfolding write_u32 is_htif_address htif_write htif_process_request
  write_u32_outside value s even ne above inside short small word =
      let found : in_ram value s ≡ true = ground arith in
      let odd : (value % 2 == 1) ≡ false = ground arith in
      rw (==-false value 0 ne, odd, found)
        (htif_syscall_outside (value - s.memory_base) (record s { htif_tohost_lo = value }) word
          (omega arith))
