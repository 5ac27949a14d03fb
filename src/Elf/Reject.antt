-- ===== src/Elf/Reject.antt =====
-- What `rv_load_elf` and `rv_init_elf` of dpi-riscv/sim/iss/rv32_dpi.c refuse.
use herve.Base.{
  ℕ, ◌≤◌, ◌<◌, ◌≡◌, ◌↔◌, refl, arith, Bool, true, false, ltb, none, some, Bool-cases, inl, inr,
}
use herve.Memory.Ram.{read_le}
use herve.Machine.{Machine}
use herve.Elf.Header.{Image, elf_header, is_riscv_elf}
use herve.Elf.Buffer.{load_elf}
use herve.Elf.File.{init_elf}

-- Each offset of the image has a byte.
abbrev pub IsByteImage : Image → Type 0
IsByteImage image = (i : ℕ) → image.bytes i < 256

-- The header of a 32-bit little-endian ELF file for RISC-V, as bytes.
pub record IsRiscvElf (image : Image) : Type 0 where
  pub header : 52 ≤ image.size
  pub magic_0 : image.bytes 0 ≡ 0x7F
  pub magic_1 : image.bytes 1 ≡ 0x45
  pub magic_2 : image.bytes 2 ≡ 0x4C
  pub magic_3 : image.bytes 3 ≡ 0x46
  pub class : image.bytes 4 ≡ 1
  pub order : image.bytes 5 ≡ 1
  pub machine_lo : image.bytes 18 ≡ 0xF3
  pub machine_hi : image.bytes 19 ≡ 0

-- The tests of both loaders pass exactly for such a header.
pub is_riscv_elf_iff :
    (image : Image)
    → IsByteImage image
    → 52 ≤ image.size
    → (is_riscv_elf (elf_header image.bytes) ≡ true) ↔ IsRiscvElf image
unfolding is_riscv_elf read_le
is_riscv_elf_iff image bytes size = (
  λ h. record {
    header = size;
    magic_0 = ground arith;
    magic_1 = ground arith;
    magic_2 = ground arith;
    magic_3 = ground arith;
    class = ground arith;
    order = ground arith;
    machine_lo = let lo = bytes 18 in ground arith;
    machine_hi = let lo = bytes 18 in ground arith;
  },
  λ h.
      rw (h.magic_0, h.magic_1, h.magic_2, h.magic_3, h.class, h.order, h.machine_lo, h.machine_hi)
        refl,
)

module _ (malloc fseek : ℕ → Bool) where
  -- A file or a buffer of bytes that is absent, or has not the header of a 32-bit little-endian ELF
  -- file for RISC-V, is refused by both loaders: they return 0 and the state stays as it is.
  pub load_elf_refused :
      (image : Image) (ram_size : ℕ) (s : Machine)
      → IsByteImage image
      → ¬ IsRiscvElf image
      → (load_elf none s ≡ some (0, s))
        × (load_elf (some image) s ≡ some (0, s))
        × (init_elf malloc fseek none ram_size s ≡ some (0, s))
        × (init_elf malloc fseek (some image) ram_size s ≡ some (0, s))
  unfolding load_elf init_elf
  load_elf_refused image ram_size s bytes bad = (refl, buffer, refl, file)
    where
      invalid : 52 ≤ image.size → is_riscv_elf (elf_header image.bytes) ≡ false
      invalid size = elim (Bool-cases (is_riscv_elf (elf_header image.bytes))) [
        | inl valid ↦ absurd (bad ((is_riscv_elf_iff image bytes size).0 valid))
        | inr p ↦ p
      ]

      buffer : load_elf (some image) s ≡ some (0, s)
      buffer = elim (Bool-cases (ltb image.size 52)) [
        | inl short ↦ rw short refl
        | inr long ↦ let size : 52 ≤ image.size = ground arith in rw (long, invalid size) refl
      ]

      file : init_elf malloc fseek (some image) ram_size s ≡ some (0, s)
      file = elim (Bool-cases (ltb image.size 52)) [
        | inl short ↦ rw short refl
        | inr long ↦ let size : 52 ≤ image.size = ground arith in rw (long, invalid size) refl
      ]
