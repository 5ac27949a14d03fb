-- ===== src/Elf/Loaded.antt =====
-- The whole of `rv_load_elf` of dpi-riscv/sim/iss/rv32_dpi.c, for a file whose segments fit.
use native.Mathlib.Nat.{mul-le-mul_left, mul_comm, mul-suc}
use herve.Base.{
  ℕ, zero, suc, ◌+◌, ◌*◌, ◌^◌, ◌≤◌, ◌<◌, ◌≡◌, refl, arith, false, ltb, some, ltb-false, le→leb,
  lt→ltb,
}
use herve.Word.{u32}
use herve.Machine.{Machine}
use herve.Elf.Header.{Image, ProgramHeader, elf_header, program_header}
use herve.Elf.Buffer.{buffer_header, load_segments, load_elf}
use herve.Elf.Reject.{IsByteImage, IsRiscvElf, is_riscv_elf_iff}
use herve.Elf.Contents.{segment_byte, IsLoadable, with_memory, load_segment_lem}

-- The program header `i`, where the ELF header says that it is.
abbrev pub header_at : Image → ℕ → ProgramHeader
header_at image i =
    let e = elf_header image.bytes in program_header image.bytes (e.e_phoff + i * e.e_phentsize)

-- The byte at an address behind `left` program headers from header `i` on, where `old` was before: each
-- header in its turn, so that the last one that covers the address decides.
unfoldable pub image_byte : Image → ℕ → ℕ → ℕ → ℕ → ℕ
image_byte image zero i addr old = old
image_byte image (suc left) i addr old =
    image_byte image left (i + 1) addr (segment_byte image (header_at image i) addr old)

-- A 32-bit ELF file for RISC-V of less than 2 GB whose table of program headers of 32 bytes or more lies
-- in the file, and each of whose PT_LOAD segments lies in the file and in a memory of `size` bytes and
-- has no more bytes in the file than in memory.
pub record IsLoadableImage (image : Image) (size : ℕ) : Type 0 where
  pub bytes_ok : IsByteImage image
  pub elf : IsRiscvElf image
  pub small : image.size < 2 ^ 31
  pub entries : 32 ≤ (elf_header image.bytes).e_phentsize
  pub table :
      (elf_header image.bytes).e_phoff
        + (elf_header image.bytes).e_phnum * (elf_header image.bytes).e_phentsize
      ≤ image.size
  pub segments :
      (i : ℕ) → i < (elf_header image.bytes).e_phnum → IsLoadable image size (header_at image i)

-- Entry `i` of a table lies in front of the table's end.
pub entry_in_table : (n p i : ℕ) → i < n → i * p + p ≤ n * p
entry_in_table n p i h =
    let bound = mul-le-mul_left p h in rw (mul_comm i p, mul_comm n p) (rw (mul-suc p i) at bound)

load_segments_lem :
    (image : Image) (left i : ℕ) (s : Machine)
    → s.memory_size < 2 ^ 32
    → IsLoadableImage image s.memory_size
    → i + left ≡ (elf_header image.bytes).e_phnum
    → load_segments image (elf_header image.bytes) left i s
      ≡ some (with_memory s (λ addr. image_byte image left i addr (s.memory addr)))
unfolding load_segments buffer_header image_byte
load_segments_lem image zero i s word ok done = refl
load_segments_lem image (suc left) i s word ok rest =
    let e = elf_header image.bytes in
    let inside = entry_in_table e.e_phnum e.e_phentsize i (omega arith) in
    let table = ok.table in
    let small = ok.small in
    let entries = ok.entries in
    let p = lt→ltb (i * e.e_phentsize) (2 ^ 31) (omega arith) in
    let q = le→leb (e.e_phoff + i * e.e_phentsize + 32) image.size (omega arith) in
    let step = load_segment_lem image (header_at image i) s word (ok.segments i (omega arith)) in
    rw (p, q, step)
      (load_segments_lem image left (i + 1)
        (with_memory s (λ addr. segment_byte image (header_at image i) addr (s.memory addr))) word
        ok (omega arith))

-- For a 32-bit ELF file for RISC-V of less than 2 GB whose table of program headers of 32 bytes or more
-- lies in the file, and each of whose PT_LOAD segments lies in the file, has no more bytes in the file
-- than in memory and ends, as `p_vaddr + p_memsz`, at most at the size of a memory of less than 4 GB,
-- `rv_load_elf` returns the entry point, and each offset `off` of the buffer, which is the guest's
-- address `memory_base + off`, holds what the segments that cover the address `off` put there, the last
-- one's last, and what it held before where no segment covers `off`: `p_vaddr` is taken for the offset
-- with any `memory_base`, which is the right place only where that is 0. Nothing else changes.
pub load_elf_contents :
    (image : Image) (s : Machine)
    → s.memory_size < 2 ^ 32
    → IsLoadableImage image s.memory_size
    → load_elf (some image) s
      ≡ some (
        (elf_header image.bytes).e_entry,
        record s {
          memory = λ off. image_byte image (elf_header image.bytes).e_phnum 0 off (s.memory off);
        },
      )
unfolding load_elf
load_elf_contents image s word ok =
    let e = elf_header image.bytes in
    let elf = ok.elf in
    let size = elf.header in
    let table = ok.table in
    let long = ltb-false image.size 52 size in
    let valid = (is_riscv_elf_iff image ok.bytes_ok size).1 elf in
    let fits : ltb image.size (u32 (e.e_phoff + e.e_phnum * e.e_phentsize)) ≡ false =
      ltb-false image.size (u32 (e.e_phoff + e.e_phnum * e.e_phentsize)) (omega arith) in
    let entry = ltb-false e.e_phentsize 32 ok.entries in
    rw (long, valid, fits, entry, load_segments_lem image e.e_phnum 0 s word ok (omega arith)) refl
