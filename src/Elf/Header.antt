-- ===== src/Elf/Header.antt =====
-- `struct elf32_ehdr`, `elf32_phdr`, `elf32_shdr` and `elf32_sym` of dpi-riscv/sim/iss/rv32_dpi.c, as
-- a little-endian host reads them from bytes, and the test of the first one.
use herve.Base.{ℕ, ◌+◌, Bool, true, false, not, ◌||◌, ◌==◌, if◌then◌else◌}
use herve.Memory.Ram.{read_le}

-- A buffer or a file: `size` bytes, and the byte at each offset below it.
pub record Image : Type 0 where
  pub bytes : ℕ → ℕ
  pub size : ℕ

pub record ElfHeader : Type 0 where
  pub e_ident : ℕ → ℕ
  pub e_type : ℕ
  pub e_machine : ℕ
  pub e_version : ℕ
  pub e_entry : ℕ
  pub e_phoff : ℕ
  pub e_shoff : ℕ
  pub e_flags : ℕ
  pub e_ehsize : ℕ
  pub e_phentsize : ℕ
  pub e_phnum : ℕ
  pub e_shentsize : ℕ
  pub e_shnum : ℕ
  pub e_shstrndx : ℕ

pub record ProgramHeader : Type 0 where
  pub p_type : ℕ
  pub p_offset : ℕ
  pub p_vaddr : ℕ
  pub p_paddr : ℕ
  pub p_filesz : ℕ
  pub p_memsz : ℕ
  pub p_flags : ℕ
  pub p_align : ℕ

pub record SectionHeader : Type 0 where
  pub sh_name : ℕ
  pub sh_type : ℕ
  pub sh_flags : ℕ
  pub sh_addr : ℕ
  pub sh_offset : ℕ
  pub sh_size : ℕ
  pub sh_link : ℕ
  pub sh_info : ℕ
  pub sh_addralign : ℕ
  pub sh_entsize : ℕ

pub record ElfSymbol : Type 0 where
  pub st_name : ℕ
  pub st_value : ℕ
  pub st_size : ℕ
  pub st_info : ℕ
  pub st_other : ℕ
  pub st_shndx : ℕ

abbrev pub elf_header : (ℕ → ℕ) → ElfHeader
elf_header bytes = record {
  e_ident = bytes;
  e_type = read_le bytes 16 2;
  e_machine = read_le bytes 18 2;
  e_version = read_le bytes 20 4;
  e_entry = read_le bytes 24 4;
  e_phoff = read_le bytes 28 4;
  e_shoff = read_le bytes 32 4;
  e_flags = read_le bytes 36 4;
  e_ehsize = read_le bytes 40 2;
  e_phentsize = read_le bytes 42 2;
  e_phnum = read_le bytes 44 2;
  e_shentsize = read_le bytes 46 2;
  e_shnum = read_le bytes 48 2;
  e_shstrndx = read_le bytes 50 2;
}

abbrev pub program_header : (ℕ → ℕ) → ℕ → ProgramHeader
program_header bytes off = record {
  p_type = read_le bytes off 4;
  p_offset = read_le bytes (off + 4) 4;
  p_vaddr = read_le bytes (off + 8) 4;
  p_paddr = read_le bytes (off + 12) 4;
  p_filesz = read_le bytes (off + 16) 4;
  p_memsz = read_le bytes (off + 20) 4;
  p_flags = read_le bytes (off + 24) 4;
  p_align = read_le bytes (off + 28) 4;
}

abbrev pub section_header : (ℕ → ℕ) → ℕ → SectionHeader
section_header bytes off = record {
  sh_name = read_le bytes off 4;
  sh_type = read_le bytes (off + 4) 4;
  sh_flags = read_le bytes (off + 8) 4;
  sh_addr = read_le bytes (off + 12) 4;
  sh_offset = read_le bytes (off + 16) 4;
  sh_size = read_le bytes (off + 20) 4;
  sh_link = read_le bytes (off + 24) 4;
  sh_info = read_le bytes (off + 28) 4;
  sh_addralign = read_le bytes (off + 32) 4;
  sh_entsize = read_le bytes (off + 36) 4;
}

abbrev pub elf_symbol : (ℕ → ℕ) → ℕ → ElfSymbol
elf_symbol bytes off = record {
  st_name = read_le bytes off 4;
  st_value = read_le bytes (off + 4) 4;
  st_size = read_le bytes (off + 8) 4;
  st_info = bytes (off + 12);
  st_other = bytes (off + 13);
  st_shndx = read_le bytes (off + 14) 2;
}

-- `PT_LOAD`.
abbrev pub pt_load : ℕ
pt_load = 1

-- The tests of the magic number, the class, the byte order and the machine, which both loaders make.
unfoldable pub is_riscv_elf : ElfHeader → Bool
is_riscv_elf e =
    if not (e.e_ident 0 == 0x7F)
      || not (e.e_ident 1 == b'E')
      || not (e.e_ident 2 == b'L')
      || not (e.e_ident 3 == b'F')
    then false
    else if not (e.e_ident 4 == 1)
    then false
    else if not (e.e_ident 5 == 1)
    then false
    else if not (e.e_machine == 0xF3)
    then false
    else true
