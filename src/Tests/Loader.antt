-- ===== src/Tests/Loader.antt =====
-- The theorems on the ELF loaders, applied to a small file.
use herve.Base.{ltb, if◌then◌else◌, ℕ, ◌+◌, ◌^◌, ◌≡◌, refl, arith, List, [], ◌∷◌, none, some, inr}
use herve.Base.Bytes.{c_string}
use herve.Profiler.{SymbolName}
use herve.Machine.{Machine, Ensures}
use herve.Machine.Symbols.{Symbol, add_symbol, symbol_at, symbol_from}
use herve.Memory.Ram.{read_le}
use herve.Elf.Header.{ProgramHeader, elf_header}
use herve.Elf.Buffer.{load_elf}
use herve.Elf.SymbolTable.{
  bytes_read, symbol_name, add_function, add_functions, section_at, load_section, load_sections,
  read_names, load_symbols,
}
use herve.Elf.File.{
  widen, ram_needed, fresh_ram, reset_htif, file_header, segment_range, load_file_segment, init_elf,
}
use herve.Elf.Reject.{IsRiscvElf, load_elf_refused}
use herve.Elf.Preserve.{IsLoaded, load_elf-IsLoaded}
use herve.Elf.Loaded.{image_byte, load_elf_contents}
use herve.Elf.Range.{load_file_segment_skipped}
use herve.Elf.Init.{lowest, highest, room, init_elf_contents}
use herve.Elf.Stale.{load_symbols_stale}
use herve.Tests.{booted, booted-IsWellFormed}
use herve.Tests.ElfFile.{
  elf_file, elf_file-IsByteImage, elf_file-IsLoadableImage, other_file, other_file-IsByteImage,
  always,
}

other_machine : (n : ℕ) → n ≡ 3 → n ≡ 0xF3 → ⊥
other_machine n p q = absurd (omega arith)

other_file_refused : ¬ IsRiscvElf other_file
other_file_refused h = other_machine (other_file.bytes 18) refl h.machine_lo

load_elf_refused_example :
    (load_elf none (booted 0) ≡ some (0, booted 0))
    × (load_elf (some other_file) (booted 0) ≡ some (0, booted 0))
    × (init_elf always always none 4096 (booted 0) ≡ some (0, booted 0))
    × (init_elf always always (some other_file) 4096 (booted 0) ≡ some (0, booted 0))
load_elf_refused_example =
    load_elf_refused always always other_file 4096 (booted 0) other_file-IsByteImage
      other_file_refused

load_elf-IsLoaded_example :
    Ensures (IsLoaded (booted 0)) (load_elf none (booted 0))
    × Ensures (IsLoaded (booted 0)) (load_elf (some elf_file) (booted 0))
load_elf-IsLoaded_example =
    load_elf-IsLoaded elf_file (booted 0) elf_file-IsByteImage (booted-IsWellFormed 0 (omega arith))

load_elf_contents_example :
    load_elf (some elf_file) (booted 0)
    ≡ some (
      (elf_header elf_file.bytes).e_entry,
      record (booted 0) {
        memory = λ off.
            image_byte elf_file (elf_header elf_file.bytes).e_phnum 0 off ((booted 0).memory off);
      },
    )
load_elf_contents_example =
    load_elf_contents elf_file (booted 0) (omega arith)
      (elf_file-IsLoadableImage 1024 (omega arith))

-- The symbol of the file.
abbrev file_symbols : List Symbol
file_symbols = record { addr = 0x100; size = 4; name = "f" } ∷ []

file_symbols_loaded :
    load_symbols always always elf_file (elf_header elf_file.bytes) [] ≡ some file_symbols
unfolding load_symbols read_names load_sections load_section section_at add_functions add_function
    symbol_name bytes_read c_string add_symbol read_le
file_symbols_loaded = refl

lowest_address : lowest always elf_file ≡ 0x100
unfolding segment_range file_header widen read_le
lowest_address = refl

highest_address : highest always elf_file ≡ 0x108
unfolding segment_range file_header widen read_le
highest_address = refl

one_megabyte : room always elf_file 0 ≡ 2 ^ 20
unfolding ram_needed segment_range file_header widen read_le
one_megabyte = refl

init_elf_contents_example :
    init_elf always always (some elf_file) 0 (booted 0)
    ≡ some (
      (elf_header elf_file.bytes).e_entry,
      record (fresh_ram (room always elf_file 0) (lowest always elf_file) (reset_htif (booted 0))) {
        memory = λ off.
            image_byte elf_file
              (elf_header elf_file.bytes).e_phnum
              0
              (lowest always elf_file + off)
              0;
        symbols = file_symbols;
        pc = (elf_header elf_file.bytes).e_entry;
      },
    )
init_elf_contents_example =
    init_elf_contents always always (λ off. refl) elf_file 0 0x108 (booted 0) file_symbols
      (elf_file-IsLoadableImage 0x108 (omega arith)) (omega arith)
      (omega (arith, lowest_address, highest_address))
      (omega (arith, lowest_address, highest_address)) (omega arith)
      (inr (omega (arith, lowest_address))) (omega (arith, lowest_address, one_megabyte)) refl
      file_symbols_loaded

-- A segment of 4 MB at 0x80000000.
abbrev large_segment : ProgramHeader
large_segment = record {
  p_type = 1;
  p_offset = 84;
  p_vaddr = 0x80000000;
  p_paddr = 0x80000000;
  p_filesz = 4;
  p_memsz = 0x400000;
  p_flags = 7;
  p_align = 4;
}

-- The state behind an earlier segment, with its bytes in the memory of 2 MB.
abbrev half_loaded : Machine
half_loaded = record (booted 0) {
  memory = λ off. if ltb off 16 then 0x13 else 0;
  memory_base = 0x80000000;
  memory_size = 0x200000;
}

large_segment_needed : 0x200000 ≡ ram_needed 0 0x80000000 0x80400000
unfolding ram_needed
large_segment_needed = refl

load_file_segment_skipped_example :
    load_file_segment always elf_file large_segment half_loaded ≡ some half_loaded
load_file_segment_skipped_example =
    load_file_segment_skipped always elf_file large_segment 0x80000000 0x80400000 half_loaded
      (omega arith) (omega arith) (omega arith) refl large_segment_needed

-- An older symbol at the address of the file's one.
abbrev old_symbols : List Symbol
old_symbols = record { addr = 0x80; size = 0x100; name = "old" } ∷ []

abbrev old_name : SymbolName
old_name = record { pointer = 0; name = "old" }

old_symbol_found : symbol_at 0x102 old_symbols ≡ some old_name
unfolding symbol_at symbol_from
old_symbol_found = refl

load_symbols_stale_example :
    Ensures
      (λ more. symbol_at 0x102 more ≡ some old_name)
      (load_symbols always always elf_file (elf_header elf_file.bytes) old_symbols)
load_symbols_stale_example =
    load_symbols_stale 0x102 old_name always always elf_file old_symbols old_symbol_found
