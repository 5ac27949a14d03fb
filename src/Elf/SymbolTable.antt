-- ===== src/Elf/SymbolTable.antt =====
-- The end of `rv_init_elf` of dpi-riscv/sim/iss/rv32_dpi.c: the functions of the file's symbol
-- tables are added to the simulator's. What `malloc` gave and `fread` did not fill has no value, and
-- after a `fseek` that fails unseen the file is read at an unknown place: `none`.
use herve.Base.{
  ℕ, zero, suc, ◌+◌, ◌-◌, ◌*◌, ◌/◌, ◌%◌, Bool, ◌&&◌, ◌||◌, ◌==◌, ltb, leb, if◌then◌else◌, Option,
  none, some, List, String,
}
use herve.Base.Bytes.{c_string}
use herve.Machine.{◌>>=◌}
use herve.Machine.Symbols.{Symbol, add_symbol}
use herve.Elf.Header.{Image, ElfHeader, SectionHeader, ElfSymbol, section_header, elf_symbol}

-- `SHT_SYMTAB` and `STT_FUNC`.
abbrev pub sht_symtab : ℕ
sht_symtab = 2

abbrev pub stt_func : ℕ
stt_func = 2

-- How many bytes `fread` gives of `n` from offset `off` of the file on.
unfoldable pub bytes_read : Image → ℕ → ℕ → ℕ
bytes_read image off n = if leb (off + n) image.size then n else image.size - off

-- `&strs[st_name]`, up to its byte 0.
unfoldable pub symbol_name : Image → SectionHeader → ElfSymbol → Option String
symbol_name image strtab sym =
    c_string image.bytes (strtab.sh_offset + sym.st_name)
      (bytes_read image strtab.sh_offset strtab.sh_size - sym.st_name)

-- The test of a symbol, and `add_symbol`.
unfoldable pub add_function : Image → SectionHeader → ElfSymbol → List Symbol → Option (List Symbol)
add_function image strtab sym symbols =
    if sym.st_info % 16 == stt_func && ltb 0 sym.st_size
    then (do
      name ← symbol_name image strtab sym
      some (add_symbol sym.st_value sym.st_size name symbols))
    else some symbols

-- The loop over the symbols, with `left` to go, from symbol `j` on.
unfoldable pub add_functions :
    Image → SectionHeader → SectionHeader → ℕ → ℕ → List Symbol → Option (List Symbol)
add_functions image symtab strtab zero j symbols = some symbols
add_functions image symtab strtab (suc left) j symbols =
    let off = symtab.sh_offset + 16 * j in
    if leb (off + 16) image.size
    then (do
      more ← add_function image strtab (elf_symbol image.bytes off) symbols
      add_functions image symtab strtab left (j + 1) more)
    else none

-- `shdrs[i]`.
unfoldable pub section_at : Image → ElfHeader → ℕ → Option SectionHeader
section_at image e i =
    let off = e.e_shoff + 40 * i in
    if ltb i e.e_shnum && leb (off + 40) image.size
    then some (section_header image.bytes off)
    else none

module _ (malloc fseek : ℕ → Bool) where
  -- A buffer of `n` bytes for which the code does not test whether there is memory.
  abbrev pub is_allocated : ℕ → Bool
  is_allocated n = n == 0 || malloc n

  -- The body of the loop for one section.
  unfoldable pub load_section :
      Image → ElfHeader → SectionHeader → List Symbol → Option (List Symbol)
  load_section image e section symbols =
      if section.sh_type == sht_symtab
      then (do
        strtab ← section_at image e section.sh_link
        (if is_allocated section.sh_size
              && is_allocated strtab.sh_size
              && fseek section.sh_offset
              && fseek strtab.sh_offset
            then add_functions image section strtab (section.sh_size / 16) 0 symbols
            else none))
      else some symbols

  unfoldable pub load_sections : Image → ElfHeader → ℕ → ℕ → List Symbol → Option (List Symbol)
  load_sections image e zero i symbols = some symbols
  load_sections image e (suc left) i symbols = do
    section ← section_at image e i
    more ← load_section image e section symbols
    load_sections image e left (i + 1) more

  -- The table of the sections' names is read, and not used.
  unfoldable pub read_names : Image → ElfHeader → Option ℕ
  read_names image e = if e.e_shstrndx == 0 then some 0 else (do
    names ← section_at image e e.e_shstrndx
    (if is_allocated names.sh_size then some names.sh_size else none))

  unfoldable pub load_symbols : Image → ElfHeader → List Symbol → Option (List Symbol)
  load_symbols image e symbols =
      if is_allocated (e.e_shnum * 40) && fseek e.e_shoff
      then (do names ← read_names image e; load_sections image e e.e_shnum 0 symbols)
      else none
