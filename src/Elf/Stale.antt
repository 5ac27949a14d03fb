-- ===== src/Elf/Stale.antt =====
-- The symbols that `rv_init_elf` of dpi-riscv/sim/iss/rv32_dpi.c finds in the table of the program before.
use herve.Base.{
  ℕ, zero, suc, ◌+◌, ◌*◌, ◌≡◌, sym, Bool, ◌||◌, ◌&&◌, ◌==◌, leb, if◌then◌else◌, Option, none, some,
  List, String,
}
use herve.Profiler.{SymbolName}
use herve.Machine.{Ensures, Ensures-bind, if-Ensures, ◌>>=◌}
use herve.Machine.Symbols.{Symbol, symbol_at, add_symbol}
use herve.Machine.Symbols.Lookup.{symbol_from-append}
use herve.Elf.Header.{Image, ElfHeader, SectionHeader, ElfSymbol, elf_header, elf_symbol}
use herve.Elf.SymbolTable.{
  symbol_name, add_function, add_functions, section_at, load_section, load_sections, read_names,
  load_symbols,
}
use herve.Elf.Preserve.{Ensures-each}

-- A computation behind a test, and undefined behaviour where the test fails.
guard-Ensures :
    {A : Type 0} (P : A → Type 0) (b : Bool) (m : Option A)
    → Ensures P m
    → Ensures P (if b then m else none)
guard-Ensures P b m h = if-Ensures P b m none h tt

module _ (addr : ℕ) (found : SymbolName) where
  -- What the profiler finds at the address.
  Finds : List Symbol → Type 0
  Finds symbols = symbol_at addr symbols ≡ some found

  add_symbol-Finds :
      (at size : ℕ) (name : String) (symbols : List Symbol)
      → Finds symbols
      → Finds (add_symbol at size name symbols)
  unfolding Finds add_symbol symbol_at
  add_symbol-Finds at size name symbols h = symbol_from-append 0 addr found symbols _ h

  add_function-Finds :
      (image : Image) (strtab : SectionHeader) (sym : ElfSymbol) (symbols : List Symbol)
      → Finds symbols
      → Ensures Finds (add_function image strtab sym symbols)
  unfolding add_function
  add_function-Finds image strtab sym symbols h = search (if-Ensures, same, more)
    where
      same : Ensures Finds (some symbols)
      same = h

      more : Ensures Finds (
          symbol_name image strtab sym
          >>= (λ name. some (add_symbol sym.st_value sym.st_size name symbols)))
      more =
          Ensures-each Finds (symbol_name image strtab sym) _
            (λ name. add_symbol-Finds sym.st_value sym.st_size name symbols h)

  add_functions-Finds :
      (image : Image) (symtab strtab : SectionHeader) (left j : ℕ) (symbols : List Symbol)
      → Finds symbols
      → Ensures Finds (add_functions image symtab strtab left j symbols)
  unfolding add_functions
  add_functions-Finds image symtab strtab zero j symbols h = h
  add_functions-Finds image symtab strtab (suc left) j symbols h =
      let entry = elf_symbol image.bytes (symtab.sh_offset + 16 * j) in
      guard-Ensures Finds (leb (symtab.sh_offset + 16 * j + 16) image.size)
        (add_function image strtab entry symbols
          >>= (λ more. add_functions image symtab strtab left (j + 1) more))
        (Ensures-bind Finds Finds (add_function image strtab entry symbols) _
          (add_function-Finds image strtab entry symbols h)
          (λ t ok. add_functions-Finds image symtab strtab left (j + 1) t ok))

  module _ (malloc fseek : ℕ → Bool) where
    load_section-Finds :
        (image : Image) (e : ElfHeader) (section : SectionHeader) (symbols : List Symbol)
        → Finds symbols
        → Ensures Finds (load_section malloc fseek image e section symbols)
    unfolding load_section
    load_section-Finds image e section symbols h =
        search (if-Ensures, h, Ensures-each, guard-Ensures, add_functions-Finds)

    load_sections-Finds :
        (image : Image) (e : ElfHeader) (left i : ℕ) (symbols : List Symbol)
        → Finds symbols
        → Ensures Finds (load_sections malloc fseek image e left i symbols)
    unfolding load_sections
    load_sections-Finds image e zero i symbols h = h
    load_sections-Finds image e (suc left) i symbols h =
        Ensures-each Finds (section_at image e i) _ (λ section.
          Ensures-bind Finds Finds (load_section malloc fseek image e section symbols) _
            (load_section-Finds image e section symbols h)
            (λ t ok. load_sections-Finds image e left (i + 1) t ok))

    -- Loading a second program does not hide the first one's symbols: where the profiler finds a symbol at
    -- an address before, it finds the same one after the symbols of any file are added, if their reading
    -- has defined behaviour.
    pub load_symbols_stale :
        (image : Image) (symbols : List Symbol)
        → symbol_at addr symbols ≡ some found
        → Ensures
            (λ more. symbol_at addr more ≡ some found)
            (load_symbols malloc fseek image (elf_header image.bytes) symbols)
    unfolding Finds load_symbols
    load_symbols_stale image symbols h =
        let e = elf_header image.bytes in
        guard-Ensures Finds ((e.e_shnum * 40 == 0 || malloc (e.e_shnum * 40)) && fseek e.e_shoff)
          (read_names malloc fseek image e
            >>= (λ names. load_sections malloc fseek image e e.e_shnum 0 symbols))
          (Ensures-each Finds (read_names malloc fseek image e) _
            (λ names. load_sections-Finds image e e.e_shnum 0 symbols h))
