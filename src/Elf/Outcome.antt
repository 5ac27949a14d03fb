-- ===== src/Elf/Outcome.antt =====
-- The states in which `rv_init_elf` of dpi-riscv/sim/iss/rv32_dpi.c can leave the simulator.
use herve.Base.{ℕ, ◌^◌, ◌<◌, ◌≡◌, ◌⊎◌, refl, ap, arith, Bool, none, some, inl, inr, List}
use herve.Machine.{Machine, Ensures, Ensures-bind, Ensures-map, if-Ensures}
use herve.Machine.Symbols.{Symbol}
use herve.Elf.Header.{Image, ElfHeader, elf_header}
use herve.Elf.SymbolTable.{load_symbols}
use herve.Elf.File.{
  reset_htif, ram_needed, no_ram, fresh_ram, segment_range, load_file_segments, load_file,
  allocate_and_load, init_elf,
}
use herve.Elf.Reject.{IsByteImage}
use herve.Elf.Preserve.{IsReloaded, Ensures-each}
use herve.Elf.FilePreserve.{load_file_segments-IsReloaded}
use herve.Elf.Range.{segment_range_lem}

-- The state after the assignments of `rv_init_elf`, which leave the cycle counter and all CSRs but `mie`
-- as they were, with other bytes in the memory and other symbols, at the entry point of the file, which
-- is also the answer.
pub record IsStarted (image : Image) (s : Machine) (r : ℕ × Machine) : Type 0 where
  pub entry : r.0 ≡ (elf_header image.bytes).e_entry
  pub frame : r.1 ≡ record (fresh_ram r.1.memory_size r.1.memory_base (reset_htif s)) {
    memory = r.1.memory;
    symbols = r.1.symbols;
    pc = r.0;
  }
  pub bytes_ok : (i : ℕ) → r.1.memory i < 256
  pub size_lt : r.1.memory_size < 2 ^ 32
  pub base_lt : r.1.memory_base < 2 ^ 32

-- What `rv_init_elf` returns and leaves.
abbrev pub IsOutcome : Image → Machine → ℕ × Machine → Type 0
IsOutcome image s r =
    (r ≡ (0, s)) ⊎ (r ≡ (0, reset_htif s)) ⊎ (r ≡ (0, no_ram (reset_htif s))) ⊎ IsStarted image s r

reloaded-IsStarted :
    (image : Image) (size base : ℕ) (s t : Machine) (symbols : List Symbol)
    → IsReloaded (fresh_ram size base (reset_htif s)) t
    → size < 2 ^ 32
    → base < 2 ^ 32
    → IsStarted image s (
      (elf_header image.bytes).e_entry,
      record t { symbols = symbols; pc = (elf_header image.bytes).e_entry },
    )
unfolding fresh_ram
reloaded-IsStarted image size base s t symbols r size_lt base_lt =
    let entry = (elf_header image.bytes).e_entry in
    let same_size : t.memory_size ≡ size = ap (λ (x : Machine). x.memory_size) r.frame in
    let same_base : t.memory_base ≡ base = ap (λ (x : Machine). x.memory_base) r.frame in
    record {
      entry = refl;
      frame =
          rw (same_size, same_base)
            (ap
              (λ (x : Machine). record x {
                memory_size = size;
                memory_base = base;
                symbols = symbols;
                pc = entry;
              })
              r.frame);
      bytes_ok = r.bytes_ok;
      size_lt = omega arith;
      base_lt = omega arith;
    }

ram_needed_lt : (ram_size min_addr max_addr : ℕ) → ram_needed ram_size min_addr max_addr < 2 ^ 32
unfolding ram_needed
ram_needed_lt ram_size min_addr max_addr = omega arith

module _ (malloc fseek : ℕ → Bool) where
  load_file-IsStarted :
      (image : Image) (size base : ℕ) (s : Machine)
      → IsByteImage image
      → size < 2 ^ 32
      → base < 2 ^ 32
      → Ensures
          (IsStarted image s)
          (load_file malloc fseek image (elf_header image.bytes) size base (reset_htif s))
  unfolding load_file fresh_ram
  load_file-IsStarted image size base s bytes size_lt base_lt =
      Ensures-bind (IsReloaded start) (IsStarted image s)
        (load_file_segments fseek image e e.e_phnum 0 start) _
        (load_file_segments-IsReloaded fseek image e e.e_phnum 0 start bytes (λ i. omega arith))
        (λ t r.
          Ensures-each (IsStarted image s) (load_symbols malloc fseek image e t.symbols) _
            (λ symbols. reloaded-IsStarted image size base s t symbols r size_lt base_lt))
    where
      e : ElfHeader
      e = elf_header image.bytes

      start : Machine
      start = fresh_ram size base (reset_htif s)

  load_file-IsOutcome :
      (image : Image) (size base : ℕ) (s : Machine)
      → IsByteImage image
      → size < 2 ^ 32
      → base < 2 ^ 32
      → Ensures
          (IsOutcome image s)
          (load_file malloc fseek image (elf_header image.bytes) size base (reset_htif s))
  load_file-IsOutcome image size base s bytes size_lt base_lt =
      Ensures-map (load_file malloc fseek image (elf_header image.bytes) size base (reset_htif s))
        (load_file-IsStarted image size base s bytes size_lt base_lt) (λ r h. inr (inr (inr h)))

  pub init_elf_cases :
      (image : Image) (ram_size : ℕ) (s : Machine)
      → IsByteImage image
      → Ensures (IsOutcome image s) (init_elf malloc fseek (some image) ram_size s)
  unfolding init_elf allocate_and_load
  init_elf_cases image ram_size s bytes =
      search (if-Ensures, refused, undefined, empty, no_space, loaded)
    where
      e : ElfHeader
      e = elf_header image.bytes

      min_addr : ℕ
      min_addr = (segment_range fseek image e e.e_phnum 0 0xFFFFFFFF 0).0

      max_addr : ℕ
      max_addr = (segment_range fseek image e e.e_phnum 0 0xFFFFFFFF 0).1

      refused : Ensures (IsOutcome image s) (some (0, s))
      refused = inl refl

      undefined : Ensures (IsOutcome image s) none
      undefined = tt

      empty : Ensures (IsOutcome image s) (some (0, reset_htif s))
      empty = inr (inl refl)

      no_space : Ensures (IsOutcome image s) (some (0, no_ram (reset_htif s)))
      no_space = inr (inr (inl refl))

      loaded : Ensures (IsOutcome image s) (
          load_file malloc fseek image e
            (ram_needed ram_size min_addr max_addr)
            min_addr
            (reset_htif s))
      loaded =
          let low = segment_range_lem fseek image e e.e_phnum 0 0xFFFFFFFF 0 in
          load_file-IsOutcome image (ram_needed ram_size min_addr max_addr) min_addr s bytes
            (ram_needed_lt ram_size min_addr max_addr) (omega (arith, low.0))
