-- ===== src/Transparent/Boot.antt =====
-- `rv_init_elf` and `rv_reset` of dpi-riscv/sim/iss/rv32_dpi.c do not depend on the profiler.
use herve.Base.{ℕ, zero, suc, ◌+◌, ◌≡◌, arith, refl, Option, some, none, Bool}
use herve.Profiler.{Profiler}
use herve.Machine.{Machine, ◌>>=◌}
use herve.Boot.{reset}
use herve.Elf.Header.{Image, ElfHeader, ProgramHeader, elf_header}
use herve.Elf.Buffer.{clear_rest, clear_bytes}
use herve.Elf.SymbolTable.{load_symbols}
use herve.Elf.File.{
  reset_htif, no_ram, fresh_ram, segment_range, read_bytes, load_file_segment, load_readable,
  load_file_segments, load_file, allocate_and_load, init_elf, file_header, ram_needed,
}
use herve.Transparent.Agree.{with_profiler, map_option, keep}

module _ (p : Profiler) where
  pub reset-with_profiler :
      (pc : ℕ) (s : Machine) → reset pc (with_profiler p s) ≡ with_profiler p (reset pc s)
  unfolding reset
  reset-with_profiler pc s = ground arith

  bind_with_profiler :
      (f : Machine → Option Machine)
      → ((t : Machine) → f (with_profiler p t) ≡ map_option (with_profiler p) (f t))
      → (m : Option Machine)
      → map_option (with_profiler p) m >>= f ≡ map_option (with_profiler p) (m >>= f)
  bind_with_profiler f k none = refl
  bind_with_profiler f k (some t) = k t

  module _ (fseek : ℕ → Bool) (image : Image) where
    load_readable-with_profiler :
        (h : Option ProgramHeader) (s : Machine)
        → load_readable fseek image h (with_profiler p s)
          ≡ map_option (with_profiler p) (load_readable fseek image h s)
    unfolding load_readable load_file_segment read_bytes clear_rest clear_bytes
    load_readable-with_profiler none s = refl
    load_readable-with_profiler (some h) s = ground arith

    load_file_segments-with_profiler :
        (e : ElfHeader) (left i : ℕ) (s : Machine)
        → load_file_segments fseek image e left i (with_profiler p s)
          ≡ map_option (with_profiler p) (load_file_segments fseek image e left i s)
    unfolding load_file_segments
    load_file_segments-with_profiler e zero i s = refl
    load_file_segments-with_profiler e (suc left) i s =
        rw (load_readable-with_profiler (file_header fseek image e i) s) (
          bind_with_profiler (load_file_segments fseek image e left (i + 1))
            (λ t. load_file_segments-with_profiler e left (i + 1) t)
            (load_readable fseek image (file_header fseek image e i) s))

  module _ (malloc fseek : ℕ → Bool) where
    load_file-keep :
        (image : Image) (e : ElfHeader) (size base : ℕ) (s : Machine)
        → load_file malloc fseek image e size base (with_profiler p s)
          ≡ map_option (keep p) (load_file malloc fseek image e size base s)
    unfolding load_file fresh_ram
    load_file-keep image e size base s =
        rw (load_file_segments-with_profiler fseek image e e.e_phnum 0 (fresh_ram size base s))
          (go (load_file_segments fseek image e e.e_phnum 0 (fresh_ram size base s)))
      where
        rest : Machine → Option (ℕ × Machine)
        rest t =
            load_symbols malloc fseek image e t.symbols
            >>= (λ symbols. some (e.e_entry, record t { symbols = symbols; pc = e.e_entry }))

        with_symbols : (t : Machine) → rest (with_profiler p t) ≡ map_option (keep p) (rest t)
        with_symbols t = ground arith

        go :
            (m : Option Machine)
            → map_option (with_profiler p) m >>= rest ≡ map_option (keep p) (m >>= rest)
        go none = refl
        go (some t) = with_symbols t

    allocate_and_load-keep :
        (image : Image) (e : ElfHeader) (ram_size min_addr max_addr : ℕ) (s : Machine)
        → allocate_and_load malloc fseek image e ram_size min_addr max_addr (with_profiler p s)
          ≡ map_option
              (keep p)
              (allocate_and_load malloc fseek image e ram_size min_addr max_addr s)
    unfolding allocate_and_load no_ram
    allocate_and_load-keep image e ram_size min_addr max_addr s =
        rw (load_file-keep image e (ram_needed ram_size min_addr max_addr) min_addr s)
          (ground arith)

    pub init_elf-keep :
        (image : Option Image) (ram_size : ℕ) (s : Machine)
        → init_elf malloc fseek image ram_size (with_profiler p s)
          ≡ map_option (keep p) (init_elf malloc fseek image ram_size s)
    unfolding init_elf reset_htif
    init_elf-keep none ram_size s = refl
    init_elf-keep (some image) ram_size s =
        let e = elf_header image.bytes in
        let (low, high) = segment_range fseek image e e.e_phnum 0 0xFFFFFFFF 0 in
        rw (allocate_and_load-keep image e ram_size low high (reset_htif s)) (ground arith)
