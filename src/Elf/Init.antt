-- ===== src/Elf/Init.antt =====
-- The state behind `rv_init_elf` of dpi-riscv/sim/iss/rv32_dpi.c, for a file that is read without errors
-- and whose segments fit.
use herve.Base.{
  ℕ, zero, suc, ◌+◌, ◌-◌, ◌*◌, ◌^◌, ◌≤◌, ◌<◌, ◌≡◌, ◌≢◌, ◌⊎◌, refl, arith, Bool, true, false, ◌==◌,
  leb, some, inl, inr, List, ltb-false, leb-false, Bool-cases, ==_iff,
}
use herve.Machine.{Machine}
use herve.Machine.Symbols.{Symbol}
use herve.Elf.Header.{Image, elf_header, pt_load}
use herve.Elf.SymbolTable.{load_symbols}
use herve.Elf.File.{
  reset_htif, ram_needed, fresh_ram, segment_range, load_readable, load_file_segments, load_file,
  allocate_and_load, init_elf,
}
use herve.Elf.Reject.{is_riscv_elf_iff}
use herve.Elf.Contents.{segment_byte, IsLoadable, with_memory}
use herve.Elf.Loaded.{header_at, image_byte, IsLoadableImage, entry_in_table}
use herve.Elf.Range.{Covers, segment_range_lem, ram_needed_fits}
use herve.Elf.Booted.{load_file_segment_lem, file_header_lem}

-- Every PT_LOAD segment lies in the memory from `base` on.
AreAbove : Image → ℕ → Type 0
AreAbove image base =
    (i : ℕ)
    → i < (elf_header image.bytes).e_phnum
    → (header_at image i).p_type ≡ pt_load
    → base ≤ (header_at image i).p_vaddr

-- The lowest address and the highest one that the first loop finds.
abbrev pub lowest : (ℕ → Bool) → Image → ℕ
lowest fseek image =
    (segment_range fseek image (elf_header image.bytes) (elf_header image.bytes).e_phnum 0
      0xFFFFFFFF 0).0

abbrev pub highest : (ℕ → Bool) → Image → ℕ
highest fseek image =
    (segment_range fseek image (elf_header image.bytes) (elf_header image.bytes).e_phnum 0
      0xFFFFFFFF 0).1

-- The size of the memory that is allocated for them.
abbrev pub room : (ℕ → Bool) → Image → ℕ → ℕ
room fseek image ram_size = ram_needed ram_size (lowest fseek image) (highest fseek image)

last_entry : (n p bound : ℕ) → n * p < bound → 0 < bound → (n - 1) * p < bound
last_entry zero p bound h k = omega arith
last_entry (suc n) p bound h k =
    let inside = entry_in_table (suc n) p n (omega arith) in
    let same : suc n - 1 ≡ n = omega arith in rw same (omega arith)

-- The products of the loops' `int`s do not overflow.
ints_fit :
    (image : Image) (size : ℕ)
    → IsLoadableImage image size
    → leb (2 ^ 31) (((elf_header image.bytes).e_phnum - 1) * (elf_header image.bytes).e_phentsize)
      ≡ false
ints_fit image size ok =
    let e = elf_header image.bytes in
    let table = ok.table in
    let small = ok.small in
    leb-false (2 ^ 31) ((e.e_phnum - 1) * e.e_phentsize)
      (last_entry e.e_phnum e.e_phentsize (2 ^ 31) (omega arith) (omega arith))

module _ (malloc fseek : ℕ → Bool) (readable : (off : ℕ) → fseek off ≡ true) where
  load_file_segments_lem :
      (image : Image) (left i : ℕ) (s : Machine)
      → s.memory_base + s.memory_size < 2 ^ 32
      → IsLoadableImage image (s.memory_base + s.memory_size)
      → AreAbove image s.memory_base
      → i + left ≡ (elf_header image.bytes).e_phnum
      → load_file_segments fseek image (elf_header image.bytes) left i s
        ≡ some (with_memory s (λ off. image_byte image left i (s.memory_base + off) (s.memory off)))
  unfolding load_file_segments load_readable image_byte AreAbove
  load_file_segments_lem image zero i s word ok above done = refl
  load_file_segments_lem image (suc left) i s word ok above rest =
      let inside : i < (elf_header image.bytes).e_phnum = omega arith in
      let header =
        file_header_lem fseek readable image (s.memory_base + s.memory_size) i ok inside in
      let step =
        load_file_segment_lem fseek readable image (header_at image i) s word (above i inside)
          (ok.segments i inside) in
      rw (header, step)
        (load_file_segments_lem image left (i + 1)
          (with_memory s
            (λ off. segment_byte image (header_at image i) (s.memory_base + off) (s.memory off)))
          word ok above (omega arith))

  range-Covers :
      (image : Image) (size i : ℕ)
      → IsLoadableImage image size
      → i < (elf_header image.bytes).e_phnum
      → Covers (lowest fseek image) (highest fseek image) (some (header_at image i))
  range-Covers image size i ok inside =
      let e = elf_header image.bytes in
      let all = segment_range_lem fseek image e e.e_phnum 0 0xFFFFFFFF 0 in
      let covered = all.2 i inside in
      let here : 0 + i ≡ i = omega arith in
      rw (here, file_header_lem fseek readable image size i ok inside) at covered

  lowest-AreAbove :
      (image : Image) (size : ℕ) → IsLoadableImage image size → AreAbove image (lowest fseek image)
  unfolding AreAbove
  lowest-AreAbove image size ok i inside load = (range-Covers image size i ok inside load).0

  -- A segment that lies below 4 GB lies below the top of a memory that covers the range.
  raised-IsLoadable :
      (image : Image) (limit top i : ℕ)
      → IsLoadableImage image limit
      → limit < 2 ^ 32
      → highest fseek image ≤ top
      → i < (elf_header image.bytes).e_phnum
      → IsLoadable image limit (header_at image i)
      → IsLoadable image top (header_at image i)
  raised-IsLoadable image limit top i ok word covers inside (inl other) = inl other
  raised-IsLoadable image limit top i ok word covers inside (inr fit) =
      elim (Bool-cases ((header_at image i).p_type == pt_load)) [
        | inl p ↦
            let covered =
              range-Covers image limit i ok inside
                ((==_iff (header_at image i).p_type pt_load).0 p) in
            let below = fit.in_memory in
            let high = covered.1 in
            inr (record {
              in_memory = omega arith;
              in_file = fit.in_file;
              in_segment = fit.in_segment;
            })
        | inr p ↦ inl (λ load. ground arith)
      ]

  raised-IsLoadableImage :
      (image : Image) (limit top : ℕ)
      → IsLoadableImage image limit
      → limit < 2 ^ 32
      → highest fseek image ≤ top
      → IsLoadableImage image top
  raised-IsLoadableImage image limit top ok word covers = record {
    bytes_ok = ok.bytes_ok;
    elf = ok.elf;
    small = ok.small;
    entries = ok.entries;
    table = ok.table;
    segments = λ i inside.
        raised-IsLoadable image limit top i ok word covers inside (ok.segments i inside);
  }

  load_file_lem :
      (image : Image) (size base : ℕ) (s : Machine) (symbols : List Symbol)
      → base + size < 2 ^ 32
      → IsLoadableImage image (base + size)
      → AreAbove image base
      → load_symbols malloc fseek image (elf_header image.bytes) s.symbols ≡ some symbols
      → load_file malloc fseek image (elf_header image.bytes) size base s
        ≡ some (
          (elf_header image.bytes).e_entry,
          record (fresh_ram size base s) {
            memory = λ off. image_byte image (elf_header image.bytes).e_phnum 0 (base + off) 0;
            symbols = symbols;
            pc = (elf_header image.bytes).e_entry;
          },
        )
  unfolding load_file fresh_ram
  load_file_lem image size base s symbols word ok above table =
      let e = elf_header image.bytes in
      rw
        (
          load_file_segments_lem image e.e_phnum 0 (fresh_ram size base s) word ok above
              (omega arith),
          table,
        )
        refl

  -- For a 32-bit ELF file for RISC-V of less than 2 GB that can be read, whose table of program headers of
  -- 32 bytes or more lies in the file, with one PT_LOAD segment at least that is not empty, where each
  -- of them lies in the file and below 4 GB and has no more bytes in the file than in memory; where the
  -- caller asks for a size or the segments begin below 0x80000000, that size and the range of the
  -- segments are below 4 GB less 4 KB and the memory ends below 4 GB; and where there is memory of the
  -- size that the function computes and the symbol tables can be read: `rv_init_elf` returns the entry point and starts there with the memory that begins at the lowest
  -- segment, where each byte is what the segments that cover its address put there, the last one's last,
  -- and 0 where there is none. No segment is skipped.
  pub init_elf_contents :
      (image : Image) (ram_size limit : ℕ) (s : Machine) (symbols : List Symbol)
      → IsLoadableImage image limit
      → limit < 2 ^ 32
      → lowest fseek image < highest fseek image
      → highest fseek image - lowest fseek image < 2 ^ 32 - 4096
      → ram_size < 2 ^ 32 - 4096
      → (ram_size ≢ 0) ⊎ (lowest fseek image < 2 ^ 31)
      → lowest fseek image + room fseek image ram_size < 2 ^ 32
      → malloc (room fseek image ram_size) ≡ true
      → load_symbols malloc fseek image (elf_header image.bytes) s.symbols ≡ some symbols
      → init_elf malloc fseek (some image) ram_size s
        ≡ some (
          (elf_header image.bytes).e_entry,
          record (fresh_ram (room fseek image ram_size) (lowest fseek image) (reset_htif s)) {
            memory = λ off.
                image_byte image (elf_header image.bytes).e_phnum 0 (lowest fseek image + off) 0;
            symbols = symbols;
            pc = (elf_header image.bytes).e_entry;
          },
        )
  unfolding init_elf allocate_and_load reset_htif
  init_elf_contents image ram_size limit s symbols ok word some_segment narrow small asked top space
        table =
      let e = elf_header image.bytes in
      let elf = ok.elf in
      let long = ltb-false image.size 52 elf.header in
      let valid = (is_riscv_elf_iff image ok.bytes_ok elf.header).1 elf in
      let fits =
        ram_needed_fits ram_size (lowest fseek image) (highest fseek image) small narrow asked in
      let covers = fits.3 in
      let raised =
        raised-IsLoadableImage image limit (lowest fseek image + room fseek image ram_size) ok word
          (omega arith) in
      rw
        (
          long,
          valid,
          ints_fit image limit ok,
          leb-false (highest fseek image) (lowest fseek image) some_segment,
          space,
        )
        (load_file_lem image (room fseek image ram_size) (lowest fseek image) (reset_htif s) symbols
          top raised (lowest-AreAbove image limit ok) table)
