-- ===== src/Elf/File.antt =====
-- `rv_init_elf` of dpi-riscv/sim/iss/rv32_dpi.c. `malloc` and `fseek` are parameters: whether there
-- is memory of a size, and whether the file can be read from an offset on.
use herve.Base.{
  ℕ, zero, suc, ◌+◌, ◌-◌, ◌*◌, ◌/◌, ◌^◌, Bool, true, false, not, ◌&&◌, ◌||◌, ◌==◌, ltb, leb,
  if◌then◌else◌, Option, none, some,
}
use herve.Word.{u32, add32}
use herve.Machine.{Machine, ◌>>=◌}
use herve.Elf.Header.{
  Image, ElfHeader, ProgramHeader, elf_header, program_header, pt_load, is_riscv_elf,
}
use herve.Elf.Buffer.{copied, clear_rest}
use herve.Elf.SymbolTable.{bytes_read, load_symbols}

-- "Reset HTIF state".
unfoldable pub reset_htif : Machine → Machine
reset_htif s = record s {
  htif_tohost_lo = 0;
  htif_tohost_hi = 0;
  htif_fromhost_lo = 0;
  htif_fromhost_hi = 0;
  htif_exit = false;
  htif_exit_code = 0;
  htif_halted = false;
}

-- The lowest and the highest address so far, with one more program header; `none` is one that
-- cannot be read.
unfoldable pub widen : Option ProgramHeader → ℕ → ℕ → ℕ × ℕ
widen none min max = (min, max)
widen (some h) min max =
    let end = add32 h.p_vaddr h.p_memsz in
    if h.p_type == pt_load
    then (if ltb h.p_vaddr min then h.p_vaddr else min, if ltb max end then end else max)
    else (min, max)

-- "Allocate RAM": the size, with `& ~4095u` at the end.
unfoldable pub ram_needed : ℕ → ℕ → ℕ → ℕ
ram_needed ram_size min_addr max_addr =
    let needed = max_addr - min_addr in
    let wanted = if ltb needed ram_size then u32 ram_size else needed in
    let enough =
      if ram_size == 0 && leb 0x80000000 min_addr
      then 2 * 1024 * 1024
      else if ltb wanted (2 ^ 20)
      then 2 ^ 20
      else wanted in
    u32 (enough + 4095) / 4096 * 4096

-- The state behind a failed `malloc`.
unfoldable pub no_ram : Machine → Machine
no_ram s = record s { memory = λ _. 0; memory_size = 0; initialized = false }

-- The state behind a successful one.
unfoldable pub fresh_ram : ℕ → ℕ → Machine → Machine
fresh_ram size base s = record s {
  memory = λ _. 0;
  memory_size = size;
  memory_base = base;
  regs = λ _. 0;
  pc = 0;
  irq_mask = 0;
  wfi_sleep = false;
  csr_mie = 0xFFFFFFFF;
  initialized = true;
}

-- `fread(&memory[at], 1, n, file)` with the file at offset `off`.
unfoldable pub read_bytes : Image → ℕ → ℕ → ℕ → Machine → Option Machine
read_bytes image at off n s =
    let got = bytes_read image off n in
    if leb (at + got) s.memory_size
    then some (record s { memory = copied s.memory at image.bytes off got })
    else none

module _ (fseek : ℕ → Bool) where
  -- The program header `i`, if it can be read; `i * e_phentsize` is an `int`, and the sum wraps.
  unfoldable pub file_header : Image → ElfHeader → ℕ → Option ProgramHeader
  file_header image e i =
      let off = u32 (e.e_phoff + i * e.e_phentsize) in
      if fseek off && leb (off + 32) image.size then some (program_header image.bytes off) else none

  -- The first loop.
  unfoldable pub segment_range : Image → ElfHeader → ℕ → ℕ → ℕ → ℕ → ℕ × ℕ
  segment_range image e zero i min max = (min, max)
  segment_range image e (suc left) i min max =
      let (low, high) = widen (file_header image e i) min max in
      segment_range image e left (i + 1) low high

  -- The body of the second loop.
  unfoldable pub load_file_segment : Image → ProgramHeader → Machine → Option Machine
  load_file_segment image h s =
      let at = h.p_vaddr - s.memory_base in
      if not (h.p_type == pt_load)
      then some s
      else if ltb h.p_vaddr s.memory_base
          || ltb (add32 s.memory_base s.memory_size) (add32 h.p_vaddr h.p_memsz)
      then some s
      else if ltb 0 h.p_filesz
      then (if not (fseek h.p_offset) then some s else (do
        t ← read_bytes image at h.p_offset h.p_filesz s
        clear_rest h (u32 (at + h.p_filesz)) t))
      else clear_rest h (u32 (at + h.p_filesz)) s

  unfoldable pub load_readable : Image → Option ProgramHeader → Machine → Option Machine
  load_readable image none s = some s
  load_readable image (some h) s = load_file_segment image h s

  unfoldable pub load_file_segments : Image → ElfHeader → ℕ → ℕ → Machine → Option Machine
  load_file_segments image e zero i s = some s
  load_file_segments image e (suc left) i s = do
    t ← load_readable image (file_header image e i) s
    load_file_segments image e left (i + 1) t

module _ (malloc fseek : ℕ → Bool) where
  -- What follows the allocation.
  unfoldable pub load_file : Image → ElfHeader → ℕ → ℕ → Machine → Option (ℕ × Machine)
  load_file image e size base s = do
    t ← load_file_segments fseek image e e.e_phnum 0 (fresh_ram size base s)
    symbols ← load_symbols malloc fseek image e t.symbols
    some (e.e_entry, record t { symbols = symbols; pc = e.e_entry })

  -- What follows the range of the addresses.
  unfoldable pub allocate_and_load : Image → ElfHeader → ℕ → ℕ → ℕ → Machine → Option (ℕ × Machine)
  allocate_and_load image e ram_size min_addr max_addr s =
      let size = ram_needed ram_size min_addr max_addr in
      if leb max_addr min_addr
      then some (0, s)
      else if malloc size
      then load_file image e size min_addr s
      else some (0, no_ram s)

  -- `rv_init_elf`, with what it returns; `none` for the image is a path that is null, empty or
  -- that of no file which opens. The largest `i * e_phentsize` has to be an `int`.
  unfoldable pub init_elf : Option Image → ℕ → Machine → Option (ℕ × Machine)
  init_elf none ram_size s = some (0, s)
  init_elf (some image) ram_size s =
      let e = elf_header image.bytes in
      if ltb image.size 52
      then some (0, s)
      else if not (is_riscv_elf e)
      then some (0, s)
      else if leb (2 ^ 31) ((e.e_phnum - 1) * e.e_phentsize)
      then none
      else (let (min_addr, max_addr) = segment_range fseek image e e.e_phnum 0 0xFFFFFFFF 0 in
          allocate_and_load image e ram_size min_addr max_addr (reset_htif s))
