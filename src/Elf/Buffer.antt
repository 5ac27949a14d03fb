-- ===== src/Elf/Buffer.antt =====
-- `rv_load_elf` of dpi-riscv/sim/iss/rv32_dpi.c, from a buffer of bytes. A byte outside of that
-- buffer or of the memory, or an `int` that overflows, is undefined behaviour: `none`.
use herve.Base.{
  ℕ, zero, suc, ◌+◌, ◌-◌, ◌*◌, ◌^◌, not, ◌&&◌, ◌||◌, ◌==◌, ltb, leb, if◌then◌else◌, Option, none,
  some,
}
use herve.Word.{u32, add32}
use herve.Machine.{Machine, ◌>>=◌}
use herve.Elf.Header.{
  Image, ElfHeader, ProgramHeader, elf_header, program_header, pt_load, is_riscv_elf,
}

-- The memory behind `memcpy(&memory[at], bytes + off, n)` and `memset(&memory[at], 0, n)`.
unfoldable pub copied : (ℕ → ℕ) → ℕ → (ℕ → ℕ) → ℕ → ℕ → ℕ → ℕ
copied memory at bytes off n i =
    if leb at i && ltb i (at + n) then bytes (off + (i - at)) else memory i

unfoldable pub cleared : (ℕ → ℕ) → ℕ → ℕ → ℕ → ℕ
cleared memory at n i = if leb at i && ltb i (at + n) then 0 else memory i

unfoldable pub copy_bytes : Image → ℕ → ℕ → ℕ → Machine → Option Machine
copy_bytes image at off n s =
    if leb (off + n) image.size && leb (at + n) s.memory_size
    then some (record s { memory = copied s.memory at image.bytes off n })
    else none

unfoldable pub clear_bytes : ℕ → ℕ → Machine → Option Machine
clear_bytes at n s =
    if leb (at + n) s.memory_size then some (record s { memory = cleared s.memory at n }) else none

-- The end of a segment's loading: the bytes behind those of the file.
unfoldable pub clear_rest : ProgramHeader → ℕ → Machine → Option Machine
clear_rest h at s =
    if ltb h.p_filesz h.p_memsz then clear_bytes at (h.p_memsz - h.p_filesz) s else some s

-- The body of the loop for one program header.
unfoldable pub load_segment : Image → ProgramHeader → Machine → Option Machine
load_segment image h s =
    if not (h.p_type == pt_load)
    then some s
    else if ltb s.memory_size (add32 h.p_vaddr h.p_memsz)
    then some s
    else if ltb 0 h.p_filesz
    then (if ltb image.size (add32 h.p_offset h.p_filesz) then some s else (do
      t ← copy_bytes image h.p_vaddr h.p_offset h.p_filesz s
      clear_rest h (add32 h.p_vaddr h.p_filesz) t))
    else clear_rest h (add32 h.p_vaddr h.p_filesz) s

-- The program header `i`, through the pointer `elf_data + e_phoff + i * e_phentsize`.
unfoldable pub buffer_header : Image → ElfHeader → ℕ → Option ProgramHeader
buffer_header image e i =
    let off = e.e_phoff + i * e.e_phentsize in
    if ltb (i * e.e_phentsize) (2 ^ 31) && leb (off + 32) image.size
    then some (program_header image.bytes off)
    else none

-- The loop, with `left` headers to go, from header `i` on.
unfoldable pub load_segments : Image → ElfHeader → ℕ → ℕ → Machine → Option Machine
load_segments image e zero i s = some s
load_segments image e (suc left) i s = do
  h ← buffer_header image e i
  t ← load_segment image h s
  load_segments image e left (i + 1) t

-- `rv_load_elf`, with what it returns; `none` for the image is a null pointer.
unfoldable pub load_elf : Option Image → Machine → Option (ℕ × Machine)
load_elf none s = some (0, s)
load_elf (some image) s =
    let e = elf_header image.bytes in
    let ph_end = u32 (e.e_phoff + e.e_phnum * e.e_phentsize) in
    if ltb image.size 52
    then some (0, s)
    else if not (is_riscv_elf e)
    then some (0, s)
    else if ltb image.size ph_end || ltb e.e_phentsize 32
    then some (0, s)
    else (do t ← load_segments image e e.e_phnum 0 s; some (e.e_entry, t))
