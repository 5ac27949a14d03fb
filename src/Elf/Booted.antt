-- ===== src/Elf/Booted.antt =====
-- The whole of `rv_init_elf` of dpi-riscv/sim/iss/rv32_dpi.c, for a file that is read without errors and
-- whose segments fit.
use herve.Base.{
  ℕ, ◌+◌, ◌-◌, ◌*◌, ◌^◌, ◌≤◌, ◌<◌, ◌≡◌, ◌∙◌, refl, ap, sym, arith, fun_ext, Bool, true, ◌==◌, ltb,
  some, inl, inr, Bool-cases, ==_iff, ==-false, ltb-false, le→leb,
}
use herve.Word.{u32, add32}
use herve.Machine.{Machine}
use herve.Elf.Header.{Image, ProgramHeader, elf_header, pt_load}
use herve.Elf.Buffer.{copied, cleared, clear_rest}
use herve.Elf.SymbolTable.{bytes_read}
use herve.Elf.File.{read_bytes, file_header, load_file_segment}
use herve.Elf.Contents.{segment_byte, IsFitting, IsLoadable, with_memory, clear_rest_lem}
use herve.Elf.Loaded.{header_at, IsLoadableImage, entry_in_table}

read_bytes_lem :
    (image : Image) (at off n : ℕ) (s : Machine)
    → off + n ≤ image.size
    → at + n ≤ s.memory_size
    → read_bytes image at off n s ≡ some (with_memory s (copied s.memory at image.bytes off n))
unfolding read_bytes bytes_read
read_bytes_lem image at off n s file ram =
    let p = le→leb (off + n) image.size file in
    let q = le→leb (at + n) s.memory_size ram in rw (p, q) refl

-- The bytes that a read and the zeroes behind it leave in a memory from `base` on.
based_bytes :
    (image : Image) (h : ProgramHeader) (base : ℕ) (m : ℕ → ℕ)
    → h.p_type ≡ pt_load
    → base ≤ h.p_vaddr
    → h.p_filesz ≤ h.p_memsz
    → cleared
        (copied m (h.p_vaddr - base) image.bytes h.p_offset h.p_filesz)
        (h.p_vaddr - base + h.p_filesz)
        (h.p_memsz - h.p_filesz)
      ≡ (λ off. segment_byte image h (base + off) (m off))
unfolding cleared copied segment_byte
based_bytes image h base m load low order = fun_ext (λ off.
    let same : off - (h.p_vaddr - base) ≡ base + off - h.p_vaddr = omega arith in
    rw same (ground arith))

no_read : (image : Image) (at off : ℕ) (m : ℕ → ℕ) → copied m at image.bytes off 0 ≡ m
unfolding copied
no_read image at off m = fun_ext (λ addr. ground arith)

module _ (fseek : ℕ → Bool) (readable : (off : ℕ) → fseek off ≡ true) where
  load_file_segment_fitting :
      (image : Image) (h : ProgramHeader) (s : Machine)
      → s.memory_base + s.memory_size < 2 ^ 32
      → h.p_type ≡ pt_load
      → s.memory_base ≤ h.p_vaddr
      → IsFitting image (s.memory_base + s.memory_size) h
      → load_file_segment fseek image h s
        ≡ some (with_memory s (λ off. segment_byte image h (s.memory_base + off) (s.memory off)))
  unfolding load_file_segment
  load_file_segment_fitting image h s word load low fit =
      let in_memory = fit.in_memory in
      let in_file = fit.in_file in
      let order = fit.in_segment in
      let at = h.p_vaddr - s.memory_base in
      let pt : (h.p_type == pt_load) ≡ true = (==_iff h.p_type pt_load).1 load in
      let above = ltb-false h.p_vaddr s.memory_base low in
      let end : add32 h.p_vaddr h.p_memsz ≡ h.p_vaddr + h.p_memsz = omega arith in
      let top : add32 s.memory_base s.memory_size ≡ s.memory_base + s.memory_size = omega arith in
      let below = ltb-false (s.memory_base + s.memory_size) (h.p_vaddr + h.p_memsz) in_memory in
      let behind : u32 (at + h.p_filesz) ≡ at + h.p_filesz = omega arith in
      let rest =
        clear_rest_lem h (at + h.p_filesz)
          (with_memory s (copied s.memory at image.bytes h.p_offset h.p_filesz)) (omega arith)
        ∙ ap (λ m. some (with_memory s m))
            (based_bytes image h s.memory_base s.memory load low order) in
      elim (Bool-cases (ltb 0 h.p_filesz)) [
        | inl some_bytes ↦
            rw
              (
                pt,
                above,
                end,
                top,
                below,
                some_bytes,
                readable h.p_offset,
                behind,
                read_bytes_lem image at h.p_offset h.p_filesz s in_file (omega arith),
              )
              rest
        | inr no_bytes ↦
            let none : h.p_filesz ≡ 0 = ground arith in
            let same =
              ap (λ n. copied s.memory at image.bytes h.p_offset n) none
              ∙ no_read image at h.p_offset s.memory in
            rw (pt, above, end, top, below, no_bytes, behind)
              (ap (λ m. clear_rest h (at + h.p_filesz) (with_memory s m)) (sym same) ∙ rest)
      ]

  pub load_file_segment_lem :
      (image : Image) (h : ProgramHeader) (s : Machine)
      → s.memory_base + s.memory_size < 2 ^ 32
      → (h.p_type ≡ pt_load → s.memory_base ≤ h.p_vaddr)
      → IsLoadable image (s.memory_base + s.memory_size) h
      → load_file_segment fseek image h s
        ≡ some (with_memory s (λ off. segment_byte image h (s.memory_base + off) (s.memory off)))
  unfolding load_file_segment segment_byte
  load_file_segment_lem image h s word low (inl other) =
      let p = ==-false h.p_type pt_load other in rw p refl
  load_file_segment_lem image h s word low (inr fit) = elim (Bool-cases (h.p_type == pt_load)) [
    | inl p ↦
        let load = (==_iff h.p_type pt_load).0 p in
        load_file_segment_fitting image h s word load (low load) fit
    | inr p ↦ rw p refl
  ]

  pub file_header_lem :
      (image : Image) (size i : ℕ)
      → IsLoadableImage image size
      → i < (elf_header image.bytes).e_phnum
      → file_header fseek image (elf_header image.bytes) i ≡ some (header_at image i)
  unfolding file_header
  file_header_lem image size i ok h =
      let e = elf_header image.bytes in
      let inside = entry_in_table e.e_phnum e.e_phentsize i h in
      let table = ok.table in
      let small = ok.small in
      let entries = ok.entries in
      let word : u32 (e.e_phoff + i * e.e_phentsize) ≡ e.e_phoff + i * e.e_phentsize =
        omega arith in
      let q = le→leb (e.e_phoff + i * e.e_phentsize + 32) image.size (omega arith) in
      rw (word, readable (e.e_phoff + i * e.e_phentsize), q) refl
