-- ===== src/Elf/Contents.antt =====
-- What the memory holds behind `rv_load_elf` of dpi-riscv/sim/iss/rv32_dpi.c, byte by byte.
use herve.Base.{
  ℕ, ◌+◌, ◌-◌, ◌^◌, ◌≤◌, ◌<◌, ◌≡◌, ◌≢◌, ◌∙◌, ◌⊎◌, refl, sym, ap, arith, fun_ext, true, false, not,
  ◌&&◌, ◌||◌, ◌==◌, ltb, leb, if◌then◌else◌, some, Bool-cases, inl, inr, ==_iff, ==-false,
  ltb-false, le→leb,
}
use herve.Word.{add32}
use herve.Machine.{Machine}
use herve.Elf.Header.{Image, ProgramHeader, pt_load}
use herve.Elf.Buffer.{copied, cleared, copy_bytes, clear_bytes, clear_rest, load_segment}

-- The byte that a program header puts at an address, where `old` was before: the file's bytes, zeroes
-- behind them up to the segment's end, and elsewhere the old ones.
unfoldable pub segment_byte : Image → ProgramHeader → ℕ → ℕ → ℕ
segment_byte image h addr old =
    if not (h.p_type == pt_load) || ltb addr h.p_vaddr || leb (h.p_vaddr + h.p_memsz) addr
    then old
    else if ltb addr (h.p_vaddr + h.p_filesz)
    then image.bytes (h.p_offset + (addr - h.p_vaddr))
    else 0

-- A segment that lies in a memory of `size` bytes and in the file.
pub record IsFitting (image : Image) (size : ℕ) (h : ProgramHeader) : Type 0 where
  pub in_memory : h.p_vaddr + h.p_memsz ≤ size
  pub in_file : h.p_offset + h.p_filesz ≤ image.size
  pub in_segment : h.p_filesz ≤ h.p_memsz

abbrev pub IsLoadable : Image → ℕ → ProgramHeader → Type 0
IsLoadable image size h = (h.p_type ≢ pt_load) ⊎ IsFitting image size h

abbrev pub with_memory : Machine → (ℕ → ℕ) → Machine
with_memory s m = record s { memory = m }

copy_bytes_lem :
    (image : Image) (at off n : ℕ) (s : Machine)
    → off + n ≤ image.size
    → at + n ≤ s.memory_size
    → copy_bytes image at off n s ≡ some (with_memory s (copied s.memory at image.bytes off n))
unfolding copy_bytes
copy_bytes_lem image at off n s file ram =
    let p = le→leb (off + n) image.size file in
    let q = le→leb (at + n) s.memory_size ram in rw (p, q) refl

pub clear_rest_lem :
    (h : ProgramHeader) (at : ℕ) (s : Machine)
    → at + (h.p_memsz - h.p_filesz) ≤ s.memory_size
    → clear_rest h at s ≡ some (with_memory s (cleared s.memory at (h.p_memsz - h.p_filesz)))
unfolding clear_rest clear_bytes cleared
clear_rest_lem h at s ram = elim (Bool-cases (ltb h.p_filesz h.p_memsz)) [
  | inl more ↦ let p = le→leb (at + (h.p_memsz - h.p_filesz)) s.memory_size ram in rw (more, p) refl
  | inr full ↦
      let same : s.memory
          ≡ (λ i. if leb at i && ltb i (at + (h.p_memsz - h.p_filesz)) then 0 else s.memory i) =
        fun_ext (λ i. ground arith) in
      rw full (ap (λ m. some (with_memory s m)) same)
]

-- The bytes that a copy and the zeroes behind it leave, and the zeroes alone where there is no copy.
segment_bytes :
    (image : Image) (h : ProgramHeader) (m : ℕ → ℕ)
    → h.p_type ≡ pt_load
    → h.p_filesz ≤ h.p_memsz
    → cleared
        (copied m h.p_vaddr image.bytes h.p_offset h.p_filesz)
        (h.p_vaddr + h.p_filesz)
        (h.p_memsz - h.p_filesz)
      ≡ (λ addr. segment_byte image h addr (m addr))
unfolding cleared copied segment_byte
segment_bytes image h m load order = fun_ext (λ addr. ground arith)

no_copy :
    (image : Image) (h : ProgramHeader) (m : ℕ → ℕ)
    → copied m h.p_vaddr image.bytes h.p_offset 0 ≡ m
unfolding copied
no_copy image h m = fun_ext (λ addr. ground arith)

load_segment_fitting :
    (image : Image) (h : ProgramHeader) (s : Machine)
    → s.memory_size < 2 ^ 32
    → h.p_type ≡ pt_load
    → IsFitting image s.memory_size h
    → load_segment image h s
      ≡ some (with_memory s (λ addr. segment_byte image h addr (s.memory addr)))
unfolding load_segment
load_segment_fitting image h s word load fit =
    let in_memory = fit.in_memory in
    let in_file = fit.in_file in
    let order = fit.in_segment in
    let pt : (h.p_type == pt_load) ≡ true = (==_iff h.p_type pt_load).1 load in
    let small : add32 h.p_vaddr h.p_memsz ≡ h.p_vaddr + h.p_memsz = omega arith in
    let at : add32 h.p_vaddr h.p_filesz ≡ h.p_vaddr + h.p_filesz = omega arith in
    let ram = ltb-false s.memory_size (h.p_vaddr + h.p_memsz) in_memory in
    let file : ltb image.size (add32 h.p_offset h.p_filesz) ≡ false =
      ltb-false image.size (add32 h.p_offset h.p_filesz) (omega arith) in
    let rest =
      clear_rest_lem h (h.p_vaddr + h.p_filesz)
        (with_memory s (copied s.memory h.p_vaddr image.bytes h.p_offset h.p_filesz)) (omega arith)
      ∙ ap (λ m. some (with_memory s m)) (segment_bytes image h s.memory load order) in
    elim (Bool-cases (ltb 0 h.p_filesz)) [
      | inl some_bytes ↦
          rw
            (
              pt,
              small,
              ram,
              some_bytes,
              file,
              at,
              copy_bytes_lem image h.p_vaddr h.p_offset h.p_filesz s in_file (omega arith),
            )
            rest
      | inr no_bytes ↦
          let none : h.p_filesz ≡ 0 = ground arith in
          let same =
            ap (λ n. copied s.memory h.p_vaddr image.bytes h.p_offset n) none
            ∙ no_copy image h s.memory in
          rw (pt, small, ram, no_bytes, at)
            (ap (λ m. clear_rest h (h.p_vaddr + h.p_filesz) (with_memory s m)) (sym same) ∙ rest)
    ]

pub load_segment_lem :
    (image : Image) (h : ProgramHeader) (s : Machine)
    → s.memory_size < 2 ^ 32
    → IsLoadable image s.memory_size h
    → load_segment image h s
      ≡ some (with_memory s (λ addr. segment_byte image h addr (s.memory addr)))
unfolding load_segment segment_byte
load_segment_lem image h s word (inl other) = let p = ==-false h.p_type pt_load other in rw p refl
load_segment_lem image h s word (inr fit) = elim (Bool-cases (h.p_type == pt_load)) [
  | inl p ↦ load_segment_fitting image h s word ((==_iff h.p_type pt_load).0 p) fit
  | inr p ↦ rw p refl
]
