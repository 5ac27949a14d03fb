-- ===== src/Elf/Preserve.antt =====
-- What `rv_load_elf` of dpi-riscv/sim/iss/rv32_dpi.c leaves as it is: all but the memory's bytes.
use herve.Base.{
  ℕ, zero, suc, ◌+◌, ◌-◌, ◌^◌, ◌<◌, ◌≡◌, ◌∙◌, refl, sym, ap, arith, ◌&&◌, ltb, leb, Option, none,
  some,
}
use herve.Memory.Ram.{read_le}
use mathlib.Core.Path.{subst}
use herve.Word.{add32}
use herve.Machine.{Machine, Ensures, Ensures-bind, if-Ensures, ◌>>=◌}
use herve.Machine.WellFormed.{IsWellFormed, IsWellFormed-of_parts}
use herve.Elf.Header.{Image, ElfHeader, ProgramHeader, elf_header}
use herve.Elf.Buffer.{
  copied, cleared, copy_bytes, clear_bytes, clear_rest, load_segment, buffer_header, load_segments,
  load_elf,
}
use herve.Elf.Reject.{IsByteImage}

-- The second state is the first one with other bytes in its memory.
pub record IsReloaded (s t : Machine) : Type 0 where
  pub bytes_ok : (i : ℕ) → t.memory i < 256
  pub frame : t ≡ record s { memory = t.memory }

pub read_le_lt : (image : Image) (off : ℕ) → IsByteImage image → read_le image.bytes off 4 < 2 ^ 32
unfolding read_le
read_le_lt image off bytes =
    let a = bytes off in
    let b = bytes (off + 1) in
    let c = bytes (off + 1 + 1) in let d = bytes (off + 1 + 1 + 1) in omega arith

IsReloaded-trans : {s t u : Machine} → IsReloaded s t → IsReloaded t u → IsReloaded s u
IsReloaded-trans {s} {t} {u} p q = record {
  bytes_ok = q.bytes_ok;
  frame = q.frame ∙ ap (λ (x : Machine). record x { memory = u.memory }) p.frame;
}

abbrev pub IsBytesOf : Machine → Type 0
IsBytesOf s = (i : ℕ) → s.memory i < 256

pub copied-lt :
    (image : Image) (at off n : ℕ) (memory : ℕ → ℕ)
    → IsByteImage image
    → ((i : ℕ) → memory i < 256)
    → (i : ℕ) → copied memory at image.bytes off n i < 256
unfolding copied
copied-lt image at off n memory bytes h i =
    let b = bytes (off + (i - at)) in let m = h i in ground arith

copy_bytes-IsReloaded :
    (image : Image) (at off n : ℕ) (s : Machine)
    → IsByteImage image
    → IsBytesOf s
    → Ensures (IsReloaded s) (copy_bytes image at off n s)
unfolding copy_bytes
copy_bytes-IsReloaded image at off n s bytes h =
    if-Ensures (IsReloaded s) (leb (off + n) image.size && leb (at + n) s.memory_size) (some _) none
      (record { bytes_ok = copied-lt image at off n s.memory bytes h; frame = refl }) tt

pub clear_bytes-IsReloaded :
    (at n : ℕ) (s : Machine) → IsBytesOf s → Ensures (IsReloaded s) (clear_bytes at n s)
unfolding clear_bytes cleared
clear_bytes-IsReloaded at n s h =
    if-Ensures (IsReloaded s) (leb (at + n) s.memory_size) (some _) none
      (record { bytes_ok = λ i. (let m = h i in ground arith); frame = refl }) tt

pub same-IsReloaded : (s : Machine) → IsBytesOf s → IsReloaded s s
same-IsReloaded s h = record { bytes_ok = h; frame = refl }

pub clear_rest-IsReloaded :
    (h : ProgramHeader) (at : ℕ) (s : Machine)
    → IsBytesOf s
    → Ensures (IsReloaded s) (clear_rest h at s)
unfolding clear_rest
clear_rest-IsReloaded h at s ok =
    if-Ensures (IsReloaded s) (ltb h.p_filesz h.p_memsz) (clear_bytes at (h.p_memsz - h.p_filesz) s)
      (some s) (clear_bytes-IsReloaded at (h.p_memsz - h.p_filesz) s ok) (same-IsReloaded s ok)

-- A step that reloads, followed by one that does.
pub IsReloaded-bind :
    (s : Machine) (m : Option Machine) (f : Machine → Option Machine)
    → Ensures (IsReloaded s) m
    → ((t : Machine) → IsBytesOf t → Ensures (IsReloaded t) (f t))
    → Ensures (IsReloaded s) (m >>= f)
IsReloaded-bind s none f h k = tt
IsReloaded-bind s (some t) f h k = lift (f t) (k t h.bytes_ok)
  where
    lift : (r : Option Machine) → Ensures (IsReloaded t) r → Ensures (IsReloaded s) r
    lift none p = tt
    lift (some u) p = IsReloaded-trans h p

load_segment-IsReloaded :
    (image : Image) (h : ProgramHeader) (s : Machine)
    → IsByteImage image
    → IsBytesOf s
    → Ensures (IsReloaded s) (load_segment image h s)
unfolding load_segment
load_segment-IsReloaded image h s bytes ok =
    search
      (if-Ensures, same, copied_part, clear_rest-IsReloaded h (add32 h.p_vaddr h.p_filesz) s ok)
  where
    same : IsReloaded s s
    same = same-IsReloaded s ok

    copied_part : Ensures (IsReloaded s) (
        copy_bytes image h.p_vaddr h.p_offset h.p_filesz s
        >>= (λ t. clear_rest h (add32 h.p_vaddr h.p_filesz) t))
    copied_part =
        IsReloaded-bind s (copy_bytes image h.p_vaddr h.p_offset h.p_filesz s) _
          (copy_bytes-IsReloaded image h.p_vaddr h.p_offset h.p_filesz s bytes ok)
          (clear_rest-IsReloaded h (add32 h.p_vaddr h.p_filesz))

-- Whatever the first step gives, the second one is as wanted.
pub Ensures-each :
    {A B : Type 0} (Q : B → Type 0) (m : Option A) (f : A → Option B)
    → ((a : A) → Ensures Q (f a))
    → Ensures Q (m >>= f)
Ensures-each Q none f k = tt
Ensures-each Q (some a) f k = k a

load_segments-IsReloaded :
    (image : Image) (e : ElfHeader) (left i : ℕ) (s : Machine)
    → IsByteImage image
    → IsBytesOf s
    → Ensures (IsReloaded s) (load_segments image e left i s)
unfolding load_segments
load_segments-IsReloaded image e zero i s bytes ok = same-IsReloaded s ok
load_segments-IsReloaded image e (suc left) i s bytes ok =
    Ensures-each (IsReloaded s) (buffer_header image e i) _ (λ h.
      IsReloaded-bind s (load_segment image h s) _ (load_segment-IsReloaded image h s bytes ok)
        (λ t ok'. load_segments-IsReloaded image e left (i + 1) t bytes ok'))

pub IsReloaded-IsWellFormed : {s t : Machine} → IsWellFormed s → IsReloaded s t → IsWellFormed t
IsReloaded-IsWellFormed {s} {t} w r = subst IsWellFormed (sym r.frame) (
    IsWellFormed-of_parts (record s { memory = t.memory }) w.regs_ok
      (record { memory_lt = r.bytes_ok; size_lt = w.ram_ok.size_lt; base_lt = w.ram_ok.base_lt })
      w.pc_ok w.csrs_ok w.htif_ok)

-- The state that `rv_load_elf` leaves, where its behaviour is defined.
abbrev pub IsLoaded : Machine → ℕ × Machine → Type 0
IsLoaded s r = IsWellFormed r.1 × (r.1 ≡ record s { memory = r.1.memory }) × (r.0 < 2 ^ 32)

-- Where the behaviour of `rv_load_elf` is defined, with any buffer of bytes or none, it changes no
-- variable of the simulator but the bytes of the memory, keeps every variable in the range of its C
-- type, and returns a word of 32 bits.
pub load_elf-IsLoaded :
    (image : Image) (s : Machine)
    → IsByteImage image
    → IsWellFormed s
    → Ensures (IsLoaded s) (load_elf none s) × Ensures (IsLoaded s) (load_elf (some image) s)
unfolding load_elf
load_elf-IsLoaded image s bytes w = (same, search (if-Ensures, same, loaded))
  where
    e : ElfHeader
    e = elf_header image.bytes

    same : IsLoaded s (0, s)
    same = (w, refl, omega arith)

    loaded :
        Ensures
          (IsLoaded s)
          (load_segments image e e.e_phnum 0 s >>= (λ (t : Machine). some (e.e_entry, t)))
    loaded =
        Ensures-bind (IsReloaded s) (IsLoaded s) (load_segments image e e.e_phnum 0 s) _
          (load_segments-IsReloaded image e e.e_phnum 0 s bytes w.ram_ok.memory_lt)
          (λ t r. (IsReloaded-IsWellFormed w r, r.frame, read_le_lt image 24 bytes))
