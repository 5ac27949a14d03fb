-- ===== src/Elf/FilePreserve.antt =====
-- What the second loop of `rv_init_elf` of dpi-riscv/sim/iss/rv32_dpi.c leaves as it is: all but the
-- memory's bytes.
use herve.Base.{ℕ, zero, suc, ◌+◌, ◌-◌, ◌<◌, refl, Bool, leb, Option, none, some}
use herve.Word.{u32}
use herve.Machine.{Machine, Ensures, if-Ensures, ◌>>=◌}
use herve.Elf.Header.{Image, ElfHeader, ProgramHeader}
use herve.Elf.Buffer.{clear_rest}
use herve.Elf.SymbolTable.{bytes_read}
use herve.Elf.File.{read_bytes, file_header, load_file_segment, load_readable, load_file_segments}
use herve.Elf.Reject.{IsByteImage}
use herve.Elf.Preserve.{
  IsReloaded, IsReloaded-bind, clear_rest-IsReloaded, same-IsReloaded, copied-lt,
}

read_bytes-IsReloaded :
    (image : Image) (at off n : ℕ) (s : Machine)
    → IsByteImage image
    → ((i : ℕ) → s.memory i < 256)
    → Ensures (IsReloaded s) (read_bytes image at off n s)
unfolding read_bytes
read_bytes-IsReloaded image at off n s bytes h =
    if-Ensures (IsReloaded s) (leb (at + bytes_read image off n) s.memory_size) (some _) none
      (record {
        bytes_ok = copied-lt image at off (bytes_read image off n) s.memory bytes h;
        frame = refl;
      })
      tt

module _ (fseek : ℕ → Bool) where
  load_file_segment-IsReloaded :
      (image : Image) (h : ProgramHeader) (s : Machine)
      → IsByteImage image
      → ((i : ℕ) → s.memory i < 256)
      → Ensures (IsReloaded s) (load_file_segment fseek image h s)
  unfolding load_file_segment
  load_file_segment-IsReloaded image h s bytes ok =
      search (if-Ensures, same, read_part, clear_rest-IsReloaded h behind s ok)
    where
      behind : ℕ
      behind = u32 (h.p_vaddr - s.memory_base + h.p_filesz)

      same : Ensures (IsReloaded s) (some s)
      same = same-IsReloaded s ok

      read_part : Ensures (IsReloaded s) (
          read_bytes image (h.p_vaddr - s.memory_base) h.p_offset h.p_filesz s
          >>= (λ t. clear_rest h behind t))
      read_part =
          IsReloaded-bind s (read_bytes image (h.p_vaddr - s.memory_base) h.p_offset h.p_filesz s) _
            (read_bytes-IsReloaded image (h.p_vaddr - s.memory_base) h.p_offset h.p_filesz s bytes
              ok)
            (clear_rest-IsReloaded h behind)

  load_readable-IsReloaded :
      (image : Image) (header : Option ProgramHeader) (s : Machine)
      → IsByteImage image
      → ((i : ℕ) → s.memory i < 256)
      → Ensures (IsReloaded s) (load_readable fseek image header s)
  unfolding load_readable
  load_readable-IsReloaded image none s bytes ok = same-IsReloaded s ok
  load_readable-IsReloaded image (some h) s bytes ok =
      load_file_segment-IsReloaded image h s bytes ok

  pub load_file_segments-IsReloaded :
      (image : Image) (e : ElfHeader) (left i : ℕ) (s : Machine)
      → IsByteImage image
      → ((i : ℕ) → s.memory i < 256)
      → Ensures (IsReloaded s) (load_file_segments fseek image e left i s)
  unfolding load_file_segments
  load_file_segments-IsReloaded image e zero i s bytes ok = same-IsReloaded s ok
  load_file_segments-IsReloaded image e (suc left) i s bytes ok =
      IsReloaded-bind s (load_readable fseek image (file_header fseek image e i) s) _
        (load_readable-IsReloaded image (file_header fseek image e i) s bytes ok)
        (λ t ok'. load_file_segments-IsReloaded image e left (i + 1) t bytes ok')
