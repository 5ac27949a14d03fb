-- ===== src/Tests/ElfFile.antt =====
-- A small ELF file for the uses of the theorems on the loaders.
use herve.Base.{
  ℕ, zero, suc, ◌/◌, ◌%◌, ◌≤◌, ◌<◌, ◌≡◌, refl, arith, Bool, true, false, ◌&&◌, ltb, leb→le, ltb→lt,
  if-both, List, [], ◌∷◌, ◌++◌, inr, ◌==◌, if◌then◌else◌,
}
use herve.Boot.{byte_or_zero}
use herve.Boot.Establish.{IsBytes, byte_or_zero-lt}
use herve.Memory.Ram.{read_le}
use herve.Elf.Header.{Image}
use herve.Elf.Reject.{IsByteImage, IsRiscvElf}
use herve.Elf.Contents.{IsFitting}
use herve.Elf.Loaded.{header_at, IsLoadableImage}

-- A number as bytes, the lowest one first.
abbrev pub le : ℕ → ℕ → List ℕ
le zero value = []
le (suc width) value = (value % 256) ∷ le width (value / 256)

-- A header, a program header for 4 bytes at offset 84 and 4 zeroes behind them at 0x100, those bytes, the
-- sections of a symbol table and its strings, one symbol, and the string "f".
abbrev pub ident : List ℕ
ident = 0x7F ∷ 0x45 ∷ 0x4C ∷ 0x46 ∷ 1 ∷ 1 ∷ 1 ∷ le 9 0

abbrev pub elf_header_bytes : List ℕ
elf_header_bytes =
    ident
    ++ (le 2 2
        ++ (le 2 0xF3
            ++ (le 4 1
                ++ (le 4 0x100
                    ++ (le 4 52
                        ++ (le 4 88
                            ++ (le 4 0
                                ++ (le 2 52
                                    ++ (le 2 32
                                        ++ (le 2 1 ++ (le 2 40 ++ (le 2 2 ++ le 2 0))))))))))))

abbrev pub segment_bytes : List ℕ
segment_bytes =
    le 4 1
    ++ (le 4 84
        ++ (le 4 0x100
            ++ (le 4 0x100 ++ (le 4 4 ++ (le 4 8 ++ (le 4 7 ++ (le 4 4 ++ le 4 0x00500513)))))))

abbrev pub section_bytes : List ℕ
section_bytes =
    le 4 0
    ++ (le 4 2
        ++ (le 8 0
            ++ (le 4 168
                ++ (le 4 16
                    ++ (le 4 1
                        ++ (le 12 0
                            ++ (le 4 0
                                ++ (le 4 3 ++ (le 8 0 ++ (le 4 184 ++ (le 4 2 ++ le 16 0)))))))))))

abbrev pub symbol_bytes : List ℕ
symbol_bytes = le 4 0 ++ (le 4 0x100 ++ (le 4 4 ++ (2 ∷ 0 ∷ le 2 1))) ++ (0x66 ∷ 0 ∷ [])

abbrev pub elf_bytes : List ℕ
elf_bytes = elf_header_bytes ++ (segment_bytes ++ (section_bytes ++ symbol_bytes))

abbrev pub elf_file : Image
elf_file = record { bytes = byte_or_zero elf_bytes; size = 186 }

abbrev are_bytes : List ℕ → Bool
are_bytes [] = true
are_bytes (b ∷ bs) = ltb b 256 && are_bytes bs

are_bytes_split : (x y : Bool) → (x && y) ≡ true → (x ≡ true) × (y ≡ true)
are_bytes_split true true e = (refl, refl)
are_bytes_split true false e = (refl, e)
are_bytes_split false y e = (e, absurd (grind arith))

are_bytes-IsBytes : (bs : List ℕ) → are_bytes bs ≡ true → IsBytes bs
are_bytes-IsBytes [] e = tt
are_bytes-IsBytes (b ∷ bs) e =
    let both = are_bytes_split (ltb b 256) (are_bytes bs) e in
    (ltb→lt b 256 both.0, are_bytes-IsBytes bs both.1)

pub elf_file-IsByteImage : IsByteImage elf_file
elf_file-IsByteImage = λ i. byte_or_zero-lt elf_bytes i (are_bytes-IsBytes elf_bytes refl)

pub elf_file-IsRiscvElf : IsRiscvElf elf_file
elf_file-IsRiscvElf = record {
  header = omega arith;
  magic_0 = refl;
  magic_1 = refl;
  magic_2 = refl;
  magic_3 = refl;
  class = refl;
  order = refl;
  machine_lo = refl;
  machine_hi = refl;
}

pub elf_file-IsFitting : (size : ℕ) → 0x108 ≤ size → IsFitting elf_file size (header_at elf_file 0)
unfolding read_le
elf_file-IsFitting size h = record {
  in_memory = h;
  in_file = leb→le 88 186 refl;
  in_segment = leb→le 4 8 refl;
}

pub elf_file-IsLoadableImage : (size : ℕ) → 0x108 ≤ size → IsLoadableImage elf_file size
unfolding read_le
elf_file-IsLoadableImage size h = record {
  bytes_ok = elf_file-IsByteImage;
  elf = elf_file-IsRiscvElf;
  small = omega arith;
  entries = leb→le 32 32 refl;
  table = leb→le 84 186 refl;
  segments = only;
}
  where
    only : (i : ℕ) → i < 1 → herve.Elf.Contents.IsLoadable elf_file size (header_at elf_file i)
    only zero inside = inr (elf_file-IsFitting size h)
    only (suc i) inside = absurd (omega arith)

abbrev pub always : ℕ → Bool
always n = true

-- The same file with the machine number of x86.
abbrev pub other_file : Image
other_file = record { bytes = λ i. (if i == 18 then 3 else byte_or_zero elf_bytes i); size = 186 }

pub other_file-IsByteImage : IsByteImage other_file
other_file-IsByteImage =
    λ i. if-both (λ b. b < 256) (i == 18) (leb→le 4 256 refl) (elf_file-IsByteImage i)
