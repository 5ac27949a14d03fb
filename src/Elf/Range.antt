-- ===== src/Elf/Range.antt =====
-- The range of addresses and the size of the memory that `rv_init_elf` of dpi-riscv/sim/iss/rv32_dpi.c
-- computes from the program headers.
use herve.Base.{
  ◌∙◌, ℕ, zero, suc, ◌+◌, ◌-◌, ◌%◌, ◌^◌, ◌≤◌, ◌<◌, ◌≡◌, ◌≢◌, ◌⊎◌, refl, arith, Bool, true, false,
  not, ◌||◌, ◌==◌, ltb, if◌then◌else◌, Option, none, some, inl, inr, lt→ltb,
}
use herve.Word.{add32}
use herve.Machine.{Machine}
use herve.Elf.Header.{Image, ElfHeader, ProgramHeader, pt_load}
use herve.Elf.File.{widen, ram_needed, file_header, segment_range, load_file_segment}

-- A range of addresses covers the header's segment, where it has one.
abbrev pub Covers : ℕ → ℕ → Option ProgramHeader → Type 0
Covers low high none = Unit
Covers low high (some h) =
    h.p_type ≡ pt_load → (low ≤ h.p_vaddr) × (add32 h.p_vaddr h.p_memsz ≤ high)

Covers-wider :
    (low high low' high' : ℕ) (header : Option ProgramHeader)
    → low' ≤ low
    → high ≤ high'
    → Covers low high header
    → Covers low' high' header
Covers-wider low high low' high' none p q c = tt
Covers-wider low high low' high' (some h) p q c =
    λ load. (let b = c load in (omega arith, omega arith))

widen-low : (header : Option ProgramHeader) (min max : ℕ) → (widen header min max).0 ≤ min
unfolding widen
widen-low none min max = omega arith
widen-low (some h) min max = ground arith

widen-high : (header : Option ProgramHeader) (min max : ℕ) → max ≤ (widen header min max).1
unfolding widen
widen-high none min max = omega arith
widen-high (some h) min max = ground arith

widen-Covers :
    (header : Option ProgramHeader) (min max : ℕ)
    → Covers (widen header min max).0 (widen header min max).1 header
unfolding widen
widen-Covers none min max = tt
widen-Covers (some h) min max = λ load. (ground arith, ground arith)

-- The size is a number of pages of 4 KB, at least 1 MB, and covers the segments, where the caller asks
-- for a size or the lowest address is below 0x80000000, and there is no wrap at 4 GB.
pub ram_needed_fits :
    (ram_size min_addr max_addr : ℕ)
    → ram_size < 2 ^ 32 - 4096
    → max_addr - min_addr < 2 ^ 32 - 4096
    → (ram_size ≢ 0) ⊎ (min_addr < 2 ^ 31)
    → (ram_needed ram_size min_addr max_addr % 4096 ≡ 0)
      × (2 ^ 20 ≤ ram_needed ram_size min_addr max_addr)
      × (ram_size ≤ ram_needed ram_size min_addr max_addr)
      × (max_addr - min_addr ≤ ram_needed ram_size min_addr max_addr)
      × (ram_needed ram_size min_addr max_addr < 2 ^ 32)
unfolding ram_needed
ram_needed_fits ram_size min_addr max_addr small fits (inl asked) =
    (ground arith, ground arith, ground arith, ground arith, ground arith)
ram_needed_fits ram_size min_addr max_addr small fits (inr low) =
    (ground arith, ground arith, ground arith, ground arith, ground arith)

ram_needed_high :
    (min_addr max_addr : ℕ) → 2 ^ 31 ≤ min_addr → ram_needed 0 min_addr max_addr ≡ 2 ^ 21
unfolding ram_needed
ram_needed_high min_addr max_addr high = ground arith

from_first :
    (P : ℕ → Type 0) (n : ℕ) → P 0 → ((k : ℕ) → k < n → P (suc k)) → (j : ℕ) → j < suc n → P j
from_first P n p f zero h = p
from_first P n p f (suc k) h = f k (omega arith)

skipped :
    {A : Type 0} (load low : Bool) (x y : A)
    → (if not load then x else if low || true then x else y) ≡ x
skipped true true x y = refl
skipped true false x y = refl
skipped false low x y = refl

module _ (fseek : ℕ → Bool) where
  -- Where the caller asks for no size and the lowest address is not below 0x80000000, a segment below
  -- 4 GB that ends more than 2 MB above that address is not loaded: in any state with the base and the
  -- size of memory that `rv_init_elf` sets, also after segments that it has loaded before, the state
  -- stays as it is.
  pub load_file_segment_skipped :
      (image : Image) (h : ProgramHeader) (min_addr max_addr : ℕ) (s : Machine)
      → 2 ^ 31 ≤ min_addr
      → min_addr + 2 ^ 21 < h.p_vaddr + h.p_memsz
      → h.p_vaddr + h.p_memsz < 2 ^ 32
      → s.memory_base ≡ min_addr
      → s.memory_size ≡ ram_needed 0 min_addr max_addr
      → load_file_segment fseek image h s ≡ some s
  unfolding load_file_segment
  load_file_segment_skipped image h min_addr max_addr s high past word at size =
      let room : s.memory_size ≡ 2 ^ 21 = size ∙ ram_needed_high min_addr max_addr high in
      let end : ltb (add32 s.memory_base s.memory_size) (add32 h.p_vaddr h.p_memsz) ≡ true =
        lt→ltb (add32 s.memory_base s.memory_size) (add32 h.p_vaddr h.p_memsz) (omega arith) in
      rw end (skipped (h.p_type == pt_load) (ltb h.p_vaddr s.memory_base) (some s) _)

  -- The first loop only widens the range, and covers each segment that it reads.
  pub segment_range_lem :
      (image : Image) (e : ElfHeader) (left i min max : ℕ)
      → ((segment_range fseek image e left i min max).0 ≤ min)
        × (max ≤ (segment_range fseek image e left i min max).1)
        × ((j : ℕ)
            → j < left
            → Covers
                (segment_range fseek image e left i min max).0
                (segment_range fseek image e left i min max).1
                (file_header fseek image e (i + j)))
  unfolding segment_range
  segment_range_lem image e zero i min max = (omega arith, omega arith, λ j h. absurd (omega arith))
  segment_range_lem image e (suc left) i min max =
      let wide = widen (file_header fseek image e i) min max in
      let rest = segment_range_lem image e left (i + 1) wide.0 wide.1 in
      let rest_low = (segment_range fseek image e left (i + 1) wide.0 wide.1).0 in
      let rest_high = (segment_range fseek image e left (i + 1) wide.0 wide.1).1 in
      let low = widen-low (file_header fseek image e i) min max in
      let high = widen-high (file_header fseek image e i) min max in
      let first : Covers rest_low rest_high (file_header fseek image e (i + 0)) =
        let here : i + 0 ≡ i = omega arith in
        rw here (
          Covers-wider wide.0 wide.1 rest_low rest_high (file_header fseek image e i) rest.0 rest.1
            (widen-Covers (file_header fseek image e i) min max)) in
      (
        omega arith,
        omega arith,
        from_first (λ j. Covers rest_low rest_high (file_header fseek image e (i + j))) left first
            (λ k h. (let next : i + suc k ≡ i + 1 + k = omega arith in rw next (rest.2 k h))),
      )
