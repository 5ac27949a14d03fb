-- ===== src/Guest.antt =====
-- Two functions that guest programs are linked with: `alloca` of dpi-riscv/newlib-stubs/alloca.c and
-- `__sync_fetch_and_add_4` of dpi-riscv/sync_stubs.c, on addresses and words of 32 bits. `_end`, which
-- the linker script sets, is a parameter.
use herve.Base.{ℕ, ◌+◌, ◌-◌, ◌%◌, ◌^◌, ◌<◌, ◌≤◌, ◌≡◌, refl, arith, ◌==◌, if◌then◌else◌, update}
use herve.Word.{add32}

-- The heap pointer where a block begins.
abbrev pub heap_start : ℕ → ℕ → ℕ
heap_start end heap_ptr = if heap_ptr == 0 then end else heap_ptr

-- `(size + 15) & ~15`.
abbrev pub aligned : ℕ → ℕ
aligned size = add32 size 15 - add32 size 15 % 16

-- `alloca`: the block, and the heap pointer behind it.
unfoldable pub alloca : ℕ → ℕ → ℕ → ℕ × ℕ
alloca end size heap_ptr = (heap_start end heap_ptr, add32 (heap_start end heap_ptr) (aligned size))

-- `__sync_fetch_and_add_4` on the words of the memory: the old value, and the memory.
unfoldable pub sync_fetch_and_add_4 : ℕ → ℕ → (ℕ → ℕ) → ℕ × (ℕ → ℕ)
sync_fetch_and_add_4 ptr val words = (words ptr, update words ptr (add32 (words ptr) val))

-- Where neither the size nor the heap runs over 32 bits, a block has the room asked for before the next one
-- begins, which is less than 16 bytes behind it, and blocks of a heap that begins at a multiple of 16
-- begin at multiples of 16.
alloca-alloca :
    (end size size' heap_ptr : ℕ)
    → 0 < end
    → size < 2 ^ 32 - 15
    → heap_start end heap_ptr + size + 15 < 2 ^ 32
    → let first = alloca end size heap_ptr in
      let second = alloca end size' first.1 in
      (first.0 + size ≤ second.0)
      × (second.0 < first.0 + size + 16)
      × (second.0 % 16 ≡ first.0 % 16)
unfolding alloca
alloca-alloca end size size' heap_ptr start small room = (ground arith, ground arith, ground arith)

-- Two additions to one word add their sum, and the second one reads what the first one left.
sync_fetch_and_add_4_twice :
    (ptr a b : ℕ) (words : ℕ → ℕ)
    → let first = sync_fetch_and_add_4 ptr a words in
      let second = sync_fetch_and_add_4 ptr b first.1 in
      (first.0 ≡ words ptr)
      × (second.0 ≡ add32 (words ptr) a)
      × (second.1 ptr ≡ (sync_fetch_and_add_4 ptr (add32 a b) words).1 ptr)
unfolding sync_fetch_and_add_4
sync_fetch_and_add_4_twice ptr a b words = (refl, ground arith, ground arith)
