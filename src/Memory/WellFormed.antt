-- ===== src/Memory/WellFormed.antt =====
-- The ranges of the variables behind accesses to RAM and to HTIF in dpi-riscv/sim/iss/rv32_dpi.c.
use native.Mathlib.Nat.{pow-suc}
use herve.Base.{
  ℕ, zero, suc, ◌+◌, ◌-◌, ◌/◌, ◌%◌, ◌^◌, ◌<◌, Bool, true, arith, ◌==◌, leb, update, Option, some,
  none, inl, inr, Bool-cases,
}
use herve.Machine.{Machine, ◌>>=◌, Ensures, Ensures-bind, if-Ensures}
use herve.Machine.WellFormed.{IsRam, IsHtif, IsWellFormed, IsWellFormed-of_parts, update-lt}
use herve.Word.{u32}
use herve.Memory.Ram.{read_le, write_le, peek, poke}
use herve.Memory.Htif.{
  htif_read, htif_write, htif_process_request, htif_syscall, htif_reply, htif_putchar, in_ram,
}

pub read_le-lt :
    (memory : ℕ → ℕ) (off width : ℕ)
    → ((i : ℕ) → memory i < 256)
    → read_le memory off width < 256 ^ width
unfolding read_le
read_le-lt memory off zero h = omega arith
read_le-lt memory off (suc width) h =
    omega (arith, pow-suc 256 width, h off, read_le-lt memory (off + 1) width h)

write_le-lt :
    (memory : ℕ → ℕ) (off width value : ℕ)
    → ((i : ℕ) → memory i < 256)
    → (i : ℕ) → write_le memory off width value i < 256
unfolding write_le
write_le-lt memory off zero value h = h
write_le-lt memory off (suc width) value h =
    write_le-lt (update memory off (value % 256)) (off + 1) width (value / 256)
      (λ i. update-lt memory off (value % 256) 256 i (h i) (omega arith))

pub peek-lt :
    (off width : ℕ) (s : Machine)
    → IsWellFormed s
    → Ensures (λ v. v < 256 ^ width) (peek off width s)
unfolding peek
peek-lt off width s w = elim (Bool-cases (leb (off + width) s.memory_size)) [
  | inl e ↦ rw e (read_le-lt s.memory off width w.ram_ok.memory_lt)
  | inr e ↦ rw e tt
]

pub poke-IsWellFormed :
    (off width value : ℕ) (s : Machine)
    → IsWellFormed s
    → Ensures IsWellFormed (poke off width value s)
unfolding poke
poke-IsWellFormed off width value s w = elim (Bool-cases (leb (off + width) s.memory_size)) [
  | inl e ↦ rw e (IsWellFormed-of_parts _ w.regs_ok ram w.pc_ok w.csrs_ok w.htif_ok)
  | inr e ↦ rw e tt
]
  where
    ram : IsRam (write_le s.memory off width value) s.memory_size s.memory_base
    ram = record {
      memory_lt = write_le-lt s.memory off width value w.ram_ok.memory_lt;
      size_lt = w.ram_ok.size_lt;
      base_lt = w.ram_ok.base_lt;
    }

with_htif :
    {s : Machine} (lo hi from_lo from_hi code : ℕ)
    → IsWellFormed s
    → IsHtif lo hi from_lo from_hi code
    → (e h : Bool)
    → IsWellFormed (record s {
      htif_tohost_lo = lo;
      htif_tohost_hi = hi;
      htif_fromhost_lo = from_lo;
      htif_fromhost_hi = from_hi;
      htif_exit_code = code;
      htif_exit = e;
      htif_halted = h;
    })
with_htif lo hi from_lo from_hi code w ok e h =
    IsWellFormed-of_parts _ w.regs_ok w.ram_ok w.pc_ok w.csrs_ok ok

htif_putchar-IsWellFormed :
    (arg_ptr : ℕ) (s : Machine) → IsWellFormed s → Ensures IsWellFormed (htif_putchar arg_ptr s)
unfolding htif_putchar
htif_putchar-IsWellFormed arg_ptr s w =
    if-Ensures IsWellFormed (in_ram arg_ptr s) _ _
      (Ensures-bind (λ v. v < 256 ^ 1) IsWellFormed _ _ (peek-lt (arg_ptr - s.memory_base) 1 s w)
        (λ ch h. IsWellFormed-of_parts _ w.regs_ok w.ram_ok w.pc_ok w.csrs_ok w.htif_ok))
      w

htif_reply-IsWellFormed :
    (magic syscall arg_ptr : ℕ) (s : Machine)
    → IsWellFormed s
    → Ensures IsWellFormed (htif_reply magic syscall arg_ptr s)
unfolding htif_reply
htif_reply-IsWellFormed magic syscall arg_ptr s w =
    if-Ensures IsWellFormed (magic == 64) _ _
      (Ensures-bind IsWellFormed IsWellFormed _ _
        (if-Ensures IsWellFormed (syscall == 1) _ _ (htif_putchar-IsWellFormed arg_ptr s w) w)
        (λ s' w'.
          IsWellFormed-of_parts _ w'.regs_ok w'.ram_ok w'.pc_ok w'.csrs_ok (answered s' w')))
      w
  where
    answered :
        (s' : Machine)
        → IsWellFormed s'
        → IsHtif s'.htif_tohost_lo s'.htif_tohost_hi 1 0 s'.htif_exit_code
    answered s' w' = let ok = w'.htif_ok in omega arith

htif_syscall-IsWellFormed :
    (off : ℕ) (s : Machine) → IsWellFormed s → Ensures IsWellFormed (htif_syscall off s)
unfolding htif_syscall
htif_syscall-IsWellFormed off s w = read (peek off 4 s) _ λ magic.
    read (peek (u32 (off + 8)) 4 s) _ λ syscall. read (peek (u32 (off + 16)) 4 s) _ λ arg_ptr.
      read (peek (u32 (off + 24)) 4 s) _
        λ arg_count. htif_reply-IsWellFormed magic syscall arg_ptr s w
  where
    read :
        (m : Option ℕ) (f : ℕ → Option Machine)
        → ((v : ℕ) → Ensures IsWellFormed (f v))
        → Ensures IsWellFormed (m >>= f)
    read none f h = tt
    read (some v) f h = h v

htif_process_request-IsWellFormed :
    (s : Machine) → IsWellFormed s → Ensures IsWellFormed (htif_process_request s)
unfolding htif_process_request
htif_process_request-IsWellFormed s w =
    if-Ensures IsWellFormed (s.htif_tohost_lo % 2 == 1) _ _
      (with_htif {s = s} _ _ _ _ _ w (let ok = w.htif_ok in omega arith) true true)
      (if-Ensures IsWellFormed (s.htif_tohost_lo == 0) _ _ w (
        if-Ensures IsWellFormed (in_ram s.htif_tohost_lo s) _ _
          (htif_syscall-IsWellFormed (s.htif_tohost_lo - s.memory_base) s w) w))

pub htif_write-IsWellFormed :
    (addr value : ℕ) (s : Machine)
    → value < 2 ^ 32
    → IsWellFormed s
    → Ensures IsWellFormed (htif_write addr value s)
unfolding htif_write
htif_write-IsWellFormed addr value s h w =
    let ok = w.htif_ok in
    let written : IsWellFormed (record s { htif_tohost_lo = value }) =
      with_htif {s = s} _ _ _ _ _ w (omega arith) _ _ in
    if-Ensures IsWellFormed (addr == 0x80001000) _ _
      (if-Ensures IsWellFormed (value == 0) _ _ written
        (htif_process_request-IsWellFormed _ written))
      (if-Ensures IsWellFormed (addr == 0x80001004) _ _
        (with_htif {s = s} _ _ _ _ _ w (omega arith) _ _)
        (if-Ensures IsWellFormed (addr == 0x80001008) _ _
          (with_htif {s = s} _ _ _ _ _ w (omega arith) _ _)
          (if-Ensures IsWellFormed (addr == 0x8000100c) _ _
            (with_htif {s = s} _ _ _ _ _ w (omega arith) _ _) w)))

pub htif_read-lt : (addr : ℕ) (s : Machine) → IsWellFormed s → htif_read addr s < 2 ^ 32
unfolding htif_read
htif_read-lt addr s w = let ok = w.htif_ok in ground arith
