-- ===== src/Memory/Htif.antt =====
-- The host-target interface: `htif_process_request` and the `tohost`/`fromhost` registers of
-- dpi-riscv/sim/iss/rv32_dpi.c.
use herve.Base.{
  ℕ, ◌+◌, ◌-◌, ◌/◌, ◌%◌, Bool, true, ◌&&◌, Option, some, ◌∷◌, leb, ltb, ◌==◌, if◌then◌else◌,
}
use herve.Word.{u32}
use herve.Machine.{Machine, ◌>>=◌}
use herve.Memory.Ram.{peek}

unfoldable pub is_htif_address : ℕ → Bool
is_htif_address addr = leb 0x80001000 addr && ltb addr 0x80001010

-- `ptr >= memory_base && ptr < memory_base + memory_size`; the sum wraps.
abbrev pub in_ram : ℕ → Machine → Bool
in_ram ptr s = leb s.memory_base ptr && ltb ptr (u32 (s.memory_base + s.memory_size))

-- System call 1, `putchar`, of a request whose argument pointer is `arg_ptr`.
unfoldable pub htif_putchar : ℕ → Machine → Option Machine
htif_putchar arg_ptr s =
    if in_ram arg_ptr s
    then (do ch ← peek (arg_ptr - s.memory_base) 1 s; some (record s { console = ch ∷ s.console }))
    else some s

-- The part after the four reads.
unfoldable pub htif_reply : ℕ → ℕ → ℕ → Machine → Option Machine
unfolding htif_putchar
htif_reply magic syscall arg_ptr s =
    if magic == 64
    then ((if syscall == 1 then htif_putchar arg_ptr s else some s) >>= λ s'.
        some (record s' { htif_fromhost_lo = 1; htif_fromhost_hi = 0 }))
    else some s

-- A request whose structure stands at offset `off` of the buffer; the sums wrap.
unfoldable pub htif_syscall : ℕ → Machine → Option Machine
unfolding htif_reply
htif_syscall off s = do
  magic ← peek off 4 s
  syscall ← peek (u32 (off + 8)) 4 s
  arg_ptr ← peek (u32 (off + 16)) 4 s
  arg_count ← peek (u32 (off + 24)) 4 s
  htif_reply magic syscall arg_ptr s

unfoldable pub htif_process_request : Machine → Option Machine
unfolding htif_syscall
htif_process_request s =
    let tohost = s.htif_tohost_lo in
    if tohost % 2 == 1
    then some (record s { htif_exit_code = tohost / 2; htif_exit = true; htif_halted = true })
    else if tohost == 0
    then some s
    else if in_ram tohost s
    then htif_syscall (tohost - s.memory_base) s
    else some s

-- The HTIF branch of `read_u32`.
unfoldable pub htif_read : ℕ → Machine → ℕ
htif_read addr s =
    if addr == 0x80001008
    then s.htif_fromhost_lo
    else if addr == 0x8000100c
    then s.htif_fromhost_hi
    else 0

-- The HTIF branch of `write_u32`.
unfoldable pub htif_write : ℕ → ℕ → Machine → Option Machine
unfolding htif_process_request
htif_write addr value s =
    if addr == 0x80001000
    then (let s' = record s { htif_tohost_lo = value } in
        if value == 0 then some s' else htif_process_request s')
    else if addr == 0x80001004
    then some (record s { htif_tohost_hi = value })
    else if addr == 0x80001008
    then some (record s { htif_fromhost_lo = value })
    else if addr == 0x8000100c
    then some (record s { htif_fromhost_hi = value })
    else some s
