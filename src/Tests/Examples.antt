-- ===== src/Tests/Examples.antt =====
-- The theorems on the state of the simulator, applied to concrete states and instructions.
use herve.Machine.Symbols.Lookup.{symbol_at-add_symbol}
use herve.Machine.Symbols.{Symbol, symbol_at, add_symbol}
use herve.Profiler.Edges.{edge_count, record_call_edge-edge_count}
use herve.Profiler.Totals.{Event}
use herve.Profiler.{InsnType, SymbolName, CallPair, record_call_edge}
use herve.Boot.Establish.{init-step_halted}
use herve.Boot.Firmware.{Scratch, scribble, read_u32-init}
use herve.Boot.{byte_or_zero, init, init_from_buffer, set_irq}
use herve.Step.Halt.{write_u32_exit}
use herve.Execute.Total.{execute_instruction-Returns}
use herve.Base.{
  ◌+◌, ◌≡◌, true, refl, arith, some, none, List, [], ◌∷◌, inr, leb, ℕ, false, Bool, str_eq,
  str_eq_iff, String, ◌++◌,
}
use herve.Word.{sign_extend, add32, sra32}
use herve.Machine.{Machine, Ensures, Returns, get_reg, get_pc}
use herve.Memory.Ram.{valid_memory_access, read_le}
use herve.Memory.Htif.{is_htif_address}
use herve.Memory.Access.{
  is_mmio_address, read_u32, read_u16, read_u8, write_u32, write_u16, write_u8,
}
use herve.Memory.Defined.{IsDefined, access-IsDefined, read_u32_wraps, write_u32_outside}
use herve.Memory.RoundTrip.{IsRamAt, RoundTrips, read_u32-write_u32}
use herve.Execute.Decode.{imm_s, src1_of}
use herve.Execute.{execute_instruction}
use herve.Execute.Preserve.{IsKept, execute_instruction-IsKept}
use herve.Compressed.{execute_compressed}
use herve.Compressed.Preserve.{execute_compressed-IsKept}
use herve.Step.{step, pending_of, enter_interrupt, wake}
use herve.Step.Preserve.{IsBatch, step-IsBatch}
use herve.Step.Interrupt.{IsTaken, step-IsTaken, interrupt-mret}
use herve.Tests.{five_bus, booted, interrupted, booted-IsWellFormed, interrupted-IsWellFormed}

step-IsBatch_example : Ensures IsBatch (step five_bus 10 (booted 0))
step-IsBatch_example = step-IsBatch five_bus 10 (booted 0) (booted-IsWellFormed 0 (omega arith))

step-IsTaken_example :
    (t : Machine) × (step five_bus 3 interrupted ≡ some (1, t)) × IsTaken interrupted t
step-IsTaken_example =
    step-IsTaken five_bus 3 interrupted interrupted-IsWellFormed refl (omega arith) refl

interrupt-mret_example :
    (t : Machine) × (execute_instruction five_bus 0x30200073 (enter_interrupt (wake interrupted))
      ≡ some (true, t))
    × (t.pc ≡ 0)
    × (t.csr_mstatus ≡ 8)
    × (t.regs ≡ interrupted.regs)
interrupt-mret_example = interrupt-mret five_bus interrupted interrupted-IsWellFormed refl

-- DIV x1, x2, x3.
execute_instruction-IsKept_example :
    Ensures IsKept (execute_instruction five_bus 0x023140B3 (booted 0))
execute_instruction-IsKept_example =
    execute_instruction-IsKept five_bus 0x023140B3 (booted 0) (omega arith)
      (booted-IsWellFormed 0 (omega arith))

-- C.ADDI x1, 1.
execute_compressed-IsKept_example : Ensures IsKept (execute_compressed five_bus 0x0085 (booted 0))
execute_compressed-IsKept_example =
    execute_compressed-IsKept five_bus 0x0085 (booted 0) (booted-IsWellFormed 0 (omega arith))

low_word-IsRamAt : IsRamAt 8 4 (booted 4)
unfolding is_htif_address is_mmio_address
low_word-IsRamAt = record {
  no_htif = refl;
  no_mmio = refl;
  above = omega arith;
  inside = omega arith;
}

read_u32-write_u32_example :
    RoundTrips (write_u32 five_bus) (read_u32 five_bus) 8 4 0xCAFEF00D (booted 4)
read_u32-write_u32_example =
    read_u32-write_u32 five_bus 8 0xCAFEF00D (booted 4) (omega arith) (omega arith) low_word-IsRamAt

access-IsDefined_example :
    IsDefined (read_u32 five_bus 0x402 (booted 4))
    × IsDefined (read_u16 five_bus 0x402 (booted 4))
    × IsDefined (read_u8 five_bus 0x402 (booted 4))
    × IsDefined (write_u16 five_bus 0x402 7 (booted 4))
    × IsDefined (write_u8 five_bus 0x402 7 (booted 4))
access-IsDefined_example = access-IsDefined five_bus 0x402 7 (booted 4) (omega arith) (omega arith)

read_u32_wraps_example :
    (valid_memory_access 0xFFFFFFFC 4 (booted 0) ≡ true)
    × (read_u32 five_bus 0xFFFFFFFC (booted 0) ≡ none)
read_u32_wraps_example = read_u32_wraps five_bus (booted 0) (omega arith) (omega arith)

-- SW x0, 0(x0).
execute_instruction-Returns_example :
    Returns IsKept (execute_instruction five_bus 0x00002023 (booted 4))
execute_instruction-Returns_example =
    execute_instruction-Returns five_bus (booted 4) (omega arith) 0x00002023 (omega arith)
      (booted-IsWellFormed 4 (omega arith)) (inr plain)
  where
    plain : is_htif_address (add32 (src1_of 0x00002023 (booted 4)) (imm_s 0x00002023)) ≡ false
    plain = unfold is_htif_address imm_s sign_extend sra32 in refl

write_u32_exit_example :
    (t : Machine) × (write_u32 five_bus 0x80001000 7 (booted 0) ≡ some t)
    × (t.htif_halted ≡ true)
    × (t.htif_exit_code ≡ 3)
    × (t.regs ≡ (booted 0).regs)
    × (t.memory ≡ (booted 0).memory)
    × (step five_bus 10 t ≡ some (0, t))
write_u32_exit_example = write_u32_exit five_bus 7 10 (booted 0) refl refl

-- A `malloc` that gives up to 2 ^ 24 bytes.
abbrev small_malloc : ℕ → Bool
small_malloc size = leb size 0x1000000

abbrev image : List ℕ
image = 0x93 ∷ 0x00 ∷ 0x50 ∷ []

-- The state after another program has run.
abbrev used : Scratch
used = record {
  regs = λ r. r + 1;
  pc = 0x40;
  irq_mask = 1;
  wfi_sleep = true;
  csr_mie = 0;
  memory = λ _. 0xFF;
  memory_size = 16;
  memory_base = 0x80000000;
  initialized = true;
}

read_u32-init_example :
    (init small_malloc (some image) 4096 (booted 0)
      ≡ init_from_buffer small_malloc image 4096 (booted 0))
    × (init small_malloc (some image) 4096 (scribble used (booted 0))
        ≡ init small_malloc (some image) 4096 (booted 0))
    × (get_reg 5 (init small_malloc (some image) 4096 (booted 0)) ≡ 0)
    × (get_pc (init small_malloc (some image) 4096 (booted 0)) ≡ 0)
    × ((init small_malloc (some image) 4096 (booted 0)).wfi_sleep ≡ false)
    × (pending_of (init small_malloc (some image) 4096 (booted 0)) ≡ 0)
    × (pending_of (set_irq 0x81 (init small_malloc (some image) 4096 (booted 0))) ≡ 0x81)
    × (read_u32 five_bus 0 (init small_malloc (some image) 4096 (booted 0))
        ≡ some (read_le (byte_or_zero image) 0 4, init small_malloc (some image) 4096 (booted 0)))
read_u32-init_example =
    read_u32-init five_bus image 0 plain device small_malloc 4096 5 0x81 used (booted 0)
      (omega arith) (omega arith) refl (omega arith)
  where
    plain : is_htif_address 0 ≡ false
    plain = unfold is_htif_address in refl

    device : is_mmio_address 0 ≡ false
    device = unfold is_mmio_address in refl

abbrev halted : Machine
halted = record (booted 0) { htif_halted = true }

init-step_halted_example :
    step five_bus 10 (init small_malloc (some image) 4096 halted)
    ≡ some (0, init small_malloc (some image) 4096 halted)
init-step_halted_example = init-step_halted small_malloc five_bus (some image) 4096 10 halted refl

abbrev main_symbol : SymbolName
main_symbol = record { pointer = 0; name = "main" }

abbrev two_events : List Event
two_events = (InsnType.alu, some main_symbol, 0x13) ∷ (InsnType.jump, none, 0x6f) ∷ []

abbrev one_edge : List CallPair
one_edge = record { caller = "main"; callee = "f"; count = 4 } ∷ []

abbrev main_name : String
main_name = "main"

abbrev f_name : String
f_name = "f"

main_ne : ¬ ((main_name ≡ f_name) × (f_name ≡ main_name))
main_ne h =
    let same : str_eq main_name f_name ≡ true = (str_eq_iff main_name f_name).1 h.0 in
    absurd (ground (arith, same))

record_call_edge-edge_count_example :
    (edge_count "main" "f" (record_call_edge (some "main") "f" one_edge) ≡ 5)
    × (edge_count "f" "main" (record_call_edge (some "main") "f" one_edge) ≡ 0)
record_call_edge-edge_count_example =
    record_call_edge-edge_count "main" "f" "f" "main" one_edge main_ne

-- A request structure at the last word of the memory.
write_u32_outside_example : write_u32 five_bus 0x80001000 0x400 (booted 4) ≡ none
write_u32_outside_example =
    write_u32_outside five_bus 0x400 (booted 4) refl (omega arith) (omega arith) (omega arith)
      (omega arith) (omega arith) (omega arith)

abbrev start_symbol : Symbol
start_symbol = record { addr = 0; size = 16; name = "_start" }

symbol_at-add_symbol_example :
    (symbol_at 20 (start_symbol ∷ []) ≡ none)
    × (symbol_at 20 (add_symbol 16 8 "main" (start_symbol ∷ []) ++ (start_symbol ∷ []))
        ≡ some (record { pointer = 1; name = "main" }))
symbol_at-add_symbol_example =
    symbol_at-add_symbol 20 16 8 "main" (start_symbol ∷ []) (start_symbol ∷ []) (refl, tt) refl
