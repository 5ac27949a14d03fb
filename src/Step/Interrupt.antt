-- ===== src/Step/Interrupt.antt =====
-- The interrupt that `rv_step` of dpi-riscv/sim/iss/rv32_dpi.c takes, and the way back.
use herve.Base.{
  ℕ, zero, suc, ◌+◌, ◌-◌, ◌*◌, ◌/◌, ◌%◌, ◌^◌, ◌<◌, ◌≡◌, ◌≢◌, refl, Bool, true, false, ◌&&◌, arith,
  ◌==◌, if◌then◌else◌, some, bit_and, inl, inr, Bool-cases, ==-false, ==_iff, sym,
}
use native.Mathlib.Nat.{pow-suc, pow-succ', div-div-eq-div-mul, mod-eq-sub-div-mul, div-add-mod}
use herve.Word.{add32, not32}
use herve.Word.Bits.{bit, bit-bit_and, bit-clear_self, bit_and-clear, set_clear_three, bit_and-le}
use herve.Machine.{Machine, Bus}
use herve.Machine.WellFormed.{IsWellFormed}
use herve.Execute.System.{mie_set, exec_sys, exec_system}
use herve.Execute.{execute_instruction, dispatch, finish}
use herve.Step.{ctz_loop, ctz32, pending_of, interrupt_ready, enter_interrupt, wake, step}

-- Bit `n` is the lowest bit of `x` that is set.
abbrev pub IsLowestBit : ℕ → ℕ → Type 0
IsLowestBit x n = (x % 2 ^ n ≡ 0) × (bit n x ≡ 1)

IsLowestBit-double : (x k : ℕ) → x % 2 ≡ 0 → IsLowestBit (x / 2) k → IsLowestBit x (suc k)
IsLowestBit-double x k e h = (below, at)
  where
    twice : x ≡ 2 * (x / 2)
    twice = omega arith

    below : x % 2 ^ suc k ≡ 0
    below =
        let same : x / (2 * 2 ^ k) ≡ x / 2 / 2 ^ k = sym (div-div-eq-div-mul x 2 (2 ^ k)) in
        let cut : x % (2 * 2 ^ k) ≡ x - x / 2 / 2 ^ k * (2 * 2 ^ k) =
          rw (mod-eq-sub-div-mul x (2 * 2 ^ k), same) in
        rw (pow-succ', cut) (omega (arith, h.0, div-add-mod (x / 2) (2 ^ k), twice))

    at : bit (suc k) x ≡ 1
    at = rw (pow-succ', ← div-div-eq-div-mul) (h.1)

-- The loop finds it, if it stands among the bits that the rounds reach.
ctz_loop_lem :
    (fuel n x : ℕ)
    → x ≢ 0
    → x < 2 ^ fuel
    → (k : ℕ) × (ctz_loop fuel n x ≡ n + k) × (k < fuel) × IsLowestBit x k
unfolding ctz_loop
ctz_loop_lem zero n x ne lt = absurd (ne (omega arith))
ctz_loop_lem (suc fuel) n x ne lt = elim (Bool-cases (x % 2 == 0)) [
  | inl e ↦
      let half = ctz_loop_lem fuel (n + 1) (x / 2) (ground arith) (omega (arith, pow-suc 2 fuel)) in
      let k = half.0 in
      (
        suc k,
        rw e (omega (arith, half.1)),
        omega (arith, half.2),
        IsLowestBit-double x k ((==_iff _ _).0 e) half.3,
      )
  | inr e ↦ (0, rw e (omega arith), omega arith, (omega arith, ground arith))
]

-- On a word that is not 0, `ctz32` is below 32 and the position of the lowest bit that is set.
pub ctz32-IsLowestBit : (x : ℕ) → x ≢ 0 → x < 2 ^ 32 → (ctz32 x < 32) × IsLowestBit x (ctz32 x)
unfolding ctz32
ctz32-IsLowestBit x ne lt =
    let found = ctz_loop_lem 32 0 x ne lt in
    let e : ctz_loop 32 0 x ≡ found.0 = omega (arith, found.1) in
    rw (==-false x 0 ne, e) (found.2, found.3)

-- How the state `t` that takes an interrupt follows from the state `s` before it.
pub record IsTaken (s t : Machine) : Type 0 where
  pub cause_lt : t.csr_mcause < 32
  pub lowest : IsLowestBit (pending_of s) t.csr_mcause
  pub return_address : t.csr_mepc ≡ s.pc
  pub masked : mie_set t.csr_mstatus ≡ false
  pub serviced : t.irq_mask + 2 ^ t.csr_mcause ≡ s.irq_mask
  pub awake : t.wfi_sleep ≡ false
  pub target : t.pc ≡ (
      if s.csr_mtvec % 4 == 0
      then s.csr_mtvec
      else add32 (s.csr_mtvec - s.csr_mtvec % 4) (t.csr_mcause * 4))
  pub same_regs : t.regs ≡ s.regs
  pub same_memory : t.memory ≡ s.memory

enter_interrupt-IsTaken :
    (s : Machine)
    → IsWellFormed s
    → pending_of s ≢ 0
    → IsTaken s (enter_interrupt (record s { wfi_sleep = false }))
unfolding enter_interrupt
enter_interrupt-IsTaken s w some_pending = record {
  cause_lt = lowest.0;
  lowest = lowest.1;
  return_address = refl;
  masked = rw mie_off;
  serviced = let ok = w.csrs_ok in bit_and-clear 32 cause s.irq_mask lowest.0 ok.irq_lt requested;
  awake = refl;
  target = ground arith;
  same_regs = refl;
  same_memory = refl;
}
  where
    cause : ℕ
    cause = ctz32 (pending_of s)

    lowest : (cause < 32) × IsLowestBit (pending_of s) cause
    lowest =
        let ok = w.csrs_ok in
        ctz32-IsLowestBit (pending_of s) some_pending
          (omega (arith, bit_and-le s.irq_mask s.csr_mie))

    requested : bit cause s.irq_mask ≡ 1
    requested = omega (arith, bit-bit_and cause s.irq_mask s.csr_mie, lowest.1.1)

    mie_off : bit_and s.csr_mstatus (not32 8) / 2 ^ 3 % 2 ^ 1 ≡ 0
    mie_off = bit-clear_self s.csr_mstatus 3 (omega arith)

mie_bit : (s : Machine) → interrupt_ready s ≡ true → bit 3 s.csr_mstatus ≡ 1
mie_bit s ready = ground arith

not-ready : (s : Machine) → interrupt_ready s ≡ true → pending_of s ≢ 0
not-ready s ready e = ground arith

wake_lem : (s : Machine) → wake s ≡ record s { wfi_sleep = false }
wake_lem s = asleep s.wfi_sleep refl
  where
    asleep :
        (b : Bool)
        → s.wfi_sleep ≡ b
        → (if b then record s { wfi_sleep = false } else s) ≡ record s { wfi_sleep = false }
    asleep true e = refl
    asleep false e = λ i. record s { wfi_sleep = e i }

and-false : (b : Bool) → (b && false) ≡ false
and-false true = refl
and-false false = refl

module _ (dpi_mmio_read : Bus) where
  -- With an interrupt pending and enabled and interrupts on, a batch of any positive length, of a
  -- simulator that is initialized, asleep or not, consists of taking the interrupt: it counts as
  -- one instruction; the lowest pending bit is the cause, its request is cleared and no other;
  -- interrupts are off; the registers and the memory do not change. The program counter is saved and
  -- goes to `mtvec` where the two lowest bits of `mtvec` are 0, and to `mtvec` without these bits plus
  -- four times the cause where one of them is set, also where `mtvec` ends with the bits 10.
  pub step-IsTaken :
      (max_instructions : ℕ) (s : Machine)
      → IsWellFormed s
      → s.initialized ≡ true
      → 0 < max_instructions
      → interrupt_ready s ≡ true
      → (t : Machine) × (step dpi_mmio_read max_instructions s ≡ some (1, t)) × IsTaken s t
  unfolding step
  step-IsTaken n s w ini positive ready = (
    enter_interrupt (wake s),
    rw (ini, ==-false n 0 (omega arith), ready, and-false),
    rw wake_lem (enter_interrupt-IsTaken s w (not-ready s ready)),
  )

  -- MRET at the start of the handler of an interrupt that was taken in `s` brings the program
  -- counter, `mstatus` and the registers back to what they were in `s`.
  pub interrupt-mret :
      (s : Machine)
      → IsWellFormed s
      → interrupt_ready s ≡ true
      → (t : Machine) × (execute_instruction dpi_mmio_read 0x30200073 (enter_interrupt (wake s))
          ≡ some (true, t))
        × (t.pc ≡ s.pc)
        × (t.csr_mstatus ≡ s.csr_mstatus)
        × (t.regs ≡ s.regs)
  unfolding execute_instruction dispatch exec_system exec_sys finish enter_interrupt
  interrupt-mret s w ready =
      rw wake_lem
        (_, refl, refl, set_clear_three s.csr_mstatus w.csrs_ok.mstatus_lt (mie_bit s ready), refl)

  -- A sleeping simulator with no interrupt that it may take executes nothing and does not change.
  pub step_asleep :
      (max_instructions : ℕ) (s : Machine)
      → s.wfi_sleep ≡ true
      → interrupt_ready s ≡ false
      → step dpi_mmio_read max_instructions s ≡ some (0, s)
  unfolding step
  step_asleep n s asleep quiet = ground arith
