-- ===== src/Execute/Total.antt =====
-- Which 32-bit instructions of dpi-riscv/sim/iss/rv32_dpi.c have defined behaviour.
use herve.Base.{
  ℕ, ◌^◌, ◌≤◌, ◌<◌, ◌≡◌, ◌≢◌, ◌⊎◌, refl, Bool, true, false, arith, ◌==◌, ==_iff, if◌then◌else◌,
  Option, some, none, inl, inr,
}
use herve.Word.{add32, u8, u16}
use herve.Machine.{Machine, Bus, ◌>>=◌, Ensures, Returns}
use herve.Machine.WellFormed.{IsWellFormed}
use herve.Memory.Htif.{is_htif_address}
use herve.Memory.Defined.{IsDefined, if-IsDefined, access-IsDefined, write_u32-IsDefined}
use herve.Execute.Decode.{opcode_of, funct3_of, funct7_of, src1_of, src2_of, imm_i, imm_s}
use herve.Execute.LoadStore.{load_value, exec_load, store_value, exec_store}
use herve.Execute.{dispatch, execute_instruction}
use herve.Execute.Preserve.{IsKept, execute_instruction-IsKept}

then-IsDefined :
    {A B : Type 0} (m : Option A) (f : A → B) → IsDefined m → IsDefined (m >>= λ a. some (f a))
then-IsDefined (some a) f h = tt
then-IsDefined none f h = h

Returns-both :
    {A : Type 0} (P : A → Type 0) (m : Option A) → Ensures P m → IsDefined m → Returns P m
Returns-both P (some a) h d = h
Returns-both P none h d = d

if-IsDefined_with :
    {A : Type 0} (b : Bool) (x y : Option A)
    → (b ≡ true → IsDefined x)
    → IsDefined y
    → IsDefined (if b then x else y)
if-IsDefined_with true x y hx hy = hx refl
if-IsDefined_with false x y hx hy = hy

module _ (dpi_mmio_read : Bus) (s : Machine) (high : 4 ≤ s.memory_base) where
  load_value-IsDefined :
      (funct3 addr : ℕ) → addr < 2 ^ 32 → IsDefined (load_value dpi_mmio_read funct3 addr s)
  unfolding load_value
  load_value-IsDefined funct3 addr word =
      let ok = access-IsDefined dpi_mmio_read addr 0 s high word in
      if-IsDefined (funct3 == 0) _ _ (then-IsDefined _ _ ok.2) (
        if-IsDefined (funct3 == 1) _ _ (then-IsDefined _ _ ok.1) (
          if-IsDefined (funct3 == 2) _ _ ok.0
            (if-IsDefined (funct3 == 4) _ _ ok.2 (if-IsDefined (funct3 == 5) _ _ ok.1 tt))))

  store_value-IsDefined :
      (funct3 addr value : ℕ)
      → addr < 2 ^ 32
      → is_htif_address addr ≡ false
      → IsDefined (store_value dpi_mmio_read funct3 addr value s)
  unfolding store_value
  store_value-IsDefined funct3 addr value word plain =
      let byte = access-IsDefined dpi_mmio_read addr (u8 value) s high word in
      let half = access-IsDefined dpi_mmio_read addr (u16 value) s high word in
      if-IsDefined (funct3 == 0) _ _ byte.4 (
        if-IsDefined (funct3 == 1) _ _ half.3 (
          if-IsDefined (funct3 == 2) _ _
            (write_u32-IsDefined dpi_mmio_read addr value s high word plain) tt))

  -- The instruction is no store to an HTIF register.
  abbrev pub IsPlainStore : ℕ → Type 0
  IsPlainStore insn =
      (opcode_of insn ≢ 0x23) ⊎ (is_htif_address (add32 (src1_of insn s) (imm_s insn)) ≡ false)

  dispatch-IsDefined : (insn : ℕ) → IsPlainStore insn → IsDefined (dispatch dpi_mmio_read insn s)
  unfolding dispatch exec_load exec_store
  dispatch-IsDefined insn plain =
      let op = opcode_of insn in
      if-IsDefined (op == 0x33) _ _ (if-IsDefined (funct7_of insn == 1) _ _ tt tt) (
        if-IsDefined (op == 0x13) _ _ tt (
          if-IsDefined (op == 0x03) _ _ (then-IsDefined _ _ (then-IsDefined _ _ loaded)) (
            if-IsDefined_with (op == 0x23) _ _
              (λ e. then-IsDefined _ _ (stored ((==_iff op 0x23).0 e)))
              (if-IsDefined (op == 0x63) _ _ tt (
                if-IsDefined (op == 0x6f) _ _ tt (
                  if-IsDefined (op == 0x67) _ _ tt (
                    if-IsDefined (op == 0x37) _ _ tt (
                      if-IsDefined (op == 0x17) _ _ tt (if-IsDefined (op == 0x73) _ _ tt tt)))))))))
    where
      loaded :
          IsDefined
            (load_value dpi_mmio_read (funct3_of insn) (add32 (src1_of insn s) (imm_i insn)) s)
      loaded = load_value-IsDefined _ _ (omega arith)

      stored :
          opcode_of insn ≡ 0x23
          → IsDefined (
              store_value dpi_mmio_read
                (funct3_of insn)
                (add32 (src1_of insn s) (imm_s insn))
                (src2_of insn s)
                s)
      stored store = elim plain [
        | inl other ↦ absurd (other store)
        | inr outside ↦ store_value-IsDefined _ _ _ (omega arith) outside
      ]

  -- With the memory at address 4 or above and every variable in range, each 32-bit instruction but
  -- a store to an HTIF register has defined behaviour: it touches no byte outside of the buffer,
  -- and leaves every variable in range, and register 0 at 0.
  pub execute_instruction-Returns :
      (insn : ℕ)
      → insn < 2 ^ 32
      → IsWellFormed s
      → IsPlainStore insn
      → Returns IsKept (execute_instruction dpi_mmio_read insn s)
  unfolding execute_instruction
  execute_instruction-Returns insn word w plain =
      Returns-both IsKept _ (execute_instruction-IsKept dpi_mmio_read insn s word w)
        (then-IsDefined (dispatch dpi_mmio_read insn s) _ (dispatch-IsDefined insn plain))
