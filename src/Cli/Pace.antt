-- ===== src/Cli/Pace.antt =====
-- What decides how long the loop of dpi-riscv/sim/iss/herve_main.c goes on: no instruction of
-- dpi-riscv/sim/iss/rv32_dpi.c requests an interrupt or changes the counter of cycles.
use herve.Base.{ℕ, ◌==◌, refl, ◌∙◌, Bool}
use herve.Machine.{Machine, Bus, Ensures, Ensures-bind, if-Ensures}
use herve.Execute.Decode.{funct3_of, funct7_of, opcode_of}
use herve.Execute.LoadStore.{exec_load, exec_store, load_value, store_value}
use herve.Execute.{dispatch, execute_instruction}
use herve.Word.{field}
use herve.Compressed.Immediate.{c_funct3, nzuimm_addi4spn}
use herve.Compressed.{exec_q0, exec_q2, load_word, store_word, execute_compressed}
use herve.Cli.Clock.{
  clock, IsTimely, HasClock, IsTimelyExit, clock-write_reg, clock-exec_op_imm, clock-exec_lui,
  clock-exec_auipc, clock-exec_op, clock_exit-exec_muldiv, clock_exit-exec_branch,
  clock_exit-exec_jal, clock_exit-exec_jalr, clock_exit-exec_system, clock-finish,
  write_shifted-HasClock, exec_q2_jump-HasClock, exec_q1-HasClock, read_u32-HasClock,
  read_u16-HasClock, read_u8-HasClock, write_u32-IsTimely, write_u16-IsTimely, write_u8-IsTimely,
}

module _ (bus : Bus) where
  load_value-HasClock :
      (funct3 addr : ℕ) (s : Machine) → Ensures (HasClock (clock s)) (load_value bus funct3 addr s)
  unfolding load_value
  load_value-HasClock funct3 addr s =
      let P = HasClock {X = ℕ} (clock s) in
      let byte = read_u8-HasClock bus addr s in
      let half = read_u16-HasClock bus addr s in
      if-Ensures P (funct3 == 0) _ _ (Ensures-bind P P _ _ byte (λ r h. h)) (
        if-Ensures P (funct3 == 1) _ _ (Ensures-bind P P _ _ half (λ r h. h)) (
          if-Ensures P (funct3 == 2) _ _ (read_u32-HasClock bus addr s)
            (if-Ensures P (funct3 == 4) _ _ byte (if-Ensures P (funct3 == 5) _ _ half refl))))

  exec_load-IsTimely :
      (insn : ℕ) (s : Machine) → Ensures (IsTimely (clock s)) (exec_load bus insn s)
  unfolding exec_load
  exec_load-IsTimely insn s =
      Ensures-bind (HasClock {X = ℕ} (clock s)) (IsTimely (clock s)) _ _ (load_value-HasClock _ _ s)
        (λ r h. clock-write_reg _ r.0 r.1 ∙ h)

  exec_store-IsTimely :
      (insn : ℕ) (s : Machine) → Ensures (IsTimely (clock s)) (exec_store bus insn s)
  unfolding exec_store store_value
  exec_store-IsTimely insn s =
      let P = IsTimely (clock s) in
      if-Ensures P (funct3_of insn == 0) _ _ (write_u8-IsTimely bus _ _ s) (
        if-Ensures P (funct3_of insn == 1) _ _ (write_u16-IsTimely bus _ _ s)
          (if-Ensures P (funct3_of insn == 2) _ _ (write_u32-IsTimely bus _ _ s) refl))

  dispatch-IsTimelyExit :
      (insn : ℕ) (s : Machine) → Ensures (IsTimelyExit (clock s)) (dispatch bus insn s)
  unfolding dispatch
  dispatch-IsTimelyExit insn s =
      let P = IsTimelyExit (clock s) in
      let then_break = Ensures-bind (IsTimely (clock s)) P in
      if-Ensures P (opcode_of insn == 0x33) _ _
        (if-Ensures P (funct7_of insn == 1) _ _ (clock_exit-exec_muldiv insn s)
          (clock-exec_op insn s))
        (if-Ensures P (opcode_of insn == 0x13) _ _ (clock-exec_op_imm insn s) (
          if-Ensures P (opcode_of insn == 0x03) _ _
            (then_break _ _ (exec_load-IsTimely insn s) (λ t h. h))
            (if-Ensures P (opcode_of insn == 0x23) _ _
              (then_break _ _ (exec_store-IsTimely insn s) (λ t h. h))
              (if-Ensures P (opcode_of insn == 0x63) _ _ (clock_exit-exec_branch insn s) (
                if-Ensures P (opcode_of insn == 0x6f) _ _ (clock_exit-exec_jal insn s) (
                  if-Ensures P (opcode_of insn == 0x67) _ _ (clock_exit-exec_jalr insn s) (
                    if-Ensures P (opcode_of insn == 0x37) _ _ (clock-exec_lui insn s) (
                      if-Ensures P (opcode_of insn == 0x17) _ _ (clock-exec_auipc insn s) (
                        if-Ensures P (opcode_of insn == 0x73) _ _ (clock_exit-exec_system insn s)
                          refl)))))))))

  pub execute_instruction-HasClock :
      (insn : ℕ) (s : Machine) → Ensures (HasClock (clock s)) (execute_instruction bus insn s)
  unfolding execute_instruction
  execute_instruction-HasClock insn s =
      Ensures-bind (IsTimelyExit (clock s)) (HasClock (clock s)) _ _ (dispatch-IsTimelyExit insn s)
        (λ e h. clock-finish insn e ∙ h)

  load_word-HasClock :
      (reg addr : ℕ) (s : Machine) → Ensures (HasClock (clock s)) (load_word bus reg addr s)
  unfolding load_word
  load_word-HasClock reg addr s =
      Ensures-bind (HasClock {X = ℕ} (clock s)) (HasClock (clock s)) _ _
        (read_u32-HasClock bus addr s) (λ r h. clock-write_reg reg r.0 r.1 ∙ h)

  store_word-HasClock :
      (addr value : ℕ) (s : Machine) → Ensures (HasClock (clock s)) (store_word bus addr value s)
  unfolding store_word
  store_word-HasClock addr value s =
      Ensures-bind (IsTimely (clock s)) (HasClock (clock s)) _ _
        (write_u32-IsTimely bus addr value s) (λ t h. h)

  exec_q0-HasClock : (insn : ℕ) (s : Machine) → Ensures (HasClock (clock s)) (exec_q0 bus insn s)
  unfolding exec_q0
  exec_q0-HasClock insn s =
      let P = HasClock {X = Bool} (clock s) in
      if-Ensures P (c_funct3 insn == 0) _ _
        (if-Ensures P (nzuimm_addi4spn insn == 0) _ _ refl (clock-write_reg _ _ s))
        (if-Ensures P (c_funct3 insn == 2) _ _ (load_word-HasClock _ _ s)
          (if-Ensures P (c_funct3 insn == 6) _ _ (store_word-HasClock _ _ s) refl))

  exec_q2-HasClock : (insn : ℕ) (s : Machine) → Ensures (HasClock (clock s)) (exec_q2 bus insn s)
  unfolding exec_q2
  exec_q2-HasClock insn s =
      let P = HasClock {X = Bool} (clock s) in
      if-Ensures P (c_funct3 insn == 0) _ _ (write_shifted-HasClock _ _ _ s) (
        if-Ensures P (c_funct3 insn == 2) _ _ (load_word-HasClock _ _ s) (
          if-Ensures P (c_funct3 insn == 4) _ _ (exec_q2_jump-HasClock insn s)
            (if-Ensures P (c_funct3 insn == 6) _ _ (store_word-HasClock _ _ s) refl)))

  pub execute_compressed-HasClock :
      (insn : ℕ) (s : Machine) → Ensures (HasClock (clock s)) (execute_compressed bus insn s)
  unfolding execute_compressed
  execute_compressed-HasClock insn s =
      let P = HasClock {X = Bool} (clock s) in
      if-Ensures P (field insn 0 2 == 0) _ _ (exec_q0-HasClock insn s) (
        if-Ensures P (field insn 0 2 == 1) _ _ (exec_q1-HasClock insn s)
          (if-Ensures P (field insn 0 2 == 2) _ _ (exec_q2-HasClock insn s) refl))
