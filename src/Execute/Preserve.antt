-- ===== src/Execute/Preserve.antt =====
-- The ranges of the variables behind `execute_instruction` of dpi-riscv/sim/iss/rv32_dpi.c.
use herve.Base.{ℕ, ◌^◌, ◌<◌, Bool, arith, ◌==◌, Option, some}
use herve.Word.{add32, field}
use herve.Word.Extend.{sign_extend-lt}
use herve.Profiler.{InsnType}
use herve.Machine.{Machine, Bus, ◌>>=◌, Ensures, Ensures-bind, if-Ensures}
use herve.Machine.WellFormed.{
  IsWellFormed, write_reg-IsWellFormed, jump-IsWellFormed, profile_if_enabled-IsWellFormed,
}
use herve.Memory.AccessWellFormed.{
  IsRead, read_u32-IsRead, read_u16-IsRead, read_u8-IsRead, write_u32-IsWellFormed,
  write_u16-IsWellFormed, write_u8-IsWellFormed,
}
use herve.Execute.{finish, dispatch, execute_instruction}
use herve.Execute.Decode.{
  Exit, break, return, opcode_of, rd_of, funct3_of, funct7_of, src1_of, imm_i, imm_s,
}
use herve.Execute.LoadStore.{load_value, exec_load, store_value, exec_store}
use herve.Execute.WellFormed.{
  IsExit, exec_muldiv-IsExit, exec_op-IsWellFormed, exec_op_imm-IsWellFormed, next-IsExit,
  exec_branch-IsExit, exec_jal-IsExit, exec_jalr-IsExit, exec_system-IsExit, exec_lui-IsWellFormed,
  exec_auipc-IsWellFormed,
}

-- The state of a result.
abbrev pub IsKept : Bool × Machine → Type 0
IsKept r = IsWellFormed r.1

finish-IsKept : (insn : ℕ) (exit : Exit) → IsExit exit → IsKept (finish insn exit)
unfolding finish
finish-IsKept insn (break type next_pc s) h =
    profile_if_enabled-IsWellFormed type s.pc insn (jump-IsWellFormed next_pc h.0 h.1)
finish-IsKept insn (return more s) h = h

module _ (dpi_mmio_read : Bus) where
  load_value-IsRead :
      (funct3 addr : ℕ) (s : Machine)
      → IsWellFormed s
      → Ensures IsRead (load_value dpi_mmio_read funct3 addr s)
  unfolding load_value
  load_value-IsRead funct3 addr s w =
      if-Ensures IsRead (funct3 == 0) _ _
        (Ensures-bind IsRead IsRead _ _ (read_u8-IsRead dpi_mmio_read addr s w)
          (λ r h. (sign_extend-lt r.0 8, h.1)))
        (if-Ensures IsRead (funct3 == 1) _ _
          (Ensures-bind IsRead IsRead _ _ (read_u16-IsRead dpi_mmio_read addr s w)
            (λ r h. (sign_extend-lt r.0 16, h.1)))
          (if-Ensures IsRead (funct3 == 2) _ _ (read_u32-IsRead dpi_mmio_read addr s w) (
            if-Ensures IsRead (funct3 == 4) _ _ (read_u8-IsRead dpi_mmio_read addr s w) (
              if-Ensures IsRead (funct3 == 5) _ _ (read_u16-IsRead dpi_mmio_read addr s w)
                (omega arith, w)))))

  exec_load-IsWellFormed :
      (insn : ℕ) (s : Machine)
      → IsWellFormed s
      → Ensures IsWellFormed (exec_load dpi_mmio_read insn s)
  unfolding exec_load
  exec_load-IsWellFormed insn s w =
      Ensures-bind IsRead IsWellFormed _ _
        (load_value-IsRead (funct3_of insn) (add32 (src1_of insn s) (imm_i insn)) s w)
        (λ r h. write_reg-IsWellFormed (rd_of insn) r.0 h.0 h.1)

  exec_store-IsWellFormed :
      (insn : ℕ) (s : Machine)
      → IsWellFormed s
      → Ensures IsWellFormed (exec_store dpi_mmio_read insn s)
  unfolding exec_store store_value
  exec_store-IsWellFormed insn s w =
      let addr = add32 (src1_of insn s) (imm_s insn) in
      let f3 = funct3_of insn in
      let value-lt = w.regs_ok.regs_lt (field insn 20 5) in
      if-Ensures IsWellFormed (f3 == 0) _ _ (write_u8-IsWellFormed dpi_mmio_read addr _ s w) (
        if-Ensures IsWellFormed (f3 == 1) _ _ (write_u16-IsWellFormed dpi_mmio_read addr _ s w) (
          if-Ensures IsWellFormed (f3 == 2) _ _
            (write_u32-IsWellFormed dpi_mmio_read addr _ s value-lt w) w))

  -- The state behind a load or a store, and the next instruction.
  then_next-IsExit :
      (m : Option Machine) (type : InsnType) (at : ℕ)
      → Ensures IsWellFormed m
      → Ensures IsExit (m >>= λ s'. some (break type (add32 at 4) s'))
  then_next-IsExit m type at h =
      Ensures-bind IsWellFormed IsExit m _ h (λ s' w'. next-IsExit type at w')

  dispatch-IsExit :
      (insn : ℕ) (s : Machine)
      → insn < 2 ^ 32
      → IsWellFormed s
      → Ensures IsExit (dispatch dpi_mmio_read insn s)
  unfolding dispatch
  dispatch-IsExit insn s word w =
      let op = opcode_of insn in
      if-Ensures IsExit (op == 0x33) _ _
        (if-Ensures IsExit (funct7_of insn == 1) _ _ (exec_muldiv-IsExit insn s w)
          (next-IsExit InsnType.alu s.pc (exec_op-IsWellFormed insn s w)))
        (if-Ensures IsExit (op == 0x13) _ _
          (next-IsExit InsnType.alu s.pc (exec_op_imm-IsWellFormed insn s w))
          (if-Ensures IsExit (op == 0x03) _ _
            (then_next-IsExit _ InsnType.load s.pc (exec_load-IsWellFormed insn s w))
            (if-Ensures IsExit (op == 0x23) _ _
              (then_next-IsExit _ InsnType.store s.pc (exec_store-IsWellFormed insn s w))
              (if-Ensures IsExit (op == 0x63) _ _ (exec_branch-IsExit insn s w) (
                if-Ensures IsExit (op == 0x6f) _ _ (exec_jal-IsExit insn s w) (
                  if-Ensures IsExit (op == 0x67) _ _ (exec_jalr-IsExit insn s w) (
                    if-Ensures IsExit (op == 0x37) _ _
                      (next-IsExit InsnType.alu s.pc (exec_lui-IsWellFormed insn s word w))
                      (if-Ensures IsExit (op == 0x17) _ _
                        (next-IsExit InsnType.alu s.pc (exec_auipc-IsWellFormed insn s w))
                        (if-Ensures IsExit (op == 0x73) _ _ (exec_system-IsExit insn s w)
                          (next-IsExit InsnType.alu s.pc w))))))))))

  -- Where `execute_instruction` has defined behaviour, it leaves every variable of a well-formed
  -- state in the range of its C type, and register 0 at 0.
  pub execute_instruction-IsKept :
      (insn : ℕ) (s : Machine)
      → insn < 2 ^ 32
      → IsWellFormed s
      → Ensures IsKept (execute_instruction dpi_mmio_read insn s)
  unfolding execute_instruction
  execute_instruction-IsKept insn s word w =
      Ensures-bind IsExit IsKept _ _ (dispatch-IsExit insn s word w) (finish-IsKept insn)
