-- ===== src/Transparent/Execute.antt =====
-- The instructions of dpi-riscv/sim/iss/rv32_dpi.c do not depend on the profiler: `execute_instruction`
-- and `execute_compressed` do the same to the rest of the simulator whatever its variables are.
use herve.Base.{ℕ, ◌≡◌, arith, refl, ap, sym, ◌∙◌, Option, some, none}
use herve.Word.{add32}
use herve.Profiler.{Profiler, InsnType}
use herve.Profiler.InsnType.{alu, load, store}
use herve.Machine.{Machine, Bus, write_reg, profile_if_enabled, profile, ◌>>=◌}
use herve.Execute.Decode.{Exit, break, return}
use herve.Execute.MulDiv.{exec_muldiv}
use herve.Execute.Alu.{exec_op, exec_op_imm, exec_lui, exec_auipc}
use herve.Execute.Control.{exec_branch, exec_jal, exec_jalr}
use herve.Execute.System.{exec_system, exec_sys, exec_csr, csr_read, csr_write}
use herve.Execute.LoadStore.{exec_load, exec_store, load_value, store_value}
use herve.Execute.{dispatch, finish, execute_instruction}
use herve.Transparent.Agree.{
  with_profiler, map_option, keep, Agrees, some-Agrees, refl-Agrees, if-Agrees,
}
use herve.Transparent.Memory.{
  read_u32-keep, read_u16-keep, read_u8-keep, write_u32-with_profiler, write_u16-with_profiler,
  write_u8-with_profiler,
}

abbrev set_exit : Profiler → Exit → Exit
set_exit p (break type next_pc s) = break type next_pc (with_profiler p s)
set_exit p (return more s) = return more (with_profiler p s)

module _ (p : Profiler) where
  exec_op-with_profiler :
      (insn : ℕ) (s : Machine) → exec_op insn (with_profiler p s) ≡ with_profiler p (exec_op insn s)
  unfolding exec_op write_reg
  exec_op-with_profiler insn s = ground arith steps 20000000

  exec_op_imm-with_profiler :
      (insn : ℕ) (s : Machine)
      → exec_op_imm insn (with_profiler p s) ≡ with_profiler p (exec_op_imm insn s)
  unfolding exec_op_imm write_reg
  exec_op_imm-with_profiler insn s = ground arith

  exec_lui-with_profiler :
      (insn : ℕ) (s : Machine)
      → exec_lui insn (with_profiler p s) ≡ with_profiler p (exec_lui insn s)
  unfolding exec_lui write_reg
  exec_lui-with_profiler insn s = ground arith

  exec_auipc-with_profiler :
      (insn : ℕ) (s : Machine)
      → exec_auipc insn (with_profiler p s) ≡ with_profiler p (exec_auipc insn s)
  unfolding exec_auipc write_reg
  exec_auipc-with_profiler insn s = ground arith

  exec_branch-set_exit :
      (insn : ℕ) (s : Machine)
      → exec_branch insn (with_profiler p s) ≡ set_exit p (exec_branch insn s)
  unfolding exec_branch
  exec_branch-set_exit insn s = ground arith

  exec_jal-set_exit :
      (insn : ℕ) (s : Machine) → exec_jal insn (with_profiler p s) ≡ set_exit p (exec_jal insn s)
  unfolding exec_jal write_reg
  exec_jal-set_exit insn s = ground arith

  exec_jalr-set_exit :
      (insn : ℕ) (s : Machine) → exec_jalr insn (with_profiler p s) ≡ set_exit p (exec_jalr insn s)
  unfolding exec_jalr write_reg
  exec_jalr-set_exit insn s = ground arith

  exec_system-set_exit :
      (insn : ℕ) (s : Machine)
      → exec_system insn (with_profiler p s) ≡ set_exit p (exec_system insn s)
  unfolding exec_system exec_sys exec_csr csr_read csr_write write_reg
  exec_system-set_exit insn s = ground arith

  module _ (bus : Bus) where
    exec_load-with_profiler :
        (insn : ℕ) (s : Machine)
        → exec_load bus insn (with_profiler p s)
          ≡ map_option (with_profiler p) (exec_load bus insn s)
    unfolding exec_load load_value write_reg
    exec_load-with_profiler insn s =
        rw (read_u8-keep p bus, read_u16-keep p bus, read_u32-keep p bus) (ground arith)

    exec_store-with_profiler :
        (insn : ℕ) (s : Machine)
        → exec_store bus insn (with_profiler p s)
          ≡ map_option (with_profiler p) (exec_store bus insn s)
    unfolding exec_store store_value
    exec_store-with_profiler insn s =
        rw
          (
            write_u8-with_profiler p bus,
            write_u16-with_profiler p bus,
            write_u32-with_profiler p bus,
          )
          (ground arith)

set_exit_twice : (p r : Profiler) (exit : Exit) → set_exit r (set_exit p exit) ≡ set_exit r exit
set_exit_twice p r (break type next_pc s) = refl
set_exit_twice p r (return more s) = refl

-- One of the M extension, and the end of the function, call the profiler: the states agree where its
-- variables are left out, here set to `r`.
exec_muldiv_erased :
    (p r : Profiler) (insn : ℕ) (s : Machine)
    → set_exit r (exec_muldiv insn (with_profiler p s)) ≡ set_exit r (exec_muldiv insn s)
unfolding exec_muldiv profile_if_enabled profile write_reg
exec_muldiv_erased p r insn s = ground arith

finish_erased :
    (r : Profiler) (insn : ℕ) (exit : Exit)
    → keep r (finish insn (set_exit r exit)) ≡ keep r (finish insn exit)
unfolding finish profile_if_enabled profile
finish_erased r insn (return more s) = refl
finish_erased r insn (break type next_pc s) = ground arith

finish_after :
    (r : Profiler) (insn : ℕ) (m : Option Exit)
    → map_option (keep r) (m >>= (λ exit. some (finish insn exit)))
      ≡ map_option (keep r) (map_option (set_exit r) m >>= (λ exit. some (finish insn exit)))
finish_after r insn none = refl
finish_after r insn (some exit) = ap some (sym (finish_erased r insn exit))

module _ (p r : Profiler) (bus : Bus) where
  module _ (insn : ℕ) (s : Machine) where
    muldiv-Agrees :
        Agrees
          (set_exit r)
          (some (exec_muldiv insn (with_profiler p s)))
          (some (exec_muldiv insn s))
    muldiv-Agrees = some-Agrees (exec_muldiv_erased p r insn s)

    memory-Agrees :
        (type : InsnType) (next_pc : ℕ) (f : ℕ → Machine → Option Machine)
        → f insn (with_profiler p s) ≡ map_option (with_profiler p) (f insn s)
        → Agrees
            (set_exit r)
            (f insn (with_profiler p s) >>= (λ t. some (break type next_pc t)))
            (f insn s >>= (λ t. some (break type next_pc t)))
    memory-Agrees type next_pc f h = rw h (go (f insn s))
      where
        go :
            (m : Option Machine)
            → Agrees
                (set_exit r)
                (map_option (with_profiler p) m >>= (λ t. some (break type next_pc t)))
                (m >>= (λ t. some (break type next_pc t)))
        go none = refl-Agrees
        go (some t) = some-Agrees refl

    exit-Agrees :
        (f : ℕ → Machine → Exit)
        → f insn (with_profiler p s) ≡ set_exit p (f insn s)
        → Agrees (set_exit r) (some (f insn (with_profiler p s))) (some (f insn s))
    exit-Agrees f h = rw h (some-Agrees (set_exit_twice p r (f insn s)))

    state-Agrees :
        (next_pc : ℕ) (f : ℕ → Machine → Machine)
        → f insn (with_profiler p s) ≡ with_profiler p (f insn s)
        → Agrees
            (set_exit r)
            (some (break alu next_pc (f insn (with_profiler p s))))
            (some (break alu next_pc (f insn s)))
    state-Agrees next_pc f h = rw h (some-Agrees refl)

    dispatch-Agrees :
        Agrees (set_exit r) (dispatch bus insn (with_profiler p s)) (dispatch bus insn s)
    unfolding dispatch
    dispatch-Agrees =
        let pc = add32 s.pc 4 in
        if-Agrees _
          (if-Agrees _ muldiv-Agrees (state-Agrees pc exec_op (exec_op-with_profiler p insn s)))
          (if-Agrees _ (state-Agrees pc exec_op_imm (exec_op_imm-with_profiler p insn s)) (
            if-Agrees _
              (memory-Agrees load pc (exec_load bus) (exec_load-with_profiler p bus insn s))
              (if-Agrees _
                (memory-Agrees store pc (exec_store bus) (exec_store-with_profiler p bus insn s))
                (if-Agrees _ (exit-Agrees exec_branch (exec_branch-set_exit p insn s)) (
                  if-Agrees _ (exit-Agrees exec_jal (exec_jal-set_exit p insn s)) (
                    if-Agrees _ (exit-Agrees exec_jalr (exec_jalr-set_exit p insn s)) (
                      if-Agrees _ (state-Agrees pc exec_lui (exec_lui-with_profiler p insn s)) (
                        if-Agrees _ (state-Agrees pc exec_auipc (exec_auipc-with_profiler p insn s))
                          (if-Agrees _ (exit-Agrees exec_system (exec_system-set_exit p insn s))
                            (some-Agrees refl))))))))))

  pub execute_instruction-Agrees :
      (insn : ℕ) (s : Machine)
      → Agrees
          (keep r)
          (execute_instruction bus insn (with_profiler p s))
          (execute_instruction bus insn s)
  unfolding execute_instruction
  execute_instruction-Agrees insn s = record {
    same =
        finish_after r insn (dispatch bus insn (with_profiler p s))
        ∙ ap (λ m. map_option (keep r) (m >>= (λ exit. some (finish insn exit))))
            (dispatch-Agrees insn s).same
        ∙ sym (finish_after r insn (dispatch bus insn s));
  }
