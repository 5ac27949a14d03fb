-- ===== src/Transparent/Step.antt =====
-- `rv_step` of dpi-riscv/sim/iss/rv32_dpi.c with the profiler on and with it off: the batches are the same
-- up to the profiler's variables.
use herve.Base.{
  ℕ, zero, suc, ◌+◌, Bool, true, false, Option, some, none, ◌≡◌, ◌∙◌, sym, refl, ap, ◌==◌,
  if◌then◌else◌, arith, not, ◌||◌, ◌&&◌,
}
use herve.Word.{u16}
use herve.Profiler.{Profiler}
use herve.Machine.{Machine, Bus, profile, ◌>>=◌}
use herve.Memory.Ram.{valid_memory_access}
use herve.Compressed.{execute_compressed}
use herve.Step.Loop.{
  advance, tick, compressed_end, compressed_end_profiled, stops, round, round_profiled, loop,
}
use herve.Step.{batch, enter_interrupt, step, wake, interrupt_ready}
use herve.Transparent.Agree.{
  with_profiler, map_option, keep, Agrees, some-Agrees, refl-Agrees, if-Agrees, bind-Agrees,
}
use herve.Transparent.Memory.{read_u32-keep}
use herve.Transparent.Execute.{execute_instruction-Agrees}
use herve.Transparent.Compressed.{execute_compressed-keep}

if_both :
    {A : Type 0} {erase : A → A} (b : Bool) {x y z : Option A}
    → Agrees erase x z
    → Agrees erase y z
    → Agrees erase (if b then x else y) z
if_both true h k = h
if_both false h k = k

kept-Agrees :
    {X : Type 0} (p r : Profiler) (m m' : Option (X × Machine))
    → m' ≡ map_option (keep p) m
    → Agrees (keep r) m' m
kept-Agrees p r none m' h = rw h refl-Agrees
kept-Agrees p r (some a) m' h = rw h (some-Agrees refl)

compressed_end_erased :
    (p r : Profiler) (at : ℕ) (a : Bool × Machine)
    → keep r (compressed_end at (keep p a)) ≡ keep r (compressed_end at a)
unfolding compressed_end advance
compressed_end_erased p r at a = ground arith

compressed_end_profiled_erased :
    (p r : Profiler) (at insn : ℕ) (a : Bool × Machine)
    → keep r (compressed_end_profiled at insn (keep p a)) ≡ keep r (compressed_end at a)
unfolding compressed_end compressed_end_profiled advance profile
compressed_end_profiled_erased p r at insn a = ground arith

module _ (p r : Profiler) (bus : Bus) (insn : ℕ) (s : Machine) where
  executed-Agrees :
      Agrees
        (keep r)
        (execute_compressed bus (u16 insn) (with_profiler p s))
        (execute_compressed bus (u16 insn) s)
  executed-Agrees = kept-Agrees p r _ _ (execute_compressed-keep p bus (u16 insn) s)

  round-Agrees : Agrees (keep r) (round bus insn (with_profiler p s)) (round bus insn s)
  unfolding round
  round-Agrees = if-Agrees _ (execute_instruction-Agrees p r bus insn s) (
      bind-Agrees r (keep r) (λ a. some (compressed_end s.pc a)) (λ a. some (compressed_end s.pc a))
        (λ q a. some-Agrees (compressed_end_erased q r s.pc a)) executed-Agrees)

  round_profiled-Agrees :
      Agrees (keep r) (round_profiled bus insn (with_profiler p s)) (round bus insn s)
  unfolding round round_profiled
  round_profiled-Agrees = if-Agrees _ (execute_instruction-Agrees p r bus insn s) (
      bind-Agrees r (keep r) (λ a. some (compressed_end_profiled s.pc (u16 insn) a))
        (λ a. some (compressed_end s.pc a))
        (λ q a. some-Agrees (compressed_end_profiled_erased q r s.pc (u16 insn) a)) executed-Agrees)

-- The loops over two bodies that agree agree.
module _ (r : Profiler) (bus : Bus) (body body' : ℕ → Machine → Option (Bool × Machine))
    (k : (p : Profiler) (insn : ℕ) (s : Machine)
      → Agrees (keep r) (body insn (with_profiler p s)) (body' insn s)) where
  after : (ℕ → Machine → Option (Bool × Machine)) → ℕ → ℕ → Bool × Machine → Option (ℕ × Machine)
  after body left executed (more, t) =
      if more then loop bus body left (executed + 1) (tick t) else some (executed, t)

  after-Agrees :
      (left executed : ℕ)
      → ((p : Profiler) (s : Machine)
          → Agrees
              (keep r)
              (loop bus body left (executed + 1) (with_profiler p s))
              (loop bus body' left (executed + 1) s))
      → (p : Profiler) (a : Bool × Machine)
      → Agrees (keep r) (after body left executed (keep p a)) (after body' left executed a)
  unfolding after tick
  after-Agrees left executed rest p (true, s) = rest p (tick s)
  after-Agrees left executed rest p (false, s) =
      some-Agrees {erase = keep r} {a = (executed, with_profiler p s)} {a' = (executed, s)} refl

  loop-Agrees :
      (left executed : ℕ) (p : Profiler) (s : Machine)
      → Agrees
          (keep r)
          (loop bus body left executed (with_profiler p s))
          (loop bus body' left executed s)
  unfolding loop after valid_memory_access
  loop-Agrees zero executed p s =
      some-Agrees {erase = keep r} {a = (executed, with_profiler p s)} {a' = (executed, s)} refl
  loop-Agrees (suc left) executed p s =
      if-Agrees (stops s)
        (some-Agrees {erase = keep r} {a = (executed, with_profiler p s)} {a' = (executed, s)} refl)
        (bind-Agrees r (keep r) (λ (insn, t). body insn t >>= after body left executed)
          (λ (insn, t). body' insn t >>= after body' left executed)
          (λ q (insn, t).
            bind-Agrees r (keep r) (after body left executed) (after body' left executed)
              (after-Agrees left executed (loop-Agrees left (executed + 1))) (k q insn t))
          (kept-Agrees p r _ _ (read_u32-keep p bus s.pc s)))

module _ (p r : Profiler) (bus : Bus) where
  batch-loop :
      (max : ℕ) (s : Machine)
      → Agrees (keep r) (batch bus max (with_profiler p s)) (loop bus (round bus) max 0 s)
  unfolding batch
  batch-loop max s =
      if_both p.enabled
        (loop-Agrees r bus (round_profiled bus) (round bus)
          (λ q insn t. round_profiled-Agrees q r bus insn t) max 0 p s)
        (loop-Agrees r bus (round bus) (round bus) (λ q insn t. round-Agrees q r bus insn t) max 0 p
          s)

  enter_interrupt-with_profiler :
      (s : Machine)
      → enter_interrupt (wake (with_profiler p s)) ≡ with_profiler p (enter_interrupt (wake s))
  unfolding enter_interrupt
  enter_interrupt-with_profiler s = ground arith

module _ (p r : Profiler) (bus : Bus) (max : ℕ) (s : Machine) where
  batch-Agrees : Agrees (keep r) (batch bus max (with_profiler p s)) (batch bus max s)
  batch-Agrees = record {
    same = (batch-loop p r bus max s).same ∙ sym (batch-loop s.profiler r bus max s).same;
  }

  asleep-Agrees : Agrees {A = ℕ × Machine} (keep r) (some (0, with_profiler p s)) (some (0, s))
  asleep-Agrees = some-Agrees refl

  taken-Agrees :
      Agrees {A = ℕ × Machine}
        (keep r)
        (some (1, enter_interrupt (wake (with_profiler p s))))
        (some (1, enter_interrupt (wake s)))
  taken-Agrees =
      some-Agrees (ap (λ t. (1, with_profiler r t)) (enter_interrupt-with_profiler p r bus s))

  pub step-Agrees : Agrees (keep r) (step bus max (with_profiler p s)) (step bus max s)
  unfolding step
  step-Agrees = if-Agrees (not s.initialized || max == 0) asleep-Agrees (
      if-Agrees (s.wfi_sleep && not (interrupt_ready s)) asleep-Agrees
        (if-Agrees (interrupt_ready s) taken-Agrees batch-Agrees))

  -- For every bus, bound `max`, state `s`, and variables `p` and `r` of the profiler: `rv_step` from `s`
  -- with the variables `p`, profiling enabled in them or not, executes the number of instructions that it
  -- executes from `s`, and leaves the same state up to the variables of the profiler, which are set to
  -- `r` on both sides; and it is undefined in the one run where it is in the other.
  pub step-with_profiler :
      map_option (keep r) (step bus max (with_profiler p s)) ≡ map_option (keep r) (step bus max s)
  step-with_profiler = step-Agrees.same
