-- ===== src/Profiler/Totals.antt =====
-- The totals of the profiler against its counts for each type of instruction, over any sequence of
-- calls of `herve_profiler_record_insn` in dpi-riscv/sim/iss/herve_profiler.c.
use herve.Base.{
  ℕ, zero, suc, ◌+◌, ◌%◌, ◌^◌, ◌≡◌, refl, Bool, true, false, arith, if◌then◌else◌, Option, none,
  some, List, [], ◌∷◌, update, Bool-cases, inl, inr, sym, ◌∙◌,
}
use herve.Word.{u64}
use herve.Profiler.Defs.{
  InsnType, unknown, alu, mul, div, load, store, branch, jump, csr, sys, compressed, index, CfType,
  cf_none, cf_call, cf_ret, cf_jump, SymbolName, Profiler,
}
use herve.Profiler.Record.{
  record_insn, record_func, enter_func, insn_cost, profiler_enable, other_func, at_stats, add_insn,
  get_func_stats,
}

-- The sum over the types of instruction.
abbrev pub sum_types : (ℕ → ℕ) → ℕ
sum_types f = f 0 + f 1 + f 2 + f 3 + f 4 + f 5 + f 6 + f 7 + f 8 + f 9 + f 10

-- The totals are the sums of the counts, up to the wrap-around of 64 bits.
abbrev pub IsBalanced : Profiler → Type 0
IsBalanced p =
    (p.total_instructions ≡ u64 (sum_types p.insn_counts))
    × (p.total_cycles ≡ u64 (sum_types p.insn_cycles))

sum_types-update :
    (f : ℕ → ℕ) (type : InsnType) (c : ℕ)
    → u64 (sum_types (update f (index type) (u64 (f (index type) + c))))
      ≡ u64 (u64 (sum_types f) + c)
sum_types-update f unknown c = omega arith
sum_types-update f alu c = omega arith
sum_types-update f mul c = omega arith
sum_types-update f div c = omega arith
sum_types-update f load c = omega arith
sum_types-update f store c = omega arith
sum_types-update f branch c = omega arith
sum_types-update f jump c = omega arith
sum_types-update f csr c = omega arith
sum_types-update f sys c = omega arith
sum_types-update f compressed c = omega arith

-- What the part on functions leaves as it is.
abbrev SameTotals : Profiler → Profiler → Type 0
SameTotals p q =
    (q.enabled ≡ p.enabled)
    × (q.total_instructions ≡ p.total_instructions)
    × (q.insn_counts ≡ p.insn_counts)
    × (q.total_cycles ≡ p.total_cycles)
    × (q.insn_cycles ≡ p.insn_cycles)

enter_func-SameTotals :
    (cf : CfType) (last : Option SymbolName) (name : herve.Base.String) (p : Profiler)
    → SameTotals p (enter_func cf last name p)
unfolding enter_func
enter_func-SameTotals cf_call last name p = (refl, refl, refl, refl, refl)
enter_func-SameTotals cf_jump last name p = (refl, refl, refl, refl, refl)
enter_func-SameTotals cf_ret last name p = (refl, refl, refl, refl, refl)
enter_func-SameTotals cf_none last name p = (refl, refl, refl, refl, refl)

record_func-SameTotals :
    (type : InsnType) (cycles : ℕ) (func : Option SymbolName) (p : Profiler)
    → SameTotals p (record_func type cycles func p)
unfolding record_func
record_func-SameTotals type cycles none p = (refl, refl, refl, refl, refl)
record_func-SameTotals type cycles (some func) p = elim (Bool-cases (other_func func p.last_func)) [
  | inl e ↦
      let added = record p {
        func_stats =
            at_stats (add_insn type cycles) func.name (get_func_stats func.name p.func_stats);
      } in
      rw e (enter_func-SameTotals p.last_cf p.last_func func.name added)
  | inr e ↦ rw e (refl, refl, refl, refl, refl)
]

-- A recorded instruction: its type, the function it belongs to and its word.
abbrev pub Event : Type 0
Event = InsnType × Option SymbolName × ℕ

abbrev pub record_event : Event → Profiler → Profiler
record_event (type, func, insn) p = record_insn type func insn p

-- The profiler after a sequence of recorded instructions, first to last.
abbrev pub record_all : List Event → Profiler → Profiler
record_all [] p = p
record_all (e ∷ es) p = record_all es (record_event e p)

abbrev pub count_events : List Event → ℕ
count_events [] = 0
count_events (e ∷ es) = suc (count_events es)

-- How the state `q` after a recorded instruction of `type` counts on from the state `p` before it.
pub record IsCounted (type : InsnType) (p q : Profiler) : Type 0 where
  instructions : q.total_instructions ≡ u64 (p.total_instructions + 1)
  counts : q.insn_counts ≡ update p.insn_counts (index type) (u64 (p.insn_counts (index type) + 1))
  cycles : q.total_cycles ≡ u64 (p.total_cycles + insn_cost p.arch type)
  cycle_counts :
      q.insn_cycles
      ≡ update p.insn_cycles (index type) (u64 (p.insn_cycles (index type) + insn_cost p.arch type))
  pub on : q.enabled ≡ p.enabled

chosen :
    {A : Type 0} (P : A → Type 0) (b : Bool) (x y : A) → b ≡ true → P x → P (if b then x else y)
chosen P true x y e h = h
chosen P false x y e h = absurd (ground (arith, e))

pub record_insn-IsCounted :
    (type : InsnType) (func : Option SymbolName) (insn : ℕ) (p : Profiler)
    → p.enabled ≡ true
    → IsCounted type p (record_insn type func insn p)
unfolding record_insn
record_insn-IsCounted type func insn p enabled =
    let same = record_func-SameTotals type (insn_cost p.arch type) func _ in
    chosen (IsCounted type p) p.enabled _ p enabled (record {
      instructions = same.1;
      counts = same.2;
      cycles = same.3;
      cycle_counts = same.4;
      on = same.0;
    })

IsCounted-IsBalanced :
    (type : InsnType) (p q : Profiler) → IsCounted type p q → IsBalanced p → IsBalanced q
IsCounted-IsBalanced type p q c h = (
  rw (c.instructions, c.counts, h.0) (sym (sum_types-update p.insn_counts type 1)),
  rw (c.cycles, c.cycle_counts, h.1)
      (sym (sum_types-update p.insn_cycles type (insn_cost p.arch type))),
)

record_all_from :
    (events : List Event) (p : Profiler) (before : ℕ)
    → p.enabled ≡ true
    → IsBalanced p
    → p.total_instructions ≡ u64 before
    → let q = record_all events p in
      IsBalanced q × (q.total_instructions ≡ u64 (before + count_events events))
record_all_from [] p before enabled h e = (h, rw e (omega arith))
record_all_from ((type, func, insn) ∷ es) p before enabled h e =
    let c = record_insn-IsCounted type func insn p enabled in
    let rest =
      record_all_from es (record_insn type func insn p) (before + 1) (c.on ∙ enabled)
        (IsCounted-IsBalanced type p _ c h) (rw (c.instructions, e) (omega arith)) in
    (rest.0, rw rest.1 (omega arith))

-- After profiling is turned on, any sequence of recorded instructions leaves the totals equal to
-- the sums of the counts over the types of instruction, and the number of instructions equal to the
-- length of the sequence, up to the wrap-around of 64 bits.
pub record_all-IsBalanced :
    (events : List Event) (p : Profiler)
    → let q = record_all events (profiler_enable true p) in
      IsBalanced q × (q.total_instructions ≡ u64 (count_events events))
unfolding profiler_enable
record_all-IsBalanced events p =
    let r = record_all_from events (profiler_enable true p) 0 refl (refl, refl) refl in
    (r.0, omega (arith, r.1))
