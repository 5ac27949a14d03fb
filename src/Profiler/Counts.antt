-- ===== src/Profiler/Counts.antt =====
-- The counts of dpi-riscv/sim/iss/herve_profiler.c for a function and a type of instruction, over any
-- sequence of calls of `herve_profiler_record_insn`.
use herve.Base.{
  ℕ, ◌+◌, ◌≡◌, refl, true, ◌&&◌, arith, if◌then◌else◌, Option, none, some, List, [], ◌∷◌,
  Bool-cases, inl, inr, ap, ◌∙◌, String, str_eq, str_eq_iff, ◌==◌,
}
use herve.Word.{u64}
use herve.Profiler.Defs.{
  InsnType, index, CfType, cf_none, cf_call, cf_ret, cf_jump, SymbolName, FuncStats, Profiler,
}
use herve.Profiler.Record.{
  record_insn, record_func, enter_func, insn_cost, other_func, at_stats, add_insn, add_call,
  get_func_stats, has_stats,
}
use herve.Profiler.Totals.{Event, record_all, record_insn-IsCounted}

-- What one entry counts for the function `name` and the type of number `i`.
abbrev pub counted_for : String → ℕ → FuncStats → ℕ
counted_for name i fs = if str_eq fs.name name then fs.insn_counts i else 0

-- What all entries count.
abbrev pub count_in : String → ℕ → List FuncStats → ℕ
count_in name i [] = 0
count_in name i (fs ∷ rest) = counted_for name i fs + count_in name i rest

-- 1 for an instruction of the function `func` that is to be counted.
abbrev hit : String → ℕ → InsnType → String → ℕ
hit name i type func = if str_eq func name && (index type == i) then 1 else 0

module _ (name : String) (i : ℕ) where
  count-add_call :
      (func : String) (l : List FuncStats)
      → count_in name i (at_stats add_call func l) ≡ count_in name i l
  unfolding at_stats
  count-add_call func [] = refl
  count-add_call func (fs ∷ rest) = elim (Bool-cases (str_eq fs.name func)) [
    | inl e ↦ rw e refl
    | inr e ↦ rw e (ap (λ n. counted_for name i fs + n) (count-add_call func rest))
  ]

  count-get_func_stats :
      (func : String) (l : List FuncStats)
      → count_in name i (get_func_stats func l) ≡ count_in name i l
  unfolding get_func_stats
  count-get_func_stats func l = ground arith

  has_stats-get_func_stats :
      (func : String) (l : List FuncStats) → has_stats func (get_func_stats func l) ≡ true
  unfolding get_func_stats has_stats
  has_stats-get_func_stats func l = elim (Bool-cases (has_stats func l)) [
    | inl e ↦ rw e e
    | inr e ↦ rw (e, (str_eq_iff func func).1 refl) refl
  ]

  counted_for-add_insn :
      (type : InsnType) (cycles : ℕ) (fs : FuncStats)
      → u64 (counted_for name i (add_insn type cycles fs))
        ≡ u64 (counted_for name i fs + hit name i type fs.name)
  counted_for-add_insn type cycles fs = ground arith

  count-add_insn :
      (type : InsnType) (cycles : ℕ) (func : String) (l : List FuncStats)
      → has_stats func l ≡ true
      → u64 (count_in name i (at_stats (add_insn type cycles) func l))
        ≡ u64 (count_in name i l + hit name i type func)
  unfolding at_stats has_stats
  count-add_insn type cycles func [] h = absurd (ground (arith, h))
  count-add_insn type cycles func (fs ∷ rest) h = elim (Bool-cases (str_eq fs.name func)) [
    | inl e ↦
        let same = (str_eq_iff fs.name func).0 e in
        let added = counted_for-add_insn type cycles fs in rw e (rw⁻¹ same (omega (arith, added)))
    | inr e ↦
        let later = count-add_insn type cycles func rest (ground (arith, h, e)) in
        rw e (omega (arith, later))
  ]

  enter_func-count :
      (cf : CfType) (last : Option SymbolName) (func : String) (p : Profiler)
      → count_in name i (enter_func cf last func p).func_stats ≡ count_in name i p.func_stats
  unfolding enter_func
  enter_func-count cf_call last func p = count-add_call func p.func_stats
  enter_func-count cf_jump last func p = count-add_call func p.func_stats
  enter_func-count cf_ret last func p = refl
  enter_func-count cf_none last func p = count-add_call func p.func_stats

  -- 1 for a recorded instruction that is to be counted: one of a function.
  abbrev hits : Event → ℕ
  hits (type, none, insn) = 0
  hits (type, some func, insn) = hit name i type func.name

  -- The number of the recorded instructions of type `i` in functions of the name `name`.
  abbrev pub events_of : List Event → ℕ
  events_of [] = 0
  events_of (e ∷ es) = hits e + events_of es

  record_func-count :
      (type : InsnType) (cycles insn : ℕ) (func : Option SymbolName) (p : Profiler)
      → u64 (count_in name i (record_func type cycles func p).func_stats)
        ≡ u64 (count_in name i p.func_stats + hits (type, func, insn))
  unfolding record_func
  record_func-count type cycles insn none p = omega arith
  record_func-count type cycles insn (some func) p =
      let l = get_func_stats func.name p.func_stats in
      let added =
        count-add_insn type cycles func.name l (has_stats-get_func_stats func.name p.func_stats) in
      let found = count-get_func_stats func.name p.func_stats in
      let counted : Profiler = record p {
        func_stats = at_stats (add_insn type cycles) func.name l;
      } in
      let entered = enter_func-count p.last_cf p.last_func func.name counted in
      elim (Bool-cases (other_func func p.last_func)) [
        | inl e ↦ rw (e, entered) (omega (arith, added, found))
        | inr e ↦ rw e (omega (arith, added, found))
      ]

  record_insn-count :
      (type : InsnType) (func : Option SymbolName) (insn : ℕ) (p : Profiler)
      → p.enabled ≡ true
      → u64 (count_in name i (record_insn type func insn p).func_stats)
        ≡ u64 (count_in name i p.func_stats + hits (type, func, insn))
  unfolding record_insn
  record_insn-count type func insn p enabled =
      rw enabled (record_func-count type (insn_cost p.arch type) insn func _)

  pub record_all-count :
      (events : List Event) (p : Profiler)
      → p.enabled ≡ true
      → u64 (count_in name i (record_all events p).func_stats)
        ≡ u64 (count_in name i p.func_stats + events_of events)
  record_all-count [] p enabled = omega arith
  record_all-count ((type, func, insn) ∷ es) p enabled =
      let first = record_insn-count type func insn p enabled in
      let rest =
        record_all-count es (record_insn type func insn p)
          ((record_insn-IsCounted type func insn p enabled).on ∙ enabled) in
      omega (arith, first, rest)
