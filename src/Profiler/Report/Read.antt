-- ===== src/Profiler/Report/Read.antt =====
-- The report of dpi-riscv/sim/iss/herve_profiler.c read back: the lines with the counts of instructions.
use herve.Base.{
  ℕ, ◌+◌, ◌≡◌, refl, true, ◌&&◌, arith, if◌then◌else◌, List, [], ◌∷◌, ◌++◌, String, str_eq, ◌≢◌,
}
use herve.Word.{u64}
use herve.Profiler.Defs.{
  InsnType, unknown, alu, mul, div, load, store, branch, jump, csr, sys, compressed, index,
  FuncStats, CallPair, Profiler,
}
use herve.Profiler.Record.{profiler_enable}
use herve.Profiler.Totals.{Event, record_all}
use herve.Profiler.Counts.{counted_for, count_in, events_of, record_all-count}
use herve.Profiler.Report.{
  text, number, Row, insn_type_to_str, meta_rows, reported_types, type_rows, func_rows, call_rows,
  report_rows,
}

-- The number on a line that begins with these three texts; 0 on any other line.
abbrev pub number_on : String → String → String → Row → ℕ
number_on kind name key (text a ∷ text b ∷ text c ∷ number n ∷ []) =
    if str_eq a kind && str_eq b name && str_eq c key then n else 0
number_on kind name key _ = 0

-- The sum of them over a report.
abbrev pub total_of : String → String → String → List Row → ℕ
total_of kind name key [] = 0
total_of kind name key (row ∷ rows) = number_on kind name key row + total_of kind name key rows

total_of-append :
    (kind name key : String) (xs ys : List Row)
    → total_of kind name key (xs ++ ys) ≡ total_of kind name key xs + total_of kind name key ys
total_of-append kind name key [] ys = omega arith
total_of-append kind name key (x ∷ xs) ys =
    let rest = total_of-append kind name key xs ys in omega (arith, rest)

module _ (name key : String) where
  -- What one round of the loop over the types adds.
  abbrev added : FuncStats → InsnType → ℕ
  added fs type =
      if str_eq fs.name name && str_eq (insn_type_to_str type) key
      then fs.insn_counts (index type)
      else 0

  type_rows-total :
      (fs : FuncStats) (type : InsnType) (types : List InsnType)
      → total_of "ICOUNT" name key (type_rows fs (type ∷ types))
        ≡ added fs type + total_of "ICOUNT" name key (type_rows fs types)
  unfolding type_rows
  type_rows-total fs type types = ground arith

  call_rows-total : (l : List CallPair) → total_of "ICOUNT" name key (call_rows l) ≡ 0
  unfolding call_rows
  call_rows-total [] = refl
  call_rows-total (cp ∷ rest) = omega (arith, call_rows-total rest)

  meta_rows-total : (p : Profiler) → total_of "ICOUNT" name key (meta_rows p) ≡ 0
  unfolding meta_rows
  meta_rows-total p = refl

  -- The loop over the types.
  all_types-total :
      (fs : FuncStats)
      → total_of "ICOUNT" name key (type_rows fs reported_types)
        ≡ added fs alu
          + (added fs mul
              + (added fs div
                  + (added fs load
                      + (added fs store
                          + (added fs branch
                              + (added fs jump
                                  + (added fs csr
                                      + (added fs sys + (added fs compressed + 0)))))))))
  unfolding type_rows
  all_types-total fs =
      rw
        (
          type_rows-total fs alu
              (mul ∷ div ∷ load ∷ store ∷ branch ∷ jump ∷ csr ∷ sys ∷ compressed ∷ []),
          type_rows-total fs mul (div ∷ load ∷ store ∷ branch ∷ jump ∷ csr ∷ sys ∷ compressed ∷ []),
          type_rows-total fs div (load ∷ store ∷ branch ∷ jump ∷ csr ∷ sys ∷ compressed ∷ []),
          type_rows-total fs load (store ∷ branch ∷ jump ∷ csr ∷ sys ∷ compressed ∷ []),
          type_rows-total fs store (branch ∷ jump ∷ csr ∷ sys ∷ compressed ∷ []),
          type_rows-total fs branch (jump ∷ csr ∷ sys ∷ compressed ∷ []),
          type_rows-total fs jump (csr ∷ sys ∷ compressed ∷ []),
          type_rows-total fs csr (sys ∷ compressed ∷ []),
          type_rows-total fs sys (compressed ∷ []),
          type_rows-total fs compressed ([]),
        )
        refl

module _ (name : String) where
  one_type-total :
      (fs : FuncStats) (type : InsnType)
      → type ≢ unknown
      → total_of "ICOUNT" name (insn_type_to_str type) (type_rows fs reported_types)
        ≡ counted_for name (index type) fs
  unfolding insn_type_to_str
  one_type-total fs unknown known = absurd (known refl)
  one_type-total fs alu known = rw (all_types-total name "ALU" fs) (ground arith)
  one_type-total fs mul known = rw (all_types-total name "MUL" fs) (ground arith)
  one_type-total fs div known = rw (all_types-total name "DIV" fs) (ground arith)
  one_type-total fs load known = rw (all_types-total name "LOAD" fs) (ground arith)
  one_type-total fs store known = rw (all_types-total name "STORE" fs) (ground arith)
  one_type-total fs branch known = rw (all_types-total name "BRANCH" fs) (ground arith)
  one_type-total fs jump known = rw (all_types-total name "JUMP" fs) (ground arith)
  one_type-total fs csr known = rw (all_types-total name "CSR" fs) (ground arith)
  one_type-total fs sys known = rw (all_types-total name "SYS" fs) (ground arith)
  one_type-total fs compressed known = rw (all_types-total name "COMPRESSED" fs) (ground arith)

  func_rows-total :
      (type : InsnType) (l : List FuncStats)
      → type ≢ unknown
      → total_of "ICOUNT" name (insn_type_to_str type) (func_rows l) ≡ count_in name (index type) l
  unfolding func_rows
  func_rows-total type [] known = refl
  func_rows-total type (fs ∷ rest) known =
      let here = one_type-total fs type known in
      let later = func_rows-total type rest known in
      rw
        (total_of-append "ICOUNT" name (insn_type_to_str type) (type_rows fs reported_types)
          (func_rows rest))
        (omega (arith, here, later))

  -- After any sequence of calls of `herve_profiler_record_insn` on a profiler that has just been enabled, the
  -- lines "ICOUNT" of the report for a function's name and a type of instruction other than
  -- HERVE_INSN_UNKNOWN, which the report leaves out, add up to the number of the calls for that type in
  -- functions of that name, up to the wrap-around of 64 bits.
  pub report_rows-events_of :
      (type : InsnType) (events : List Event) (p : Profiler)
      → type ≢ unknown
      → u64 (
          total_of "ICOUNT" name
            (insn_type_to_str type)
            (report_rows (record_all events (profiler_enable true p))))
        ≡ u64 (events_of name (index type) events)
  unfolding report_rows profiler_enable
  report_rows-events_of type events p known =
      let q = record_all events (profiler_enable true p) in
      let key = insn_type_to_str type in
      let counted = record_all-count name (index type) events (profiler_enable true p) refl in
      let metas = meta_rows-total name key q in
      let calls = call_rows-total name key q.call_pairs in
      let funcs = func_rows-total type q.func_stats known in
      rw
        (
          total_of-append "ICOUNT" name key (meta_rows q)
              (func_rows q.func_stats ++ call_rows q.call_pairs),
          total_of-append "ICOUNT" name key (func_rows q.func_stats) (call_rows q.call_pairs),
        )
        (omega (arith, counted, metas, calls, funcs))
