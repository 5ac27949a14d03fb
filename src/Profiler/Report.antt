-- ===== src/Profiler/Report.antt =====
-- `insn_type_to_str` and `herve_profiler_report_csv` of dpi-riscv/sim/iss/herve_profiler.c. A line of the
-- report is the list of its fields; `fprintf` writes a comma between two of them, and a number in
-- decimal. `fopen` is a parameter: whether the file of a name opens for writing.
pub mod Read
use herve.Base.{
  ℕ, ◌+◌, Bool, not, Option, none, some, List, [], ◌∷◌, ◌++◌, String, str_eq, ltb, if◌then◌else◌,
}
use herve.Profiler.Defs.{
  InsnType, unknown, alu, mul, div, load, store, branch, jump, csr, sys, compressed, index, Arch,
  FuncStats, CallPair, Profiler,
}

unfoldable pub insn_type_to_str : InsnType → String
insn_type_to_str alu = "ALU"
insn_type_to_str mul = "MUL"
insn_type_to_str div = "DIV"
insn_type_to_str load = "LOAD"
insn_type_to_str store = "STORE"
insn_type_to_str branch = "BRANCH"
insn_type_to_str jump = "JUMP"
insn_type_to_str csr = "CSR"
insn_type_to_str sys = "SYS"
insn_type_to_str compressed = "COMPRESSED"
insn_type_to_str unknown = "UNKNOWN"

-- A field of a line, and a line.
pub data Field : Type 0 where
  text : String → Field
  number : ℕ → Field

abbrev pub Row : Type 0
Row = List Field

abbrev pub arch_label : Option Arch → String
arch_label none = "default"
arch_label (some a) = a.name

unfoldable pub meta_rows : Profiler → List Row
meta_rows p =
    (text "META" ∷ text "arch" ∷ text (arch_label p.arch) ∷ [])
    ∷ (text "META" ∷ text "isa" ∷ text "rv32im" ∷ [])
    ∷ (text "META" ∷ text "total_cycles" ∷ number p.total_cycles ∷ [])
    ∷ (text "META" ∷ text "total_instructions" ∷ number p.total_instructions ∷ [])
    ∷ []

-- `(herve_insn_type_t)i` for `i` from 1 to `HERVE_INSN_COUNT - 1`.
abbrev pub reported_types : List InsnType
reported_types = alu ∷ mul ∷ div ∷ load ∷ store ∷ branch ∷ jump ∷ csr ∷ sys ∷ compressed ∷ []

-- The lines "INSTR" and "ICOUNT" of one round of the loop over the types.
abbrev pub instr_row : FuncStats → InsnType → Row
instr_row fs type =
    text "INSTR"
    ∷ text fs.name
    ∷ text (insn_type_to_str type)
    ∷ number (fs.insn_cycles (index type))
    ∷ []

abbrev pub icount_row : FuncStats → InsnType → Row
icount_row fs type =
    text "ICOUNT"
    ∷ text fs.name
    ∷ text (insn_type_to_str type)
    ∷ number (fs.insn_counts (index type))
    ∷ []

pub type_rows : FuncStats → List InsnType → List Row
type_rows fs [] = []
type_rows fs (type ∷ types) =
    let rest = type_rows fs types in
    if ltb 0 (fs.insn_counts (index type))
    then instr_row fs type ∷ icount_row fs type ∷ rest
    else rest

-- The first loop, over the functions, and the second, over the call edges.
pub func_rows : List FuncStats → List Row
func_rows [] = []
func_rows (fs ∷ rest) =
    (text "FUNC" ∷ text fs.name ∷ text "total_cycles" ∷ number fs.total_cycles ∷ [])
    ∷ (text "FUNC" ∷ text fs.name ∷ text "calls" ∷ number fs.calls ∷ [])
    ∷ (type_rows fs reported_types ++ func_rows rest)

pub call_rows : List CallPair → List Row
call_rows [] = []
call_rows (cp ∷ rest) =
    (text "CALL" ∷ text cp.caller ∷ text cp.callee ∷ number cp.count ∷ []) ∷ call_rows rest

unfoldable pub report_rows : Profiler → List Row
report_rows p = meta_rows p ++ (func_rows p.func_stats ++ call_rows p.call_pairs)

-- Where the lines go.
pub data Sink : Type 0 where
  stdout : Sink
  file : String → Sink

-- `herve_profiler_report_csv`; nothing is written where the file does not open.
unfoldable pub report_csv : (String → Bool) → Option String → Profiler → Option (Sink × List Row)
report_csv fopen none p = some (stdout, report_rows p)
report_csv fopen (some filename) p =
    if str_eq filename "-"
    then some (stdout, report_rows p)
    else if fopen filename
    then some (file filename, report_rows p)
    else none
