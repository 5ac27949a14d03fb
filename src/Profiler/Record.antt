-- ===== src/Profiler/Record.antt =====
-- `record_call_edge`, `get_func_stats`, `herve_profiler_enable` and `herve_profiler_record_insn`
-- of dpi-riscv/sim/iss/herve_profiler.c. The memory that these allocate is never refused here:
-- the source does not test what `malloc` returns.
use herve.Base.{
  ℕ, ◌+◌, Bool, true, false, not, ◌&&◌, Option, none, some, List, [], ◌∷◌, String, str_eq, ◌==◌,
  if◌then◌else◌, update,
}
use herve.Word.{u16, u64}
use herve.Profiler.Defs.{
  InsnType, compressed, index, Arch, CfType, cf_none, cf_call, cf_ret, cf_jump, FuncStats, CallPair,
  SymbolName, Profiler,
}
use herve.Profiler.Classify.{classify_insn_32, classify_insn_16}

-- The walk over the list and the count at the first pair that matches; a new pair goes to the
-- head of the list `all`.
abbrev pub same_edge : String → String → CallPair → Bool
same_edge caller callee cp = str_eq cp.caller caller && str_eq cp.callee callee

unfoldable pub has_edge : String → String → List CallPair → Bool
has_edge caller callee [] = false
has_edge caller callee (cp ∷ cps) =
    if same_edge caller callee cp then true else has_edge caller callee cps

unfoldable pub bump_edge : String → String → List CallPair → List CallPair
bump_edge caller callee [] = []
bump_edge caller callee (cp ∷ cps) =
    if same_edge caller callee cp
    then record cp { count = u64 (cp.count + 1) } ∷ cps
    else cp ∷ bump_edge caller callee cps

unfoldable pub record_call_edge : Option String → String → List CallPair → List CallPair
record_call_edge none callee cps = cps
record_call_edge (some caller) callee cps =
    if has_edge caller callee cps
    then bump_edge caller callee cps
    else record { caller = caller; callee = callee; count = 1 } ∷ cps

abbrev pub new_stats : String → FuncStats
new_stats name = record {
  name = name;
  total_cycles = 0;
  calls = 0;
  insn_counts = λ _. 0;
  insn_cycles = λ _. 0;
}

unfoldable pub has_stats : String → List FuncStats → Bool
has_stats name [] = false
has_stats name (fs ∷ rest) = if str_eq fs.name name then true else has_stats name rest

-- The list after `get_func_stats(name)`: with an entry for `name`.
unfoldable pub get_func_stats : String → List FuncStats → List FuncStats
get_func_stats name l = if has_stats name l then l else new_stats name ∷ l

-- A change through the pointer that `get_func_stats` returned: of the first entry for `name`.
unfoldable pub at_stats : (FuncStats → FuncStats) → String → List FuncStats → List FuncStats
at_stats change name [] = []
at_stats change name (fs ∷ rest) =
    if str_eq fs.name name then change fs ∷ rest else fs ∷ at_stats change name rest

abbrev pub add_insn : InsnType → ℕ → FuncStats → FuncStats
add_insn type cycles fs = record fs {
  total_cycles = u64 (fs.total_cycles + cycles);
  insn_counts = update fs.insn_counts (index type) (u64 (fs.insn_counts (index type) + 1));
  insn_cycles = update fs.insn_cycles (index type) (u64 (fs.insn_cycles (index type) + cycles));
}

abbrev pub add_call : FuncStats → FuncStats
add_call fs = record fs { calls = u64 (fs.calls + 1) }

-- `herve_profiler_enable`.
unfoldable pub profiler_enable : Bool → Profiler → Profiler
profiler_enable false p = record p { enabled = false }
profiler_enable true p = record p {
  enabled = true;
  total_cycles = 0;
  total_instructions = 0;
  insn_counts = λ _. 0;
  insn_cycles = λ _. 0;
  func_stats = [];
  last_func = none;
  call_pairs = [];
  last_cf = cf_none;
}

-- `herve_profiler_set_arch`.
unfoldable pub profiler_set_arch : Option Arch → Profiler → Profiler
profiler_set_arch arch p = record p { arch = arch }

-- The cycles of one instruction.
unfoldable pub insn_cost : Option Arch → InsnType → ℕ
insn_cost none type = 1
insn_cost (some a) type = a.cycles type

-- `func != last_func`, on the addresses.
abbrev pub other_func : SymbolName → Option SymbolName → Bool
other_func func none = true
other_func func (some last) = not (func.pointer == last.pointer)

abbrev pub name_of : Option SymbolName → Option String
name_of none = none
name_of (some s) = some s.name

-- The `switch (last_cf)` on a function boundary.
unfoldable pub enter_func : CfType → Option SymbolName → String → Profiler → Profiler
unfolding record_call_edge
enter_func cf_call last name p = record p {
  call_pairs = record_call_edge (name_of last) name p.call_pairs;
  func_stats = at_stats add_call name p.func_stats;
}
enter_func cf_jump last name p = record p {
  call_pairs = record_call_edge (name_of last) name p.call_pairs;
  func_stats = at_stats add_call name p.func_stats;
}
enter_func cf_ret last name p = p
enter_func cf_none last name p = record p { func_stats = at_stats add_call name p.func_stats }

-- The part of `herve_profiler_record_insn` on the function that the instruction belongs to.
unfoldable pub record_func : InsnType → ℕ → Option SymbolName → Profiler → Profiler
unfolding enter_func get_func_stats
record_func type cycles none p = record p { last_func = none }
record_func type cycles (some func) p =
    let added = record p {
      func_stats =
          at_stats (add_insn type cycles) func.name (get_func_stats func.name p.func_stats);
    } in
    if other_func func p.last_func
    then record (enter_func p.last_cf p.last_func func.name added) { last_func = some func }
    else added

-- `type == HERVE_INSN_COMPRESSED`.
pub is_compressed : InsnType → Bool
is_compressed compressed = true
is_compressed _ = false

-- `herve_profiler_record_insn`; `func` is what `herve_get_symbol_at(pc)` returns.
unfoldable pub record_insn : InsnType → Option SymbolName → ℕ → Profiler → Profiler
unfolding record_func insn_cost is_compressed
record_insn type func insn p =
    let cycles = insn_cost p.arch type in
    let counted = record p {
      total_instructions = u64 (p.total_instructions + 1);
      insn_counts = update p.insn_counts (index type) (u64 (p.insn_counts (index type) + 1));
      total_cycles = u64 (p.total_cycles + cycles);
      insn_cycles = update p.insn_cycles (index type) (u64 (p.insn_cycles (index type) + cycles));
    } in
    let this_cf =
      if is_compressed type then classify_insn_16 (u16 insn) else classify_insn_32 insn in
    if p.enabled then record (record_func type cycles func counted) { last_cf = this_cf } else p
