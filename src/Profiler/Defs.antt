-- ===== src/Profiler/Defs.antt =====
-- The data of the profiler: dpi-riscv/sim/iss/herve_profiler.h and the types and globals at the top
-- of herve_profiler.c. An array indexed by the instruction type is a function on the type's number.
use herve.Base.{ℕ, Bool, Option, List, String}

-- `herve_insn_type_t`. `HERVE_INSN_COUNT` is the number of these and no instruction has it.
pub data InsnType : Type 0 where
  unknown alu mul div load store branch jump csr sys compressed : InsnType

-- The value of the enumeration constant.
abbrev pub index : InsnType → ℕ
index unknown = 0
index alu = 1
index mul = 2
index div = 3
index load = 4
index store = 5
index branch = 6
index jump = 7
index csr = 8
index sys = 9
index compressed = 10

-- `herve_arch_t`.
pub record Arch : Type 0 where
  pub name : String
  pub pipeline_stages : ℕ
  pub cycles : InsnType → ℕ

-- `cf_type_t`.
pub data CfType : Type 0 where
  cf_none cf_call cf_ret cf_jump : CfType

-- `herve_func_stats_t`; the `next` pointers are the list.
pub record FuncStats : Type 0 where
  pub name : String
  pub total_cycles : ℕ
  pub calls : ℕ
  pub insn_counts : ℕ → ℕ
  pub insn_cycles : ℕ → ℕ

-- `call_pair_t`; the `next` pointers are the list.
pub record CallPair : Type 0 where
  pub caller : String
  pub callee : String
  pub count : ℕ

-- What `herve_get_symbol_at` returns: the string, and the index of its symbol, which stands for
-- the address of the string. Each symbol owns its string, so equal addresses are equal indices.
pub record SymbolName : Type 0 where
  pub pointer : ℕ
  pub name : String

-- The file's static variables. `func_stats` and `call_pairs` are the lists from their heads on.
pub record Profiler : Type 0 where
  pub enabled : Bool
  pub arch : Option Arch
  pub total_cycles : ℕ
  pub total_instructions : ℕ
  pub insn_counts : ℕ → ℕ
  pub insn_cycles : ℕ → ℕ
  pub func_stats : List FuncStats
  pub last_func : Option SymbolName
  pub call_pairs : List CallPair
  pub last_cf : CfType
