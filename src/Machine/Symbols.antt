-- ===== src/Machine/Symbols.antt =====
-- The symbol table that the ELF loader fills and the profiler reads: `symbol_t`,
-- `add_symbol` and `herve_get_symbol_at` of dpi-riscv/sim/iss/rv32_dpi.c.
pub mod Lookup
use herve.Base.{ℕ, zero, suc, ◌+◌, ◌&&◌, Option, none, some, List, [], ◌∷◌, ◌++◌, String, leb, ltb}
use herve.Base.{if◌then◌else◌}
use herve.Word.{add32}
use herve.Profiler.{SymbolName}

pub record Symbol : Type 0 where
  pub addr : ℕ
  pub size : ℕ
  pub name : String

unfoldable pub add_symbol : ℕ → ℕ → String → List Symbol → List Symbol
add_symbol addr size name symbols =
    symbols ++ (record { addr = addr; size = size; name = name } ∷ [])

-- `addr >= symbols[i].addr && addr < symbols[i].addr + symbols[i].size`; the sum wraps.
abbrev pub in_symbol : ℕ → Symbol → herve.Base.Bool
in_symbol addr s = leb s.addr addr && ltb addr (add32 s.addr s.size)

-- The loop from index `i` on.
unfoldable pub symbol_from : ℕ → ℕ → List Symbol → Option SymbolName
symbol_from i addr [] = none
symbol_from i addr (s ∷ rest) =
    if in_symbol addr s
    then some (record { pointer = i; name = s.name })
    else symbol_from (i + 1) addr rest

unfoldable pub symbol_at : ℕ → List Symbol → Option SymbolName
unfolding symbol_from
symbol_at addr symbols = symbol_from 0 addr symbols
