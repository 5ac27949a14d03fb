-- ===== src/Machine/Symbols/Lookup.antt =====
-- What `herve_get_symbol_at` of dpi-riscv/sim/iss/rv32_dpi.c finds: the first symbol that covers the
-- address.
use herve.Base.{
  ℕ, suc, ◌+◌, ◌≡◌, refl, ap, false, true, arith, Option, some, none, List, [], ◌∷◌, ◌++◌, ◌∙◌,
  Bool-cases, inl, inr,
}
use herve.Profiler.{SymbolName}
use herve.Machine.Symbols.{Symbol, in_symbol, symbol_from, symbol_at, add_symbol}

-- No symbol of the list covers the address.
abbrev pub IsOutside : ℕ → List Symbol → Type 0
IsOutside addr [] = Unit
IsOutside addr (s ∷ rest) = (in_symbol addr s ≡ false) × IsOutside addr rest

abbrev pub count_symbols : List Symbol → ℕ
count_symbols [] = 0
count_symbols (s ∷ rest) = suc (count_symbols rest)

symbol_from-found :
    (i addr : ℕ) (before : List Symbol) (s : Symbol) (after : List Symbol)
    → IsOutside addr before
    → in_symbol addr s ≡ true
    → symbol_from i addr (before ++ (s ∷ after))
      ≡ some (record { pointer = i + count_symbols before; name = s.name })
unfolding symbol_from
symbol_from-found i addr [] s after outside inside =
    let same : i + 0 ≡ i = omega arith in rw (inside, same) refl
symbol_from-found i addr (b ∷ before) s after outside inside =
    let next : i + suc (count_symbols before) ≡ i + 1 + count_symbols before = omega arith in
    rw (outside.0, next) (symbol_from-found (i + 1) addr before s after outside.1 inside)

symbol_from-missing :
    (i addr : ℕ) (symbols : List Symbol)
    → IsOutside addr symbols
    → symbol_from i addr symbols ≡ none
unfolding symbol_from
symbol_from-missing i addr [] outside = refl
symbol_from-missing i addr (s ∷ rest) outside =
    rw (outside.0) (symbol_from-missing (i + 1) addr rest outside.1)

abbrev index_name : ℕ → herve.Base.String → SymbolName
index_name n name = record { pointer = n; name = name }

add_symbol_before :
    (addr size : ℕ) (name : herve.Base.String) (before after : List Symbol)
    → before ++ (record { addr = addr; size = size; name = name } ∷ []) ++ after
      ≡ before ++ (record { addr = addr; size = size; name = name } ∷ after)
add_symbol_before addr size name [] after = refl
add_symbol_before addr size name (b ∷ before) after =
    ap (λ rest. b ∷ rest) (add_symbol_before addr size name before after)

-- The symbol found at an address is the first one that covers it, with its index and name, whatever
-- symbols follow; before that symbol was added, nothing was found there.
pub symbol_at-add_symbol :
    (at addr size : ℕ) (name : herve.Base.String) (before after : List Symbol)
    → IsOutside at before
    → in_symbol at (record { addr = addr; size = size; name = name }) ≡ true
    → (symbol_at at before ≡ none)
      × (symbol_at at (add_symbol addr size name before ++ after)
          ≡ some (record { pointer = count_symbols before; name = name }))
unfolding symbol_at add_symbol
symbol_at-add_symbol at addr size name before after outside inside =
    let added : Symbol = record { addr = addr; size = size; name = name } in
    let start : 0 + count_symbols before ≡ count_symbols before = omega arith in
    let found = symbol_from-found 0 at before added after outside inside in
    (
      symbol_from-missing 0 at before outside,
      rw (add_symbol_before addr size name before after)
          (found ∙ ap (λ n. some (index_name n name)) start),
    )

-- A symbol that is found is found with more symbols behind it.
pub symbol_from-append :
    (i addr : ℕ) (found : SymbolName) (symbols more : List Symbol)
    → symbol_from i addr symbols ≡ some found
    → symbol_from i addr (symbols ++ more) ≡ some found
unfolding symbol_from
symbol_from-append i addr found [] more h = absurd (grind arith)
symbol_from-append i addr found (s ∷ rest) more h = elim (Bool-cases (in_symbol addr s)) [
  | inl inside ↦ rw inside (rw inside at h)
  | inr outside ↦ rw outside (symbol_from-append (i + 1) addr found rest more (rw outside at h))
]
