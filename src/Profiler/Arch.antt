-- ===== src/Profiler/Arch.antt =====
-- The table of architecture models: dpi-riscv/sim/iss/herve_arch.c. A type that an initializer
-- leaves out costs 0 cycles.
use herve.Base.{ℕ, Option, none, some, List, [], ◌∷◌, String, str_eq, if◌then◌else◌}
use herve.Profiler.Defs.{
  InsnType, unknown, alu, mul, div, load, store, branch, jump, csr, sys, compressed,
}
pub use herve.Profiler.Defs.{Arch}

abbrev costs : ℕ → ℕ → ℕ → ℕ → ℕ → ℕ → ℕ → ℕ → ℕ → ℕ → InsnType → ℕ
costs a m d l s b j c y z unknown = 0
costs a m d l s b j c y z alu = a
costs a m d l s b j c y z mul = m
costs a m d l s b j c y z div = d
costs a m d l s b j c y z load = l
costs a m d l s b j c y z store = s
costs a m d l s b j c y z branch = b
costs a m d l s b j c y z jump = j
costs a m d l s b j c y z csr = c
costs a m d l s b j c y z sys = y
costs a m d l s b j c y z compressed = z

abbrev pub arch_serv : Arch
arch_serv = record {
  name = "serv";
  pipeline_stages = 1;
  cycles = costs 32 64 1024 64 64 32 32 32 32 32;
}

abbrev pub arch_ibex_small : Arch
arch_ibex_small = record {
  name = "ibex_small";
  pipeline_stages = 2;
  cycles = costs 1 3 33 2 2 2 2 1 1 1;
}

abbrev pub arch_picorv32 : Arch
arch_picorv32 = record {
  name = "picorv32";
  pipeline_stages = 1;
  cycles = costs 3 4 40 5 5 3 3 3 3 3;
}

abbrev pub arch_vexriscv : Arch
arch_vexriscv = record {
  name = "vexriscv";
  pipeline_stages = 5;
  cycles = costs 1 2 33 2 1 2 2 1 1 1;
}

abbrev pub arch_cva6 : Arch
arch_cva6 = record { name = "cva6"; pipeline_stages = 6; cycles = costs 1 1 8 3 2 2 2 1 1 1 }

abbrev pub arch_boom : Arch
arch_boom = record { name = "boom"; pipeline_stages = 10; cycles = costs 1 1 4 4 1 1 1 1 1 1 }

abbrev pub arch_xiangshan : Arch
arch_xiangshan = record {
  name = "xiangshan";
  pipeline_stages = 11;
  cycles = costs 1 1 3 4 1 1 1 1 1 1;
}

abbrev pub arch_ibex_medium : Arch
arch_ibex_medium = record {
  name = "ibex_medium";
  pipeline_stages = 2;
  cycles = costs 1 1 33 2 2 2 2 1 1 1;
}

abbrev pub arch_ibex_large : Arch
arch_ibex_large = record {
  name = "ibex_large";
  pipeline_stages = 3;
  cycles = costs 1 1 33 3 3 3 3 1 1 1;
}

abbrev pub arch_list : List Arch
arch_list =
    arch_serv ∷ arch_ibex_small ∷ arch_ibex_medium ∷ arch_ibex_large ∷ arch_picorv32 ∷ arch_vexriscv
    ∷ arch_cva6 ∷ arch_boom ∷ arch_xiangshan ∷ []

-- The loop of `herve_arch_get_by_name` over the rest of the list.
pub find_arch : String → List Arch → Option Arch
find_arch name [] = none
find_arch name (a ∷ rest) = if str_eq a.name name then some a else find_arch name rest

unfoldable pub arch_get_by_name : String → Option Arch
unfolding find_arch
arch_get_by_name name = find_arch name arch_list
