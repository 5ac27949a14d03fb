-- ===== src/Lib.antt =====
-- herve: the RV32IMC instruction set simulator of this repository, and the theorems on it.
--
-- The simulator is one C file with static variables, dpi-riscv/sim/iss/rv32_dpi.c. A test bench
-- calls `rv_init` (or another initialisation), sets interrupt requests by `rv_set_irq` and calls
-- `rv_step` for a batch of instructions. `rv_step` takes a pending interrupt, or fetches and runs
-- instructions, each by `execute_instruction` (32 bits) or `execute_compressed` (16 bits). These
-- access memory by `read_u32` to `write_u8`, which divide the addresses into HTIF registers (exit
-- and console), device registers (the test bench's `dpi_mmio_read` and `dpi_mmio_write`) and RAM.
-- With profiling on, each instruction is reported to dpi-riscv/sim/iss/herve_profiler.c, whose
-- tables of cycles are in dpi-riscv/sim/iss/herve_arch.c. `rv_init_elf` and `rv_load_elf` of rv32_dpi.c
-- load a program and, the first one, the symbols that the profiler reports. The command line program
-- dpi-riscv/sim/iss/herve_main.c loads a file, runs batches until a limit or the end of the program, and
-- writes the profiler's report; the runners of the riscv-tests load and run test files.
-- Apart from all that, dpi-riscv/softfloat.c has the arithmetic on doubles that guest programs are linked with.
--
-- The files:
--   Base, Word     shared helpers; `uint32_t` as numbers below 2 ^ 32, `int32_t` as the same
--                  numbers read through `signed32`, C's signed division on integers
--   Machine        the static variables as the record `Machine`, `write_reg`, the symbol table,
--                  `rv_get_reg`; Machine/WellFormed has the range of every variable
--   Memory         `valid_memory_access`, `read_u32` to `write_u8`, `htif_process_request`
--   Execute        `execute_instruction`: one module for each group of opcodes
--   Compressed     `execute_compressed`, with the immediates of its formats
--   Step           `ctz32` and `rv_step`
--   Boot           `rv_init`, `rv_init_from_buffer`, `rv_reset`, `rv_set_irq`, `rv_set_ram`; Establish and
--                  Firmware are about the state that they leave
--   Elf            `rv_load_elf` (Buffer), `rv_init_elf` (File) with its symbol tables (SymbolTable),
--                  on the bytes of the file; the structs of the headers are in Header
--   Profiler       herve_profiler.c and herve_arch.c; the CSV report is in Report, read back in Report/Read
--   Cli            herve_main.c: options, the loop over batches, report and exit code; Clock, Pace, Loop, Booted
--                  and Finish have what its end rests on, NoFile a file that does not open
--   Bench          rv32_dpi_riscv_tests.cpp, rv32_dpi_benchmark.cpp and, in Host, rv32_dpi_benchmark_htif.cpp of
--                  dpi-riscv/sim/iss: what the runners do with a test file
--   Zephyr         dpi-riscv/sim/iss/rv32_dpi_zephyr_standalone.c
--   Modelsim       dpi-riscv/sim/modelsim/rv32_dpi_mti.c
--   Guest          dpi-riscv/sync_stubs.c and dpi-riscv/newlib-stubs/alloca.c
--   Transparent    runs that differ in the profiler's variables, from the memory accesses up to the
--                  command line program
--   Vpi            dpi-riscv/sim/vpi/rv32_dpi_vpi.c: the device registers of the test bench in
--                  Registers, which are one choice of `dpi_mmio_read`, and the system functions
--   SoftFloat      dpi-riscv/softfloat.c: fields of a double, `normalize`, addition, multiplication,
--                  division, comparisons and conversions
--   Tests          concrete states, a run of a small program, and uses of the theorems
--
-- A C function that changes static variables is a function from `Machine` to `Machine`; with a
-- Boolean result where the C function has one. `none` is undefined behaviour of C: an access
-- outside of the memory buffer, or a shift of a word by 32 or more. `dpi_mmio_read` is a parameter
-- that answers from the address and the calls so far; the calls are recorded in `bus`, and the
-- characters given to `putchar` in `console`. `malloc` and `fseek` are parameters: whether there is
-- a buffer of a size, and whether a file can be read from an offset on. A file is its bytes and its
-- size; what `fread` does not fill has no value, and is `none` where the code reads it. A string of
-- a file becomes a text with one character for each byte. A double is its bit pattern, a number below
-- 2 ^ 64, and an exponent that may be negative is an integer.
--
-- The loop of `rv_step` is by recursion on the rounds that the bound leaves, which is the C loop's
-- own bound. The loop of `ctz32` has 32 rounds of fuel; a word that is not 0 ends it in 31.
-- The loops over the headers, sections and symbols of a file go by the rounds left of the file's own
-- counts. In SoftFloat the loops of `normalize` and `__divdf3` have the code's own bounds of 63 and
-- 106 rounds, that of `__adddf3` ends with the exponent, and that of `__floatunsidf` has 52 rounds,
-- which are enough for every number of 32 bits but 0.
-- A symbol's string stands with the index of its symbol, since the profiler compares addresses.
-- The loop of herve_main.c is by recursion on fuel; more fuel than the limit on the cycles is enough, since
-- each batch that it goes on after has executed an instruction or halted the simulator. A line of the report is the list
-- of its fields, which `fprintf` puts commas between. `atoll`, `atoi` and what a file of a name holds are
-- parameters of the programs. The loop of the runners in Bench is by recursion on fuel; more than
-- `MAX_INSTRUCTIONS`, which is a parameter, is enough.
--
-- Not modelled: the trace output and the messages on the standard streams (printing), the
-- registration in dpi-riscv/sim/vpi, the directories and times of the runners, the test benches
-- in C++ under dpi-riscv/sim/harness and dpi-riscv/sim/iss, which run fixed inputs or a generated
-- Verilog model, and the guest programs with their headers.
pub mod Base
pub mod Word
pub mod Profiler
pub mod Machine
pub mod Memory
pub mod Execute
pub mod Compressed
pub mod Step
pub mod Boot
pub mod SoftFloat
pub mod Elf
pub mod Vpi
pub mod Cli
pub mod Bench
pub mod Zephyr
pub mod Modelsim
pub mod Guest
pub mod Transparent
mod Tests
