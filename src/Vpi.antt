-- ===== src/Vpi.antt =====
-- dpi-riscv/sim/vpi/rv32_dpi_vpi.c: the device registers of a test bench in Verilog and the system
-- functions by which it drives the simulator.
pub mod Registers
pub mod Systf
pub mod RoundTrip
pub mod Lanes
