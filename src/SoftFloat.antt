-- ===== src/SoftFloat.antt =====
-- dpi-riscv/softfloat.c: the double-precision operations that guest programs without a floating-point
-- unit are linked with. A `uint64_t` is a number below 2 ^ 64, the pattern of bits of a double.
pub mod Fields
pub mod Normalize
pub mod Add
pub mod Multiply
pub mod Divide
pub mod Compare
pub mod Convert
pub mod Pack
pub mod Ordering
pub mod Single
pub mod Integers
pub mod Product
pub mod Rounding
pub mod Sum
