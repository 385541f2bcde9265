-- ===== src/Cpu.antt =====
-- The processor's arithmetic core: cpu/cpu.h, cpu/eflags.cpp, cpu/arith.cpp and cpu/bit.cpp.
pub mod State
pub mod Eflags
pub mod Flags
pub mod Arith
pub mod Shift
pub mod MulDiv
pub mod DoubleShift
pub mod Bit
mod Tests
