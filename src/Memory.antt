-- ===== src/Memory.antt =====
-- The processor's way to memory: cpu/mmu.cpp, cpu/smc.cpp, cpu/access.cpp, cpu/stack.cpp,
-- cpu/seg.cpp, cpu/prot.cpp, with parts of cpu/trace.cpp, cpu/cpu.cpp and cpu/io.cpp.
pub mod State
pub mod Tlb
pub mod Code
pub mod Physical
pub mod Translate
pub mod Access
pub mod Stack
pub mod Translations
pub mod Traces
pub mod Descriptors
pub mod StackTrip
pub mod StackSegment
pub mod Walk
pub mod Segments
pub mod Selectors
pub mod Control
pub mod Fetch
pub mod Keeps
pub mod Sample
mod Tests
