-- ===== src/Memory/Traces.antt =====
-- cpu/smc.cpp, cpu/trace.cpp: the traces that a write to code drops.
pub mod Dropped
pub mod Forget
pub mod Write
