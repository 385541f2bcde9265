-- ===== src/Memory/Keeps.antt =====
-- cpu/access.cpp, cpu/mmu.cpp, cpu/smc.cpp: what no access to memory changes until it returns or
-- calls `cpu_exception`.
pub mod Rules
pub mod Walks
pub mod Accesses
