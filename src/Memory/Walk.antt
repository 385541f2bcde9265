-- ===== src/Memory/Walk.antt =====
-- cpu/mmu.cpp: the walk of the tables with 32 bit entries, for pages of 4096 bytes.
pub mod Rights
pub mod Entries
pub mod Faults
pub mod Entry
pub mod Marks
pub mod Granted
pub mod Maps
