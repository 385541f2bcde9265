-- ===== src/Memory/Translations.antt =====
-- cpu/mmu.cpp: the list of the translations in use.
pub mod Listed
pub mod Flush
pub mod Steps
pub mod Reload
