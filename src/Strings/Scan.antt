-- ===== src/Strings/Scan.antt =====
-- cpu/string.cpp: SCAS under REPZ and REPNZ.
pub mod Rounds
pub mod Calls
