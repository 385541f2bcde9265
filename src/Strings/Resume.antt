-- ===== src/Strings/Resume.antt =====
-- cpu/string.cpp, cpu/opcodes.cpp: an instruction under a prefix, which stops after 65536 rounds and
-- is then run again.
pub mod Chunks
pub mod Rounds
pub mod Instances
