-- ===== src/Strings.antt =====
-- The string instructions: cpu/string.cpp, with the handlers `op_movsb16` to `op_lodsd32` of
-- cpu/opcodes.cpp that call its functions.
pub mod Loop
pub mod Units
pub mod Names
pub mod Handlers
pub mod Registers
pub mod Resume
pub mod Elements
pub mod Fill
pub mod Scan
mod Tests
