-- ===== src/Pic.antt =====
-- The pair of interrupt controllers: pic.cpp.
pub mod State
pub mod Update
pub mod Ports
pub mod Bits
pub mod Scan
pub mod Priority
pub mod Sent
pub mod Levels
pub mod EndOfInterrupt
pub mod Accept
pub mod Latch
pub mod Valid
pub mod Commands
pub mod Reach
pub mod Cascade
pub mod Initialization
mod Tests
