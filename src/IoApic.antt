-- ===== src/IoApic.antt =====
-- The I/O APIC: ioapic.cpp.
pub mod State
pub mod Registers
pub mod Lines
pub mod Sends
mod Tests
