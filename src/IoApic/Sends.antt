-- ===== src/IoApic/Sends.antt =====
-- ioapic.cpp: the messages that leave.
pub mod Words
pub mod Rounds
pub mod Raise
pub mod End
pub mod Level
