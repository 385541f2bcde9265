-- ===== src/Dma.antt =====
-- The DMA controllers: dma.cpp.
pub mod State
pub mod FlipFlop
pub mod Transfers
pub mod Ports
pub mod Units
pub mod Complete
pub mod Bytes
pub mod Channels
mod Tests
