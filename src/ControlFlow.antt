-- ===== src/ControlFlow.antt =====
-- Transfers of control between privilege levels: cpu/ctrlflow.cpp.
pub mod TaskState
pub mod SystemCalls
pub mod Levels
pub mod Jumps
mod Tests
