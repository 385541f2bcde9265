-- ===== src/Dma/State.antt =====
-- dma.cpp: the pair of DMA controllers, and what a transfer asks of the rest of the machine.
use cpu_ia32_cpp.Base.{ℕ, List}

-- `struct dma_controller`; each array is a function of the index.
pub record Dma : Type 0 where
  pub addr_high : ℕ → ℕ
  pub start_addr : ℕ → ℕ
  pub current_addr : ℕ → ℕ
  pub start_count : ℕ → ℕ
  pub current_count : ℕ → ℕ
  pub mode : ℕ → ℕ
  pub command : ℕ → ℕ
  pub status : ℕ → ℕ
  pub request : ℕ → ℕ
  pub mask : ℕ → ℕ
  pub flipflop : ℕ → ℕ

-- What happens outside the controllers, in order: `cpu_init_dma`, a unit of a transfer between
-- the memory at `addr` and the device's buffer at `offset`, and the device's completion call.
pub data Action : Type 0 where
  cpu_init_dma : (addr : ℕ) → Action
  to_memory : (addr offset size : ℕ) → Action
  from_memory : (addr offset size : ℕ) → Action
  fdc_dma_complete : Action

-- The controllers, and the actions taken, the newest first. What the floppy controller does on
-- completion is not part of this model.
pub record Machine : Type 0 where
  pub dma : Dma
  pub actions : List Action
