-- ===== src/Memory/State.antt =====
-- The part of `class CPU` (cpu/cpu.h) that memory accesses read and write, and the monad of the
-- functions that can raise an exception of the processor.
use cpu_ia32_cpp.Base.{ℕ, bit_or}
use cpu_ia32_cpp.Cpu.State.{Cpu}

-- What answers outside the memory: `io_handle_mmio_read(addr, size)` and `io_handle_mmio_write(addr,
-- value, size)` of io.cpp, over the devices' state. A size is 0, 1 or 2 for 1, 2 or 4 bytes.
pub record Bus (D : Type 0) : Type 0 where
  pub mmio_read : ℕ → ℕ → D → ℕ × D
  pub mmio_write : ℕ → ℕ → ℕ → D → D

-- The fields carry the `m_` names of the class, and each array is a function of the index. An entry
-- of `tlb` is a host pointer less the linear address that it maps; it is kept as its difference to
-- the host pointer `m_mem`, a 32 bit word, which added to a linear address is the physical one. The
-- null pointer of an unused entry is 0. `trace_phys` and `trace_flags` are the fields of
-- `trace_info`.
pub record Machine (D : Type 0) : Type 0 where
  pub cpu : Cpu
  pub cr : ℕ → ℕ
  pub dr : ℕ → ℕ
  pub cpl : ℕ
  pub ia32_efer : ℕ
  pub sysenter : ℕ → ℕ
  pub seg : ℕ → ℕ
  pub seg_base : ℕ → ℕ
  pub seg_limit : ℕ → ℕ
  pub seg_access : ℕ → ℕ
  pub esp_mask : ℕ
  pub state_hash : ℕ
  pub phys_eip : ℕ
  pub last_phys_eip : ℕ
  pub eip_phys_bias : ℕ
  pub tlb_shift_read : ℕ
  pub tlb_shift_write : ℕ
  pub a20_mask : ℕ
  pub memory_size : ℕ
  pub mem : ℕ → ℕ
  pub smc_has_code_length : ℕ
  pub smc_has_code : ℕ → ℕ
  pub tlb_entry_count : ℕ
  pub tlb_entry_indexes : ℕ → ℕ
  pub tlb_tags : ℕ → ℕ
  pub tlb_attrs : ℕ → ℕ
  pub tlb : ℕ → ℕ
  pub trace_phys : ℕ → ℕ
  pub trace_flags : ℕ → ℕ
  pub devices : D

-- How a function ends: it returns 0, with what it has read or computed; it has called
-- `cpu_exception(vector, code)`, in the state that stands beside, and returns 1 afterwards; it returns another value than 0 with no exception;
-- or the program aborts.
pub data Outcome (A : Type 0) : Type 0 where
  completed : A → Outcome A
  exception : ℕ → ℕ → Outcome A
  refused : Outcome A
  aborted : Outcome A

abbrev pub M : Type 0 → Type 0 → Type 0
M D A = Machine D → Outcome A × Machine D

abbrev pub pure : {D A : Type 0} → A → M D A
pure a m = (completed a, m)

abbrev pub continue : {D A B : Type 0} → Outcome A × Machine D → (A → M D B) → Outcome B × Machine D
continue (completed a, m) f = f a m
continue (exception vector code, m) f = (exception vector code, m)
continue (refused, m) f = (refused, m)
continue (aborted, m) f = (aborted, m)

-- A caller passes a callee's failure on.
infixl 5 ◌>>=◌ ◌>>◌
abbrev pub ◌>>=◌ : {D A B : Type 0} → M D A → (A → M D B) → M D B
◌>>=◌ first then_do m = continue (first m) then_do

abbrev pub ◌>>◌ : {D B : Type 0} → M D (Unit {0}) → M D B → M D B
first >> second = first >>= λ _. second

abbrev pub get : {D : Type 0} → M D (Machine D)
get m = (completed m, m)

abbrev pub modify : {D : Type 0} → (Machine D → Machine D) → M D (Unit {0})
modify f m = (completed tt, f m)

-- `cpu_exception(vector, code | 0x10000)`, where the bit says that there is an error code. The state
-- is the one at the call: `cpu_exception` goes on from it, by `cpu_interrupt`, to the handler.
abbrev pub raise : {D A : Type 0} → ℕ → ℕ → M D A
raise vector code m = (exception vector (bit_or code 0x10000), m)
