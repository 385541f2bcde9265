-- ===== src/Memory/Physical.antt =====
-- cpu/mmu.cpp: `cpu_read_phys` and `cpu_write_phys`, and the loads and stores on the memory itself,
-- lowest byte first.
use cpu_ia32_cpp.Base.{
  ℕ, ◌+◌, ◌*◌, ◌^◌, Bool, ◌&&◌, ◌||◌, ltb, leb, if◌then◌else◌, u8, update, ◌>>>◌,
}
use cpu_ia32_cpp.Memory.State.{Bus, Machine, M, completed}

abbrev pub load8 : (ℕ → ℕ) → ℕ → ℕ
load8 mem addr = mem addr

abbrev pub load16 : (ℕ → ℕ) → ℕ → ℕ
load16 mem addr = mem addr + mem (addr + 1) * 2 ^ 8

abbrev pub load32 : (ℕ → ℕ) → ℕ → ℕ
load32 mem addr = load16 mem addr + load16 mem (addr + 2) * 2 ^ 16

abbrev pub store8 : ℕ → ℕ → (ℕ → ℕ) → ℕ → ℕ
store8 addr value mem = update mem addr (u8 value)

abbrev pub store16 : ℕ → ℕ → (ℕ → ℕ) → ℕ → ℕ
store16 addr value mem = store8 (addr + 1) (value >>> 8) (store8 addr value mem)

abbrev pub store32 : ℕ → ℕ → (ℕ → ℕ) → ℕ → ℕ
store32 addr value mem = store16 (addr + 2) (value >>> 16) (store16 addr value mem)

-- The addresses that the memory does not answer.
abbrev pub is_mmio_read : {D : Type 0} → ℕ → Machine D → Bool
is_mmio_read phys m = (leb 0xa_0000 phys && ltb phys 0xc_0000) || leb m.memory_size phys

module _ {D : Type 0} (bus : Bus D) where
  abbrev pub from_bus : ℕ → ℕ → M D ℕ
  from_bus phys size m =
      let (value, devices) = bus.mmio_read phys size m.devices in
      (completed value, record m { devices = devices })

  abbrev pub to_bus : ℕ → ℕ → ℕ → M D (Unit {0})
  to_bus phys value size m =
      (completed tt, record m { devices = bus.mmio_write phys value size m.devices })

  unfoldable pub cpu_read_phys : ℕ → M D ℕ
  cpu_read_phys addr m =
      if is_mmio_read addr m then from_bus addr 2 m else (completed (load32 m.mem addr), m)

  unfoldable pub cpu_write_phys : ℕ → ℕ → M D (Unit {0})
  cpu_write_phys addr value m =
      if is_mmio_read addr m
      then to_bus addr value 2 m
      else (completed tt, record m { mem = store32 addr value m.mem })
