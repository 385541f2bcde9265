-- ===== src/Memory/Stack.antt =====
-- cpu/stack.cpp: pushes and pops. `m_esp_mask` keeps the upper half of ESP out of a stack of 16 bits,
-- and `ESP` changes only when the access has succeeded.
use cpu_ia32_cpp.Base.{
  ℕ, zero, suc, ◌+◌, ◌-◌, ◌*◌, ◌^◌, ◌%◌, bit_and, bit_or, ◌==◌, if◌then◌else◌, not32, u16, add32,
  sub32, Width, w32, update,
}
use cpu_ia32_cpp.Memory.State.{Bus, Machine, M, get, modify, pure, ◌>>=◌, ◌>>◌}
use cpu_ia32_cpp.Memory.Access.{read_mem, write_mem, bytes}

-- The pointer, moved within the mask; the bits above it stay.
abbrev pub merge_esp : ℕ → ℕ → ℕ → ℕ
merge_esp esp_mask low esp = bit_or low (bit_and esp (not32 esp_mask))

-- What a register is after a store of the width: `m_reg16` is the low half of `m_reg32`.
abbrev pub put_width : Width → ℕ → ℕ → ℕ
put_width w32 old value = value
put_width _ old value = old - old % 2 ^ 16 + u16 value

-- The loops over the eight registers keep ESP for the end.
abbrev pub put_popped : Width → (ℕ → ℕ) → ℕ → ℕ → ℕ → ℕ
put_popped w popped esp' old i = if i == 4 then esp' else put_width w old (popped i)

module _ {D : Type 0} where
  abbrev pub esp_of : Machine D → ℕ
  esp_of m = m.cpu.reg32 4

  abbrev pub set_esp : ℕ → Machine D → Machine D
  set_esp esp m = record m { cpu = record m.cpu { reg32 = update m.cpu.reg32 4 esp } }

  abbrev pub put_all : Width → (ℕ → ℕ) → ℕ → Machine D → Machine D
  put_all w popped esp m = record m {
    cpu = record m.cpu {
      reg32 = λ i. put_popped w popped (merge_esp m.esp_mask esp (esp_of m)) (m.cpu.reg32 i) i;
    };
  }

module _ {D : Type 0} (bus : Bus D) where
  -- `cpu_push16` and `cpu_push32`
  unfoldable pub cpu_push : Width → ℕ → M D (Unit {0})
  unfolding write_mem
  cpu_push w value = do
    m ← get
    let low = bit_and (sub32 (esp_of m) (bytes w)) m.esp_mask
    write_mem bus w (add32 low (m.seg_base 2)) value m.tlb_shift_write
    modify (set_esp (merge_esp m.esp_mask low (esp_of m)))

  -- `cpu_pop16`, `cpu_pop16_dest32` and `cpu_pop32`
  unfoldable pub cpu_pop : Width → M D ℕ
  unfolding read_mem
  cpu_pop w = do
    m ← get
    value ← read_mem bus w (add32 (bit_and (esp_of m) m.esp_mask) (m.seg_base 2)) m.tlb_shift_read
    modify (
        set_esp (merge_esp m.esp_mask (bit_and (add32 (esp_of m) (bytes w)) m.esp_mask) (esp_of m)))
    pure value

  -- The loop of `cpu_pusha` and `cpu_pushad` from register `i`, which returns the pointer.
  unfoldable pub push_from : Width → ℕ → ℕ → ℕ → M D ℕ
  unfolding write_mem
  push_from w zero i esp = pure esp
  push_from w (suc rounds) i esp = do
    m ← get
    let low = bit_and (sub32 esp (bytes w)) m.esp_mask
    write_mem bus w (add32 low (m.seg_base 2)) (m.cpu.reg32 i % 2 ^ (8 * bytes w)) m.tlb_shift_write
    push_from w rounds (i + 1) low

  unfoldable pub cpu_push_all : Width → M D (Unit {0})
  unfolding push_from
  cpu_push_all w = do
    m ← get
    esp ← push_from w 8 0 (esp_of m)
    modify (set_esp (merge_esp m.esp_mask esp (esp_of m)))

  -- The loop of `cpu_popa` and `cpu_popad` down to register 0, with `rounds` registers to go.
  unfoldable pub pop_down : Width → ℕ → ℕ → (ℕ → ℕ) → M D ((ℕ → ℕ) × ℕ)
  unfolding read_mem
  pop_down w zero esp popped = pure (popped, esp)
  pop_down w (suc rounds) esp popped = do
    m ← get
    value ← read_mem bus w (add32 esp (m.seg_base 2)) m.tlb_shift_read
    pop_down w rounds (bit_and (add32 esp (bytes w)) m.esp_mask) (update popped rounds value)

  unfoldable pub cpu_pop_all : Width → M D (Unit {0})
  unfolding pop_down
  cpu_pop_all w = do
    m ← get
    (popped, esp) ← pop_down w 8 (bit_and (esp_of m) m.esp_mask) (λ _. 0)
    modify (put_all w popped esp)
