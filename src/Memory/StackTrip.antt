-- ===== src/Memory/StackTrip.antt =====
-- cpu/stack.cpp: a push and the pop after it, where the page of the stack is in the translation buffer.
use cpu_ia32_cpp.Base.{
  ℕ, ◌+◌, ◌*◌, ◌/◌, ◌%◌, ◌^◌, ◌<◌, ◌≤◌, ◌≡◌, sym, ap, ap₂, ◌∙◌, Bool, true, false, if◌then◌else◌,
  bit_and, bit_or, add32, sub32, arith, subst, Width, w8, w16, w32, update-at, update-other,
  equal-cases, ◌⊎◌, inl, inr,
}
use cpu_ia32_cpp.Base.Bits.{bit_and-bits, bit_or-field, bit_and-mask, bit_or-zero, bit_and-zero}
use cpu_ia32_cpp.Memory.State.{Bus, Machine, Outcome, completed, continue, modify, pure, ◌>>◌}
use cpu_ia32_cpp.Memory.Access.{
  is_indirect, tag_of, phys_of, put_mem, load, store, bytes, read_mem, write_mem, cpu_access_read,
  cpu_access_write,
}
use cpu_ia32_cpp.Memory.Stack.{merge_esp, esp_of, set_esp, cpu_push, cpu_pop}

-- The mask of a stack of 32 bits, or of 16.
abbrev pub stack_mask : Bool → ℕ
stack_mask true = 0xffff_ffff
stack_mask false = 0xffff

merge-32 : (y esp : ℕ) → merge_esp 0xffff_ffff (bit_and y 0xffff_ffff) esp ≡ y % 2 ^ 32
merge-32 y esp = ap₂ bit_or (bit_and-mask 32 y) (bit_and-zero esp) ∙ bit_or-zero _

merge-16 :
    (y esp : ℕ)
    → merge_esp 0xffff (bit_and y 0xffff) esp ≡ y % 2 ^ 16 + esp / 2 ^ 16 % 2 ^ 16 * 2 ^ 16
merge-16 y esp =
    ap₂ bit_or (bit_and-mask 16 y) (bit_and-bits 16 16 esp)
    ∙ bit_or-field 16 (y % 2 ^ 16) (esp / 2 ^ 16 % 2 ^ 16) (omega arith)

-- The pointer after a push of `n` bytes, and after the pop.
abbrev pushed_low : ℕ → ℕ → ℕ → ℕ
pushed_low mask esp n = bit_and (sub32 esp n) mask

abbrev pushed_esp : ℕ → ℕ → ℕ → ℕ
pushed_esp mask esp n = merge_esp mask (pushed_low mask esp n) esp

pushed-low :
    (big : Bool) (esp n : ℕ)
    → bit_and (pushed_esp (stack_mask big) esp n) (stack_mask big)
      ≡ pushed_low (stack_mask big) esp n
pushed-low true esp n =
    bit_and-mask 32 _ ∙ omega (arith, merge-32 (sub32 esp n) esp, bit_and-mask 32 (sub32 esp n))
pushed-low false esp n =
    bit_and-mask 16 _ ∙ omega (arith, merge-16 (sub32 esp n) esp, bit_and-mask 16 (sub32 esp n))

popped-esp :
    (big : Bool) (esp n : ℕ)
    → esp < 2 ^ 32
    → n ≤ 4
    → let after = pushed_esp (stack_mask big) esp n in
      merge_esp (stack_mask big) (bit_and (add32 after n) (stack_mask big)) after ≡ esp
popped-esp true esp n fits small = merge-32 _ _ ∙ omega (arith, merge-32 (sub32 esp n) esp)
popped-esp false esp n fits small = merge-16 _ _ ∙ omega (arith, merge-16 (sub32 esp n) esp)

pub load-store :
    (w : Width) (addr value : ℕ) (mem : ℕ → ℕ)
    → load w (store w addr value mem) addr ≡ value % 2 ^ (8 * bytes w)
load-store w8 addr value mem = ground arith
load-store w16 addr value mem = ground arith
load-store w32 addr value mem = ground arith

pub store-other :
    (w : Width) (addr value a : ℕ) (mem : ℕ → ℕ)
    → (a < addr) ⊎ (addr + bytes w ≤ a)
    → store w addr value mem a ≡ mem a
store-other w8 addr value a mem out = ground arith
store-other w16 addr value a mem out = ground arith
store-other w32 addr value a mem out = ground arith

bytes-small : (w : Width) → bytes w ≤ 4
bytes-small w8 = omega arith
bytes-small w16 = omega arith
bytes-small w32 = omega arith

module _ {D : Type 0} where
  -- The address of a push, and the states after it and after the pop.
  abbrev pub push_addr : Width → Machine D → ℕ
  push_addr w m = add32 (pushed_low m.esp_mask (esp_of m) (bytes w)) (m.seg_base 2)

  abbrev pushed : Width → ℕ → Machine D → Machine D
  pushed w value m =
      set_esp (pushed_esp m.esp_mask (esp_of m) (bytes w))
        (put_mem w (phys_of (push_addr w m) m) value m)

  -- The registers are as before, the memory but for the bytes of the value.
  abbrev pub IsRestored : Width → ℕ → Machine D → Machine D → Type 0
  IsRestored w phys m after =
      ((i : ℕ) → after.cpu.reg32 i ≡ m.cpu.reg32 i)
      × ((a : ℕ) → (a < phys) ⊎ (phys + bytes w ≤ a) → after.mem a ≡ m.mem a)

module _ {D : Type 0} (bus : Bus D) where
  pub write_mem-direct :
      (w : Width) (addr value shift : ℕ) (m : Machine D)
      → is_indirect w addr (tag_of addr shift m) ≡ false
      → write_mem bus w addr value shift m ≡ (completed tt, put_mem w (phys_of addr m) value m)
  unfolding write_mem
  write_mem-direct w addr value shift m direct =
      ap
        (λ b.
          if b
          then cpu_access_write bus w addr value (tag_of addr shift m) shift m
          else (completed tt, put_mem w (phys_of addr m) value m))
        direct

  pub read_mem-direct :
      (w : Width) (addr shift : ℕ) (m : Machine D)
      → is_indirect w addr (tag_of addr shift m) ≡ false
      → read_mem bus w addr shift m ≡ (completed (load w m.mem (phys_of addr m)), m)
  unfolding read_mem
  read_mem-direct w addr shift m direct =
      ap
        (λ b.
          if b
          then cpu_access_read bus w addr (tag_of addr shift m) shift m
          else (completed (load w m.mem (phys_of addr m)), m))
        direct

  cpu_push-direct :
      (w : Width) (value : ℕ) (m : Machine D)
      → is_indirect w (push_addr w m) (tag_of (push_addr w m) m.tlb_shift_write m) ≡ false
      → cpu_push bus w value m ≡ (completed tt, pushed w value m)
  unfolding cpu_push
  cpu_push-direct w value m direct =
      ap (λ o. continue o (λ _. modify (set_esp (pushed_esp m.esp_mask (esp_of m) (bytes w)))))
        (write_mem-direct w (push_addr w m) value m.tlb_shift_write m direct)

  -- The pointer of a pop within the mask is given.
  cpu_pop-direct :
      (w : Width) (low : ℕ) (m : Machine D)
      → bit_and (esp_of m) m.esp_mask ≡ low
      → is_indirect w
          (add32 low (m.seg_base 2))
          (tag_of (add32 low (m.seg_base 2)) m.tlb_shift_read m)
        ≡ false
      → cpu_pop bus w m ≡ (
        completed (load w m.mem (phys_of (add32 low (m.seg_base 2)) m)),
        set_esp
            (merge_esp m.esp_mask (bit_and (add32 (esp_of m) (bytes w)) m.esp_mask) (esp_of m))
            m,
      )
  unfolding cpu_pop
  cpu_pop-direct w low m same direct =
      let then_move = λ (o : Outcome ℕ × Machine D). continue o (λ value.
        modify (
          set_esp
            (merge_esp m.esp_mask (bit_and (add32 (esp_of m) (bytes w)) m.esp_mask) (esp_of m)))
        >> pure value) in
      ap (λ l. then_move (read_mem bus w (add32 l (m.seg_base 2)) m.tlb_shift_read m)) same
      ∙ ap then_move (read_mem-direct w (add32 low (m.seg_base 2)) m.tlb_shift_read m direct)

  -- `cpu_pop` after `cpu_push`, on 16 and on 32 bits, where the push and the pop go to the memory
  -- directly, ESP is a 32-bit word and the stack's mask has 16 or 32 bits: both complete, the pop
  -- returns the low bits of the value, all registers, ESP too, are as before, and so is the memory but
  -- for the bytes of the value.
  pub cpu_pop-cpu_push :
      (w : Width) (value : ℕ) (big : Bool) (m : Machine D)
      → m.esp_mask ≡ stack_mask big
      → esp_of m < 2 ^ 32
      → is_indirect w (push_addr w m) (tag_of (push_addr w m) m.tlb_shift_write m) ≡ false
      → is_indirect w (push_addr w m) (tag_of (push_addr w m) m.tlb_shift_read m) ≡ false
      → (after : Machine D) × ((cpu_push bus w value >> cpu_pop bus w) m
          ≡ (completed (value % 2 ^ (8 * bytes w)), after))
        × IsRestored w (phys_of (push_addr w m) m) m after
  cpu_pop-cpu_push w value big m mask fits writes reads =
      let phys = phys_of (push_addr w m) m in
      let middle = pushed w value m in
      let esp =
        merge_esp m.esp_mask (bit_and (add32 (esp_of middle) (bytes w)) m.esp_mask)
          (esp_of middle) in
      let low_back =
        subst
          (λ k. bit_and (pushed_esp k (esp_of m) (bytes w)) k ≡ pushed_low k (esp_of m) (bytes w))
          (sym mask) (pushed-low big (esp_of m) (bytes w)) in
      let esp_back : esp ≡ esp_of m =
        subst
          (λ k.
            merge_esp k (bit_and (add32 (pushed_esp k (esp_of m) (bytes w)) (bytes w)) k)
              (pushed_esp k (esp_of m) (bytes w))
            ≡ esp_of m)
          (sym mask) (popped-esp big (esp_of m) (bytes w) fits (bytes-small w)) in
      (
        set_esp esp middle,
        ap (λ o. continue o (λ _. cpu_pop bus w)) (cpu_push-direct w value m writes)
            ∙ cpu_pop-direct w (pushed_low m.esp_mask (esp_of m) (bytes w)) middle low_back reads
            ∙ ap (λ v. (completed v, set_esp esp middle)) (load-store w phys value m.mem),
        (
          (λ i. elim (equal-cases 4 i) [
            | inl same ↦ update-at middle.cpu.reg32 4 esp i same ∙ esp_back ∙ ap m.cpu.reg32 same
            | inr other ↦
                update-other middle.cpu.reg32 4 esp i other
                ∙ update-other m.cpu.reg32 4 (esp_of middle) i other
          ]),
          λ a out. store-other w phys value a m.mem out,
        ),
      )
