-- ===== src/Pic/Update.antt =====
-- pic.cpp: which request is sent to the processor, and raising, lowering and accepting one.
use cpu_ia32_cpp.Base.{
  not8, ℕ, zero, suc, ◌+◌, ◌-◌, bit_and, bit_or, bit_xor, Option, none, some, ltb, ◌==◌, ◌!=◌,
  if◌then◌else◌, u8, ◌<<<◌, ◌>>>◌,
}
use cpu_ia32_cpp.Pic.State.{
  Controller, Pic, Which, first, second, ctrl, put_ctrl, call, ioapic_raise_irq, ioapic_lower_irq,
  request_fast_return,
}

unfoldable pub rol : ℕ → ℕ → ℕ
rol value priority_base =
    let count = bit_xor priority_base 7 in u8 (bit_or (value <<< count) (value >>> (8 - count)))

-- The loops of `pic_internal_update` from round `i`, with `rounds` to go: where the request stands
-- that is to be sent. In special mask mode the requests in service are already taken out.
unfoldable pub scan_special : ℕ → ℕ → ℕ → Option ℕ
scan_special zero i unmasked = none
scan_special (suc rounds) i unmasked =
    let rest = scan_special rounds (i + 1) unmasked in
    if bit_and unmasked (1 <<< i) != 0 then some i else rest

unfoldable pub scan_normal : ℕ → ℕ → ℕ → ℕ → Option ℕ
scan_normal zero i isr unmasked = none
scan_normal (suc rounds) i isr unmasked =
    let rest = scan_normal rounds (i + 1) isr unmasked in
    if bit_and isr (1 <<< i) != 0
    then none
    else if bit_and unmasked (1 <<< i) != 0
    then some i
    else rest

-- The request to be sent, if there is one, as its place after the rotation.
unfoldable pub select : Controller → Option ℕ
unfolding rol scan_special scan_normal
select self =
    let unmasked = bit_and self.irr (not8 self.imr) in
    let rotated = rol unmasked self.priority_base in
    let isr = rol self.isr self.priority_base in
    if unmasked == 0
    then none
    else if bit_and (self.ocw 3) 0x60 == 0x60
    then scan_special 8 0 (bit_and rotated (not8 isr))
    else scan_normal 8 0 isr rotated

abbrev pub choose : ℕ → Controller → Controller
choose i self = record self {
  highest_priority_irq_to_send = bit_and (self.priority_base + 1 + i) 7;
}

-- `pic_internal_update`, given what a controller does to signal a request.
abbrev pub update_with : (Pic → Pic) → Which → Pic → Pic
update_with signal w p = elim (select (ctrl w p)) [
  | none ↦ p
  | some i ↦ signal (put_ctrl w (choose i (ctrl w p)) p)
]

-- The master raises the processor's line.
unfoldable pub master_update : Pic → Pic
master_update = update_with (λ p. call request_fast_return (record p { intr_line = 1 })) first

-- `pic_internal_raise_irq`, given the update.
abbrev pub raise_with : (Pic → Pic) → Which → ℕ → Pic → Pic
raise_with update_self w irq p =
    let self = ctrl w p in
    let mask = 1 <<< irq in
    if bit_and self.pin_state mask == 0
    then update_self (
        put_ctrl w
          (record self { pin_state = bit_or self.pin_state mask; irr = bit_or self.irr mask }) p)
    else p

abbrev pub lower_self : ℕ → Controller → Controller
lower_self irq self =
    let mask = 1 <<< irq in
    record self {
      irr = bit_and self.irr (not8 mask);
      pin_state = bit_and self.pin_state (not8 mask);
    }

-- `pic_raise_irq(a)` and `pic_lower_irq(a)` for a line of the master, `a` up to 7.
unfoldable pub master_raise_irq : ℕ → Pic → Pic
unfolding master_update
master_raise_irq a p = raise_with master_update first (bit_and a 7) (call (ioapic_raise_irq a) p)

unfoldable pub master_lower_irq : ℕ → Pic → Pic
master_lower_irq a p =
    let p' = call (ioapic_lower_irq a) p in put_ctrl first (lower_self (bit_and a 7) p'.master) p'

-- The slave signals by a new edge on the master's line 2.
unfoldable pub pic_internal_update : Which → Pic → Pic
unfolding master_update master_raise_irq master_lower_irq
pic_internal_update first p = master_update p
pic_internal_update second p = update_with (λ q. master_raise_irq 2 (master_lower_irq 2 q)) second p

unfoldable pub pic_internal_raise_irq : Which → ℕ → Pic → Pic
unfolding pic_internal_update
pic_internal_raise_irq w irq p = raise_with (pic_internal_update w) w irq p

unfoldable pub pic_internal_lower_irq : Which → ℕ → Pic → Pic
unfolding master_lower_irq
pic_internal_lower_irq first irq p = put_ctrl first (lower_self irq p.master) p
pic_internal_lower_irq second irq p =
    let p' = put_ctrl second (lower_self irq p.slave) p in
    if p'.slave.irr == 0 then master_lower_irq 2 p' else p'

abbrev pub which_of : ℕ → Which
which_of a = if ltb 7 a then second else first

unfoldable pub pic_raise_irq : ℕ → Pic → Pic
unfolding pic_internal_raise_irq
pic_raise_irq a p = pic_internal_raise_irq (which_of a) (bit_and a 7) (call (ioapic_raise_irq a) p)

unfoldable pub pic_lower_irq : ℕ → Pic → Pic
unfolding pic_internal_lower_irq
pic_lower_irq a p = pic_internal_lower_irq (which_of a) (bit_and a 7) (call (ioapic_lower_irq a) p)

-- A controller that hands over its request: the vector and the controller after it. A request
-- that is gone is answered by the spurious vector.
abbrev pub requested : Controller → Option ℕ
requested self =
    let irq = self.highest_priority_irq_to_send in
    if bit_and self.irr (1 <<< irq) == 0 then none else some irq

abbrev pub accept : ℕ → Controller → Controller
accept irq self =
    let mask = 1 <<< irq in
    let taken = record self { irr = bit_xor self.irr mask } in
    if self.autoeoi == 0
    then record taken { isr = bit_or self.isr mask }
    else if self.rotate_on_autoeoi == 0
    then taken
    else record taken { priority_base = irq }

unfoldable pub slave_get_interrupt : Pic → ℕ × Pic
slave_get_interrupt p = elim (requested p.slave) [
  | none ↦ (bit_or p.slave.vector_offset 7, p)
  | some irq ↦ (u8 (p.slave.vector_offset + irq), record p { slave = accept irq p.slave })
]

-- `pic_internal_get_interrupt(&pic.ctrl[0])`; line 2 hands over to the slave.
unfoldable pub master_get_interrupt : Pic → ℕ × Pic
unfolding slave_get_interrupt
master_get_interrupt p = elim (requested p.master) [
  | none ↦ (bit_or p.master.vector_offset 7, p)
  | some irq ↦
      let p' = record p { master = accept irq p.master } in
      if irq == 2 then slave_get_interrupt p' else (u8 (p.master.vector_offset + irq), p')
]

-- `apic` is what the local APIC has to deliver: `apic_has_interrupt()` with `apic_get_interrupt()`.
unfoldable pub pic_get_interrupt : Option ℕ → Pic → ℕ × Pic
unfolding master_get_interrupt
pic_get_interrupt (some vector) p = (vector, p)
pic_get_interrupt none p = master_get_interrupt (record p { intr_line = 0 })
