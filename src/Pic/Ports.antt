-- ===== src/Pic/Ports.antt =====
-- pic.cpp: the ports of the controllers, with the command words, and the reset.
use cpu_ia32_cpp.Base.{
  update, not8, ℕ, zero, suc, ◌+◌, bit_and, bit_xor, ◌==◌, ◌!=◌, int_of, if◌then◌else◌, u8, ◌<<<◌,
  ◌>>>◌,
}
use cpu_ia32_cpp.Pic.State.{Controller, Pic, Which, first, second, ctrl, put_ctrl}
use cpu_ia32_cpp.Pic.Update.{pic_internal_update}

-- `pic_clear_specific` and `pic_set_priority`.
abbrev pub pic_clear_specific : ℕ → Controller → Controller
pic_clear_specific irq self = record self { isr = bit_and self.isr (not8 (1 <<< irq)) }

abbrev pub pic_set_priority : ℕ → Controller → Controller
pic_set_priority irq self = record self { priority_base = irq }

-- The loop of `pic_clear_highest_priority` from round `i`, with `rounds` to go.
unfoldable pub clear_from : ℕ → ℕ → ℕ → ℕ → ℕ
clear_from zero i highest isr = isr
clear_from (suc rounds) i highest isr =
    let rest = clear_from rounds (i + 1) highest isr in
    let mask = 1 <<< bit_and (highest + i) 7 in
    if bit_and isr mask != 0 then bit_xor isr mask else rest

unfoldable pub pic_clear_highest_priority : Controller → Controller
unfolding clear_from
pic_clear_highest_priority self = record self {
  isr = clear_from 8 0 (bit_and (self.priority_base + 1) 7) self.isr;
}

-- The switch of `pic_write_icw`; another `id` is no case.
abbrev pub icw_case : ℕ → ℕ → Controller → Controller
icw_case (suc zero) value self = record self {
  icw_index = 2;
  icw = update self.icw 1 value;
  imr = 0;
  isr = 0;
  irr = 0;
  priority_base = 7;
}
icw_case (suc (suc zero)) value self = record self {
  vector_offset = bit_and value (not8 7);
  icw = update self.icw 2 value;
  icw_index =
      if bit_and (self.icw 1) 2 != 0 then if bit_and (self.icw 1) 1 != 0 then 4 else 5 else 3;
}
icw_case (suc (suc (suc zero))) value self = record self {
  icw = update self.icw 3 value;
  icw_index = bit_xor 5 (bit_and (self.icw 1) 1);
}
icw_case (suc (suc (suc (suc zero)))) value self = record self {
  icw = update self.icw 4 value;
  autoeoi = bit_and value 2;
  icw_index = 5;
}
icw_case _ value self = self

unfoldable pub pic_write_icw : ℕ → ℕ → Controller → Controller
pic_write_icw id value self =
    let self' = icw_case id value self in
    record self' { in_initialization = int_of (self'.icw_index != 5) }

-- The end of interrupt of OCW2, specific or of the highest priority; with `rotate` the priority
-- goes to the level that the command names.
abbrev pub end_of_interrupt : ℕ → Controller → Controller
end_of_interrupt value self =
    let level = bit_and value 7 in
    let cleared =
      if bit_and value 0x40 != 0
      then pic_clear_specific level self
      else pic_clear_highest_priority self in
    if bit_and value 0x80 != 0 then pic_set_priority level cleared else cleared

abbrev pub other_ocw2 : ℕ → Controller → Controller
other_ocw2 value self =
    if bit_and value 0x40 != 0
    then if bit_and value 0x80 != 0 then pic_set_priority (bit_and value 7) self else self
    else record self { rotate_on_autoeoi = int_of (bit_and value 0x80 != 0) }

abbrev pub write_ocw2 : Which → ℕ → Pic → Pic
write_ocw2 w value p =
    if bit_and value 0x20 != 0
    then pic_internal_update w (put_ctrl w (end_of_interrupt value (ctrl w p)) p)
    else put_ctrl w (other_ocw2 value (ctrl w p)) p

abbrev pub write_ocw3 : ℕ → Controller → Controller
write_ocw3 value self =
    if bit_and value 2 != 0 then record self { read_isr = bit_and value 1 } else self

-- The switch of `pic_write_ocw`.
abbrev pub ocw_case : ℕ → Which → ℕ → Pic → Pic
ocw_case (suc zero) w value p =
    pic_internal_update w (put_ctrl w (record (ctrl w p) { imr = u8 value }) p)
ocw_case (suc (suc zero)) w value p = write_ocw2 w value p
ocw_case (suc (suc (suc zero))) w value p = put_ctrl w (write_ocw3 value (ctrl w p)) p
ocw_case _ w value p = p

unfoldable pub pic_write_ocw : Which → ℕ → ℕ → Pic → Pic
unfolding pic_internal_update pic_clear_highest_priority
pic_write_ocw w index value p =
    let self = ctrl w p in
    ocw_case index w value (put_ctrl w (record self { ocw = update self.ocw index (u8 value) }) p)

-- `&pic.ctrl[addr >> 7 & 1]`
abbrev pub addressed : ℕ → Which
addressed addr = if bit_and (addr >>> 7) 1 == 0 then first else second

-- ICW1 starts the initialization and takes the processor's line down.
abbrev pub begin_initialization : Controller → Controller
begin_initialization self = record self {
  in_initialization = 1;
  imr = 0;
  isr = 0;
  irr = 0;
  priority_base = 7;
  autoeoi = 0;
  rotate_on_autoeoi = 0;
}

abbrev pub write_icw1 : Which → ℕ → Pic → Pic
write_icw1 w value p =
    let p' = record (put_ctrl w (begin_initialization (ctrl w p)) p) { intr_line = 0 } in
    put_ctrl w (pic_write_icw 1 (u8 value) (ctrl w p')) p'

unfoldable pub pic_writeb : ℕ → ℕ → Pic → Pic
unfolding pic_write_icw pic_write_ocw
pic_writeb addr value p =
    let w = addressed addr in
    let self = ctrl w p in
    if bit_and addr 1 == 0
    then if bit_and (value >>> 3) 3 == 0
      then pic_write_ocw w 2 value p
      else if bit_and (value >>> 3) 3 == 1
      then pic_write_ocw w 3 value p
      else write_icw1 w value p
    else if self.in_initialization != 0
    then put_ctrl w (pic_write_icw self.icw_index (u8 value) self) p
    else pic_write_ocw w 1 value p

unfoldable pub pic_readb : ℕ → Pic → ℕ
pic_readb port p =
    let self = ctrl (addressed port) p in
    if bit_and port 1 != 0 then self.imr else if self.read_isr != 0 then self.isr else self.irr

abbrev pub elcr_of : ℕ → Which
elcr_of addr = if bit_and addr 1 == 0 then first else second

unfoldable pub pic_elcr_write : ℕ → ℕ → Pic → Pic
pic_elcr_write addr value p =
    let w = elcr_of addr in put_ctrl w (record (ctrl w p) { elcr = u8 value }) p

unfoldable pub pic_elcr_read : ℕ → Pic → ℕ
pic_elcr_read addr p = (ctrl (elcr_of addr) p).elcr

abbrev pub reset_controller : Controller → Controller
reset_controller self = record self {
  vector_offset = 0;
  imr = 0xff;
  irr = 0;
  isr = 0;
  in_initialization = 0;
  read_isr = 0;
  elcr = 0;
}

unfoldable pub pic_reset : Pic → Pic
pic_reset p = record p { master = reset_controller p.master; slave = reset_controller p.slave }
