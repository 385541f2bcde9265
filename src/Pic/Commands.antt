-- ===== src/Pic/Commands.antt =====
-- pic.cpp: the widths of the registers, under the commands at the ports.
use cpu_ia32_cpp.Base.{
  update, not8, ℕ, zero, suc, ◌+◌, ◌<◌, bit_and, ◌≡◌, refl, arith, ◌==◌, ◌!=◌, ◌<<<◌, ◌>>>◌,
  if◌then◌else◌, u8,
}
use cpu_ia32_cpp.Base.Bits.{bit_xor-lt, bit_and-lt}
use cpu_ia32_cpp.Pic.State.{Controller, IsController, IsPic, Which, ctrl, put_ctrl}
use cpu_ia32_cpp.Pic.Ports.{
  clear_from, pic_clear_highest_priority, pic_clear_specific, icw_case, pic_write_icw,
  end_of_interrupt, other_ocw2, write_ocw3, ocw_case, pic_write_ocw, addressed,
  begin_initialization, write_icw1, pic_writeb, pic_elcr_write, elcr_of, reset_controller,
  pic_reset,
}
use cpu_ia32_cpp.Pic.Levels.{line-lt}
use cpu_ia32_cpp.Pic.Valid.{
  if-keeps, ctrl-IsController, put_ctrl-IsPic, outside-IsPic, low3-lt, Keeps,
  pic_internal_update-IsPic,
}

clear_from-lt : (rounds i highest isr : ℕ) → isr < 256 → clear_from rounds i highest isr < 256
unfolding clear_from
clear_from-lt zero i highest isr h = h
clear_from-lt (suc rounds) i highest isr h =
    if-keeps (λ (x : ℕ). x < 256) (bit_and isr (1 <<< bit_and (highest + i) 7) != 0) _ _
      (bit_xor-lt 8 _ _ h (line-lt _ (low3-lt (highest + i))))
      (clear_from-lt rounds (i + 1) highest isr h)

module _ (c : Controller) (v : IsController c) where
  served-IsController :
      (isr base : ℕ)
      → isr < 256
      → base < 8
      → IsController (record c { isr = isr; priority_base = base })
  served-IsController isr base h g = record {
    offset_fits = v.offset_fits;
    imr_fits = v.imr_fits;
    irr_fits = v.irr_fits;
    isr_fits = h;
    pin_fits = v.pin_fits;
    base_fits = g;
    highest_fits = v.highest_fits;
  }

  set_up-IsController :
      (offset imr base : ℕ)
      → offset < 256
      → imr < 256
      → base < 8
      → IsController
          (record c { vector_offset = offset; imr = imr; irr = 0; isr = 0; priority_base = base })
  set_up-IsController offset imr base h g b = record {
    offset_fits = h;
    imr_fits = g;
    irr_fits = omega arith;
    isr_fits = omega arith;
    pin_fits = v.pin_fits;
    base_fits = b;
    highest_fits = v.highest_fits;
  }

  -- The fields that are not bounded do not matter.
  same-IsController :
      (d : Controller)
      → d.vector_offset ≡ c.vector_offset
      → d.imr ≡ c.imr
      → d.irr ≡ c.irr
      → d.isr ≡ c.isr
      → d.pin_state ≡ c.pin_state
      → d.priority_base ≡ c.priority_base
      → d.highest_priority_irq_to_send ≡ c.highest_priority_irq_to_send
      → IsController d
  same-IsController d e0 e1 e2 e3 e4 e5 e6 = record {
    offset_fits = rw e0 v.offset_fits;
    imr_fits = rw e1 v.imr_fits;
    irr_fits = rw e2 v.irr_fits;
    isr_fits = rw e3 v.isr_fits;
    pin_fits = rw e4 v.pin_fits;
    base_fits = rw e5 v.base_fits;
    highest_fits = rw e6 v.highest_fits;
  }

  masked-IsController :
      (offset imr : ℕ)
      → offset < 256
      → imr < 256
      → IsController (record c { vector_offset = offset; imr = imr })
  masked-IsController offset imr h g = record {
    offset_fits = h;
    imr_fits = g;
    irr_fits = v.irr_fits;
    isr_fits = v.isr_fits;
    pin_fits = v.pin_fits;
    base_fits = v.base_fits;
    highest_fits = v.highest_fits;
  }

  cleared-IsController :
      (value : ℕ)
      → IsController (
          if bit_and value 0x40 != 0
          then pic_clear_specific (bit_and value 7) c
          else pic_clear_highest_priority c)
  unfolding pic_clear_highest_priority
  cleared-IsController value =
      if-keeps IsController (bit_and value 0x40 != 0) _ _
        (served-IsController _ c.priority_base (bit_and-lt 8 _ _ (omega arith)) v.base_fits)
        (served-IsController _ c.priority_base (clear_from-lt 8 0 _ c.isr v.isr_fits) v.base_fits)

icw_case-IsController :
    (id value : ℕ) (c : Controller) → IsController c → IsController (icw_case id value c)
icw_case-IsController zero value c v = v
icw_case-IsController (suc zero) value c v =
    same-IsController _
      (set_up-IsController c v c.vector_offset 0 7 v.offset_fits (omega arith) (omega arith)) _ refl
      refl refl refl refl refl refl
icw_case-IsController (suc (suc zero)) value c v =
    same-IsController _
      (masked-IsController c v _ c.imr (bit_and-lt 8 value (not8 7) (omega arith)) v.imr_fits) _
      refl refl refl refl refl refl refl
icw_case-IsController (suc (suc (suc zero))) value c v =
    same-IsController c v _ refl refl refl refl refl refl refl
icw_case-IsController (suc (suc (suc (suc zero)))) value c v =
    same-IsController c v _ refl refl refl refl refl refl refl
icw_case-IsController (suc (suc (suc (suc (suc id))))) value c v = v

pic_write_icw-IsController :
    (id value : ℕ) (c : Controller) → IsController c → IsController (pic_write_icw id value c)
unfolding pic_write_icw
pic_write_icw-IsController id value c v =
    same-IsController (icw_case id value c) (icw_case-IsController id value c v) _ refl refl refl
      refl refl refl refl

end_of_interrupt-IsController :
    (value : ℕ) (c : Controller) → IsController c → IsController (end_of_interrupt value c)
end_of_interrupt-IsController value c v =
    let cleared = cleared-IsController c v value in
    if-keeps IsController (bit_and value 0x80 != 0) _ _
      (served-IsController _ cleared _ (bit_and value 7) cleared.isr_fits (low3-lt value)) cleared

other_ocw2-IsController :
    (value : ℕ) (c : Controller) → IsController c → IsController (other_ocw2 value c)
other_ocw2-IsController value c v =
    if-keeps IsController (bit_and value 0x40 != 0) _ _
      (if-keeps IsController (bit_and value 0x80 != 0) _ _
        (served-IsController c v c.isr (bit_and value 7) v.isr_fits (low3-lt value)) v)
      (same-IsController c v _ refl refl refl refl refl refl refl)

write_ocw3-IsController :
    (value : ℕ) (c : Controller) → IsController c → IsController (write_ocw3 value c)
write_ocw3-IsController value c v =
    if-keeps IsController (bit_and value 2 != 0) _ _
      (same-IsController c v _ refl refl refl refl refl refl refl) v

ocw_case-IsPic : (index : ℕ) (w : Which) (value : ℕ) → Keeps (ocw_case index w value)
ocw_case-IsPic zero w value p v = v
ocw_case-IsPic (suc zero) w value p v = pic_internal_update-IsPic w _ (
    put_ctrl-IsPic w _ p
      (masked-IsController (ctrl w p) (ctrl-IsController w p v) (ctrl w p).vector_offset (u8 value)
        (ctrl-IsController w p v).offset_fits (omega arith))
      v)
ocw_case-IsPic (suc (suc zero)) w value p v =
    if-keeps IsPic (bit_and value 0x20 != 0) _ _
      (pic_internal_update-IsPic w _ (
        put_ctrl-IsPic w _ p
          (end_of_interrupt-IsController value (ctrl w p) (ctrl-IsController w p v)) v))
      (put_ctrl-IsPic w _ p (other_ocw2-IsController value (ctrl w p) (ctrl-IsController w p v)) v)
ocw_case-IsPic (suc (suc (suc zero))) w value p v =
    put_ctrl-IsPic w _ p (write_ocw3-IsController value (ctrl w p) (ctrl-IsController w p v)) v
ocw_case-IsPic (suc (suc (suc (suc index)))) w value p v = v

same-IsPic :
    (w : Which) (f : Controller → Controller)
    → ((c : Controller) → IsController c → IsController (f c))
    → Keeps (λ p. put_ctrl w (f (ctrl w p)) p)
same-IsPic w f k p v = put_ctrl-IsPic w _ p (k (ctrl w p) (ctrl-IsController w p v)) v

pic_write_ocw-IsPic : (w : Which) (index value : ℕ) → Keeps (pic_write_ocw w index value)
unfolding pic_write_ocw
pic_write_ocw-IsPic w index value p v = ocw_case-IsPic index w value _ (
    same-IsPic w (λ (c : Controller). record c { ocw = update c.ocw index (u8 value) })
      (λ c u. same-IsController c u _ refl refl refl refl refl refl refl) p v)

write_icw1-IsPic : (w : Which) (value : ℕ) → Keeps (write_icw1 w value)
write_icw1-IsPic w value p v =
    same-IsPic w (pic_write_icw 1 (u8 value)) (pic_write_icw-IsController 1 (u8 value)) _ (
      outside-IsPic _ _ refl refl
        (same-IsPic w begin_initialization begin_initialization-IsController p v))
  where
    begin_initialization-IsController :
        (c : Controller) → IsController c → IsController (begin_initialization c)
    begin_initialization-IsController c u =
        same-IsController _
          (set_up-IsController c u c.vector_offset 0 7 u.offset_fits (omega arith) (omega arith)) _
          refl refl refl refl refl refl refl

pub pic_writeb-IsPic : (addr value : ℕ) → Keeps (pic_writeb addr value)
unfolding pic_writeb
pic_writeb-IsPic addr value p v =
    let w = addressed addr in
    if-keeps IsPic (bit_and addr 1 == 0) _ _
      (if-keeps IsPic (bit_and (value >>> 3) 3 == 0) _ _ (pic_write_ocw-IsPic w 2 value p v) (
        if-keeps IsPic (bit_and (value >>> 3) 3 == 1) _ _ (pic_write_ocw-IsPic w 3 value p v)
          (write_icw1-IsPic w value p v)))
      (if-keeps IsPic ((ctrl w p).in_initialization != 0) _ _
        (same-IsPic w (pic_write_icw (ctrl w p).icw_index (u8 value))
          (pic_write_icw-IsController (ctrl w p).icw_index (u8 value)) p v)
        (pic_write_ocw-IsPic w 1 value p v))

pub pic_elcr_write-IsPic : (addr value : ℕ) → Keeps (pic_elcr_write addr value)
unfolding pic_elcr_write
pic_elcr_write-IsPic addr value =
    same-IsPic (elcr_of addr) (λ c. record c { elcr = u8 value })
      λ c u. same-IsController c u _ refl refl refl refl refl refl refl

pub pic_reset-IsPic : Keeps pic_reset
unfolding pic_reset
pic_reset-IsPic p v = record {
  master_valid = reset p.master v.master_valid;
  slave_valid = reset p.slave v.slave_valid;
}
  where
    reset : (c : Controller) → IsController c → IsController (reset_controller c)
    reset c u =
        same-IsController _
          (set_up-IsController c u 0 0xff c.priority_base (omega arith) (omega arith) u.base_fits) _
          refl refl refl refl refl refl refl
