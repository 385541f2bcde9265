-- ===== src/Pic/Tests.antt =====
-- The theorems about the interrupt controllers on one state of the two.
use cpu_ia32_cpp.Base.{
  ℕ, zero, suc, ◌+◌, ◌<◌, ◌≡◌, ◌↔◌, refl, none, some, u8, if◌then◌else◌, ◌==◌, [], arith,
}
use cpu_ia32_cpp.Base.Bits.{bit_at}
use cpu_ia32_cpp.Pic.State.{Controller, IsController, IsPic, Pic, first, second}
use cpu_ia32_cpp.Pic.Update.{
  select, pic_internal_update, pic_get_interrupt, pic_raise_irq, rol, scan_normal, scan_special,
}
use cpu_ia32_cpp.Pic.Ports.{pic_clear_highest_priority, pic_writeb}
use cpu_ia32_cpp.Pic.Priority.{IsHighest, level, in_service}
use cpu_ia32_cpp.Pic.Sent.{select-IsHighest, sent, pic_internal_update-sends}
use cpu_ia32_cpp.Pic.EndOfInterrupt.{IsServed, pic_clear_highest_priority-clears}
use cpu_ia32_cpp.Pic.Accept.{IsAccepted, pic_get_interrupt-accepts}
use cpu_ia32_cpp.Pic.Cascade.{pic_get_interrupt-cascades}
use cpu_ia32_cpp.Pic.Initialization.{initialize, IsReady, initialize-IsReady}
use cpu_ia32_cpp.Pic.Reach.{Step, Reaches, Reaches-IsPic}

-- Lines 1 and 4 ask, line 1 is masked, and line 6 is in service.
abbrev busy : Controller
busy = record {
  vector_offset = 8;
  imr = 0x02;
  irr = 0x12;
  isr = 0x40;
  pin_state = 0x12;
  icw = λ _. 0;
  icw_index = 5;
  ocw = λ _. 0;
  read_isr = 0;
  autoeoi = 0;
  rotate_on_autoeoi = 0;
  priority_base = 7;
  in_initialization = 0;
  highest_priority_irq_to_send = 0;
  elcr = 0;
}

busy-IsController : IsController busy
busy-IsController = record {
  offset_fits = omega arith;
  imr_fits = omega arith;
  irr_fits = omega arith;
  isr_fits = omega arith;
  pin_fits = omega arith;
  base_fits = omega arith;
  highest_fits = omega arith;
}

abbrev quiet : Controller
quiet = record busy { irr = 0 }

quiet-IsController : IsController quiet
quiet-IsController = record {
  offset_fits = omega arith;
  imr_fits = omega arith;
  irr_fits = omega arith;
  isr_fits = omega arith;
  pin_fits = omega arith;
  base_fits = omega arith;
  highest_fits = omega arith;
}

abbrev both : Pic
both = record { master = busy; slave = quiet; intr_line = 0; calls = [] }

abbrev idle : Pic
idle = record both { master = quiet }

both-IsPic : IsPic both
both-IsPic = record { master_valid = busy-IsController; slave_valid = quiet-IsController }

selected : select busy ≡ some 4
unfolding select rol scan_normal scan_special
selected = refl

-- Line 4 is to be sent.
highest : IsHighest busy 4
highest = (select-IsHighest busy busy-IsController 4).0 selected

nothing : select quiet ≡ none
unfolding select rol scan_normal scan_special
nothing = refl

select-IsHighest_example : (select busy ≡ some 4) ↔ IsHighest busy 4
select-IsHighest_example = select-IsHighest busy busy-IsController 4

pic_internal_update-sends_example : pic_internal_update first both ≡ sent both busy-IsController 4
pic_internal_update-sends_example = pic_internal_update-sends both busy-IsController 4 highest

none_asks : (i : ℕ) → ¬ IsHighest quiet i
none_asks i h =
    let e : select quiet ≡ some i = (select-IsHighest quiet quiet-IsController i).1 h in
    cc (rw nothing at e)

pic_get_interrupt-accepts_example :
    let result = pic_get_interrupt none (pic_internal_update first both) in
    (result.0 ≡ u8 (8 + 4))
    × IsAccepted 4 busy result.1.master
    × (result.1.slave ≡ quiet)
    × (result.1.intr_line ≡ 0)
pic_get_interrupt-accepts_example =
    pic_get_interrupt-accepts both busy-IsController 4 highest (ground arith) refl

-- Line 6 stands at place 6.
serves : IsServed busy 6
unfolding bit_at
serves = record { in_range = omega arith; served = refl; before = λ k h. earlier k h }
  where
    earlier : (k : ℕ) → k < 6 → in_service busy (level busy k) ≡ 0
    earlier zero h = refl
    earlier (suc zero) h = refl
    earlier (suc (suc zero)) h = refl
    earlier (suc (suc (suc zero))) h = refl
    earlier (suc (suc (suc (suc zero)))) h = refl
    earlier (suc (suc (suc (suc (suc zero))))) h = refl
    earlier (suc (suc (suc (suc (suc (suc k)))))) h = absurd (omega arith)

pic_clear_highest_priority-clears_example :
    in_service (pic_clear_highest_priority busy) 6
    ≡ (if 6 == level busy 6 then 0 else in_service busy 6)
pic_clear_highest_priority-clears_example =
    pic_clear_highest_priority-clears busy busy-IsController 6 6 serves (omega arith)

-- Line 0 is raised, and the master is told that interrupt 6 has ended.
Reaches-IsPic_example : IsPic (pic_writeb 0x20 0x20 (pic_raise_irq 0 both))
Reaches-IsPic_example =
    Reaches-IsPic
      (Reaches.next (Reaches.next Reaches.here (Step.raise_irq 0 both))
        (Step.write 0x20 0x20 (pic_raise_irq 0 both)))
      both-IsPic

-- The slave's line 3 asks, and line 2 of the master for it.
abbrev asked : Controller
asked = record busy { irr = 0x04 }

asked-IsController : IsController asked
asked-IsController = record {
  offset_fits = omega arith;
  imr_fits = omega arith;
  irr_fits = omega arith;
  isr_fits = omega arith;
  pin_fits = omega arith;
  base_fits = omega arith;
  highest_fits = omega arith;
}

abbrev asking : Controller
asking = record busy { vector_offset = 0x70; irr = 0x08; isr = 0; highest_priority_irq_to_send = 3 }

asking-IsController : IsController asking
asking-IsController = record {
  offset_fits = omega arith;
  imr_fits = omega arith;
  irr_fits = omega arith;
  isr_fits = omega arith;
  pin_fits = omega arith;
  base_fits = omega arith;
  highest_fits = omega arith;
}

abbrev cascade : Pic
cascade = record { master = asked; slave = asking; intr_line = 0; calls = [] }

line_2 : IsHighest asked 2
unfolding select rol scan_normal scan_special
line_2 = (select-IsHighest asked asked-IsController 2).0 refl

asks : bit_at 3 0x08 ≡ 1
unfolding bit_at
asks = refl

pic_get_interrupt-cascades_example :
    let result = pic_get_interrupt none (pic_internal_update first cascade) in
    (result.0 ≡ u8 (0x70 + 3))
    × IsAccepted 2 asked result.1.master
    × IsAccepted 3 asking result.1.slave
    × (result.1.intr_line ≡ 0)
pic_get_interrupt-cascades_example =
    pic_get_interrupt-cascades cascade asked-IsController asking-IsController 2 line_2 asks refl
      refl refl

-- The words that a PC's firmware writes to the slave.
initialize-IsReady_example : IsReady 0x70 1 (initialize second 0x11 0x70 2 1 both).slave
initialize-IsReady_example = initialize-IsReady 0x11 0x70 2 1 both refl refl refl second
