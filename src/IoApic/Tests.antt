-- ===== src/IoApic/Tests.antt =====
-- The theorems about the I/O APIC on one state.
use cpu_ia32_cpp.Base.{ℕ, ◌≡◌, ◌≢◌, refl, ap, inl, arith, true, [], ◌∷◌, none, ◌==◌, if◌then◌else◌}
use cpu_ia32_cpp.Pic.State.{Controller, Pic}
use cpu_ia32_cpp.IoApic.State.{IoApic, pic_vectors, low_word, asks}
use cpu_ia32_cpp.IoApic.Lines.{ioapic_raise_irq, ioapic_remote_eoi}
use cpu_ia32_cpp.IoApic.Sends.Words.{message}
use cpu_ia32_cpp.IoApic.Sends.Level.{ioapic_raise_irq-ioapic_remote_eoi}
use cpu_ia32_cpp.IoApic.Sends.Raise.{MaySend, Sends, ioapic_raise_irq-Sends}

-- Interrupt controllers that have just been reset.
abbrev reset : Controller
reset = record {
  vector_offset = 8;
  imr = 0;
  irr = 0;
  isr = 0;
  pin_state = 0;
  icw = λ _. 0;
  icw_index = 0;
  ocw = λ _. 0;
  read_isr = 0;
  autoeoi = 0;
  rotate_on_autoeoi = 0;
  priority_base = 7;
  in_initialization = 0;
  highest_priority_irq_to_send = 0;
  elcr = 0;
}

-- Line 5 is triggered by its level, with vector 0x35 and the lowest priority; the others are masked.
abbrev idle : IoApic Pic
idle = record {
  base = 0xfec0_0000;
  register_selected = 0;
  id = 0;
  pin_state = 0;
  irr = 8;
  arbitration_id = 0;
  redtbl = λ i. if i == 10 then 0x8135 else 0x1_0000;
  enabled = true;
  temp_data = 0;
  controllers = record { master = reset; slave = reset; intr_line = 0; calls = [] };
  messages = [];
}

masked_entry : (k : ℕ) → k ≢ 5 → low_word k idle ≡ 0x1_0000
masked_entry k ne = ground arith

idle-MaySend : MaySend 5 idle
idle-MaySend = record {
  in_table = omega arith;
  alone = λ k lt ne. ap (λ low. asks k low 8) (masked_entry k ne);
  unmasked = refl;
  internal = λ e. absurd (omega arith);
}

ioapic_raise_irq-Sends_example : Sends 5 idle (ioapic_raise_irq (pic_vectors none) 5 idle)
ioapic_raise_irq-Sends_example =
    ioapic_raise_irq-Sends (pic_vectors none) 5 idle refl idle-MaySend (inl (refl, refl))

ioapic_raise_irq-ioapic_remote_eoi_example :
    let one = message 0x35 3 true in
    let once = ioapic_raise_irq (pic_vectors none) 5 idle in
    (once.messages ≡ one ∷ [])
    × ((ioapic_raise_irq (pic_vectors none) 5 once).messages ≡ one ∷ [])
    × ((ioapic_raise_irq (pic_vectors none) 5 (ioapic_remote_eoi 0x35 once)).messages
        ≡ one ∷ one ∷ [])
ioapic_raise_irq-ioapic_remote_eoi_example =
    ioapic_raise_irq-ioapic_remote_eoi (pic_vectors none) 5 idle refl idle-MaySend refl refl
