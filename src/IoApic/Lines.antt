-- ===== src/IoApic/Lines.antt =====
-- ioapic.cpp: the lines of the devices, and the end of interrupt that the local APIC passes on.
use cpu_ia32_cpp.Base.{
  ℕ, zero, suc, ◌+◌, bit_and, bit_or, ◌==◌, ◌!=◌, not, if◌then◌else◌, not32, update, ◌<<<◌,
}
use cpu_ia32_cpp.IoApic.State.{
  IoApic, Vectors, low_word, is_level, remote_irr, pin_polarity, ioapic_update,
}

-- Line 0, the timer's, is connected to pin 2.
abbrev pub pin_of : ℕ → ℕ
pin_of line = if line == 0 then 2 else line

module _ {P : Type 0} where
  abbrev pub put_low_word : ℕ → ℕ → IoApic P → IoApic P
  put_low_word i low s = record s { redtbl = update s.redtbl (i <<< 1) low }

  abbrev pub request : ℕ → IoApic P → IoApic P
  request i s = record s { pin_state = bit_or s.pin_state (1 <<< i); irr = bit_or s.irr (1 <<< i) }

  unfoldable pub ioapic_lower_irq : ℕ → IoApic P → IoApic P
  ioapic_lower_irq line s =
      let i = pin_of line in
      let low = bit_and (low_word i s) (not32 pin_polarity) in
      let lowered =
        put_low_word i low (record s { pin_state = bit_and s.pin_state (not32 (1 <<< i)) }) in
      if not s.enabled
      then s
      else if is_level low
      then record lowered { irr = bit_and s.irr (not32 (1 <<< i)) }
      else lowered

  -- The loop of `ioapic_remote_eoi` from entry `i`, with `rounds` to go.
  abbrev pub end_line : ℕ → ℕ → IoApic P → IoApic P
  end_line vector i s =
      let low = low_word i s in
      if bit_and low 0xff != vector
      then s
      else if bit_and low remote_irr != 0
      then put_low_word i (bit_and low (not32 remote_irr)) s
      else s

  unfoldable pub end_from : ℕ → ℕ → ℕ → IoApic P → IoApic P
  end_from vector zero i s = s
  end_from vector (suc rounds) i s = end_from vector rounds (i + 1) (end_line vector i s)

  unfoldable pub ioapic_remote_eoi : ℕ → IoApic P → IoApic P
  unfolding end_from
  ioapic_remote_eoi vector s = end_from vector 24 0 s

module _ {P : Type 0} (pic : Vectors P) where
  -- A line triggered by its level asks once until the end of interrupt, one triggered by its edge
  -- once until it is lowered.
  unfoldable pub raise_line : ℕ → ℕ → IoApic P → IoApic P
  unfolding ioapic_update
  raise_line i low s =
      if is_level low
      then if bit_and low remote_irr != 0
        then s
        else ioapic_update pic (request i (put_low_word i (bit_or low remote_irr) s))
      else if bit_and s.pin_state (1 <<< i) == 0
      then ioapic_update pic (request i s)
      else s

  unfoldable pub ioapic_raise_irq : ℕ → IoApic P → IoApic P
  unfolding raise_line
  ioapic_raise_irq line s =
      let i = pin_of line in
      let low = bit_or (low_word i s) pin_polarity in
      if not s.enabled then s else raise_line i low (put_low_word i low s)
