-- ===== src/IoApic/Registers.antt =====
-- ioapic.cpp: the registers behind the window in memory, by words and by bytes, and the reset.
use cpu_ia32_cpp.Base.{
  ℕ, zero, suc, ◌+◌, ◌-◌, ◌*◌, bit_and, bit_or, Bool, ◌&&◌, ◌==◌, leb, Option, none, some,
  if◌then◌else◌, not32, u32, sub32, update, ◌<<<◌, ◌>>>◌,
}
use cpu_ia32_cpp.IoApic.State.{IoApic, Vectors, ioapic_update, interrupt_masked}

-- `register_selected & 0xFF`, and whether it is one of the table, `case 0x10 ... 0x3F`.
abbrev pub selected : {P : Type 0} → IoApic P → ℕ
selected s = bit_and s.register_selected 0xff

abbrev pub in_table : ℕ → Bool
in_table register = leb 0x10 register && leb register 0x3f

-- The loop of `ioapic_reset` from word `i`: the low words alone.
abbrev pub mask_from : ℕ → ℕ → (ℕ → ℕ) → ℕ → ℕ
mask_from zero i redtbl = redtbl
mask_from (suc rounds) i redtbl =
    mask_from rounds (i + 2) (update (update redtbl i 0) i interrupt_masked)

module _ {P : Type 0} where
  abbrev read_selected : IoApic P → ℕ
  read_selected s =
      if selected s == 0
      then u32 (s.id <<< 24)
      else if selected s == 1
      then bit_or 0x11 (0x17 <<< 16)
      else if selected s == 2
      then s.arbitration_id
      else if in_table (selected s)
      then s.redtbl (selected s - 0x10)
      else 0

  unfoldable pub ioapic_read : ℕ → IoApic P → ℕ
  ioapic_read addr s =
      let row = sub32 addr s.base >>> 4 in
      if row == 0 then s.register_selected else if row == 1 then read_selected s else 0

  unfoldable pub ioapic_readb : ℕ → IoApic P → ℕ
  unfolding ioapic_read
  ioapic_readb addr s =
      bit_and (ioapic_read (bit_and addr (not32 3)) s >>> (bit_and addr 3 * 8)) 0xff

  unfoldable pub ioapic_reset : IoApic P → IoApic P
  ioapic_reset s = record s {
    base = 0xfec0_0000;
    id = 0;
    arbitration_id = 0;
    redtbl = mask_from 24 0 s.redtbl;
  }

module _ {P : Type 0} (pic : Vectors P) where
  unfoldable pub write_entry : ℕ → ℕ → IoApic P → IoApic P
  unfolding ioapic_update
  write_entry index word s =
      if word == s.redtbl index
      then s
      else ioapic_update pic (record s { redtbl = update s.redtbl index word })

  abbrev write_selected : ℕ → IoApic P → IoApic P
  unfolding write_entry
  write_selected word s =
      if selected s == 0
      then record s { id = bit_and word 0x0f00_0000 }
      else if in_table (selected s)
      then write_entry (selected s - 0x10) word s
      else s

  -- `none` is `IOAPIC_FATAL`.
  unfoldable pub ioapic_write : ℕ → ℕ → IoApic P → Option (IoApic P)
  unfolding write_entry
  ioapic_write addr word s =
      let row = sub32 addr s.base >>> 4 in
      if row == 0
      then some (record s { register_selected = word })
      else if row == 1
      then some (write_selected word s)
      else none

  -- The bytes gather in `temp_data`, and the last one writes the word.
  unfoldable pub ioapic_writeb : ℕ → ℕ → IoApic P → Option (IoApic P)
  unfolding ioapic_write
  ioapic_writeb addr word s =
      let offset = bit_and addr 3 in
      let temp =
        bit_or (bit_and s.temp_data (not32 (u32 (0xff <<< (offset <<< 3)))))
          (u32 (word <<< (offset <<< 3))) in
      let s' = record s { temp_data = temp } in
      if offset == 3 then ioapic_write (bit_and addr (not32 3)) temp s' else some s'
