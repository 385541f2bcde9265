-- ===== src/Memory/Segments.antt =====
-- cpu/seg.cpp: segment registers and descriptors; with it `cpu_prot_update_cpl` (cpu/prot.cpp), which
-- chooses the tag bits of the accesses by the privilege level.
use cpu_ia32_cpp.Base.{
  ℕ, bit_and, bit_or, ◌||◌, ltb, ◌==◌, ◌!=◌, Option, none, some, if◌then◌else◌, not32, u32, add32,
  sub32, update, ◌<<<◌, ◌>>>◌,
}
use cpu_ia32_cpp.Memory.State.{Machine}
use cpu_ia32_cpp.Memory.Access.{tag_of, phys_of}

-- `struct seg_desc`: two words.
pub record SegDesc : Type 0 where
  pub raw0 : ℕ
  pub raw1 : ℕ

abbrev pub access_of : SegDesc → ℕ
access_of info = bit_and (info.raw1 >>> 8) 0xffff

-- `DESC_TYPE` of an access word, its privilege level, and that of a selector.
abbrev pub type_of : ℕ → ℕ
type_of access = bit_and access 0x1f

abbrev pub dpl_of : ℕ → ℕ
dpl_of access = bit_and (access >>> 5) 3

abbrev pub rpl_of : ℕ → ℕ
rpl_of sel = bit_and sel 3

unfoldable pub cpu_seg_get_base : SegDesc → ℕ
cpu_seg_get_base info =
    bit_or (info.raw0 >>> 16)
      (bit_or (bit_and (u32 (info.raw1 <<< 16)) 0xff_0000) (bit_and info.raw1 0xff00_0000))

unfoldable pub cpu_seg_get_limit : SegDesc → ℕ
cpu_seg_get_limit info =
    let limit = bit_or (bit_and info.raw0 0xffff) (bit_and info.raw1 0xf_0000) in
    if bit_and (access_of info) 0x8000 != 0 then bit_or (u32 (limit <<< 12)) 0xfff else limit

unfoldable pub cpu_seg_gate_target_segment : SegDesc → ℕ
cpu_seg_gate_target_segment info = bit_and (info.raw0 >>> 16) 0xffff

-- The gates of 32 bits: CALL_GATE_386, INTERRUPT_GATE_386, TRAP_GATE_386.
unfoldable pub cpu_seg_gate_target_offset : SegDesc → ℕ
cpu_seg_gate_target_offset info =
    let offset = bit_and info.raw0 0xffff in
    let type = type_of (access_of info) in
    if type == 12 || type == 14 || type == 15
    then bit_or offset (bit_and info.raw1 (not32 0xffff))
    else offset

unfoldable pub cpu_seg_gate_parameter_count : SegDesc → ℕ
cpu_seg_gate_parameter_count info = bit_and info.raw1 0x1f

-- The place of the table's registers: 8 the local one, 7 the global one.
abbrev pub table_of : ℕ → ℕ
table_of sel = if bit_and sel 4 != 0 then 8 else 7

abbrev pub chosen_table : ℕ → Option ℕ → ℕ
chosen_table sel none = table_of sel
chosen_table sel (some tbl) = tbl

-- `(uint32_t)-1`
abbrev pub no_address : ℕ
no_address = 0xffff_ffff

module _ {D : Type 0} where
  unfoldable pub cpu_prot_update_cpl : Machine D → Machine D
  cpu_prot_update_cpl m =
      if m.cpl == 3
      then record m { tlb_shift_read = 4; tlb_shift_write = 6 }
      else record m { tlb_shift_read = 0; tlb_shift_write = 2 }

  unfoldable pub cpu_seg_get_dpl : ℕ → Machine D → ℕ
  cpu_seg_get_dpl seg m = bit_and (m.seg_access seg >>> 5) 3

  -- The table `-1`, which stands for the one that the selector names, is `none`.
  unfoldable pub cpu_seg_descriptor_address : Option ℕ → ℕ → Machine D → ℕ
  cpu_seg_descriptor_address tbl sel m =
      if ltb (m.seg_limit (chosen_table sel tbl)) (bit_or sel 7)
      then no_address
      else add32 (bit_and sel 0xfff8) (m.seg_base (chosen_table sel tbl))

  -- The functions with the same body: `cpu_seg_load_real` and `cpu_seg_load_virtual`.
  abbrev pub put_flat : ℕ → ℕ → Machine D → Machine D
  put_flat id sel m = record m {
    seg = update m.seg id sel;
    seg_base = update m.seg_base id (sel <<< 4);
    seg_limit = update m.seg_limit id 0xffff;
    seg_access = update m.seg_access id (bit_and (m.seg_access id) (not32 0x4060));
  }

  unfoldable pub cpu_seg_load_real : ℕ → ℕ → Machine D → Machine D
  cpu_seg_load_real id sel m =
      let m' = put_flat id sel m in
      if id == 1
      then record m' { state_hash = 3 }
      else if id == 2
      then record m' { esp_mask = 0xffff }
      else m'

  unfoldable pub cpu_seg_load_virtual : ℕ → ℕ → Machine D → Machine D
  cpu_seg_load_virtual id sel m =
      let m' = put_flat id sel m in
      if id == 1
      then record m' { state_hash = 3 }
      else if id == 2
      then record m' { esp_mask = 0xffff }
      else m'

  abbrev pub put_descriptor : ℕ → ℕ → SegDesc → Machine D → Machine D
  unfolding cpu_seg_get_base cpu_seg_get_limit
  put_descriptor id sel info m = record m {
    seg = update m.seg id sel;
    seg_base = update m.seg_base id (cpu_seg_get_base info);
    seg_limit = update m.seg_limit id (cpu_seg_get_limit info);
    seg_access = update m.seg_access id (access_of info);
  }

  -- The code segment brings its width and privilege level, the stack segment its width.
  abbrev pub after_load : ℕ → ℕ → Machine D → Machine D
  unfolding cpu_prot_update_cpl
  after_load id sel m =
      if id == 1
      then cpu_prot_update_cpl (record m {
        state_hash = if bit_and (m.seg_access 1) 0x4000 != 0 then 0 else 3;
        cpl = rpl_of sel;
      })
      else if id == 2
      then record m {
        esp_mask = if bit_and (m.seg_access 2) 0x4000 != 0 then 0xffff_ffff else 0xffff;
      }
      else m

  abbrev pub virt_eip : Machine D → ℕ
  virt_eip m = add32 m.phys_eip m.eip_phys_bias

  unfoldable pub reload_cs_base : Machine D → Machine D
  reload_cs_base m =
      let lin_eip = add32 (virt_eip m) (m.seg_base 1) in
      if bit_and (tag_of lin_eip m.tlb_shift_read m) 2 != 0
      then record m { last_phys_eip = add32 m.phys_eip 0x1000 }
      else record m {
        phys_eip = phys_of lin_eip m;
        last_phys_eip = bit_and (phys_of lin_eip m) (not32 0xfff);
        eip_phys_bias = sub32 (virt_eip m) (phys_of lin_eip m);
      }

  -- `m_phys_eip += eip - (m_phys_eip + m_eip_phys_bias)`
  abbrev pub set_eip : ℕ → Machine D → Machine D
  set_eip eip m = record m { phys_eip = add32 m.phys_eip (sub32 eip (virt_eip m)) }

  unfoldable pub cpu_load_csip_real : ℕ → ℕ → Machine D → Machine D
  unfolding reload_cs_base cpu_seg_load_real
  cpu_load_csip_real cs eip m = reload_cs_base (cpu_seg_load_real 1 cs (set_eip eip m))

  unfoldable pub cpu_load_csip_virtual : ℕ → ℕ → Machine D → Machine D
  unfolding reload_cs_base cpu_seg_load_virtual
  cpu_load_csip_virtual cs eip m = reload_cs_base (cpu_seg_load_virtual 1 cs (set_eip eip m))

  abbrev pub put_null : ℕ → ℕ → Machine D → Machine D
  put_null id sel m = record m {
    seg = update m.seg id sel;
    seg_base = update m.seg_base id 0;
    seg_limit = update m.seg_limit id 0;
    seg_access = update m.seg_access id 0;
  }
