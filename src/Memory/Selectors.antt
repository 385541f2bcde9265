-- ===== src/Memory/Selectors.antt =====
-- cpu/seg.cpp: the functions that read a descriptor table, and the load of a segment register, with
-- their exceptions.
use cpu_ia32_cpp.Base.{
  ℕ, bit_and, bit_or, Bool, ◌&&◌, ◌||◌, ltb, leb, ◌==◌, ◌!=◌, Option, none, some, if◌then◌else◌,
  not32, add32, w8, w32, ◌>>>◌,
}
use cpu_ia32_cpp.Memory.State.{Bus, M, refused, aborted, get, modify, raise, pure, ◌>>=◌, ◌>>◌}
use cpu_ia32_cpp.Memory.Access.{read_mem, write_mem}
use cpu_ia32_cpp.Memory.Segments.{
  SegDesc, access_of, type_of, dpl_of, rpl_of, table_of, no_address, cpu_seg_descriptor_address,
  cpu_seg_load_real, cpu_seg_load_virtual, put_descriptor, after_load, put_null, reload_cs_base,
  set_eip,
}

-- The types of a writable data segment, and those whose privilege level is not looked at.
abbrev pub is_stack_type : ℕ → Bool
is_stack_type type = type == 0x12 || type == 0x13 || type == 0x16 || type == 0x17

abbrev pub is_unchecked_type : ℕ → Bool
is_unchecked_type type = type == 0x1a || type == 0x1b || type == 0x1e || type == 0x1f

-- The other types that a data segment register takes.
abbrev pub is_checked_type : ℕ → Bool
is_checked_type type = leb 0x10 type && leb type 0x19

abbrev pub abort : {D A : Type 0} → M D A
abort m = (aborted, m)

abbrev pub refuse : {D A : Type 0} → Option ℕ → ℕ → M D A
refuse none code m = (refused, m)
refuse (some vector) code m = raise vector code m

module _ {D : Type 0} (bus : Bus D) where
  unfoldable pub cpu_seg_load_protected : ℕ → ℕ → SegDesc → M D (Unit {0})
  unfolding cpu_seg_descriptor_address write_mem
  cpu_seg_load_protected id sel info = do
    modify (put_descriptor id sel info)
    m ← get
    let linaddr = cpu_seg_descriptor_address none sel m
    if linaddr == no_address
        then abort
        else write_mem bus w8 (add32 linaddr 5) (bit_and (bit_or info.raw1 0x100 >>> 8) 0xff) 2
    modify (after_load id sel)

  -- The exception `-1`, which raises none, is `none`.
  unfoldable pub cpu_seg_load_descriptor2 : ℕ → ℕ → Option ℕ → ℕ → M D SegDesc
  unfolding read_mem
  cpu_seg_load_descriptor2 table selector vector code = do
    m ← get
    if ltb (m.seg_limit table) (bit_or selector 7) then refuse vector code else do
      let addr = add32 (bit_and selector (not32 7)) (m.seg_base table)
      low ← read_mem bus w32 addr 0
      high ← read_mem bus w32 (add32 addr 4) 0
      pure (record { raw0 = low; raw1 = high })

  unfoldable pub cpu_seg_load_descriptor : ℕ → Option ℕ → ℕ → M D SegDesc
  unfolding cpu_seg_load_descriptor2
  cpu_seg_load_descriptor selector vector code =
      cpu_seg_load_descriptor2 (table_of selector) selector vector code

  unfoldable pub cpu_load_csip_protected : ℕ → SegDesc → ℕ → M D (Unit {0})
  unfolding cpu_seg_load_protected reload_cs_base
  cpu_load_csip_protected cs info eip = do
    modify (set_eip eip)
    cpu_seg_load_protected 1 cs info
    modify reload_cs_base

  -- The cases of `cpu_load_seg_value_mov` in protected mode, once the descriptor is read.
  unfoldable pub load_stack : ℕ → ℕ → SegDesc → ℕ → M D (Unit {0})
  unfolding cpu_seg_load_protected
  load_stack seg val info cpl =
      let access = access_of info in
      let val_offset = bit_and val 0xfffc in
      if cpl != rpl_of val || cpl != dpl_of access
      then raise 13 val_offset
      else if is_stack_type (type_of access)
      then if bit_and access 0x80 == 0
        then raise 13 val_offset
        else cpu_seg_load_protected seg val info
      else raise 13 val_offset

  unfoldable pub load_data : ℕ → ℕ → SegDesc → ℕ → M D (Unit {0})
  unfolding cpu_seg_load_protected
  load_data seg val info cpl =
      let access = access_of info in
      let val_offset = bit_and val 0xfffc in
      let present =
        (if bit_and access 0x80 == 0
          then raise 11 val_offset
          else cpu_seg_load_protected seg val info) in
      if is_unchecked_type (type_of access)
      then present
      else if is_checked_type (type_of access)
      then if ltb (dpl_of access) cpl || ltb (dpl_of access) (rpl_of val)
        then raise 13 val_offset
        else present
      else raise 13 val_offset

  abbrev pub load_from_table : (ℕ → ℕ → SegDesc → ℕ → M D (Unit {0})) → ℕ → ℕ → M D (Unit {0})
  unfolding cpu_seg_load_descriptor
  load_from_table load seg val = do
    info ← cpu_seg_load_descriptor val (some 13) (bit_and val 0xfffc)
    m ← get
    load seg val info m.cpl

  -- The segments are ES, CS, SS, DS, FS, GS, from 0 on; another number does nothing.
  unfoldable pub load_by_segment : ℕ → ℕ → M D (Unit {0})
  unfolding cpu_seg_load_protected cpu_seg_load_descriptor load_stack load_data
  load_by_segment seg val =
      if seg == 1
      then cpu_seg_load_protected seg val (record { raw0 = 0; raw1 = 0 })
      else if seg == 2
      then if bit_and val 0xfffc == 0 then raise 13 0 else load_from_table load_stack seg val
      else if seg == 0 || seg == 3 || seg == 4 || seg == 5
      then if bit_and val 0xfffc == 0
        then modify (put_null seg val)
        else load_from_table load_data seg val
      else pure tt

  unfoldable pub cpu_load_seg_value_mov : ℕ → ℕ → M D (Unit {0})
  unfolding load_by_segment cpu_seg_load_real cpu_seg_load_virtual
  cpu_load_seg_value_mov seg val = do
    m ← get
    if bit_and (m.cr 0) 1 == 0
        then modify (cpu_seg_load_real seg val)
        else if bit_and m.cpu.eflags 0x2_0000 != 0
        then modify (cpu_seg_load_virtual seg val)
        else load_by_segment seg val
