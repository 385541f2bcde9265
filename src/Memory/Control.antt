-- ===== src/Memory/Control.antt =====
-- cpu/prot.cpp: writes to the control and debug registers; and `cpu_io_check_access` of cpu/io.cpp,
-- which asks the bitmap of the task for the right to a port.
use cpu_ia32_cpp.Base.{
  ℕ, ◌-◌, bit_and, bit_or, bit_xor, ◌&&◌, ltb, leb, ◌==◌, ◌!=◌, some, if◌then◌else◌, not32, add32,
  w16, update, ◌<<<◌, ◌>>>◌,
}
use cpu_ia32_cpp.Memory.State.{Bus, Machine, M, get, raise, pure, ◌>>=◌}
use cpu_ia32_cpp.Memory.Tlb.{cpu_mmu_tlb_flush, cpu_mmu_tlb_flush_nonglobal, cpu_mmu_tlb_invalidate}
use cpu_ia32_cpp.Memory.Access.{read_mem}
use cpu_ia32_cpp.Memory.Segments.{access_of, type_of}
use cpu_ia32_cpp.Memory.Selectors.{cpu_seg_load_descriptor}

-- The bits of CR0 and CR4 whose change makes the translations old.
abbrev pub cr0_flush_mask : ℕ
cr0_flush_mask = 0x8001_0001

abbrev pub cr4_flush_mask : ℕ
cr4_flush_mask = 0x12_00b0

module _ {D : Type 0} where
  abbrev pub put_cr : ℕ → ℕ → Machine D → Machine D
  put_cr cr v m = record m { cr = update m.cr cr v }

  abbrev pub put_dr : ℕ → ℕ → Machine D → Machine D
  put_dr id val m = record m { dr = update m.dr id val }

  -- CR4.PGE keeps the global translations over a new directory.
  unfoldable pub reload_directory : Machine D → Machine D
  unfolding cpu_mmu_tlb_flush cpu_mmu_tlb_flush_nonglobal
  reload_directory m =
      if bit_and (m.cr 4) 0x80 != 0 then cpu_mmu_tlb_flush_nonglobal m else cpu_mmu_tlb_flush m

  unfoldable pub cpu_prot_set_cr : ℕ → ℕ → Machine D → Machine D
  unfolding cpu_mmu_tlb_flush reload_directory
  cpu_prot_set_cr cr v m =
      let diffxor = bit_xor v (m.cr cr) in
      let m' = put_cr cr v m in
      if cr == 0
      then if bit_and diffxor cr0_flush_mask != 0 then cpu_mmu_tlb_flush m' else m'
      else if cr == 3
      then reload_directory (put_cr 3 (bit_and v (not32 31)) m')
      else if cr == 4
      then if bit_and diffxor cr4_flush_mask != 0 then cpu_mmu_tlb_flush m' else m'
      else m'

  unfoldable pub cpu_prot_set_dr : ℕ → ℕ → Machine D → Machine D
  unfolding cpu_mmu_tlb_flush cpu_mmu_tlb_invalidate
  cpu_prot_set_dr id val m =
      if leb id 3
      then cpu_mmu_tlb_invalidate val (put_dr id val m)
      else if id == 6
      then put_dr 6 (bit_or (bit_and (m.dr 6) 0xffff_0ff0) (bit_and val 0xe00f)) m
      else if id == 7
      then cpu_mmu_tlb_flush (put_dr 7 (bit_or (bit_and val 0xffff_2fff) 0x400) m)
      else put_dr id val m

module _ {D : Type 0} (bus : Bus D) where
  -- The bitmap's bits for `size` bytes from `port`; the limit is the task segment's.
  unfoldable pub check_bitmap : ℕ → ℕ → M D (Unit {0})
  unfolding read_mem
  check_bitmap port size = do
    m ← get
    io_offset ← read_mem bus w16 (add32 (m.seg_base 6) 0x66) 0
    if ltb (m.seg_limit 6) (add32 io_offset (add32 port size >>> 3)) then raise 13 0 else do
      bitmask ← read_mem bus w16 (add32 (add32 (m.seg_base 6) io_offset) (port >>> 3)) 0
      if bit_and bitmask (((size <<< 1) - 1) <<< bit_and port 7) == 0 then pure tt else raise 13 0

  -- The types are `AVAILABLE_TSS_386` and `BUSY_TSS_386`.
  unfoldable pub cpu_io_check_access : ℕ → ℕ → M D (Unit {0})
  unfolding cpu_seg_load_descriptor check_bitmap
  cpu_io_check_access port size = do
    m ← get
    if bit_and (m.cr 0) 1 == 0
        then pure tt
        else if bit_and m.cpu.eflags 0x2_0000 == 0 && leb m.cpl (bit_and (m.cpu.eflags >>> 12) 3)
        then pure tt
        else do
          info ← cpu_seg_load_descriptor bus (m.seg 6) (some 13) 0
          let type = type_of (access_of info)
          if type != 9 && type != 11
              then raise 13 0
              else if ltb (m.seg_limit 6) 0x67
              then raise 13 0
              else check_bitmap port size
