-- ===== src/Memory/Tlb.antt =====
-- cpu/mmu.cpp: the translation buffer. `m_tlb_entry_indexes` lists the entries in use, so that a flush
-- need not go through all of them. With it the register that masks address line 20 (cpu/cpu.cpp).
use cpu_ia32_cpp.Base.{
  ℕ, zero, suc, ◌+◌, bit_and, bit_or, Bool, ◌&&◌, ◌||◌, ltb, leb, ◌==◌, ◌!=◌, int_of, if◌then◌else◌,
  sub32, update, ◌<<<◌, ◌>>>◌,
}
use cpu_ia32_cpp.Memory.State.{Machine}

-- `(uint32_t)-1`: a place of the list that is free again.
abbrev pub no_entry : ℕ
no_entry = 0xffff_ffff

-- The four fields of a tag: reads and writes of the system, then of the user.
abbrev pub entry_tag : ℕ → ℕ → Bool → Bool → ℕ
entry_tag tag tag_write user write =
    let system_read = tag in
    let system_write = bit_or tag_write (if write then 0 else 3) <<< 2 in
    let user_read = bit_or tag (if user then 0 else 3) <<< 4 in
    let user_write = bit_or tag_write (if user && write then 0 else 3) <<< 6 in
    bit_or (bit_or (bit_or system_read system_write) user_read) user_write

-- 1 for no execution, 2 for a translation that is not global.
abbrev pub entry_attrs : Bool → Bool → ℕ
entry_attrs global nx = bit_or (if nx then 1 else 0) (if global then 0 else 2)

module _ {D : Type 0} where
  abbrev pub clear_entry : ℕ → ℕ → Machine D → Machine D
  clear_entry i entry m = record m {
    tlb = update m.tlb entry 0;
    tlb_tags = update m.tlb_tags entry 0xff;
    tlb_entry_indexes = update m.tlb_entry_indexes i no_entry;
    tlb_attrs = update m.tlb_attrs entry 0xff;
  }

  -- A round of `cpu_mmu_tlb_flush`, and its loop from place `i`, with `rounds` to go.
  abbrev pub flush_round : ℕ → Machine D → Machine D
  flush_round i m =
      let entry = m.tlb_entry_indexes i in if entry == no_entry then m else clear_entry i entry m

  unfoldable pub flush_from : ℕ → ℕ → Machine D → Machine D
  flush_from zero i m = m
  flush_from (suc rounds) i m = flush_from rounds (i + 1) (flush_round i m)

  unfoldable pub cpu_mmu_tlb_flush : Machine D → Machine D
  unfolding flush_from
  cpu_mmu_tlb_flush m = record (flush_from m.tlb_entry_count 0 m) { tlb_entry_count = 0 }

  -- So for `cpu_mmu_tlb_flush_nonglobal`, which keeps the count.
  abbrev pub nonglobal_round : ℕ → Machine D → Machine D
  nonglobal_round i m =
      let entry = m.tlb_entry_indexes i in
      if entry == no_entry
      then m
      else if bit_and (m.tlb_attrs entry) 2 == 0
      then m
      else clear_entry i entry m

  unfoldable pub nonglobal_from : ℕ → ℕ → Machine D → Machine D
  nonglobal_from zero i m = m
  nonglobal_from (suc rounds) i m = nonglobal_from rounds (i + 1) (nonglobal_round i m)

  unfoldable pub cpu_mmu_tlb_flush_nonglobal : Machine D → Machine D
  unfolding nonglobal_from
  cpu_mmu_tlb_flush_nonglobal m = nonglobal_from m.tlb_entry_count 0 m

  -- The lists of code blocks, a word for each page (cpu/smc.cpp).
  unfoldable pub cpu_smc_page_has_code : ℕ → Machine D → ℕ
  cpu_smc_page_has_code phys m =
      let page = phys >>> 12 in if leb m.smc_has_code_length page then 0 else m.smc_has_code page

  -- `phys` behind the mask of line 20; the last megabyte is the first one again.
  abbrev pub visible : ℕ → Machine D → ℕ
  visible phys m =
      let masked = bit_and phys m.a20_mask in
      if leb 0xfff0_0000 masked then bit_and masked 0xf_ffff else masked

  -- `tag` and `tag_write`: the page cannot be read, or written, directly.
  abbrev pub read_tag : ℕ → Machine D → ℕ
  read_tag phys m =
      if leb m.memory_size phys
      then 1
      else if leb 0xa_0000 phys && ltb phys 0x10_0000
      then int_of (bit_and phys 0x4_0000 == 0)
      else 0

  unfoldable pub write_tag : ℕ → Machine D → ℕ
  unfolding cpu_smc_page_has_code
  write_tag phys m = int_of (
      (leb 0xa_0000 phys && ltb phys 0x10_0000)
      || leb m.memory_size phys
      || (cpu_smc_page_has_code phys m != 0))

  unfoldable pub tags_for : ℕ → Bool → Bool → Machine D → ℕ
  unfolding write_tag
  tags_for phys user write m = entry_tag (read_tag phys m) (write_tag phys m) user write

  -- A translation is listed behind the others.
  abbrev pub append_entry : ℕ → ℕ → ℕ → ℕ → Machine D → Machine D
  append_entry entry attrs word tags m = record m {
    tlb_entry_indexes = update m.tlb_entry_indexes m.tlb_entry_count entry;
    tlb_entry_count = m.tlb_entry_count + 1;
    tlb_attrs = update m.tlb_attrs entry attrs;
    tlb = update m.tlb entry word;
    tlb_tags = update m.tlb_tags entry tags;
  }

  -- `ptr` is null in every call.
  unfoldable pub cpu_set_tlb_entry : ℕ → ℕ → Bool → Bool → Bool → Bool → Machine D → Machine D
  unfolding tags_for cpu_mmu_tlb_flush
  cpu_set_tlb_entry lin phys user write global nx m =
      append_entry (lin >>> 12) (entry_attrs global nx) (sub32 (visible phys m) lin)
        (tags_for (visible phys m) user write m)
        (if leb 8192 m.tlb_entry_count then cpu_mmu_tlb_flush m else m)

  unfoldable pub cpu_mmu_tlb_invalidate : ℕ → Machine D → Machine D
  cpu_mmu_tlb_invalidate lin m = record m {
    tlb = update m.tlb (lin >>> 12) 0;
    tlb_tags = update m.tlb_tags (lin >>> 12) 0xff;
  }

  unfoldable pub cpu_set_a20 : Bool → Machine D → Machine D
  unfolding cpu_mmu_tlb_flush
  cpu_set_a20 a20_enabled m =
      let mask = if a20_enabled then 0xffff_ffff else 0xffef_ffff in
      let m' = record m { a20_mask = mask } in
      if m.a20_mask == mask then m' else cpu_mmu_tlb_flush m'
