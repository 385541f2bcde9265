-- ===== src/Memory/Walk/Entry.antt =====
-- cpu/mmu.cpp: what an entry of the translation buffer says after `cpu_set_tlb_entry`.
use cpu_ia32_cpp.Base.{
  ℕ, zero, suc, ◌+◌, ◌*◌, ◌/◌, ◌%◌, ◌^◌, ◌<◌, ◌≡◌, refl, ap, ap₂, ◌∙◌, Bool, true, false, ◌&&◌,
  ◌||◌, leb, ltb, ◌==◌, ◌!=◌, int_of, if◌then◌else◌, if-either, bit_and, add32, sub32, update-at,
  arith, ◌>>>◌,
}
use cpu_ia32_cpp.Base.Bits.{bit_and-bits, bit_and-mask}
use cpu_ia32_cpp.Memory.State.{Machine}
use cpu_ia32_cpp.Memory.Tlb.{
  no_entry, entry_tag, flush_round, flush_from, cpu_mmu_tlb_flush, visible, read_tag, write_tag,
  tags_for, cpu_smc_page_has_code, cpu_set_tlb_entry,
}
use cpu_ia32_cpp.Memory.Access.{phys_of}
use cpu_ia32_cpp.Memory.Translate.{page_of}

-- The place of an access in a tag.
abbrev pub shift_of : Bool → Bool → ℕ
shift_of user write = (if write then 2 else 0) + (if user then 4 else 0)

-- The tag of an entry allows the access that it was made for, whatever else is in it.
entry_tag-table :
    (t w : Bool) (user write : Bool)
    → bit_and (entry_tag (int_of t) (int_of w) user write >>> shift_of user write) 2 ≡ 0
entry_tag-table true true true true = refl
entry_tag-table true true true false = refl
entry_tag-table true true false true = refl
entry_tag-table true true false false = refl
entry_tag-table true false true true = refl
entry_tag-table true false true false = refl
entry_tag-table true false false true = refl
entry_tag-table true false false false = refl
entry_tag-table false true true true = refl
entry_tag-table false true true false = refl
entry_tag-table false true false true = refl
entry_tag-table false true false false = refl
entry_tag-table false false true true = refl
entry_tag-table false false true false = refl
entry_tag-table false false false true = refl
entry_tag-table false false false false = refl

module _ {D : Type 0} where
  read_tag-bit : (phys : ℕ) (m : Machine D) → (t : Bool) × (read_tag phys m ≡ int_of t)
  read_tag-bit phys m =
      if-either (λ n. (t : Bool) × (n ≡ int_of t)) (leb m.memory_size phys) (λ _. (true, refl))
        (λ _.
          if-either (λ n. (t : Bool) × (n ≡ int_of t)) (leb 0xa_0000 phys && ltb phys 0x10_0000)
            (λ _. (bit_and phys 0x4_0000 == 0, refl)) (λ _. (false, refl)))

  tags_for-allowed :
      (phys : ℕ) (user write : Bool) (m : Machine D)
      → bit_and (tags_for phys user write m >>> shift_of user write) 2 ≡ 0
  unfolding tags_for write_tag
  tags_for-allowed phys user write m =
      let (t, same) = read_tag-bit phys m in
      ap (λ n. bit_and (entry_tag n (write_tag phys m) user write >>> shift_of user write) 2) same
      ∙ entry_tag-table t
          ((leb 0xa_0000 phys && ltb phys 0x10_0000)
            || leb m.memory_size phys
            || (cpu_smc_page_has_code phys m != 0))
          user write

  flush_from-mem : (rounds i : ℕ) (m : Machine D) → (flush_from rounds i m).mem ≡ m.mem
  unfolding flush_from
  flush_from-mem zero i m = refl
  flush_from-mem (suc rounds) i m =
      flush_from-mem rounds (i + 1) (flush_round i m)
      ∙ if-either (λ (after : Machine D). after.mem ≡ m.mem) (m.tlb_entry_indexes i == no_entry)
          (λ _. refl) (λ _. refl)

  pub cpu_set_tlb_entry-mem :
      (lin phys : ℕ) (user write global nx : Bool) (m : Machine D)
      → (cpu_set_tlb_entry lin phys user write global nx m).mem ≡ m.mem
  unfolding cpu_set_tlb_entry cpu_mmu_tlb_flush
  cpu_set_tlb_entry-mem lin phys user write global nx m =
      if-either (λ (m' : Machine D). m'.mem ≡ m.mem) (leb 8192 m.tlb_entry_count)
        (λ _. flush_from-mem m.tlb_entry_count 0 m) (λ _. refl)

  -- The tag and the word of the new entry.
  pub cpu_set_tlb_entry-tags :
      (lin phys : ℕ) (user write global nx : Bool) (m : Machine D) (entry : ℕ)
      → lin >>> 12 ≡ entry
      → bit_and
          ((cpu_set_tlb_entry lin phys user write global nx m).tlb_tags entry
            >>> shift_of user write)
          2
        ≡ 0
  unfolding cpu_set_tlb_entry
  cpu_set_tlb_entry-tags lin phys user write global nx m entry same =
      ap (λ tags. bit_and (tags >>> shift_of user write) 2)
        (update-at ((if leb 8192 m.tlb_entry_count then cpu_mmu_tlb_flush m else m).tlb_tags)
          (lin >>> 12) (tags_for (visible phys m) user write m) entry same)
      ∙ tags_for-allowed (visible phys m) user write m

  pub cpu_set_tlb_entry-word :
      (lin phys : ℕ) (user write global nx : Bool) (m : Machine D) (entry : ℕ)
      → lin >>> 12 ≡ entry
      → (cpu_set_tlb_entry lin phys user write global nx m).tlb entry ≡ sub32 (visible phys m) lin
  unfolding cpu_set_tlb_entry
  cpu_set_tlb_entry-word lin phys user write global nx m entry same =
      update-at ((if leb 8192 m.tlb_entry_count then cpu_mmu_tlb_flush m else m).tlb) (lin >>> 12)
        (sub32 (visible phys m) lin) entry same

  -- With address line 20 on, an address below the last megabyte is visible as it is.
  visible-same :
      (phys : ℕ) (m : Machine D)
      → m.a20_mask ≡ 0xffff_ffff
      → phys < 0xfff0_0000
      → visible phys m ≡ phys
  visible-same phys m on low =
      let masked : bit_and phys m.a20_mask ≡ phys =
        ap (bit_and phys) on ∙ bit_and-mask 32 phys ∙ omega arith in
      ap (λ n. if leb 0xfff0_0000 n then bit_and n 0xf_ffff else n) masked
      ∙ if-either (λ n. n ≡ phys) (leb 0xfff0_0000 phys) (λ high. absurd (ground arith)) (λ _. refl)

pub page_of-floor : (lin : ℕ) → lin < 2 ^ 32 → page_of lin ≡ lin / 4096 * 4096
page_of-floor lin fits = bit_and-bits 20 12 lin ∙ omega arith

module _ {D : Type 0} where
  -- Where a linear address of the page goes: to the same place in the frame.
  pub phys_of-mapped :
      (lin addr frame : ℕ) (user write global nx : Bool) (m : Machine D)
      → m.a20_mask ≡ 0xffff_ffff
      → lin < 2 ^ 32
      → addr < 2 ^ 32
      → lin >>> 12 ≡ addr >>> 12
      → frame * 4096 < 0xfff0_0000
      → phys_of addr (cpu_set_tlb_entry (page_of lin) (frame * 4096) user write global nx m)
        ≡ frame * 4096 + addr % 4096
  phys_of-mapped lin addr frame user write global nx m on lin_fits addr_fits same low =
      let floor = page_of-floor lin lin_fits in
      let entry : page_of lin >>> 12 ≡ addr >>> 12 = omega arith in
      ap (λ word. add32 word addr)
        (cpu_set_tlb_entry-word (page_of lin) (frame * 4096) user write global nx m (addr >>> 12)
            entry
          ∙ ap₂ sub32 (visible-same (frame * 4096) m on low) floor)
      ∙ omega arith
