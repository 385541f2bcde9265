-- ===== src/Memory/Walk/Maps.antt =====
-- cpu/mmu.cpp: what a granted walk of the tables with 32 bit entries leaves.
use cpu_ia32_cpp.Base.{
  ℕ, ◌+◌, ◌*◌, ◌/◌, ◌%◌, ◌^◌, ◌<◌, ◌≡◌, sym, ap, ◌∙◌, true, false, ◌!=◌, bit_and, not32, arith,
  subst, ◌>>>◌,
}
use cpu_ia32_cpp.Base.Bits.{bit_and-bits}
use cpu_ia32_cpp.Memory.State.{Bus, Machine, completed}
use cpu_ia32_cpp.Memory.Tlb.{cpu_set_tlb_entry}
use cpu_ia32_cpp.Memory.Access.{phys_of}
use cpu_ia32_cpp.Memory.Translate.{page_of, pde_address, pte_address, cpu_mmu_translate}
use cpu_ia32_cpp.Memory.Walk.Entries.{
  pde_of, pte_of, IsWalk, grants, write_of, user_of, one_bit, load32-lt,
}
use cpu_ia32_cpp.Memory.Walk.Faults.{translate_legacy-use, cpu_mmu_translate-legacy}
use cpu_ia32_cpp.Memory.Walk.Marks.{Apart, IsMarked, marks-IsMarked}
use cpu_ia32_cpp.Memory.Walk.Entry.{
  shift_of, cpu_set_tlb_entry-mem, cpu_set_tlb_entry-tags, page_of-floor, phys_of-mapped,
}
use cpu_ia32_cpp.Memory.Walk.Granted.{marked, walked, use_directory_entry-Completes}

module _ {D : Type 0} where
  -- Every address of the page goes to its place in the frame of the table's entry, the access that was
  -- asked for needs no further translation, and the two entries have their marks.
  abbrev pub IsMapped : ℕ → ℕ → ℕ → Machine D → Machine D → Type 0
  IsMapped lin write user m after =
      ((addr : ℕ)
        → addr < 2 ^ 32
        → lin >>> 12 ≡ addr >>> 12
        → phys_of addr after ≡ pte_of lin m / 4096 * 4096 + addr % 4096)
      × (bit_and (after.tlb_tags (lin >>> 12) >>> shift_of (user != 0) (write != 0)) 2 ≡ 0)
      × IsMarked write (pde_address lin (m.cr 3)) (pte_address lin (pde_of lin m)) m.mem after.mem

  walked-IsMapped :
      (lin write user : ℕ) (m : Machine D)
      → IsWalk lin m
      → write < 2
      → lin < 2 ^ 32
      → m.a20_mask ≡ 0xffff_ffff
      → pte_of lin m < 0xfff0_0000
      → Apart (pte_address lin (pde_of lin m)) (pde_address lin (m.cr 3))
      → IsMapped lin write user m (walked lin write user m)
  walked-IsMapped lin write user m walk lw lin_fits on low apart =
      let pte = pte_of lin m in
      let before =
        marked write (pde_address lin (m.cr 3)) (pde_of lin m) (pte_address lin (pde_of lin m)) pte
          m in
      let frame : bit_and pte (not32 0xfff) ≡ pte / 4096 * 4096 =
        bit_and-bits 20 12 pte ∙ omega arith in
      let floor = page_of-floor lin lin_fits in
      (
        (λ addr addr_fits same.
            ap
              (λ f. phys_of addr (
                cpu_set_tlb_entry (page_of lin) f (user != 0) (write != 0) (bit_and pte 0x100 != 0)
                  false before))
              frame
            ∙ phys_of-mapped lin addr (pte / 4096) (user != 0) (write != 0) (bit_and pte 0x100 != 0)
                false before on lin_fits addr_fits same (omega arith)),
        cpu_set_tlb_entry-tags (page_of lin) (bit_and pte (not32 0xfff)) (user != 0) (write != 0)
            (bit_and pte 0x100 != 0) false before (lin >>> 12) (omega arith),
        subst (IsMarked write (pde_address lin (m.cr 3)) (pte_address lin (pde_of lin m)) m.mem)
            (sym (
              cpu_set_tlb_entry-mem (page_of lin) (bit_and pte (not32 0xfff)) (user != 0)
                (write != 0) (bit_and pte 0x100 != 0) false before))
            (marks-IsMarked write (pde_address lin (m.cr 3)) (pte_address lin (pde_of lin m)) m.mem
              lw apart (load32-lt m.mem _ walk.bytes_fit) (load32-lt m.mem _ walk.bytes_fit)),
      )

module _ {D : Type 0} (bus : Bus D) where
  -- `cpu_mmu_translate` of a 32-bit address, with paging on and entries of 32 bits, both of them in a
  -- memory of bytes and apart, no large page, address line 20 on and an entry below the last megabyte:
  -- where both entries are present and allow the access, a write in bit 1 of `shift`, one of the user
  -- in bit 2, it completes. Then every address of the page goes to the same place in the frame of the
  -- table's entry, the tag allows the access, both entries are marked as accessed, the table's one as
  -- written if it is a write, and the other bytes of the memory are as before.
  pub cpu_mmu_translate-maps :
      (lin shift : ℕ) (m : Machine D)
      → IsWalk lin m
      → grants lin (write_of shift) (user_of shift) m ≡ true
      → lin < 2 ^ 32
      → m.a20_mask ≡ 0xffff_ffff
      → pte_of lin m < 0xfff0_0000
      → Apart (pte_address lin (pde_of lin m)) (pde_address lin (m.cr 3))
      → (after : Machine D) × (cpu_mmu_translate bus lin shift m ≡ (completed tt, after))
        × IsMapped lin (write_of shift) (user_of shift) m after
  cpu_mmu_translate-maps lin shift m walk granted lin_fits on low apart =
      let lw = one_bit (shift >>> 1) in
      let lu = one_bit (shift >>> 2) in
      (
        walked lin (write_of shift) (user_of shift) m,
        cpu_mmu_translate-legacy bus lin shift m walk
            ∙ translate_legacy-use bus lin (write_of shift) (user_of shift) m walk lw lu
            ∙ use_directory_entry-Completes bus lin (write_of shift) (user_of shift) m walk lw lu
                granted,
        walked-IsMapped lin (write_of shift) (user_of shift) m walk lw lin_fits on low apart,
      )
