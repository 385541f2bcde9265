-- ===== src/Memory/Walk/Faults.antt =====
-- cpu/mmu.cpp: the walk of the tables with 32 bit entries, where both tables lie in the memory, and
-- its page faults.
use cpu_ia32_cpp.Base.{
  ℕ, ◌^◌, ◌<◌, ◌≡◌, refl, sym, ap, ◌∙◌, true, false, ◌&&◌, ◌||◌, ◌==◌, ◌!=◌, if◌then◌else◌,
  if-either, ==_true, ==_false, bit_and, bit_or, not32, ◌>>>◌,
}
use cpu_ia32_cpp.Memory.State.{Bus, Machine, M, Outcome, completed, exception, continue}
use cpu_ia32_cpp.Memory.Physical.{load32, is_mmio_read, from_bus, cpu_read_phys}
use cpu_ia32_cpp.Memory.Translate.{
  pde_address, pte_address, refuses_write, refuses_user, page_fault, use_table_entry,
  translate_small, use_directory_entry, translate_legacy, cpu_mmu_translate,
}
use cpu_ia32_cpp.Memory.Walk.Rights.{flag, allowed, refuses-allowed}
use cpu_ia32_cpp.Memory.Walk.Entries.{
  fault_code, load32-lt, pde_of, pte_of, IsWalk, faulted, grants, write_of, user_of, there_bit,
  missing_code, absent_code, present_code, no_grant, one_bit, not_large, code_table,
}

module _ {D : Type 0} where
  abbrev pub Fault : ℕ → ℕ → Machine D → Outcome (Unit {0}) × Machine D
  Fault lin code m = (exception 14 (bit_or code 0x10000), faulted lin m)

  -- A function of the walk that ends in a page fault.
  abbrev Faults : ℕ → ℕ → Machine D → M D (Unit {0}) → Type 0
  Faults lin code m f = f m ≡ Fault lin code m

  page_fault-Faults :
      (lin c code : ℕ) (m : Machine D) → c ≡ code → Faults lin code m (page_fault lin c)
  page_fault-Faults lin c code m same = ap (λ n. Fault lin n m) same

module _ {D : Type 0} (bus : Bus D) where
  use_table_entry-Faults :
      (lin write user pde_addr pde pte_addr pte : ℕ) (m : Machine D)
      → write < 2
      → user < 2
      → pde < 2 ^ 32
      → pte < 2 ^ 32
      → flag 0 pde ≡ true
      → (flag 0 pte && allowed write user (bit_and (m.cr 0) 65536 != 0) pde pte) ≡ false
      → Faults lin
          (fault_code write user pde pte)
          m
          (use_table_entry bus lin write user (m.cr 0) pde_addr pde pte_addr pte)
  unfolding use_table_entry
  use_table_entry-Faults lin write user pde_addr pde pte_addr pte m lw lu p q present refused =
      let P = Faults lin (fault_code write user pde pte) m in
      let (code, code') = code_table write user lw lu in
      if-either P (bit_and pte 1 == 0)
        (λ missing. page_fault-Faults lin _ _ m (code ∙ missing_code write user pde pte missing))
        (λ there.
          if-either P
            (refuses_write (bit_or (not32 pte) (not32 pde)) write user (m.cr 0)
              || refuses_user (bit_or (not32 pte) (not32 pde)) user)
            (λ _.
              page_fault-Faults lin _ _ m
                (code' ∙ present_code write user pde pte present (there_bit pte there)))
            (λ granted. absurd (
              no_grant (flag 0 pte) (allowed write user (bit_and (m.cr 0) 65536 != 0) pde pte)
                refused (there_bit pte there)
                (sym (refuses-allowed pde pte p q write user (m.cr 0) lw lu) ∙ granted))))

  cpu_read_phys-direct :
      (addr : ℕ) (m : Machine D)
      → is_mmio_read addr m ≡ false
      → cpu_read_phys bus addr m ≡ (completed (load32 m.mem addr), m)
  unfolding cpu_read_phys
  cpu_read_phys-direct addr m direct =
      ap (λ b. if b then from_bus bus addr 2 m else (completed (load32 m.mem addr), m)) direct

  module _ (lin write user : ℕ) (m : Machine D) (walk : IsWalk lin m) (lw : write < 2)
      (lu : user < 2) where
    pub translate_small-use :
        translate_small bus lin write user (m.cr 0) (pde_address lin (m.cr 3)) (pde_of lin m) m
        ≡ use_table_entry bus lin write user
            (m.cr 0)
            (pde_address lin (m.cr 3))
            (pde_of lin m)
            (pte_address lin (pde_of lin m))
            (pte_of lin m)
            m
    unfolding translate_small
    translate_small-use =
        ap
          (λ o. continue o (
            use_table_entry bus lin write user (m.cr 0) (pde_address lin (m.cr 3)) (pde_of lin m)
              (pte_address lin (pde_of lin m))))
          (cpu_read_phys-direct (pte_address lin (pde_of lin m)) m (walk.table_in_memory))

    pub translate_legacy-use :
        translate_legacy bus lin write user m
        ≡ use_directory_entry bus lin write user
            (m.cr 0)
            (m.cr 4)
            (pde_address lin (m.cr 3))
            (pde_of lin m)
            m
    unfolding translate_legacy
    translate_legacy-use =
        ap
          (λ o.
            continue o
              (use_directory_entry bus lin write user (m.cr 0) (m.cr 4) (pde_address lin (m.cr 3))))
          (cpu_read_phys-direct (pde_address lin (m.cr 3)) m (walk.directory_in_memory))

    use_directory_entry-Faults :
        grants lin write user m ≡ false
        → Faults lin (fault_code write user (pde_of lin m) (pte_of lin m)) m (
            use_directory_entry bus lin write user
              (m.cr 0)
              (m.cr 4)
              (pde_address lin (m.cr 3))
              (pde_of lin m))
    unfolding use_directory_entry
    use_directory_entry-Faults refused =
        let P = Faults lin (fault_code write user (pde_of lin m) (pte_of lin m)) m in
        if-either P (bit_and (pde_of lin m) 1 == 0)
          (λ missing. page_fault-Faults lin _ _ m (
            (code_table write user lw lu).0
            ∙ absent_code write user (pde_of lin m) (pte_of lin m) missing))
          (λ there.
            if-either P (bit_and (pde_of lin m) 0x80 != 0 && bit_and (m.cr 4) 0x10 != 0)
              (λ large. absurd (not_large _ _ walk.small_page large))
              (λ _.
                translate_small-use
                ∙ use_table_entry-Faults lin write user (pde_address lin (m.cr 3)) (pde_of lin m)
                    (pte_address lin (pde_of lin m)) (pte_of lin m) m lw lu
                    (load32-lt m.mem _ walk.bytes_fit) (load32-lt m.mem _ walk.bytes_fit)
                    (there_bit (pde_of lin m) there)
                    (sym (
                        ap
                          (λ b.
                            b
                            && (flag 0 (pte_of lin m)
                                && allowed write user (bit_and (m.cr 0) 65536 != 0) (pde_of lin m)
                                    (pte_of lin m)))
                          (there_bit (pde_of lin m) there))
                      ∙ refused)))

  -- In a walk for a small page the translation is that of the tables with 32 bit entries.
  pub cpu_mmu_translate-legacy :
      (lin shift : ℕ) (m : Machine D)
      → IsWalk lin m
      → cpu_mmu_translate bus lin shift m
        ≡ translate_legacy bus lin (write_of shift) (user_of shift) m
  unfolding cpu_mmu_translate
  cpu_mmu_translate-legacy lin shift m walk =
      let P =
        λ (f : M D (Unit {0})). f m ≡ translate_legacy bus lin (write_of shift) (user_of shift) m in
      if-either P (bit_and (m.cr 0) 0x8000_0000 == 0)
        (λ off. absurd (walk.paging (==_true _ _ off)))
        (λ _.
          if-either P (bit_and (m.cr 4) 0x20 == 0) (λ _. refl)
            (λ pae. absurd (==_false _ _ pae walk.legacy)))

  -- `cpu_mmu_translate` with paging on and entries of 32 bits, both of them in a memory of bytes, and
  -- no large page: where an entry is not present or the two do not allow the access, a write in bit 1
  -- of `shift`, one of the user in bit 2, it raises the page fault whose code has bit 0 if both entries
  -- are present, bit 1 for a write and bit 2 for the user, and nothing is changed but CR2, which has
  -- the address.
  pub cpu_mmu_translate-faults :
      (lin shift : ℕ) (m : Machine D)
      → IsWalk lin m
      → grants lin (write_of shift) (user_of shift) m ≡ false
      → cpu_mmu_translate bus lin shift m
        ≡ Fault lin (fault_code (write_of shift) (user_of shift) (pde_of lin m) (pte_of lin m)) m
  cpu_mmu_translate-faults lin shift m walk refused =
      cpu_mmu_translate-legacy lin shift m walk
      ∙ translate_legacy-use lin (write_of shift) (user_of shift) m walk (one_bit (shift >>> 1))
          (one_bit (shift >>> 2))
      ∙ use_directory_entry-Faults lin (write_of shift) (user_of shift) m walk
          (one_bit (shift >>> 1)) (one_bit (shift >>> 2)) refused
