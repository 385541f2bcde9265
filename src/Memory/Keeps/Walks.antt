-- ===== src/Memory/Keeps/Walks.antt =====
-- cpu/mmu.cpp: the registers and the segments at the end of a walk of the page tables, which is its
-- return or its call of `cpu_exception`.
use cpu_ia32_cpp.Base.{
  ℕ, zero, suc, ◌+◌, refl, ◌∙◌, Bool, false, ◌&&◌, ◌||◌, ◌==◌, ◌!=◌, leb, if◌then◌else◌, bit_and,
  bit_or, not32, add32, ◌<<<◌, ◌>>>◌,
}
use cpu_ia32_cpp.Memory.State.{Bus, Machine}
use cpu_ia32_cpp.Memory.Tlb.{
  no_entry, flush_round, flush_from, cpu_mmu_tlb_flush, cpu_set_tlb_entry,
}
use cpu_ia32_cpp.Memory.Physical.{is_mmio_read, cpu_read_phys, cpu_write_phys}
use cpu_ia32_cpp.Memory.Translate.{
  page_of, access_code, refuses_write, refuses_user, pde_address, pte_address, page_fault, fill,
  write_if_new, translate_large, map_small, use_table_entry, translate_small, use_directory_entry,
  translate_legacy, pae_small, pae_large, pae_directory, nx_mask, translate_pae, cpu_mmu_translate,
}
use cpu_ia32_cpp.Memory.Keeps.Rules.{
  IsKept, Keeps, bind-Keeps, then-Keeps, if-Keeps, if-IsKept, if_result-IsKept, pure-Keeps,
  raise-Keeps,
}

module _ {D : Type 0} where
  flush_from-IsKept : (rounds i : ℕ) (m : Machine D) → IsKept m (flush_from rounds i m)
  unfolding flush_from
  flush_from-IsKept zero i m = refl
  flush_from-IsKept (suc rounds) i m =
      flush_from-IsKept rounds (i + 1) (flush_round i m)
      ∙ if-IsKept (m.tlb_entry_indexes i == no_entry) m m _ refl refl

  cpu_mmu_tlb_flush-IsKept : (m : Machine D) → IsKept m (cpu_mmu_tlb_flush m)
  unfolding cpu_mmu_tlb_flush
  cpu_mmu_tlb_flush-IsKept m = flush_from-IsKept m.tlb_entry_count 0 m

  cpu_set_tlb_entry-IsKept :
      (lin phys : ℕ) (user write global nx : Bool) (m : Machine D)
      → IsKept m (cpu_set_tlb_entry lin phys user write global nx m)
  unfolding cpu_set_tlb_entry
  cpu_set_tlb_entry-IsKept lin phys user write global nx m =
      if-IsKept (leb 8192 m.tlb_entry_count) m (cpu_mmu_tlb_flush m) m (cpu_mmu_tlb_flush-IsKept m)
        refl

  fill-Keeps :
      (lin phys user write global : ℕ) (nx : Bool)
      → Keeps {D = D} (fill lin phys user write global nx)
  unfolding cpu_set_tlb_entry
  fill-Keeps lin phys user write global nx = record {
    kept = λ m.
        cpu_set_tlb_entry-IsKept (page_of lin) phys (user != 0) (write != 0) (global != 0) nx m;
  }

  page_fault-Keeps : (lin code : ℕ) → Keeps {D = D} (page_fault lin code)
  page_fault-Keeps lin code = record { kept = λ m. refl }

module _ {D : Type 0} (bus : Bus D) where
  cpu_read_phys-Keeps : (addr : ℕ) → Keeps (cpu_read_phys bus addr)
  unfolding cpu_read_phys
  cpu_read_phys-Keeps addr = record {
    kept = λ m. if_result-IsKept (is_mmio_read addr m) m _ _ refl refl;
  }

  cpu_write_phys-Keeps : (addr value : ℕ) → Keeps (cpu_write_phys bus addr value)
  unfolding cpu_write_phys
  cpu_write_phys-Keeps addr value = record {
    kept = λ m. if_result-IsKept (is_mmio_read addr m) m _ _ refl refl;
  }

  write_if_new-Keeps : (addr old new : ℕ) → Keeps (write_if_new bus addr old new)
  unfolding write_if_new
  write_if_new-Keeps addr old new =
      if-Keeps (new == old) _ _ (pure-Keeps tt) (cpu_write_phys-Keeps addr new)

  translate_large-Keeps :
      (lin write user pde_addr pde : ℕ) → Keeps (translate_large bus lin write user pde_addr pde)
  unfolding translate_large
  translate_large-Keeps lin write user pde_addr pde =
      then-Keeps _ _ (write_if_new-Keeps pde_addr pde _) (fill-Keeps lin _ user write _ false)

  map_small-Keeps :
      (lin write user pde_addr pde pte_addr pte : ℕ)
      → Keeps (map_small bus lin write user pde_addr pde pte_addr pte)
  unfolding map_small
  map_small-Keeps lin write user pde_addr pde pte_addr pte =
      then-Keeps _ _
        (if-Keeps (bit_and pde 0x20 == 0) _ _ (cpu_write_phys-Keeps pde_addr _) (pure-Keeps tt))
        (then-Keeps _ _ (write_if_new-Keeps pte_addr pte _) (fill-Keeps lin _ user write _ false))

  use_table_entry-Keeps :
      (lin write user cr0 pde_addr pde pte_addr pte : ℕ)
      → Keeps (use_table_entry bus lin write user cr0 pde_addr pde pte_addr pte)
  unfolding use_table_entry
  use_table_entry-Keeps lin write user cr0 pde_addr pde pte_addr pte =
      if-Keeps (bit_and pte 1 == 0) _ _ (page_fault-Keeps lin _) (
        if-Keeps _ _ _ (page_fault-Keeps lin _)
          (map_small-Keeps lin write user pde_addr pde pte_addr pte))

  translate_small-Keeps :
      (lin write user cr0 pde_addr pde : ℕ)
      → Keeps (translate_small bus lin write user cr0 pde_addr pde)
  unfolding translate_small
  translate_small-Keeps lin write user cr0 pde_addr pde =
      bind-Keeps _ _ (cpu_read_phys-Keeps (pte_address lin pde))
        (use_table_entry-Keeps lin write user cr0 pde_addr pde (pte_address lin pde))

  use_directory_entry-Keeps :
      (lin write user cr0 cr4 pde_addr pde : ℕ)
      → Keeps (use_directory_entry bus lin write user cr0 cr4 pde_addr pde)
  unfolding use_directory_entry
  use_directory_entry-Keeps lin write user cr0 cr4 pde_addr pde =
      if-Keeps (bit_and pde 1 == 0) _ _ (page_fault-Keeps lin _) (
        if-Keeps _ _ _ (translate_large-Keeps lin write user pde_addr pde)
          (translate_small-Keeps lin write user cr0 pde_addr pde))

  translate_legacy-Keeps : (lin write user : ℕ) → Keeps (translate_legacy bus lin write user)
  unfolding translate_legacy
  translate_legacy-Keeps lin write user = record {
    kept = λ m.
        let pde_addr = pde_address lin (m.cr 3) in
        (bind-Keeps _ _ (cpu_read_phys-Keeps pde_addr)
            (use_directory_entry-Keeps lin write user (m.cr 0) (m.cr 4) pde_addr)).kept
          m;
  }

  pae_small-Keeps :
      (lin write user fail cr0 pde_addr pde : ℕ) (nx : Bool)
      → Keeps (pae_small bus lin write user fail cr0 pde_addr pde nx)
  unfolding pae_small
  pae_small-Keeps lin write user fail cr0 pde_addr pde nx =
      let pte_addr = bit_or (bit_and pde (not32 0xfff)) (bit_and (lin >>> 9) 0xff8) in
      bind-Keeps _ _ (cpu_read_phys-Keeps pte_addr) λ pte.
        bind-Keeps _ _ (cpu_read_phys-Keeps (add32 pte_addr 4)) λ pte2.
          if-Keeps (bit_and pte 1 == 0) _ _ (page_fault-Keeps lin fail) (
            if-Keeps (refuses_write (not32 pte) write user cr0 || refuses_user (not32 pte) user) _ _
              (page_fault-Keeps lin (bit_or fail 1))
              (then-Keeps _ _ (write_if_new-Keeps pde_addr pde (bit_or pde 0x20)) (
                then-Keeps _ _
                  (write_if_new-Keeps pte_addr pte (bit_or (bit_or pte 0x20) (write <<< 6)))
                  (fill-Keeps lin (bit_and pte (not32 0xfff)) user write (bit_and pte 0x100) nx))))

  pae_large-Keeps :
      (lin write user pde_addr pde : ℕ) (nx : Bool)
      → Keeps (pae_large bus lin write user pde_addr pde nx)
  unfolding pae_large
  pae_large-Keeps lin write user pde_addr pde nx =
      then-Keeps _ _ (write_if_new-Keeps pde_addr pde _) (fill-Keeps lin _ user write _ nx)

  pae_directory-Keeps :
      (lin write user fail cr0 pde_addr pde : ℕ) (nx : Bool)
      → Keeps (pae_directory bus lin write user fail cr0 pde_addr pde nx)
  unfolding pae_directory
  pae_directory-Keeps lin write user fail cr0 pde_addr pde nx =
      if-Keeps (bit_and pde 1 == 0) _ _ (page_fault-Keeps lin fail) (
        if-Keeps _ _ _ (page_fault-Keeps lin _) (
          if-Keeps (bit_and pde 0x80 != 0) _ _ (pae_large-Keeps lin write user pde_addr pde nx)
            (pae_small-Keeps lin write user fail cr0 pde_addr pde nx)))

  translate_pae-Keeps :
      (lin write user execute : ℕ) → Keeps (translate_pae bus lin write user execute)
  unfolding translate_pae
  translate_pae-Keeps lin write user execute = record {
    kept = λ m.
        let pdp_addr = bit_or (bit_and (m.cr 3) (not32 31)) (bit_and (lin >>> 27) 0x18) in
        let mask = nx_mask bus m.ia32_efer in
        let nx_enabled = bit_and (m.ia32_efer >>> 11) 1 in
        let fetch = if execute != 0 && nx_enabled != 0 then 0x10 else 0 in
        (bind-Keeps _ _ (cpu_read_phys-Keeps pdp_addr) λ pdpte.
            if-Keeps (bit_and pdpte 1 == 0) _ _ (page_fault-Keeps lin (access_code write user)) (
              bind-Keeps _ _ (cpu_read_phys-Keeps (add32 pdp_addr 4)) λ high.
                let pde_addr = bit_or (bit_and pdpte (not32 0xfff)) (bit_and (lin >>> 18) 0xff8) in
                if-Keeps (bit_and high (not32 15) != 0) _ _ (raise-Keeps 13 0) (
                  bind-Keeps _ _ (cpu_read_phys-Keeps pde_addr) λ pde.
                    bind-Keeps _ _ (cpu_read_phys-Keeps (add32 pde_addr 4)) λ pde2.
                      bind-Keeps _ _ (cpu_read_phys-Keeps (add32 pdp_addr 4)) λ again.
                        if-Keeps (bit_and (bit_and again (not32 15)) mask != 0) _ _
                          (raise-Keeps 13 0)
                          (if-Keeps (bit_and (bit_and pde2 (not32 15)) mask != 0) _ _
                            (raise-Keeps 13 0)
                            (pae_directory-Keeps lin write user
                              (bit_or (access_code write user) fetch) (m.cr 0) pde_addr pde
                              (bit_and (pde2 >>> 31) nx_enabled != 0)))))).kept
          m;
  }

  pub cpu_mmu_translate-Keeps : (lin shift : ℕ) → Keeps (cpu_mmu_translate bus lin shift)
  unfolding cpu_mmu_translate
  cpu_mmu_translate-Keeps lin shift = record {
    kept = λ m.
        (if-Keeps (bit_and (m.cr 0) 0x8000_0000 == 0) _ _ (fill-Keeps lin (page_of lin) 1 1 0 false)
            (if-Keeps (bit_and (m.cr 4) 0x20 == 0) _ _
              (translate_legacy-Keeps lin (bit_and (shift >>> 1) 1) (bit_and (shift >>> 2) 1))
              (translate_pae-Keeps lin (bit_and (shift >>> 1) 1) (bit_and (shift >>> 2) 1)
                (bit_and shift 8)))).kept
          m;
  }
