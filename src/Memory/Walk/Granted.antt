-- ===== src/Memory/Walk/Granted.antt =====
-- cpu/mmu.cpp: the walk of the tables with 32 bit entries up to its end where the access is granted.
use cpu_ia32_cpp.Base.{
  ℕ, ◌<◌, ◌≡◌, refl, sym, ap, ◌∙◌, Bool, true, false, ◌&&◌, ◌||◌, not, ◌==◌, ◌!=◌, if◌then◌else◌,
  if-either, bit_and, bit_or, not32,
}
use cpu_ia32_cpp.Memory.State.{Bus, Machine, M, completed, continue, pure, ◌>>◌}
use cpu_ia32_cpp.Memory.Physical.{store32, is_mmio_read, to_bus, cpu_write_phys}
use cpu_ia32_cpp.Memory.Tlb.{cpu_set_tlb_entry}
use cpu_ia32_cpp.Memory.Translate.{
  page_of, pde_address, pte_address, refuses_write, refuses_user, fill, write_if_new, map_small,
  use_table_entry, use_directory_entry,
}
use cpu_ia32_cpp.Memory.Walk.Rights.{flag, allowed, refuses-allowed}
use cpu_ia32_cpp.Memory.Walk.Entries.{
  pde_of, pte_of, IsWalk, grants, missing_bit, not_large, load32-lt,
}
use cpu_ia32_cpp.Memory.Walk.Faults.{translate_small-use}
use cpu_ia32_cpp.Memory.Walk.Marks.{mark_directory, new_pte, mark_table}

-- What `grants` says.
granted_facts : (a b c : Bool) → (a && (b && c)) ≡ true → (a ≡ true) × (b ≡ true) × (c ≡ true)
granted_facts true true true e = (refl, refl, refl)
granted_facts true true false e = cc
granted_facts true false c e = cc
granted_facts false b c e = cc

not_missing : (x : ℕ) → flag 0 x ≡ true → (bit_and x 1 == 0) ≡ true → ⊥
not_missing x there missing = let gone = missing_bit x missing in cc

refused_granted : (b : Bool) → not b ≡ true → b ≡ true → ⊥
refused_granted true refused granted = cc
refused_granted false refused granted = cc

module _ {D : Type 0} where
  abbrev pub with_mem : (ℕ → ℕ) → Machine D → Machine D
  with_mem mem m = record m { mem = mem }

  abbrev pub marked : ℕ → ℕ → ℕ → ℕ → ℕ → Machine D → Machine D
  marked write pde_addr pde pte_addr pte m =
      with_mem (mark_table write pte_addr pte (mark_directory pde_addr pde m.mem)) m

  abbrev pub mapped : ℕ → ℕ → ℕ → ℕ → ℕ → ℕ → ℕ → Machine D → Machine D
  mapped lin write user pde_addr pde pte_addr pte m =
      cpu_set_tlb_entry (page_of lin) (bit_and pte (not32 0xfff)) (user != 0) (write != 0)
        (bit_and pte 0x100 != 0) false (marked write pde_addr pde pte_addr pte m)

module _ {D : Type 0} (bus : Bus D) where
  cpu_write_phys-direct :
      (addr value : ℕ) (m : Machine D)
      → is_mmio_read addr m ≡ false
      → cpu_write_phys bus addr value m ≡ (completed tt, with_mem (store32 addr value m.mem) m)
  unfolding cpu_write_phys
  cpu_write_phys-direct addr value m direct =
      ap
        (λ b.
          if b
          then to_bus bus addr value 2 m
          else (completed tt, with_mem (store32 addr value m.mem) m))
        direct

  write_when :
      (b : Bool) (addr value : ℕ) (m : Machine D)
      → is_mmio_read addr m ≡ false
      → (if b then cpu_write_phys bus addr value else pure tt) m
        ≡ (completed tt, with_mem (if b then store32 addr value m.mem else m.mem) m)
  write_when true addr value m direct = cpu_write_phys-direct addr value m direct
  write_when false addr value m direct = refl

  write_unless :
      (b : Bool) (addr value : ℕ) (m : Machine D)
      → is_mmio_read addr m ≡ false
      → (if b then pure tt else cpu_write_phys bus addr value) m
        ≡ (completed tt, with_mem (if b then m.mem else store32 addr value m.mem) m)
  write_unless true addr value m direct = refl
  write_unless false addr value m direct = cpu_write_phys-direct addr value m direct

  map_small-mapped :
      (lin write user pde_addr pde pte_addr pte : ℕ) (m : Machine D)
      → is_mmio_read pde_addr m ≡ false
      → is_mmio_read pte_addr m ≡ false
      → map_small bus lin write user pde_addr pde pte_addr pte m
        ≡ (completed tt, mapped lin write user pde_addr pde pte_addr pte m)
  unfolding map_small write_if_new
  map_small-mapped lin write user pde_addr pde pte_addr pte m direct direct' =
      let filled = fill lin (bit_and pte (not32 0xfff)) user write (bit_and pte 0x100) false in
      ap (λ o. continue o (λ _. write_if_new bus pte_addr pte (new_pte write pte) >> filled))
        (write_when (bit_and pde 0x20 == 0) pde_addr (bit_or pde 0x20) m direct)
      ∙ ap (λ o. continue o (λ _. filled))
          (write_unless (new_pte write pte == pte) pte_addr (new_pte write pte)
            (with_mem (mark_directory pde_addr pde m.mem) m) direct')

module _ {D : Type 0} where
  -- The state after a granted walk.
  abbrev pub walked : ℕ → ℕ → ℕ → Machine D → Machine D
  walked lin write user m =
      mapped lin write user (pde_address lin (m.cr 3)) (pde_of lin m)
        (pte_address lin (pde_of lin m)) (pte_of lin m) m

module _ {D : Type 0} (bus : Bus D) (lin write user : ℕ) (m : Machine D) (walk : IsWalk lin m)
    (lw : write < 2) (lu : user < 2) (granted : grants lin write user m ≡ true) where
  abbrev pub Completes : M D (Unit {0}) → Type 0
  Completes f = f m ≡ (completed tt, walked lin write user m)

  use_table_entry-Completes : Completes (
      use_table_entry bus lin write user
        (m.cr 0)
        (pde_address lin (m.cr 3))
        (pde_of lin m)
        (pte_address lin (pde_of lin m))
        (pte_of lin m))
  unfolding use_table_entry
  use_table_entry-Completes =
      let (there, there', allows) =
        granted_facts (flag 0 (pde_of lin m)) (flag 0 (pte_of lin m))
          (allowed write user (bit_and (m.cr 0) 65536 != 0) (pde_of lin m) (pte_of lin m))
          granted in
      if-either Completes (bit_and (pte_of lin m) 1 == 0)
        (λ missing. absurd (not_missing (pte_of lin m) there' missing))
        (λ _.
          if-either Completes
            (refuses_write (bit_or (not32 (pte_of lin m)) (not32 (pde_of lin m))) write user
                (m.cr 0)
              || refuses_user (bit_or (not32 (pte_of lin m)) (not32 (pde_of lin m))) user)
            (λ refused. absurd (
              refused_granted _
                (sym (
                    refuses-allowed (pde_of lin m) (pte_of lin m) (load32-lt m.mem _ walk.bytes_fit)
                      (load32-lt m.mem _ walk.bytes_fit) write user (m.cr 0) lw lu)
                  ∙ refused)
                allows))
            (λ _.
              map_small-mapped bus lin write user (pde_address lin (m.cr 3)) (pde_of lin m)
                (pte_address lin (pde_of lin m)) (pte_of lin m) m walk.directory_in_memory
                walk.table_in_memory))

  pub use_directory_entry-Completes : Completes (
      use_directory_entry bus lin write user
        (m.cr 0)
        (m.cr 4)
        (pde_address lin (m.cr 3))
        (pde_of lin m))
  unfolding use_directory_entry
  use_directory_entry-Completes =
      let (there, there', allows) =
        granted_facts (flag 0 (pde_of lin m)) (flag 0 (pte_of lin m))
          (allowed write user (bit_and (m.cr 0) 65536 != 0) (pde_of lin m) (pte_of lin m))
          granted in
      if-either Completes (bit_and (pde_of lin m) 1 == 0)
        (λ missing. absurd (not_missing (pde_of lin m) there missing))
        (λ _.
          if-either Completes (bit_and (pde_of lin m) 0x80 != 0 && bit_and (m.cr 4) 0x10 != 0)
            (λ large. absurd (not_large _ _ walk.small_page large))
            (λ _. translate_small-use bus lin write user m walk lw lu ∙ use_table_entry-Completes))
