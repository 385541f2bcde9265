-- ===== src/Memory/Tests.antt =====
-- The theorems about the processor's way to memory on one state.
use cpu_ia32_cpp.Base.{
  ℕ, ◌+◌, ◌*◌, ◌/◌, ◌%◌, ◌^◌, ◌<◌, ◌≡◌, ◌≢◌, refl, inl, inr, true, false, ◌==◌, if◌then◌else◌,
  arith, w8, w32, bit_and, equal-cases,
}
use cpu_ia32_cpp.Memory.State.{Machine, completed, raise, ◌>>◌}
use cpu_ia32_cpp.Memory.Sample.{counter, machine}
use cpu_ia32_cpp.Memory.Tlb.{cpu_set_tlb_entry}
use cpu_ia32_cpp.Memory.Code.{cpu_smc_has_code, cpu_smc_invalidate}
use cpu_ia32_cpp.Memory.Segments.{access_of, type_of, dpl_of, cpu_seg_get_base, cpu_seg_get_limit}
use cpu_ia32_cpp.Memory.Control.{cpu_prot_set_cr}
use cpu_ia32_cpp.Memory.Access.{phys_of, read_mem, write_mem}
use cpu_ia32_cpp.Memory.Keeps.Rules.{IsPrecise}
use cpu_ia32_cpp.Memory.Keeps.Accesses.{access-IsPrecise}
use cpu_ia32_cpp.Memory.Stack.{cpu_push, cpu_pop}
use cpu_ia32_cpp.Memory.Translations.Listed.{Unused}
use cpu_ia32_cpp.Memory.Translations.Steps.{IsTlb, here, next, maps, sets_cr, Reaches-IsTlb}
use cpu_ia32_cpp.Memory.Translations.Reload.{
  IsBounded, MayStay, cpu_set_tlb_entry-IsBounded, cpu_prot_set_cr-reloads, cpu_prot_set_cr-flushes,
}
use cpu_ia32_cpp.Memory.Traces.Forget.{Forgets, cpu_smc_invalidate-Forgets}
use cpu_ia32_cpp.Memory.Descriptors.{descriptor, descriptor-roundtrip}
use cpu_ia32_cpp.Memory.Translate.{cpu_mmu_translate}
use cpu_ia32_cpp.Memory.Walk.Entries.{IsWalk, fault_code, pde_of, pte_of, write_of, user_of}
use cpu_ia32_cpp.Memory.Walk.Faults.{Fault, cpu_mmu_translate-faults}
use cpu_ia32_cpp.Memory.Walk.Maps.{IsMapped, cpu_mmu_translate-maps}
use cpu_ia32_cpp.Memory.Access.{store, write_at}
use cpu_ia32_cpp.Memory.Selectors.{cpu_seg_load_protected, load_stack}
use cpu_ia32_cpp.Memory.Traces.Write.{IsForgotten, write_at-IsForgotten}
use cpu_ia32_cpp.Memory.StackSegment.{may_be_stack, load_stack-checks}
use cpu_ia32_cpp.Memory.StackTrip.{push_addr, IsRestored, cpu_pop-cpu_push}

machine-IsTlb : IsTlb machine
machine-IsTlb = (
  (λ entry lt. elim (equal-cases 6 entry) [
    | inl same ↦ inr (0, omega arith, omega arith, same)
    | inr other ↦ inl (ground arith)
  ]),
  omega arith,
)

-- A page is mapped and the directory is set again.
abbrev mapped : Machine ℕ
mapped = cpu_set_tlb_entry 0x8000 0x8000 true true false false machine

abbrev reloaded : Machine ℕ
reloaded = cpu_prot_set_cr 3 0x2000 mapped

Reaches-IsTlb_example : IsTlb reloaded
Reaches-IsTlb_example = Reaches-IsTlb machine reloaded machine-IsTlb (
    next mapped reloaded (next machine mapped here (maps 0x8000 0x8000 true true false false))
      (sets_cr 3 0x2000))

cpu_set_tlb_entry-IsBounded_example : IsBounded machine mapped
cpu_set_tlb_entry-IsBounded_example =
    cpu_set_tlb_entry-IsBounded 0x8000 0x8000 true true false false machine (omega arith)

cpu_prot_set_cr-reloads_example : MayStay machine 6 (cpu_prot_set_cr 3 0x2000 machine)
cpu_prot_set_cr-reloads_example =
    cpu_prot_set_cr-reloads 0x2000 machine (machine-IsTlb.0) 6 (omega arith)

-- Paging is switched on.
cpu_prot_set_cr-flushes_example : Unused 6 (cpu_prot_set_cr 0 0x8000_0001 machine)
cpu_prot_set_cr-flushes_example =
    cpu_prot_set_cr-flushes 0 0x8000_0001 machine (machine-IsTlb.0)
      (inl (refl, λ e. absurd (omega arith))) 6 (omega arith)

marked : cpu_smc_has_code 0x1104 machine ≢ 0
unfolding cpu_smc_has_code
marked = λ e. absurd (omega arith)

cpu_smc_invalidate-Forgets_example :
    Forgets 0x1104 machine (cpu_smc_invalidate 0x1104 0x1104 machine)
cpu_smc_invalidate-Forgets_example = cpu_smc_invalidate-Forgets 0x1104 0x1104 machine marked

-- A code segment of 4 gigabytes.
descriptor-roundtrip_example :
    (cpu_seg_get_base (descriptor 0x1234_5678 0xf_ffff 0x9a 0xc) ≡ 0x1234_5678)
    × (cpu_seg_get_limit (descriptor 0x1234_5678 0xf_ffff 0x9a 0xc)
        ≡ (if 0xc / 8 == 1 then 0xf_ffff * 4096 + 4095 else 0xf_ffff))
    × (type_of (access_of (descriptor 0x1234_5678 0xf_ffff 0x9a 0xc)) ≡ 0x9a % 2 ^ 5)
    × (dpl_of (access_of (descriptor 0x1234_5678 0xf_ffff 0x9a 0xc)) ≡ 0x9a / 2 ^ 5 % 4)
descriptor-roundtrip_example =
    descriptor-roundtrip 0x1234_5678 0xf_ffff 0x9a 0xc (omega arith) (omega arith) (omega arith)
      (omega arith)

cpu_pop-cpu_push_example :
    (after : Machine ℕ) × ((cpu_push counter w32 0x8765_4321 >> cpu_pop counter w32) machine
      ≡ (completed (0x8765_4321 % 2 ^ (8 * 4)), after))
    × IsRestored w32 (phys_of (push_addr w32 machine) machine) machine after
cpu_pop-cpu_push_example =
    cpu_pop-cpu_push counter w32 0x8765_4321 false machine refl (omega arith) refl refl

-- Paging is on; the directory stands at 0x2000, its first table at 0x3000, and page 8 is at 0x5000.
abbrev tables : ℕ → ℕ
tables a =
    if a == 0x2000
    then 7
    else if a == 0x2001
    then 0x30
    else if a == 0x3020
    then 7
    else if a == 0x3021
    then 0x50
    else 0

abbrev paged : Machine ℕ
paged = record machine {
  cr = λ i. if i == 0 then 0x8001_0001 else if i == 3 then 0x2000 else 0;
  mem = tables;
}

tables-lt : (a : ℕ) → tables a < 256
tables-lt a = ground arith

present-IsWalk : IsWalk 0x8123 paged
present-IsWalk = record {
  paging = λ e. absurd (omega arith);
  legacy = refl;
  directory_in_memory = refl;
  table_in_memory = refl;
  small_page = refl;
  bytes_fit = tables-lt;
}

missing-IsWalk : IsWalk 0x9123 paged
missing-IsWalk = record {
  paging = λ e. absurd (omega arith);
  legacy = refl;
  directory_in_memory = refl;
  table_in_memory = refl;
  small_page = refl;
  bytes_fit = tables-lt;
}

-- A write of the user.
cpu_mmu_translate-maps_example :
    (after : Machine ℕ) × (cpu_mmu_translate counter 0x8123 6 paged ≡ (completed tt, after))
    × IsMapped 0x8123 (write_of 6) (user_of 6) paged after
cpu_mmu_translate-maps_example =
    cpu_mmu_translate-maps counter 0x8123 6 paged present-IsWalk refl (omega arith) refl
      (omega arith) (inr (omega arith))

-- A read of the user, of a page that is not there.
cpu_mmu_translate-faults_example :
    cpu_mmu_translate counter 0x9123 4 paged
    ≡ Fault 0x9123
        (fault_code (write_of 4) (user_of 4) (pde_of 0x9123 paged) (pte_of 0x9123 paged))
        paged
cpu_mmu_translate-faults_example =
    cpu_mmu_translate-faults counter 0x9123 4 paged missing-IsWalk refl

-- A write to the code in block 2 of page 1.
write_at-IsForgotten_example :
    (after : Machine ℕ) × (write_at counter w8 0x1104 0x90 machine ≡ (completed tt, after))
    × (after.mem ≡ store w8 (phys_of 0x1104 machine) 0x90 machine.mem)
    × IsForgotten (phys_of 0x1104 machine) machine after
write_at-IsForgotten_example = write_at-IsForgotten counter w8 0x1104 0x90 machine refl

-- The kernel's data segment as its stack.
load_stack-checks_example : load_stack counter 2 0x10 (descriptor 0 0xf_ffff 0x93 0xc) 0 ≡ (
    if may_be_stack 0 0x10 (access_of (descriptor 0 0xf_ffff 0x93 0xc))
    then cpu_seg_load_protected counter 2 0x10 (descriptor 0 0xf_ffff 0x93 0xc)
    else raise 13 (bit_and 0x10 0xfffc))
load_stack-checks_example = load_stack-checks counter 2 0x10 0 (descriptor 0 0xf_ffff 0x93 0xc)

-- A misaligned word, on a page with no entry in the table.
access-IsPrecise_example :
    IsPrecise paged (read_mem counter w32 0x9123 4 paged)
    × IsPrecise paged (write_mem counter w32 0x9123 7 6 paged)
access-IsPrecise_example = access-IsPrecise counter w32 0x9123 7 4 6 paged
