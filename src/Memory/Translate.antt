-- ===== src/Memory/Translate.antt =====
-- cpu/mmu.cpp: `cpu_mmu_translate`, which walks the page tables and fills the translation buffer, for
-- no paging, for tables of 32 bit entries, and for those of 64 bits (PAE).
use cpu_ia32_cpp.Base.{
  ℕ, bit_and, bit_or, bit_xor, Bool, false, ◌&&◌, ◌||◌, ◌==◌, ◌!=◌, if◌then◌else◌, not32, add32,
  update, ◌<<<◌, ◌>>>◌,
}
use cpu_ia32_cpp.Memory.State.{Bus, M, continue, get, modify, raise, pure, ◌>>=◌, ◌>>◌}
use cpu_ia32_cpp.Memory.Tlb.{cpu_set_tlb_entry}
use cpu_ia32_cpp.Memory.Physical.{cpu_read_phys, cpu_write_phys}

-- `lin & ~0xFFF`
abbrev pub page_of : ℕ → ℕ
page_of lin = bit_and lin (not32 0xfff)

-- `(write << 1) | (user << 2)`
abbrev pub access_code : ℕ → ℕ → ℕ
access_code write user = bit_or (write <<< 1) (user <<< 2)

-- An entry, or two of them combined, that do not allow the access; `flags` has the inverted bits. A
-- write of the system is refused only with CR0.WP.
abbrev pub refuses_write : ℕ → ℕ → ℕ → ℕ → Bool
refuses_write flags write user cr0 =
    bit_and flags (write <<< 1) != 0 && (user != 0 || bit_and cr0 65536 != 0)

abbrev pub refuses_user : ℕ → ℕ → Bool
refuses_user flags user = bit_and flags (user <<< 2) != 0

-- The entries of the two tables.
abbrev pub pde_address : ℕ → ℕ → ℕ
pde_address lin cr3 = add32 cr3 (bit_and (lin >>> 20) 0xffc)

abbrev pub pte_address : ℕ → ℕ → ℕ
pte_address lin pde = add32 (bit_and (lin >>> 10) 0xffc) (bit_and pde (not32 0xfff))

module _ {D : Type 0} where
  -- `m_cr[2] = lin; cpu_exception(14, code | 0x10000)`
  abbrev pub page_fault : ℕ → ℕ → M D (Unit {0})
  page_fault lin code = do modify (λ m. record m { cr = update m.cr 2 lin }); raise 14 code

  abbrev pub fill : ℕ → ℕ → ℕ → ℕ → ℕ → Bool → M D (Unit {0})
  unfolding cpu_set_tlb_entry
  fill lin phys user write global nx =
      modify (cpu_set_tlb_entry (page_of lin) phys (user != 0) (write != 0) (global != 0) nx)

module _ {D : Type 0} (bus : Bus D) where
  unfoldable pub write_if_new : ℕ → ℕ → ℕ → M D (Unit {0})
  unfolding cpu_write_phys
  write_if_new addr old new = if new == old then pure tt else cpu_write_phys bus addr new

  -- CR4.PSE: an entry of the directory that maps 4 megabytes.
  unfoldable pub translate_large : ℕ → ℕ → ℕ → ℕ → ℕ → M D (Unit {0})
  unfolding cpu_set_tlb_entry write_if_new
  translate_large lin write user pde_addr pde = do
    write_if_new pde_addr pde (bit_or (bit_or pde 0x20) (write <<< 6))
    fill lin (bit_or (bit_and pde 0xffc0_0000) (bit_and lin 0x3f_f000)) user write
        (bit_and pde 0x100) false

  -- The access is allowed: the entries are marked and the translation is filled in.
  unfoldable pub map_small : ℕ → ℕ → ℕ → ℕ → ℕ → ℕ → ℕ → M D (Unit {0})
  unfolding cpu_set_tlb_entry write_if_new cpu_write_phys
  map_small lin write user pde_addr pde pte_addr pte = do
    if bit_and pde 0x20 == 0 then cpu_write_phys bus pde_addr (bit_or pde 0x20) else pure tt
    write_if_new pte_addr pte (bit_or (bit_or pte (write <<< 6)) 0x20)
    fill lin (bit_and pte (not32 0xfff)) user write (bit_and pte 0x100) false

  unfoldable pub use_table_entry : ℕ → ℕ → ℕ → ℕ → ℕ → ℕ → ℕ → ℕ → M D (Unit {0})
  unfolding map_small
  use_table_entry lin write user cr0 pde_addr pde pte_addr pte =
      let combined = bit_or (not32 pte) (not32 pde) in
      if bit_and pte 1 == 0
      then page_fault lin (access_code write user)
      else if refuses_write combined write user cr0 || refuses_user combined user
      then page_fault lin (bit_or 1 (access_code write user))
      else map_small lin write user pde_addr pde pte_addr pte

  unfoldable pub translate_small : ℕ → ℕ → ℕ → ℕ → ℕ → ℕ → M D (Unit {0})
  unfolding use_table_entry cpu_read_phys
  translate_small lin write user cr0 pde_addr pde =
      cpu_read_phys bus (pte_address lin pde)
      >>= use_table_entry lin write user cr0 pde_addr pde (pte_address lin pde)

  unfoldable pub use_directory_entry : ℕ → ℕ → ℕ → ℕ → ℕ → ℕ → ℕ → M D (Unit {0})
  unfolding translate_large translate_small
  use_directory_entry lin write user cr0 cr4 pde_addr pde =
      if bit_and pde 1 == 0
      then page_fault lin (access_code write user)
      else if bit_and pde 0x80 != 0 && bit_and cr4 0x10 != 0
      then translate_large lin write user pde_addr pde
      else translate_small lin write user cr0 pde_addr pde

  unfoldable pub translate_legacy : ℕ → ℕ → ℕ → M D (Unit {0})
  unfolding use_directory_entry cpu_read_phys
  translate_legacy lin write user m =
      let pde_addr = pde_address lin (m.cr 3) in
      continue (cpu_read_phys bus pde_addr m)
        (use_directory_entry lin write user (m.cr 0) (m.cr 4) pde_addr)

  -- The table's entry; that it forbids execution (`pte2`) is not looked at.
  unfoldable pub pae_small : ℕ → ℕ → ℕ → ℕ → ℕ → ℕ → ℕ → Bool → M D (Unit {0})
  unfolding cpu_set_tlb_entry write_if_new cpu_read_phys
  pae_small lin write user fail cr0 pde_addr pde nx =
      let pte_addr = bit_or (bit_and pde (not32 0xfff)) (bit_and (lin >>> 9) 0xff8) in
      do
        pte ← cpu_read_phys bus pte_addr
        pte2 ← cpu_read_phys bus (add32 pte_addr 4)
        if bit_and pte 1 == 0
            then page_fault lin fail
            else if refuses_write (not32 pte) write user cr0 || refuses_user (not32 pte) user
            then page_fault lin (bit_or fail 1)
            else do
              write_if_new pde_addr pde (bit_or pde 0x20)
              write_if_new pte_addr pte (bit_or (bit_or pte 0x20) (write <<< 6))
              fill lin (bit_and pte (not32 0xfff)) user write (bit_and pte 0x100) nx

  unfoldable pub pae_large : ℕ → ℕ → ℕ → ℕ → ℕ → Bool → M D (Unit {0})
  unfolding cpu_set_tlb_entry write_if_new
  pae_large lin write user pde_addr pde nx = do
    write_if_new pde_addr pde (bit_or (bit_or pde 0x20) (write <<< 6))
    fill lin (bit_or (bit_and pde 0xffe0_0000) (bit_and lin 0x1f_f000)) user write
        (bit_and pde 0x100) nx

  unfoldable pub pae_directory : ℕ → ℕ → ℕ → ℕ → ℕ → ℕ → ℕ → Bool → M D (Unit {0})
  unfolding pae_small pae_large
  pae_directory lin write user fail cr0 pde_addr pde nx =
      if bit_and pde 1 == 0
      then page_fault lin fail
      else if refuses_write (not32 pde) write user cr0 || refuses_user (not32 pde) user
      then page_fault lin (bit_or fail 1)
      else if bit_and pde 0x80 != 0
      then pae_large lin write user pde_addr pde nx
      else pae_small lin write user fail cr0 pde_addr pde nx

  -- EFER.NXE, bit 11, where it is clear, makes bit 31 of a high half a reserved one.
  abbrev pub nx_mask : ℕ → ℕ
  nx_mask efer = bit_xor 0xffff_ffff (bit_and (efer <<< 20) 0x8000_0000)

  unfoldable pub translate_pae : ℕ → ℕ → ℕ → ℕ → M D (Unit {0})
  unfolding pae_directory cpu_read_phys
  translate_pae lin write user execute = do
    m ← get
    let pdp_addr = bit_or (bit_and (m.cr 3) (not32 31)) (bit_and (lin >>> 27) 0x18)
    pdpte ← cpu_read_phys bus pdp_addr
    if bit_and pdpte 1 == 0 then page_fault lin (access_code write user) else do
      high ← cpu_read_phys bus (add32 pdp_addr 4)
      if bit_and high (not32 15) != 0 then raise 13 0 else do
        let pde_addr = bit_or (bit_and pdpte (not32 0xfff)) (bit_and (lin >>> 18) 0xff8)
        pde ← cpu_read_phys bus pde_addr
        pde2 ← cpu_read_phys bus (add32 pde_addr 4)
        let mask = nx_mask m.ia32_efer
        again ← cpu_read_phys bus (add32 pdp_addr 4)
        if bit_and (bit_and again (not32 15)) mask != 0
            then raise 13 0
            else if bit_and (bit_and pde2 (not32 15)) mask != 0
            then raise 13 0
            else do
              let nx_enabled = bit_and (m.ia32_efer >>> 11) 1
              let fetch = if execute != 0 && nx_enabled != 0 then 0x10 else 0
              pae_directory lin write user (bit_or (access_code write user) fetch) (m.cr 0) pde_addr
                  pde (bit_and (pde2 >>> 31) nx_enabled != 0)

  -- `shift` says which access it is: bit 1 a write, bit 2 one of the user, bit 3 a fetch.
  unfoldable pub cpu_mmu_translate : ℕ → ℕ → M D (Unit {0})
  unfolding translate_legacy translate_pae cpu_set_tlb_entry
  cpu_mmu_translate lin shift = do
    m ← get
    let write = bit_and (shift >>> 1) 1
    let user = bit_and (shift >>> 2) 1
    if bit_and (m.cr 0) 0x8000_0000 == 0
        then fill lin (page_of lin) 1 1 0 false
        else if bit_and (m.cr 4) 0x20 == 0
        then translate_legacy lin write user
        else translate_pae lin write user (bit_and shift 8)
