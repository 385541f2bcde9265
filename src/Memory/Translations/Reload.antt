-- ===== src/Memory/Translations/Reload.antt =====
-- cpu/mmu.cpp, cpu/prot.cpp: the bound of the list of translations, and what a write to a control
-- register leaves of the translations.
use cpu_ia32_cpp.Base.{
  ℕ, ◌^◌, ◌≤◌, ◌<◌, ◌≡◌, refl, sym, ◌∙◌, ◌≢◌, ◌⊎◌, inl, inr, Bool, ◌!=◌, leb, if◌then◌else◌,
  bit_and, bit_xor, not32, sub32, arith, subst, if-either, update-other, ◌>>>◌,
}
use cpu_ia32_cpp.Memory.State.{Machine}
use cpu_ia32_cpp.Memory.Tlb.{
  cpu_mmu_tlb_flush, cpu_set_tlb_entry, append_entry, entry_attrs, tags_for, visible,
}
use cpu_ia32_cpp.Memory.Control.{
  cr0_flush_mask, cr4_flush_mask, put_cr, reload_directory, cpu_prot_set_cr,
}
use cpu_ia32_cpp.Memory.Translations.Listed.{Unused, Global}
use cpu_ia32_cpp.Memory.Translations.Flush.{
  IsListed, cpu_mmu_tlb_flush-Unused, nonglobal-Global, cpu_mmu_tlb_flush-beyond,
}

module _ {D : Type 0} where
  -- The list after a new translation: its length, and its places from 8192 on as before.
  abbrev pub IsBounded : Machine D → Machine D → Type 0
  IsBounded m after =
      (1 ≤ after.tlb_entry_count)
      × (after.tlb_entry_count ≤ 8192)
      × ((j : ℕ) → 8192 ≤ j → after.tlb_entry_indexes j ≡ m.tlb_entry_indexes j)

  append_entry-IsBounded :
      (entry attrs word tags : ℕ) (m m' : Machine D)
      → m'.tlb_entry_count < 8192
      → ((j : ℕ) → 8192 ≤ j → m'.tlb_entry_indexes j ≡ m.tlb_entry_indexes j)
      → IsBounded m (append_entry entry attrs word tags m')
  append_entry-IsBounded entry attrs word tags m m' room same = (
    omega arith,
    omega arith,
    λ j le.
        update-other m'.tlb_entry_indexes m'.tlb_entry_count entry j (λ e. absurd (omega arith))
        ∙ same j le,
  )

  -- `cpu_set_tlb_entry` writes `m_tlb_entry_indexes` within its 8192 places: from a count of at most
  -- 8192, the places from 8192 on stay as they are and the count is then between 1 and 8192.
  pub cpu_set_tlb_entry-IsBounded :
      (lin phys : ℕ) (user write global nx : Bool) (m : Machine D)
      → m.tlb_entry_count ≤ 8192
      → IsBounded m (cpu_set_tlb_entry lin phys user write global nx m)
  unfolding cpu_set_tlb_entry cpu_mmu_tlb_flush
  cpu_set_tlb_entry-IsBounded lin phys user write global nx m fits =
      let attrs = entry_attrs global nx in
      let word = sub32 (visible phys m) lin in
      let tags = tags_for (visible phys m) user write m in
      if-either (λ (m' : Machine D). IsBounded m (append_entry (lin >>> 12) attrs word tags m'))
        (leb 8192 m.tlb_entry_count)
        (λ _.
          append_entry-IsBounded (lin >>> 12) attrs word tags m (cpu_mmu_tlb_flush m) (omega arith)
            (λ j le. cpu_mmu_tlb_flush-beyond j m (omega arith)))
        (λ below.
          append_entry-IsBounded (lin >>> 12) attrs word tags m m (ground arith) (λ _ _. refl))

  -- What may be left by a write to a control register.
  abbrev pub MayStay : Machine D → ℕ → Machine D → Type 0
  MayStay m entry after = Unused entry after ⊎ ((bit_and (m.cr 4) 0x80 ≢ 0) × Global entry after)

  -- A new directory, written to CR3, leaves no old translation: where the list is complete, every
  -- entry of the 2 ^ 20 pages afterwards refuses all accesses, but for those that are marked global if
  -- CR4.PGE is set.
  pub cpu_prot_set_cr-reloads :
      (v : ℕ) (m : Machine D)
      → IsListed m
      → (entry : ℕ) → entry < 2 ^ 20
      → MayStay m entry (cpu_prot_set_cr 3 v m)
  unfolding cpu_prot_set_cr reload_directory
  cpu_prot_set_cr-reloads v m listed entry lt =
      let m' = put_cr 3 (bit_and v (not32 31)) (put_cr 3 v m) in
      if-either (MayStay m entry) (bit_and (m.cr 4) 0x80 != 0)
        (λ kept. inr (ground arith, nonglobal-Global m' listed entry lt))
        (λ _. inl (cpu_mmu_tlb_flush-Unused m' listed entry lt))

  -- The bits of CR0 and CR4 that paging depends on: PG, WP and PE of the one, PCIDE, PGE, PAE, PSE and
  -- SMEP of the other.
  abbrev pub Changes : ℕ → ℕ → Machine D → Type 0
  Changes cr v m =
      ((cr ≡ 0) × (bit_and (bit_xor v (m.cr 0)) 0x8001_0001 ≢ 0))
      ⊎ ((cr ≡ 4) × (bit_and (bit_xor v (m.cr 4)) 0x12_00b0 ≢ 0))

  flush_if-Unused :
      (n cr v : ℕ) (m : Machine D)
      → IsListed m
      → n ≢ 0
      → (entry : ℕ) → entry < 2 ^ 20
      → Unused entry (if n != 0 then cpu_mmu_tlb_flush (put_cr cr v m) else put_cr cr v m)
  flush_if-Unused n cr v m listed ne entry lt =
      if-either (Unused entry) (n != 0)
        (λ _. cpu_mmu_tlb_flush-Unused (put_cr cr v m) listed entry lt)
        (λ is_zero. absurd (ground arith))

  -- A write to CR0 that changes PG, WP or PE, or to CR4 that changes PCIDE, PGE, PAE, PSE or SMEP,
  -- leaves no translation at all, where the list is complete: every entry of the 2 ^ 20 pages refuses
  -- all accesses.
  pub cpu_prot_set_cr-flushes :
      (cr v : ℕ) (m : Machine D)
      → IsListed m
      → Changes cr v m
      → (entry : ℕ) → entry < 2 ^ 20
      → Unused entry (cpu_prot_set_cr cr v m)
  unfolding cpu_prot_set_cr
  cpu_prot_set_cr-flushes cr v m listed (inl (is_cr, ne)) entry lt =
      subst (λ c. Unused entry (cpu_prot_set_cr c v m)) (sym is_cr)
        (flush_if-Unused (bit_and (bit_xor v (m.cr 0)) cr0_flush_mask) 0 v m listed ne entry lt)
  cpu_prot_set_cr-flushes cr v m listed (inr (is_cr, ne)) entry lt =
      subst (λ c. Unused entry (cpu_prot_set_cr c v m)) (sym is_cr)
        (flush_if-Unused (bit_and (bit_xor v (m.cr 4)) cr4_flush_mask) 4 v m listed ne entry lt)
