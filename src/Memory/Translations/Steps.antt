-- ===== src/Memory/Translations/Steps.antt =====
-- cpu/mmu.cpp, cpu/prot.cpp, cpu/cpu.cpp: the operations on the translation buffer as steps.
use cpu_ia32_cpp.Base.{
  ℕ, ◌≤◌, ◌<◌, refl, sym, ◌∙◌, inl, inr, Bool, ◌==◌, leb, if◌then◌else◌, ◌!=◌, bit_and, bit_xor,
  bit_or, not32, sub32, arith, subst, if-either, update-at, update-other, update-cases, equal-cases,
  ◌>>>◌,
}
use cpu_ia32_cpp.Memory.State.{Machine}
use cpu_ia32_cpp.Memory.Tlb.{
  cpu_mmu_tlb_flush, cpu_mmu_tlb_flush_nonglobal, cpu_set_tlb_entry, append_entry, entry_attrs,
  tags_for, visible, cpu_mmu_tlb_invalidate, cpu_set_a20,
}
use cpu_ia32_cpp.Memory.Control.{
  cr0_flush_mask, cr4_flush_mask, put_cr, put_dr, reload_directory, cpu_prot_set_cr,
  cpu_prot_set_dr,
}
use cpu_ia32_cpp.Memory.Translations.Flush.{
  IsListed, cpu_mmu_tlb_flush-Unused, nonglobal-count, nonglobal-IsListed,
}

module _ {D : Type 0} where
  -- Every entry that allows an access is listed, and the list fits its array of 8192 places.
  abbrev pub IsTlb : Machine D → Type 0
  IsTlb m = IsListed m × (m.tlb_entry_count ≤ 8192)

  pub cpu_mmu_tlb_flush-IsTlb : (m : Machine D) → IsTlb m → IsTlb (cpu_mmu_tlb_flush m)
  unfolding cpu_mmu_tlb_flush
  cpu_mmu_tlb_flush-IsTlb m (listed, fits) =
      ((λ entry lt. inl (cpu_mmu_tlb_flush-Unused m listed entry lt)), omega arith)

  pub nonglobal-IsTlb : (m : Machine D) → IsTlb m → IsTlb (cpu_mmu_tlb_flush_nonglobal m)
  nonglobal-IsTlb m (listed, fits) =
      (nonglobal-IsListed m listed, subst (λ n. n ≤ 8192) (sym (nonglobal-count m)) fits)

  pub cpu_mmu_tlb_invalidate-IsTlb :
      (lin : ℕ) (m : Machine D) → IsTlb m → IsTlb (cpu_mmu_tlb_invalidate lin m)
  unfolding cpu_mmu_tlb_invalidate
  cpu_mmu_tlb_invalidate-IsTlb lin m (listed, fits) = (
    (λ entry lt. elim (update-cases m.tlb_tags (lin >>> 12) 0xff entry) [
      | inl (_, cleared) ↦ inl cleared
      | inr (_, kept) ↦ elim (listed entry lt) [
        | inl unused ↦ inl (kept ∙ unused)
        | inr place ↦ inr place
      ]
    ]),
    fits,
  )

  module _ (entry attrs word tags : ℕ) where
    append_entry-IsListed :
        (m : Machine D) → IsListed m → IsListed (append_entry entry attrs word tags m)
    append_entry-IsListed m listed other lt = elim (equal-cases entry other) [
      | inl same ↦ inr (
        m.tlb_entry_count,
        omega arith,
        omega arith,
        update-at m.tlb_entry_indexes m.tlb_entry_count entry m.tlb_entry_count refl ∙ same,
      )
      | inr ne ↦ elim (listed other lt) [
        | inl unused ↦ inl (update-other m.tlb_tags entry tags other ne ∙ unused)
        | inr (j, lower, upper, named) ↦ inr (
          j,
          lower,
          omega arith,
          update-other m.tlb_entry_indexes m.tlb_entry_count entry j (λ e. absurd (omega arith))
              ∙ named,
        )
      ]
    ]

    append_entry-IsTlb :
        (m : Machine D)
        → IsListed m
        → m.tlb_entry_count < 8192
        → IsTlb (append_entry entry attrs word tags m)
    append_entry-IsTlb m listed fits = (append_entry-IsListed m listed, omega arith)

    -- Where the list is full, it is emptied first.
    room-IsTlb :
        (m : Machine D)
        → IsTlb m
        → IsTlb (
            append_entry entry attrs word tags
              (if leb 8192 m.tlb_entry_count then cpu_mmu_tlb_flush m else m))
    unfolding cpu_mmu_tlb_flush
    room-IsTlb m (listed, fits) =
        if-either (λ m'. IsTlb (append_entry entry attrs word tags m')) (leb 8192 m.tlb_entry_count)
          (λ _.
            append_entry-IsTlb (cpu_mmu_tlb_flush m)
              (λ other lt. inl (cpu_mmu_tlb_flush-Unused m listed other lt)) (omega arith))
          (λ below. append_entry-IsTlb m listed (ground arith))

  pub cpu_set_tlb_entry-IsTlb :
      (lin phys : ℕ) (user write global nx : Bool) (m : Machine D)
      → IsTlb m
      → IsTlb (cpu_set_tlb_entry lin phys user write global nx m)
  unfolding cpu_set_tlb_entry
  cpu_set_tlb_entry-IsTlb lin phys user write global nx m tlb =
      room-IsTlb (lin >>> 12) (entry_attrs global nx) (sub32 (visible phys m) lin)
        (tags_for (visible phys m) user write m) m tlb

  -- One operation.
  pub data Step (m : Machine D) : Machine D → Type 0 where
    maps :
        (lin phys : ℕ) (user write global nx : Bool)
        → Step m (cpu_set_tlb_entry lin phys user write global nx m)
    flushes : Step m (cpu_mmu_tlb_flush m)
    flushes_nonglobal : Step m (cpu_mmu_tlb_flush_nonglobal m)
    invalidates : (lin : ℕ) → Step m (cpu_mmu_tlb_invalidate lin m)
    sets_a20 : (a20_enabled : Bool) → Step m (cpu_set_a20 a20_enabled m)
    sets_cr : (cr v : ℕ) → Step m (cpu_prot_set_cr cr v m)
    sets_dr : (id val : ℕ) → Step m (cpu_prot_set_dr id val m)

  pub data Reaches (m : Machine D) : Machine D → Type 0 where
    here : Reaches m m
    next : (m' m'' : Machine D) → Reaches m m' → Step m' m'' → Reaches m m''

  -- A flush under a test.
  flush_if-IsTlb :
      (b : Bool) (m : Machine D) → IsTlb m → IsTlb (if b then cpu_mmu_tlb_flush m else m)
  flush_if-IsTlb b m tlb = if-either IsTlb b (λ _. cpu_mmu_tlb_flush-IsTlb m tlb) (λ _. tlb)

  cpu_set_a20-IsTlb :
      (a20_enabled : Bool) (m : Machine D) → IsTlb m → IsTlb (cpu_set_a20 a20_enabled m)
  unfolding cpu_set_a20
  cpu_set_a20-IsTlb a20_enabled m tlb =
      let mask = if a20_enabled then 0xffff_ffff else 0xffef_ffff in
      if-either IsTlb (m.a20_mask == mask) (λ _. tlb)
        (λ _. cpu_mmu_tlb_flush-IsTlb (record m { a20_mask = mask }) tlb)

  reload_directory-IsTlb : (m : Machine D) → IsTlb m → IsTlb (reload_directory m)
  unfolding reload_directory
  reload_directory-IsTlb m tlb =
      if-either IsTlb (bit_and (m.cr 4) 0x80 != 0) (λ _. nonglobal-IsTlb m tlb)
        (λ _. cpu_mmu_tlb_flush-IsTlb m tlb)

  cpu_prot_set_cr-IsTlb : (cr v : ℕ) (m : Machine D) → IsTlb m → IsTlb (cpu_prot_set_cr cr v m)
  unfolding cpu_prot_set_cr
  cpu_prot_set_cr-IsTlb cr v m tlb =
      if-either IsTlb (cr == 0)
        (λ _.
          flush_if-IsTlb (bit_and (bit_xor v (m.cr cr)) cr0_flush_mask != 0) (put_cr cr v m) tlb)
        (λ _.
          if-either IsTlb (cr == 3)
            (λ _. reload_directory-IsTlb (put_cr 3 (bit_and v (not32 31)) (put_cr cr v m)) tlb)
            (λ _.
              if-either IsTlb (cr == 4)
                (λ _.
                  flush_if-IsTlb (bit_and (bit_xor v (m.cr cr)) cr4_flush_mask != 0) (put_cr cr v m)
                    tlb)
                (λ _. tlb)))

  cpu_prot_set_dr-IsTlb : (id val : ℕ) (m : Machine D) → IsTlb m → IsTlb (cpu_prot_set_dr id val m)
  unfolding cpu_prot_set_dr
  cpu_prot_set_dr-IsTlb id val m tlb =
      if-either IsTlb (leb id 3) (λ _. cpu_mmu_tlb_invalidate-IsTlb val (put_dr id val m) tlb)
        (λ _.
          if-either IsTlb (id == 6) (λ _. tlb)
            (λ _.
              if-either IsTlb (id == 7)
                (λ _.
                  cpu_mmu_tlb_flush-IsTlb (put_dr 7 (bit_or (bit_and val 0xffff_2fff) 0x400) m) tlb)
                (λ _. tlb)))

  Step-IsTlb : (m m' : Machine D) → IsTlb m → Step m m' → IsTlb m'
  Step-IsTlb m _ tlb (maps lin phys user write global nx) =
      cpu_set_tlb_entry-IsTlb lin phys user write global nx m tlb
  Step-IsTlb m _ tlb flushes = cpu_mmu_tlb_flush-IsTlb m tlb
  Step-IsTlb m _ tlb flushes_nonglobal = nonglobal-IsTlb m tlb
  Step-IsTlb m _ tlb (invalidates lin) = cpu_mmu_tlb_invalidate-IsTlb lin m tlb
  Step-IsTlb m _ tlb (sets_a20 a20_enabled) = cpu_set_a20-IsTlb a20_enabled m tlb
  Step-IsTlb m _ tlb (sets_cr cr v) = cpu_prot_set_cr-IsTlb cr v m tlb
  Step-IsTlb m _ tlb (sets_dr id val) = cpu_prot_set_dr-IsTlb id val m tlb

  -- Whatever the operations on the translation buffer are and in whatever order they come: where
  -- every entry of the 2 ^ 20 pages that allows some access is listed below the count, and the count is
  -- at most 8192, this stays so; new translations, both flushes, invalidations, changes of address line
  -- 20 and writes to the control and debug registers are such operations.
  pub Reaches-IsTlb : (m m' : Machine D) → IsTlb m → Reaches m m' → IsTlb m'
  Reaches-IsTlb m _ tlb here = tlb
  Reaches-IsTlb m _ tlb (next m' m'' steps step) =
      Step-IsTlb m' m'' (Reaches-IsTlb m m' tlb steps) step
