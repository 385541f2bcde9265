-- ===== src/Memory/Translations/Listed.antt =====
-- cpu/mmu.cpp: which entries `m_tlb_entry_indexes` lists, and that one round of a flush keeps it.
use cpu_ia32_cpp.Base.{
  ℕ, ◌+◌, ◌^◌, ◌≤◌, ◌<◌, ◌≡◌, ap, ◌∙◌, ◌≢◌, ◌⊎◌, inl, inr, update-at, update-other, bit_and, arith,
  equal-cases,
}
use cpu_ia32_cpp.Memory.State.{Machine}
use cpu_ia32_cpp.Memory.Tlb.{no_entry, clear_entry}

module _ {D : Type 0} where
  -- A place of the list, from `i` on and below `n`, that names the entry.
  abbrev pub Place : ℕ → ℕ → ℕ → Machine D → Type 0
  Place i n entry m = (j : ℕ) × (i ≤ j) × (j < n) × (m.tlb_entry_indexes j ≡ entry)

  -- The entry refuses all accesses; or else it is a global one.
  abbrev pub Unused : ℕ → Machine D → Type 0
  Unused entry m = m.tlb_tags entry ≡ 0xff

  abbrev pub Global : ℕ → Machine D → Type 0
  Global entry m = (m.tlb_tags entry ≡ 0xff) ⊎ (bit_and (m.tlb_attrs entry) 2 ≡ 0)

  -- What a clear establishes for its entry and keeps for the others.
  abbrev pub IsCleared : (ℕ → Machine D → Type 0) → Type 0
  IsCleared Done =
      ((k other entry : ℕ) (m : Machine D) → other ≡ entry → Done entry (clear_entry k other m))
      × ((k other entry : ℕ) (m : Machine D)
          → other ≢ entry
          → Done entry m
          → Done entry (clear_entry k other m))

  pub Unused-IsCleared : IsCleared Unused
  Unused-IsCleared = (
    (λ k other entry m same. update-at m.tlb_tags other 0xff entry same),
    λ k other entry m ne unused. update-other m.tlb_tags other 0xff entry ne ∙ unused,
  )

  pub Global-IsCleared : IsCleared Global
  Global-IsCleared = (
    (λ k other entry m same. inl (update-at m.tlb_tags other 0xff entry same)),
    λ k other entry m ne global. elim global [
      | inl unused ↦ inl (update-other m.tlb_tags other 0xff entry ne ∙ unused)
      | inr plain ↦
          inr (ap (λ attrs. bit_and attrs 2) (update-other m.tlb_attrs other 0xff entry ne) ∙ plain)
    ],
  )

  clear_entry-Place :
      (i k n entry other : ℕ) (m : Machine D)
      → m.tlb_entry_indexes k ≢ entry
      → Place i n entry m
      → Place i n entry (clear_entry k other m)
  clear_entry-Place i k n entry other m ne (j, lower, upper, here) = (
    j,
    lower,
    upper,
    update-other m.tlb_entry_indexes k no_entry j (λ e. ne (ap m.tlb_entry_indexes e ∙ here))
        ∙ here,
  )

  module _ (Done : ℕ → Machine D → Type 0) where
    -- Every entry of a linear page, of which there are 2 ^ 20, is done with or has a place.
    abbrev pub Pending : ℕ → ℕ → Machine D → Type 0
    Pending i n m = (entry : ℕ) → entry < 2 ^ 20 → Done entry m ⊎ Place i n entry m

    pub clear_entry-Pending :
        IsCleared Done
        → (i k n : ℕ) (m : Machine D) → Pending i n m
        → Pending i n (clear_entry k (m.tlb_entry_indexes k) m)
    clear_entry-Pending is_cleared i k n m pending entry lt =
        elim (equal-cases (m.tlb_entry_indexes k) entry) [
          | inl same ↦ inl (is_cleared.0 k (m.tlb_entry_indexes k) entry m same)
          | inr ne ↦ elim (pending entry lt) [
            | inl done ↦ inl (is_cleared.1 k (m.tlb_entry_indexes k) entry m ne done)
            | inr place ↦ inr (clear_entry-Place i k n entry (m.tlb_entry_indexes k) m ne place)
          ]
        ]

    pub skip-Pending :
        (i n : ℕ) (m : Machine D)
        → ((entry : ℕ) → entry < 2 ^ 20 → m.tlb_entry_indexes i ≡ entry → Done entry m)
        → Pending i n m
        → Pending (i + 1) n m
    skip-Pending i n m here pending entry lt = elim (pending entry lt) [
      | inl done ↦ inl done
      | inr (j, lower, upper, named) ↦ elim (equal-cases i j) [
        | inl same ↦ inl (here entry lt (ap m.tlb_entry_indexes same ∙ named))
        | inr ne ↦ inr (j, omega arith, upper, named)
      ]
    ]
