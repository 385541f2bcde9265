-- ===== src/Memory/Translations/Flush.antt =====
-- cpu/mmu.cpp: the flushes of the translation buffer, over the list of the entries in use.
use cpu_ia32_cpp.Base.{
  ℕ, zero, suc, ◌+◌, ◌^◌, ◌≤◌, ◌<◌, ◌≡◌, refl, sym, ap, ◌∙◌, inl, inr, ◌==◌, bit_and, arith,
  update-at, update-other, subst, if-either, ==_true,
}
use cpu_ia32_cpp.Memory.State.{Machine}
use cpu_ia32_cpp.Memory.Tlb.{
  no_entry, clear_entry, flush_round, flush_from, nonglobal_round, nonglobal_from,
  cpu_mmu_tlb_flush, cpu_mmu_tlb_flush_nonglobal,
}
use cpu_ia32_cpp.Memory.Translations.Listed.{
  Unused, Global, Unused-IsCleared, Global-IsCleared, Pending, clear_entry-Pending, skip-Pending,
}

module _ {D : Type 0} where
  -- A place that is free again names no linear page.
  skip_free :
      (Done : ℕ → Machine D → Type 0) (i n : ℕ) (m : Machine D)
      → m.tlb_entry_indexes i ≡ no_entry
      → Pending Done i n m
      → Pending Done (i + 1) n m
  skip_free Done i n m free pending =
      skip-Pending Done i n m (λ entry lt named. absurd (omega arith)) pending

  flush_round-Pending :
      (i n : ℕ) (m : Machine D) → Pending Unused i n m → Pending Unused (i + 1) n (flush_round i m)
  flush_round-Pending i n m pending =
      if-either (Pending Unused (i + 1) n) (m.tlb_entry_indexes i == no_entry)
        (λ gone. skip_free Unused i n m (==_true _ _ gone) pending)
        (λ _.
          skip_free Unused i n (clear_entry i (m.tlb_entry_indexes i) m)
            (update-at m.tlb_entry_indexes i no_entry i refl)
            (clear_entry-Pending Unused Unused-IsCleared i i n m pending))

  flush_from-Unused :
      (rounds i n : ℕ) (m : Machine D)
      → n ≡ i + rounds
      → Pending Unused i n m
      → (entry : ℕ) → entry < 2 ^ 20
      → Unused entry (flush_from rounds i m)
  unfolding flush_from
  flush_from-Unused zero i n m all pending entry lt = elim (pending entry lt) [
    | inl unused ↦ unused
    | inr (j, lower, upper, _) ↦ absurd (omega arith)
  ]
  flush_from-Unused (suc rounds) i n m all pending entry lt =
      flush_from-Unused rounds (i + 1) n (flush_round i m) (omega arith)
        (flush_round-Pending i n m pending) entry lt

  -- The list behind the count stays.
  flush_from-beyond :
      (rounds i j : ℕ) (m : Machine D)
      → i + rounds ≤ j
      → (flush_from rounds i m).tlb_entry_indexes j ≡ m.tlb_entry_indexes j
  unfolding flush_from
  flush_from-beyond zero i j m le = refl
  flush_from-beyond (suc rounds) i j m le =
      flush_from-beyond rounds (i + 1) j (flush_round i m) (omega arith)
      ∙ if-either (λ (after : Machine D). after.tlb_entry_indexes j ≡ m.tlb_entry_indexes j)
          (m.tlb_entry_indexes i == no_entry) (λ _. refl)
          (λ _. update-other m.tlb_entry_indexes i no_entry j (λ e. absurd (omega arith)))

  pub cpu_mmu_tlb_flush-beyond :
      (j : ℕ) (m : Machine D)
      → m.tlb_entry_count ≤ j
      → (cpu_mmu_tlb_flush m).tlb_entry_indexes j ≡ m.tlb_entry_indexes j
  unfolding cpu_mmu_tlb_flush
  cpu_mmu_tlb_flush-beyond j m le = flush_from-beyond m.tlb_entry_count 0 j m (omega arith)

  -- Places from 0 on, below the count.
  abbrev pub IsListed : Machine D → Type 0
  IsListed m = Pending Unused 0 m.tlb_entry_count m

  pub cpu_mmu_tlb_flush-Unused :
      (m : Machine D)
      → IsListed m
      → (entry : ℕ) → entry < 2 ^ 20
      → Unused entry (cpu_mmu_tlb_flush m)
  unfolding cpu_mmu_tlb_flush
  cpu_mmu_tlb_flush-Unused m listed =
      flush_from-Unused m.tlb_entry_count 0 m.tlb_entry_count m (omega arith) listed

  nonglobal_round-IsListed :
      (i n : ℕ) (m : Machine D) → Pending Unused 0 n m → Pending Unused 0 n (nonglobal_round i m)
  nonglobal_round-IsListed i n m listed =
      if-either (Pending Unused 0 n) (m.tlb_entry_indexes i == no_entry) (λ _. listed)
        (λ _.
          if-either (Pending Unused 0 n) (bit_and (m.tlb_attrs (m.tlb_entry_indexes i)) 2 == 0)
            (λ _. listed) (λ _. clear_entry-Pending Unused Unused-IsCleared 0 i n m listed))

  nonglobal_round-Global :
      (i n : ℕ) (m : Machine D)
      → Pending Global i n m
      → Pending Global (i + 1) n (nonglobal_round i m)
  nonglobal_round-Global i n m pending =
      if-either (Pending Global (i + 1) n) (m.tlb_entry_indexes i == no_entry)
        (λ gone. skip_free Global i n m (==_true _ _ gone) pending)
        (λ _.
          if-either (Pending Global (i + 1) n)
            (bit_and (m.tlb_attrs (m.tlb_entry_indexes i)) 2 == 0)
            (λ global.
              skip-Pending Global i n m
                (λ entry lt named.
                  inr (ap (λ e. bit_and (m.tlb_attrs e) 2) (sym named) ∙ ==_true _ _ global))
                pending)
            (λ _.
              skip_free Global i n (clear_entry i (m.tlb_entry_indexes i) m)
                (update-at m.tlb_entry_indexes i no_entry i refl)
                (clear_entry-Pending Global Global-IsCleared i i n m pending)))

  nonglobal_from-IsListed :
      (rounds i n : ℕ) (m : Machine D)
      → Pending Unused 0 n m
      → Pending Unused 0 n (nonglobal_from rounds i m)
  unfolding nonglobal_from
  nonglobal_from-IsListed zero i n m listed = listed
  nonglobal_from-IsListed (suc rounds) i n m listed =
      nonglobal_from-IsListed rounds (i + 1) n (nonglobal_round i m)
        (nonglobal_round-IsListed i n m listed)

  nonglobal_from-Global :
      (rounds i n : ℕ) (m : Machine D)
      → n ≡ i + rounds
      → Pending Global i n m
      → (entry : ℕ) → entry < 2 ^ 20
      → Global entry (nonglobal_from rounds i m)
  unfolding nonglobal_from
  nonglobal_from-Global zero i n m all pending entry lt = elim (pending entry lt) [
    | inl global ↦ global
    | inr (j, lower, upper, _) ↦ absurd (omega arith)
  ]
  nonglobal_from-Global (suc rounds) i n m all pending entry lt =
      nonglobal_from-Global rounds (i + 1) n (nonglobal_round i m) (omega arith)
        (nonglobal_round-Global i n m pending) entry lt

  abbrev SameCount : Machine D → Machine D → Type 0
  SameCount m after = after.tlb_entry_count ≡ m.tlb_entry_count

  nonglobal_from-count :
      (rounds i : ℕ) (m : Machine D)
      → (nonglobal_from rounds i m).tlb_entry_count ≡ m.tlb_entry_count
  unfolding nonglobal_from
  nonglobal_from-count zero i m = refl
  nonglobal_from-count (suc rounds) i m =
      nonglobal_from-count rounds (i + 1) (nonglobal_round i m)
      ∙ if-either (SameCount m) (m.tlb_entry_indexes i == no_entry) (λ _. refl)
          (λ _.
            if-either (SameCount m) (bit_and (m.tlb_attrs (m.tlb_entry_indexes i)) 2 == 0)
              (λ _. refl) (λ _. refl))

  pub nonglobal-count :
      (m : Machine D) → (cpu_mmu_tlb_flush_nonglobal m).tlb_entry_count ≡ m.tlb_entry_count
  unfolding cpu_mmu_tlb_flush_nonglobal
  nonglobal-count m = nonglobal_from-count m.tlb_entry_count 0 m

  pub nonglobal-IsListed : (m : Machine D) → IsListed m → IsListed (cpu_mmu_tlb_flush_nonglobal m)
  unfolding cpu_mmu_tlb_flush_nonglobal
  nonglobal-IsListed m listed =
      subst (λ n. Pending Unused 0 n (nonglobal_from m.tlb_entry_count 0 m))
        (sym (nonglobal_from-count m.tlb_entry_count 0 m))
        (nonglobal_from-IsListed m.tlb_entry_count 0 m.tlb_entry_count m listed)

  pub nonglobal-Global :
      (m : Machine D)
      → IsListed m
      → (entry : ℕ) → entry < 2 ^ 20
      → Global entry (cpu_mmu_tlb_flush_nonglobal m)
  unfolding cpu_mmu_tlb_flush_nonglobal
  nonglobal-Global m listed =
      nonglobal_from-Global m.tlb_entry_count 0 m.tlb_entry_count m (omega arith) (λ entry lt.
        elim (listed entry lt) [ inl unused ↦ inl (inl unused) | inr place ↦ inr place ])
