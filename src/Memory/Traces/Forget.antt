-- ===== src/Memory/Traces/Forget.antt =====
-- cpu/smc.cpp, cpu/access.cpp: what a write to code leaves of the traces and of the marks.
use cpu_ia32_cpp.Base.{
  ℕ, ◌+◌, ◌≤◌, ◌<◌, ◌≡◌, refl, ap, ◌∙◌, ◌≢◌, Bool, true, false, ◌==◌, leb, none, if◌then◌else◌,
  bit_and, not32, add32, arith, if-either, update, update-at, ==_true, ◌<<<◌, ◌>>>◌,
}
use cpu_ia32_cpp.Base.Bits.{
  all_below, all_below_sound, bit_and_assoc, bit_and-lt, bit_and-zero, masked-bit_or,
}
use cpu_ia32_cpp.Memory.State.{Machine}
use cpu_ia32_cpp.Memory.Tlb.{no_entry, cpu_mmu_tlb_invalidate}
use cpu_ia32_cpp.Memory.Code.{
  invalid_mask, cpu_smc_has_code, cpu_trace_get_entry, drop_blocks, return_if, cpu_smc_invalidate,
}
use cpu_ia32_cpp.Memory.Traces.Dropped.{Dropped, drop_blocks-Dropped}

mask_table : all_below 32 (λ p. bit_and (not32 (invalid_mask p)) (1 <<< p) == 0) ≡ true
unfolding all_below
mask_table = refl

-- The bits that stay after a write to block `p` do not have that of the block itself.
left-block :
    (page_info p : ℕ) → p < 32 → bit_and (bit_and page_info (not32 (invalid_mask p))) (1 <<< p) ≡ 0
left-block page_info p lt =
    bit_and_assoc page_info (not32 (invalid_mask p)) (1 <<< p)
    ∙ ap (bit_and page_info) (
        ==_true _ _ (
          all_below_sound 32 (λ (n : ℕ). bit_and (not32 (invalid_mask n)) (1 <<< n) == 0) p
            mask_table lt))
    ∙ bit_and-zero page_info

-- The block within its page that an address stands in, and the address of byte `k` of block `b`.
abbrev pub block_of : ℕ → ℕ
block_of phys = bit_and (phys >>> 7) 31

abbrev pub byte_of : ℕ → ℕ → ℕ → ℕ
byte_of phys b k = add32 (add32 (bit_and phys (not32 0xfff)) (b <<< 7)) k

else_nonzero : (b : Bool) (n : ℕ) → (if b then 0 else n) ≢ 0 → (b ≡ false) × (n ≢ 0)
else_nonzero true n ne = absurd (ne refl)
else_nonzero false n ne = (refl, ne)

module _ {D : Type 0} where
  -- The blocks marked up to that of `phys`.
  abbrev pub Marked : ℕ → ℕ → Machine D → Type 0
  Marked phys b m = (b ≤ block_of phys) × (bit_and (m.smc_has_code (phys >>> 12)) (1 <<< b) ≢ 0)

  -- The block of `phys` is not marked, and no trace begins in a block that was marked up to it.
  abbrev pub Forgets : ℕ → Machine D → Machine D → Type 0
  Forgets phys m after =
      (cpu_smc_has_code phys after ≡ 0)
      × ((b k : ℕ)
          → Marked phys b m
          → k < 128
          → byte_of phys b k < no_entry
          → cpu_trace_get_entry (byte_of phys b k) after ≡ none)

  get_entry-Dropped :
      (addr : ℕ) (quit : Bool) (m : Machine D)
      → Dropped addr (quit, m)
      → cpu_trace_get_entry addr m ≡ none
  unfolding cpu_trace_get_entry
  get_entry-Dropped addr quit m dropped =
      if-either (λ o. o ≡ none) (m.trace_phys _ == addr)
        (λ same. absurd (dropped (==_true _ _ same))) (λ _. refl)

  -- The same page by two ways.
  cpu_smc_has_code-page :
      (phys : ℕ) (m : Machine D)
      → cpu_smc_has_code phys m ≡ (
          if leb m.smc_has_code_length (phys >>> 12)
          then 0
          else bit_and (m.smc_has_code (phys >>> 12)) (1 <<< block_of phys))
  unfolding cpu_smc_has_code
  cpu_smc_has_code-page phys m =
      ap
        (λ page.
          if leb m.smc_has_code_length page
          then 0
          else bit_and (m.smc_has_code page) (1 <<< block_of phys))
        page_twice
    where
      page_twice : phys >>> 7 >>> 5 ≡ phys >>> 12
      page_twice = omega arith

  -- What the mark of a block says.
  has_code-known :
      (phys : ℕ) (m : Machine D)
      → cpu_smc_has_code phys m ≢ 0
      → (leb m.smc_has_code_length (phys >>> 12) ≡ false)
        × (bit_and (m.smc_has_code (phys >>> 12)) (invalid_mask (block_of phys)) ≢ 0)
  has_code-known phys m code =
      let (known, marked) = else_nonzero _ _ (λ e. code (cpu_smc_has_code-page phys m ∙ e)) in
      (known, λ e. marked (masked-bit_or _ _ _ e))

  -- The marks that are stored, in any state.
  stored-clear :
      (phys page_info : ℕ) (m : Machine D)
      → cpu_smc_has_code phys (record m {
        smc_has_code =
            update m.smc_has_code
              (phys >>> 12)
              (bit_and page_info (not32 (invalid_mask (block_of phys))));
      })
        ≡ 0
  stored-clear phys page_info m =
      let left = bit_and page_info (not32 (invalid_mask (block_of phys))) in
      let stored = update m.smc_has_code (phys >>> 12) left in
      cpu_smc_has_code-page phys (record m { smc_has_code = stored })
      ∙ if-either (λ n. n ≡ 0) (leb m.smc_has_code_length (phys >>> 12)) (λ _. refl)
          (λ _.
            ap (λ page. bit_and page (1 <<< block_of phys))
              (update-at m.smc_has_code (phys >>> 12) left (phys >>> 12) refl)
            ∙ left-block page_info (block_of phys) (bit_and-lt 5 (phys >>> 7) 31 (omega arith)))

  -- The end of the call touches neither marks nor traces.
  return_if-Forgets :
      (lin phys : ℕ) (quit clean : Bool) (m stored : Machine D)
      → Forgets phys m stored
      → Forgets phys m
          (return_if quit (if clean then cpu_mmu_tlb_invalidate lin stored else stored))
  unfolding return_if cpu_mmu_tlb_invalidate cpu_smc_has_code cpu_trace_get_entry
  return_if-Forgets lin phys true true m stored forgotten = forgotten
  return_if-Forgets lin phys true false m stored forgotten = forgotten
  return_if-Forgets lin phys false true m stored forgotten = forgotten
  return_if-Forgets lin phys false false m stored forgotten = forgotten

  -- `cpu_smc_invalidate` for a write at `phys`, in a block that is marked as code: the block is not
  -- marked any more, and no trace begins in it or in a marked block before it in the page, the address
  -- 2 ^ 32 - 1 left aside.
  pub cpu_smc_invalidate-Forgets :
      (lin phys : ℕ) (m : Machine D)
      → cpu_smc_has_code phys m ≢ 0
      → Forgets phys m (cpu_smc_invalidate lin phys m)
  unfolding cpu_smc_invalidate
  cpu_smc_invalidate-Forgets lin phys m code =
      let (known, marked) = has_code-known phys m code in
      let page_info = m.smc_has_code (phys >>> 12) in
      let s =
        drop_blocks (block_of phys + 1) 0 phys (bit_and phys (not32 0xfff)) page_info (false, m) in
      let left = bit_and page_info (not32 (invalid_mask (block_of phys))) in
      let stored = record s.1 { smc_has_code = update s.1.smc_has_code (phys >>> 12) left } in
      let forgotten : Forgets phys m stored = (
        stored-clear phys page_info s.1,
        λ b k block k_lt fits. get_entry-Dropped (byte_of phys b k) false stored (
            drop_blocks-Dropped phys (bit_and phys (not32 0xfff)) page_info (block_of phys + 1) 0 b
              k (false, m) fits block.1 (omega arith) (omega (arith, block.0)) k_lt),
      ) in
      if-either (Forgets phys m) (leb m.smc_has_code_length (phys >>> 12)) (λ unknown. cc)
        (λ _.
          if-either (Forgets phys m) (bit_and page_info (invalid_mask (block_of phys)) == 0)
            (λ none_marked. absurd (marked (==_true _ _ none_marked)))
            (λ _. return_if-Forgets lin phys s.0 (left == 0) m stored forgotten))
