-- ===== src/Memory/Traces/Dropped.antt =====
-- cpu/smc.cpp: the loops of `cpu_smc_invalidate` over the bytes of the marked blocks.
use cpu_ia32_cpp.Base.{
  ℕ, zero, suc, ◌+◌, ◌≤◌, ◌<◌, ◌≡◌, refl, sym, ◌∙◌, ◌≢◌, ◌⊎◌, inl, inr, Bool, ◌==◌, ◌!=◌,
  if◌then◌else◌, bit_and, add32, arith, subst, if-either, update-cases, equal-cases, ==_false,
  ◌<<<◌,
}
use cpu_ia32_cpp.Memory.State.{Machine}
use cpu_ia32_cpp.Memory.Tlb.{no_entry}
use cpu_ia32_cpp.Memory.Code.{
  hash_eip, cpu_trace_get_entry, drop_trace, drop_entry, drop_at, drop_block, drop_blocks,
}

module _ {D : Type 0} where
  -- No trace begins at this address.
  abbrev pub Dropped : ℕ → Bool × Machine D → Type 0
  Dropped addr s = s.1.trace_phys (hash_eip addr) ≢ addr

  drop_trace-Dropped :
      (place addr : ℕ) (quit : Bool) (m : Machine D)
      → addr < no_entry
      → (place ≡ hash_eip addr) ⊎ Dropped addr (quit, m)
      → Dropped addr (quit, drop_trace place m)
  drop_trace-Dropped place addr quit m lt before =
      elim (update-cases m.trace_phys place no_entry (hash_eip addr)) [
        | inl (_, dropped) ↦ λ e. absurd (omega arith)
        | inr (ne, kept) ↦ elim before [
          | inl same ↦ λ e. ne same
          | inr ne' ↦ λ e. ne' (sym kept ∙ e)
        ]
      ]

  -- A round at the address itself, and one at another.
  drop_at-Dropped :
      (phys addr : ℕ) (s : Bool × Machine D) → addr < no_entry → Dropped addr (drop_at phys addr s)
  unfolding drop_at cpu_trace_get_entry
  drop_at-Dropped phys addr s lt =
      if-either (λ o. Dropped addr (drop_entry phys s o)) (s.1.trace_phys (hash_eip addr) == addr)
        (λ _. drop_trace-Dropped (hash_eip addr) addr s.0 s.1 lt (inl refl))
        (λ other. ==_false _ _ other)

  drop_at-keeps :
      (phys other addr : ℕ) (s : Bool × Machine D)
      → addr < no_entry
      → Dropped addr s
      → Dropped addr (drop_at phys other s)
  unfolding drop_at cpu_trace_get_entry
  drop_at-keeps phys other addr s lt dropped =
      if-either (λ o. Dropped addr (drop_entry phys s o)) (s.1.trace_phys (hash_eip other) == other)
        (λ _. drop_trace-Dropped (hash_eip other) addr s.0 s.1 lt (inr dropped)) (λ _. dropped)

  -- The bytes of a block.
  drop_block-keeps :
      (rounds j phys base addr : ℕ) (s : Bool × Machine D)
      → addr < no_entry
      → Dropped addr s
      → Dropped addr (drop_block rounds j phys base s)
  unfolding drop_block
  drop_block-keeps zero j phys base addr s lt dropped = dropped
  drop_block-keeps (suc rounds) j phys base addr s lt dropped =
      drop_block-keeps rounds (j + 1) phys base addr (drop_at phys (add32 base j) s) lt
        (drop_at-keeps phys (add32 base j) addr s lt dropped)

  drop_block-Dropped :
      (rounds j k phys base : ℕ) (s : Bool × Machine D)
      → add32 base k < no_entry
      → j ≤ k
      → k < j + rounds
      → Dropped (add32 base k) (drop_block rounds j phys base s)
  unfolding drop_block
  drop_block-Dropped zero j k phys base s lt lower upper = absurd (omega arith)
  drop_block-Dropped (suc rounds) j k phys base s lt lower upper = elim (equal-cases j k) [
    | inl same ↦
        drop_block-keeps rounds (j + 1) phys base (add32 base k) (drop_at phys (add32 base j) s) lt
          (subst (λ n. Dropped (add32 base k) (drop_at phys (add32 base n) s)) (sym same)
            (drop_at-Dropped phys (add32 base k) s lt))
    | inr ne ↦
        drop_block-Dropped rounds (j + 1) k phys base (drop_at phys (add32 base j) s) lt
          (omega arith) (omega arith)
  ]

  module _ (phys pagebase page_info : ℕ) where
    -- The state after one block of the outer loop.
    abbrev after_block : ℕ → Bool × Machine D → Bool × Machine D
    after_block i s =
        if bit_and page_info (1 <<< i) != 0
        then drop_block 128 0 phys (add32 pagebase (i <<< 7)) s
        else s

    after_block-keeps :
        (i addr : ℕ) (s : Bool × Machine D)
        → addr < no_entry
        → Dropped addr s
        → Dropped addr (after_block i s)
    after_block-keeps i addr s lt dropped =
        if-either (Dropped addr) (bit_and page_info (1 <<< i) != 0)
          (λ _. drop_block-keeps 128 0 phys (add32 pagebase (i <<< 7)) addr s lt dropped)
          (λ _. dropped)

    drop_blocks-keeps :
        (rounds i addr : ℕ) (s : Bool × Machine D)
        → addr < no_entry
        → Dropped addr s
        → Dropped addr (drop_blocks rounds i phys pagebase page_info s)
    unfolding drop_blocks
    drop_blocks-keeps zero i addr s lt dropped = dropped
    drop_blocks-keeps (suc rounds) i addr s lt dropped =
        drop_blocks-keeps rounds (i + 1) addr (after_block i s) lt
          (after_block-keeps i addr s lt dropped)

    pub drop_blocks-Dropped :
        (rounds i b k : ℕ) (s : Bool × Machine D)
        → add32 (add32 pagebase (b <<< 7)) k < no_entry
        → bit_and page_info (1 <<< b) ≢ 0
        → i ≤ b
        → b < i + rounds
        → k < 128
        → Dropped
            (add32 (add32 pagebase (b <<< 7)) k)
            (drop_blocks rounds i phys pagebase page_info s)
    unfolding drop_blocks
    drop_blocks-Dropped zero i b k s lt marked lower upper k_lt = absurd (omega arith)
    drop_blocks-Dropped (suc rounds) i b k s lt marked lower upper k_lt = elim (equal-cases i b) [
      | inl same ↦
          drop_blocks-keeps rounds (i + 1) (add32 (add32 pagebase (b <<< 7)) k) (after_block i s) lt
            (subst (λ n. Dropped (add32 (add32 pagebase (b <<< 7)) k) (after_block n s)) (sym same)
              (if-either (Dropped (add32 (add32 pagebase (b <<< 7)) k))
                (bit_and page_info (1 <<< b) != 0)
                (λ _.
                  drop_block-Dropped 128 0 k phys (add32 pagebase (b <<< 7)) s lt (omega arith)
                    (omega arith))
                (λ clear. absurd (ground arith))))
      | inr ne ↦
          drop_blocks-Dropped rounds (i + 1) b k (after_block i s) lt marked (omega arith)
            (omega arith) k_lt
    ]
