-- ===== src/Memory/Traces/Write.antt =====
-- cpu/access.cpp, cpu/smc.cpp: a write to the memory, with the code that it overwrites.
use cpu_ia32_cpp.Base.{
  ℕ, zero, suc, ◌+◌, ◌≡◌, ◌≢◌, refl, ap, ◌∙◌, Bool, true, false, ◌==◌, ◌!=◌, leb, if◌then◌else◌,
  if-either, ==_true, ==_false, bit_and, not32, add32, Width, update, ◌<<<◌, ◌>>>◌,
}
use cpu_ia32_cpp.Memory.State.{Bus, Machine, completed}
use cpu_ia32_cpp.Memory.Tlb.{cpu_mmu_tlb_invalidate}
use cpu_ia32_cpp.Memory.Code.{
  hash_eip, invalid_mask, cpu_smc_has_code, cpu_trace_get_entry, drop_entry, drop_at, drop_block,
  drop_blocks, return_if, cpu_smc_invalidate,
}
use cpu_ia32_cpp.Memory.Access.{
  store, size_code, phys_of, is_mmio_write, put_mem, forget_code, write_at,
}
use cpu_ia32_cpp.Memory.Physical.{to_bus}
use cpu_ia32_cpp.Memory.Traces.Forget.{block_of, Forgets, cpu_smc_invalidate-Forgets}

module _ {D : Type 0} where
  -- The memory itself is not touched by what drops traces.
  abbrev SameMem : Machine D → Machine D → Type 0
  SameMem m after = after.mem ≡ m.mem

  drop_at-SameMem : (phys addr : ℕ) (s : Bool × Machine D) → SameMem s.1 ((drop_at phys addr s).1)
  unfolding drop_at cpu_trace_get_entry
  drop_at-SameMem phys addr s =
      if-either (λ o. SameMem s.1 ((drop_entry phys s o).1))
        (s.1.trace_phys (hash_eip addr) == addr) (λ _. refl) (λ _. refl)

  drop_block-SameMem :
      (rounds j phys base : ℕ) (s : Bool × Machine D)
      → SameMem s.1 ((drop_block rounds j phys base s).1)
  unfolding drop_block
  drop_block-SameMem zero j phys base s = refl
  drop_block-SameMem (suc rounds) j phys base s =
      drop_block-SameMem rounds (j + 1) phys base (drop_at phys (add32 base j) s)
      ∙ drop_at-SameMem phys (add32 base j) s

  drop_blocks-SameMem :
      (rounds i phys pagebase page_info : ℕ) (s : Bool × Machine D)
      → SameMem s.1 ((drop_blocks rounds i phys pagebase page_info s).1)
  unfolding drop_blocks
  drop_blocks-SameMem zero i phys pagebase page_info s = refl
  drop_blocks-SameMem (suc rounds) i phys pagebase page_info s =
      drop_blocks-SameMem rounds (i + 1) phys pagebase page_info (
        if bit_and page_info (1 <<< i) != 0
        then drop_block 128 0 phys (add32 pagebase (i <<< 7)) s
        else s)
      ∙ if-either (λ (s' : Bool × Machine D). SameMem s.1 s'.1) (bit_and page_info (1 <<< i) != 0)
          (λ _. drop_block-SameMem 128 0 phys (add32 pagebase (i <<< 7)) s) (λ _. refl)

  return_if-SameMem :
      (lin : ℕ) (quit clean : Bool) (stored : Machine D)
      → SameMem stored
          (return_if quit (if clean then cpu_mmu_tlb_invalidate lin stored else stored))
  unfolding return_if cpu_mmu_tlb_invalidate
  return_if-SameMem lin true true stored = refl
  return_if-SameMem lin true false stored = refl
  return_if-SameMem lin false true stored = refl
  return_if-SameMem lin false false stored = refl

  cpu_smc_invalidate-SameMem :
      (lin phys : ℕ) (m : Machine D) → SameMem m (cpu_smc_invalidate lin phys m)
  unfolding cpu_smc_invalidate
  cpu_smc_invalidate-SameMem lin phys m =
      let page_info = m.smc_has_code (phys >>> 12) in
      let s =
        drop_blocks (block_of phys + 1) 0 phys (bit_and phys (not32 0xfff)) page_info (false, m) in
      let left = bit_and page_info (not32 (invalid_mask (block_of phys))) in
      let stored = record s.1 { smc_has_code = update s.1.smc_has_code (phys >>> 12) left } in
      if-either (SameMem m) (leb m.smc_has_code_length (phys >>> 12)) (λ _. refl)
        (λ _.
          if-either (SameMem m) (bit_and page_info (invalid_mask (block_of phys)) == 0) (λ _. refl)
            (λ _.
              return_if-SameMem lin s.0 (left == 0) stored
              ∙ drop_blocks-SameMem (block_of phys + 1) 0 phys (bit_and phys (not32 0xfff))
                  page_info (false, m)))

  -- What the code of a written address leaves: the memory, no mark, and no trace that was marked.
  abbrev pub IsForgotten : ℕ → Machine D → Machine D → Type 0
  IsForgotten phys m after =
      (cpu_smc_has_code phys after ≡ 0) × (cpu_smc_has_code phys m ≢ 0 → Forgets phys m after)

  forget_code-IsForgotten :
      (addr phys : ℕ) (m : Machine D)
      → SameMem m (forget_code addr phys m) × IsForgotten phys m (forget_code addr phys m)
  unfolding forget_code
  forget_code-IsForgotten addr phys m =
      if-either (λ (m' : Machine D). SameMem m m' × IsForgotten phys m m')
        (cpu_smc_has_code phys m == 0) {x = m} {y = cpu_smc_invalidate addr phys m}
        (λ clean. (
          refl,
          (
            ==_true (cpu_smc_has_code phys m) 0 clean,
            λ code. absurd (code (==_true (cpu_smc_has_code phys m) 0 clean)),
          ),
        ))
        (λ code.
          let forgotten =
            cpu_smc_invalidate-Forgets addr phys m (==_false (cpu_smc_has_code phys m) 0 code) in
          (cpu_smc_invalidate-SameMem addr phys m, (forgotten.0, λ _. forgotten)))

  put_mem-IsForgotten :
      (w : Width) (phys value : ℕ) (m m' : Machine D)
      → IsForgotten phys m m'
      → IsForgotten phys m (put_mem w phys value m')
  unfolding cpu_smc_has_code cpu_trace_get_entry
  put_mem-IsForgotten w phys value m m' forgotten = forgotten

module _ {D : Type 0} (bus : Bus D) where
  -- A write of 8, 16 or 32 bits, its page translated already, that goes to the memory and not to a
  -- device: it completes, the memory has the value and is else as before, the block of the address is
  -- not marked as code, and if it was, no trace begins in it or in a marked block before it in the
  -- page, the address 2 ^ 32 - 1 left aside.
  pub write_at-IsForgotten :
      (w : Width) (addr value : ℕ) (m : Machine D)
      → is_mmio_write (phys_of addr m) m ≡ false
      → (after : Machine D) × (write_at bus w addr value m ≡ (completed tt, after))
        × (after.mem ≡ store w (phys_of addr m) value m.mem)
        × IsForgotten (phys_of addr m) m after
  unfolding write_at
  write_at-IsForgotten w addr value m direct =
      let phys = phys_of addr m in
      let after = put_mem w phys value (forget_code addr phys m) in
      let (same, forgotten) = forget_code-IsForgotten addr phys m in
      (
        after,
        ap (λ b. if b then to_bus bus phys value (size_code w) m else (completed tt, after)) direct,
        ap (store w phys value) same,
        put_mem-IsForgotten w phys value m (forget_code addr phys m) forgotten,
      )
