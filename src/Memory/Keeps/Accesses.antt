-- ===== src/Memory/Keeps/Accesses.antt =====
-- cpu/access.cpp, cpu/smc.cpp: the registers and the segments at the end of an access to memory,
-- which is its return or its call of `cpu_exception`.
use cpu_ia32_cpp.Base.{
  ℕ, zero, suc, ◌+◌, ◌*◌, refl, ◌∙◌, Bool, true, false, ◌==◌, ◌!=◌, leb, Option, none, some,
  if◌then◌else◌, bit_and, bit_or, not32, add32, u32, Width, w8, update, ◌<<<◌, ◌>>>◌,
}
use cpu_ia32_cpp.Memory.State.{Bus, Machine}
use cpu_ia32_cpp.Memory.Tlb.{cpu_mmu_tlb_invalidate}
use cpu_ia32_cpp.Memory.Code.{
  invalid_mask, cpu_smc_has_code, cpu_trace_get_entry, drop_entry, drop_at, drop_block, drop_blocks,
  return_if, cpu_smc_invalidate,
}
use cpu_ia32_cpp.Memory.Physical.{is_mmio_read}
use cpu_ia32_cpp.Memory.Access.{
  align_mask, bytes, is_indirect, tag_of, phys_of, is_mmio_write, forget_code, translate_if,
  read_at, write_at, read_aligned, write_aligned, read_bytes, write_bytes, cpu_access_read,
  cpu_access_write, read_mem, write_mem,
}
use cpu_ia32_cpp.Cpu.State.{cpu_request_fast_return}
use cpu_ia32_cpp.Memory.Keeps.Rules.{
  IsKept, IsPrecise, IsKept-IsPrecise, Keeps, bind-Keeps, then-Keeps, if-Keeps, if-IsKept,
  if_result-IsKept, pure-Keeps,
}
use cpu_ia32_cpp.Memory.Keeps.Walks.{cpu_mmu_translate-Keeps}

module _ {D : Type 0} where
  drop_entry-IsKept :
      (phys : ℕ) (s : Bool × Machine D) (found : Option ℕ)
      → IsKept (s.1) ((drop_entry phys s found).1)
  drop_entry-IsKept phys s none = refl
  drop_entry-IsKept phys s (some place) = refl

  drop_block-IsKept :
      (rounds j phys base : ℕ) (s : Bool × Machine D)
      → IsKept (s.1) ((drop_block rounds j phys base s).1)
  unfolding drop_block drop_at
  drop_block-IsKept zero j phys base s = refl
  drop_block-IsKept (suc rounds) j phys base s =
      drop_block-IsKept rounds (j + 1) phys base (drop_at phys (add32 base j) s)
      ∙ drop_entry-IsKept phys s (cpu_trace_get_entry (add32 base j) (s.1))

  marked_block-IsKept :
      (b : Bool) (phys base : ℕ) (s : Bool × Machine D)
      → IsKept (s.1) ((if b then drop_block 128 0 phys base s else s).1)
  marked_block-IsKept true phys base s = drop_block-IsKept 128 0 phys base s
  marked_block-IsKept false phys base s = refl

  drop_blocks-IsKept :
      (rounds i phys pagebase page_info : ℕ) (s : Bool × Machine D)
      → IsKept (s.1) ((drop_blocks rounds i phys pagebase page_info s).1)
  unfolding drop_blocks
  drop_blocks-IsKept zero i phys pagebase page_info s = refl
  drop_blocks-IsKept (suc rounds) i phys pagebase page_info s =
      drop_blocks-IsKept rounds (i + 1) phys pagebase page_info _
      ∙ marked_block-IsKept (bit_and page_info (1 <<< i) != 0) phys (add32 pagebase (i <<< 7)) s

  return_if-IsKept : (quit : Bool) (m : Machine D) → IsKept m (return_if quit m)
  unfolding return_if cpu_request_fast_return
  return_if-IsKept true m = refl
  return_if-IsKept false m = refl

  invalidate_if-IsKept :
      (clean : Bool) (lin : ℕ) (m : Machine D)
      → IsKept m (if clean then cpu_mmu_tlb_invalidate lin m else m)
  unfolding cpu_mmu_tlb_invalidate
  invalidate_if-IsKept true lin m = refl
  invalidate_if-IsKept false lin m = refl

  cpu_smc_invalidate-IsKept :
      (lin phys : ℕ) (m : Machine D) → IsKept m (cpu_smc_invalidate lin phys m)
  unfolding cpu_smc_invalidate
  cpu_smc_invalidate-IsKept lin phys m =
      let page_info = m.smc_has_code (phys >>> 12) in
      let p128 = bit_and (phys >>> 7) 31 in
      let left = bit_and page_info (not32 (invalid_mask p128)) in
      let s = drop_blocks (p128 + 1) 0 phys (bit_and phys (not32 0xfff)) page_info (false, m) in
      let stored = record s.1 { smc_has_code = update s.1.smc_has_code (phys >>> 12) left } in
      if-IsKept (leb m.smc_has_code_length (phys >>> 12)) m m _ refl (
        if-IsKept (bit_and page_info (invalid_mask p128) == 0) m m _ refl (
          return_if-IsKept (s.0) _
          ∙ invalidate_if-IsKept (left == 0) lin stored
          ∙ drop_blocks-IsKept (p128 + 1) 0 phys (bit_and phys (not32 0xfff)) page_info (false, m)))

  forget_code-IsKept : (addr phys : ℕ) (m : Machine D) → IsKept m (forget_code addr phys m)
  unfolding forget_code
  forget_code-IsKept addr phys m =
      if-IsKept (cpu_smc_has_code phys m == 0) m m _ refl (cpu_smc_invalidate-IsKept addr phys m)

module _ {D : Type 0} (bus : Bus D) where
  translate_if-Keeps : (addr tag shift : ℕ) → Keeps (translate_if bus addr tag shift)
  unfolding translate_if
  translate_if-Keeps addr tag shift =
      if-Keeps (bit_and tag 2 != 0) _ _ (cpu_mmu_translate-Keeps bus addr shift) (pure-Keeps tt)

  read_at-Keeps : (w : Width) (addr : ℕ) → Keeps (read_at bus w addr)
  unfolding read_at
  read_at-Keeps w addr = record {
    kept = λ m. if_result-IsKept (is_mmio_read (phys_of addr m) m) m _ _ refl refl;
  }

  write_at-Keeps : (w : Width) (addr value : ℕ) → Keeps (write_at bus w addr value)
  unfolding write_at
  write_at-Keeps w addr value = record {
    kept = λ m.
        if_result-IsKept (is_mmio_write (phys_of addr m) m) m _ _ refl
          (forget_code-IsKept addr (phys_of addr m) m);
  }

  read_aligned-Keeps : (w : Width) (addr tag shift : ℕ) → Keeps (read_aligned bus w addr tag shift)
  unfolding read_aligned
  read_aligned-Keeps w addr tag shift =
      then-Keeps _ _ (translate_if-Keeps addr tag shift) (read_at-Keeps w addr)

  write_aligned-Keeps :
      (w : Width) (addr value tag shift : ℕ) → Keeps (write_aligned bus w addr value tag shift)
  unfolding write_aligned
  write_aligned-Keeps w addr value tag shift =
      then-Keeps _ _ (translate_if-Keeps addr tag shift) (write_at-Keeps w addr value)

  read_bytes-Keeps : (rounds i res addr shift : ℕ) → Keeps (read_bytes bus rounds i res addr shift)
  unfolding read_bytes
  read_bytes-Keeps zero i res addr shift = pure-Keeps res
  read_bytes-Keeps (suc rounds) i res addr shift = record {
    kept = λ m.
        (bind-Keeps _ _ (read_aligned-Keeps w8 (add32 addr i) (tag_of (add32 addr i) shift m) shift)
            (λ byte.
              read_bytes-Keeps rounds (i + 1) (bit_or res (u32 (byte <<< (8 * i)))) addr
                shift)).kept
          m;
  }

  write_bytes-Keeps :
      (rounds i value addr shift : ℕ) → Keeps (write_bytes bus rounds i value addr shift)
  unfolding write_bytes
  write_bytes-Keeps zero i value addr shift = pure-Keeps tt
  write_bytes-Keeps (suc rounds) i value addr shift = record {
    kept = λ m.
        (then-Keeps _ _
            (write_aligned-Keeps w8 (add32 addr i) (value >>> (8 * i))
              (tag_of (add32 addr i) shift m) shift)
            (write_bytes-Keeps rounds (i + 1) value addr shift)).kept
          m;
  }

  cpu_access_read-Keeps :
      (w : Width) (addr tag shift : ℕ) → Keeps (cpu_access_read bus w addr tag shift)
  unfolding cpu_access_read
  cpu_access_read-Keeps w addr tag shift =
      if-Keeps (bit_and addr (align_mask w) != 0) _ _ (read_bytes-Keeps (bytes w) 0 0 addr shift)
        (read_aligned-Keeps w addr tag shift)

  cpu_access_write-Keeps :
      (w : Width) (addr value tag shift : ℕ) → Keeps (cpu_access_write bus w addr value tag shift)
  unfolding cpu_access_write
  cpu_access_write-Keeps w addr value tag shift =
      if-Keeps (bit_and addr (align_mask w) != 0) _ _
        (write_bytes-Keeps (bytes w) 0 value addr shift)
        (write_aligned-Keeps w addr value tag shift)

  pub read_mem-Keeps : (w : Width) (addr shift : ℕ) → Keeps (read_mem bus w addr shift)
  unfolding read_mem
  read_mem-Keeps w addr shift = record {
    kept = λ m.
        if_result-IsKept (is_indirect w addr (tag_of addr shift m)) m _ _
          ((cpu_access_read-Keeps w addr (tag_of addr shift m) shift).kept m) refl;
  }

  pub write_mem-Keeps :
      (w : Width) (addr value shift : ℕ) → Keeps (write_mem bus w addr value shift)
  unfolding write_mem
  write_mem-Keeps w addr value shift = record {
    kept = λ m.
        if_result-IsKept (is_indirect w addr (tag_of addr shift m)) m _ _
          ((cpu_access_write-Keeps w addr value (tag_of addr shift m) shift).kept m) refl;
  }

  -- A read and a write of 1, 2 or 4 bytes at any address, the walk of the page tables, the call of a
  -- device and the pieces of a misaligned access included: when the access returns without an
  -- exception, and when it calls `cpu_exception`, at that call, the registers, the lazy and the stored
  -- flags, the segments, the privilege level and both parts of the instruction pointer are as they
  -- were before the access. What `cpu_exception` then changes is not in it.
  pub access-IsPrecise :
      (w : Width) (addr value shift_read shift_write : ℕ) (m : Machine D)
      → IsPrecise m (read_mem bus w addr shift_read m)
        × IsPrecise m (write_mem bus w addr value shift_write m)
  access-IsPrecise w addr value shift_read shift_write m = (
    IsKept-IsPrecise m _ ((read_mem-Keeps w addr shift_read).kept m),
    IsKept-IsPrecise m _ ((write_mem-Keeps w addr value shift_write).kept m),
  )
