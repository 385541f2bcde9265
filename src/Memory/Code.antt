-- ===== src/Memory/Code.antt =====
-- cpu/smc.cpp: which blocks of 128 bytes hold decoded code, and what a write to them undoes. With it
-- the lookup in the table of traces (cpu/trace.cpp), 64K entries by the low bits of the address.
use cpu_ia32_cpp.Base.{
  ℕ, zero, suc, ◌+◌, ◌-◌, bit_and, bit_or, Bool, true, false, ◌&&◌, ◌||◌, leb, ◌==◌, ◌!=◌, Option,
  none, some, if◌then◌else◌, not32, add32, update, ◌<<<◌, ◌>>>◌,
}
use cpu_ia32_cpp.Cpu.State.{cpu_request_fast_return}
use cpu_ia32_cpp.Memory.State.{Machine}
use cpu_ia32_cpp.Memory.Tlb.{no_entry, cpu_mmu_tlb_invalidate}

abbrev pub hash_eip : ℕ → ℕ
hash_eip phys = bit_and phys 0xffff

-- `1 << (phys & 31)` for an address already shifted to its block.
abbrev pub block_bit : ℕ → ℕ
block_bit block = 1 <<< bit_and block 31

-- All bits up to that of the block that is written.
abbrev pub invalid_mask : ℕ → ℕ
invalid_mask p128 = bit_or (1 <<< p128) ((1 <<< p128) - 1)

module _ {D : Type 0} where
  unfoldable pub cpu_smc_has_code : ℕ → Machine D → ℕ
  cpu_smc_has_code phys m =
      let block = phys >>> 7 in
      if leb m.smc_has_code_length (block >>> 5)
      then 0
      else bit_and (m.smc_has_code (block >>> 5)) (block_bit block)

  unfoldable pub cpu_smc_set_code : ℕ → Machine D → Machine D
  cpu_smc_set_code phys m =
      let block = phys >>> 7 in
      if leb m.smc_has_code_length (block >>> 5) then m else record m {
        smc_has_code =
            update m.smc_has_code (block >>> 5)
              (bit_or (m.smc_has_code (block >>> 5)) (block_bit block));
      }

  -- The place of the entry for exactly this address, if there is one.
  unfoldable pub cpu_trace_get_entry : ℕ → Machine D → Option ℕ
  cpu_trace_get_entry phys m =
      if m.trace_phys (hash_eip phys) == phys then some (hash_eip phys) else none

  abbrev pub drop_trace : ℕ → Machine D → Machine D
  drop_trace place m = record m { trace_phys = update m.trace_phys place no_entry }

  -- The instruction that is being executed stands in the trace.
  abbrev pub covers : ℕ → ℕ → Machine D → Bool
  covers phys place m =
      leb (m.trace_phys place) phys
      && leb phys (add32 (m.trace_phys place) (bit_and (m.trace_flags place) 0x3ff))

  -- What a round does with the entry that it finds. The flag is `quit`.
  abbrev pub drop_entry : ℕ → Bool × Machine D → Option ℕ → Bool × Machine D
  drop_entry phys s none = s
  drop_entry phys s (some place) = (s.0 || covers phys place s.1, drop_trace place s.1)

  -- A round of the inner loop: the byte at `addr`, for a write to `phys`.
  unfoldable pub drop_at : ℕ → ℕ → Bool × Machine D → Bool × Machine D
  unfolding cpu_trace_get_entry
  drop_at phys addr s = drop_entry phys s (cpu_trace_get_entry addr s.1)

  -- The inner loop from byte `j`, with `rounds` to go.
  unfoldable pub drop_block : ℕ → ℕ → ℕ → ℕ → Bool × Machine D → Bool × Machine D
  unfolding drop_at
  drop_block zero j phys base s = s
  drop_block (suc rounds) j phys base s =
      drop_block rounds (j + 1) phys base (drop_at phys (add32 base j) s)

  -- The outer loop from block `i`, with `rounds` to go, over the blocks that `page_info` marks.
  unfoldable pub drop_blocks : ℕ → ℕ → ℕ → ℕ → ℕ → Bool × Machine D → Bool × Machine D
  unfolding drop_block
  drop_blocks zero i phys pagebase page_info s = s
  drop_blocks (suc rounds) i phys pagebase page_info s =
      drop_blocks rounds (i + 1) phys pagebase page_info (
        if bit_and page_info (1 <<< i) != 0
        then drop_block 128 0 phys (add32 pagebase (i <<< 7)) s
        else s)

  unfoldable pub return_if : Bool → Machine D → Machine D
  unfolding cpu_request_fast_return
  return_if quit m = if quit then record m { cpu = cpu_request_fast_return m.cpu } else m

  unfoldable pub cpu_smc_invalidate : ℕ → ℕ → Machine D → Machine D
  unfolding return_if drop_blocks cpu_mmu_tlb_invalidate
  cpu_smc_invalidate lin phys m =
      let pageid = phys >>> 12 in
      let page_info = m.smc_has_code pageid in
      let p128 = bit_and (phys >>> 7) 31 in
      let invmask = invalid_mask p128 in
      let (quit, m') =
        drop_blocks (p128 + 1) 0 phys (bit_and phys (not32 0xfff)) page_info (false, m) in
      let left = bit_and page_info (not32 invmask) in
      let stored = record m' { smc_has_code = update m'.smc_has_code pageid left } in
      if leb m.smc_has_code_length pageid
      then m
      else if bit_and page_info invmask == 0
      then m
      else return_if quit (if left == 0 then cpu_mmu_tlb_invalidate lin stored else stored)

  -- The loop ends before the last block of the page, and `quit` is set from the start.
  unfoldable pub cpu_smc_invalidate_page : ℕ → Machine D → Machine D
  unfolding return_if drop_blocks
  cpu_smc_invalidate_page phys m =
      let page_info = m.smc_has_code (phys >>> 12) in
      let (quit, m') = drop_blocks 31 0 phys (bit_and phys (not32 0xfff)) page_info (true, m) in
      return_if quit m'
