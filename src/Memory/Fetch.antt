-- ===== src/Memory/Fetch.antt =====
-- cpu/trace.cpp: the part of `cpu_get_trace` that finds the page of the next instruction, before it is
-- looked up or decoded; and the functions of cpu/access.cpp that show the memory in messages, which
-- return a number where an access fails.
use cpu_ia32_cpp.Base.{
  ℕ, bit_and, bit_or, bit_xor, ◌||◌, leb, ◌!=◌, if◌then◌else◌, not32, add32, sub32, Width, ◌>>>◌,
}
use cpu_ia32_cpp.Memory.State.{
  Bus, Machine, M, Outcome, completed, exception, refused, aborted, modify, pure, ◌>>◌,
}
use cpu_ia32_cpp.Memory.Translate.{cpu_mmu_translate}
use cpu_ia32_cpp.Memory.Access.{tag_of, phys_of, translate_if, read_mem}
use cpu_ia32_cpp.Memory.Segments.{virt_eip}

-- The result, or a number where there is none.
abbrev pub settle : {D : Type 0} → ℕ → Outcome ℕ × Machine D → Outcome ℕ × Machine D
settle failed (completed value, m) = (completed value, m)
settle failed (exception _ _, m) = (completed failed, m)
settle failed (refused, m) = (completed failed, m)
settle failed (aborted, m) = (aborted, m)

module _ {D : Type 0} where
  -- The instruction pointer at its physical address.
  abbrev pub place_eip : ℕ → ℕ → Machine D → Machine D
  place_eip virt lin_eip m = record m {
    phys_eip = phys_of lin_eip m;
    eip_phys_bias = sub32 virt (phys_of lin_eip m);
    last_phys_eip = bit_and (phys_of lin_eip m) (not32 0xfff);
  }

module _ {D : Type 0} (bus : Bus D) where
  -- A page that forbids execution is translated again.
  unfoldable pub fetch_page : M D (Unit {0})
  unfolding cpu_mmu_translate
  fetch_page m =
      let virt = virt_eip m in
      let lin_eip = add32 virt (m.seg_base 1) in
      let stale =
        bit_and (tag_of lin_eip m.tlb_shift_read m) 1 != 0
        || bit_and (m.tlb_attrs (lin_eip >>> 12)) 1 != 0 in
      let translated : M D (Unit {0}) =
        if stale then cpu_mmu_translate bus lin_eip (bit_or m.tlb_shift_read 8) else pure tt in
      if leb (bit_xor m.phys_eip m.last_phys_eip) 4095
      then (completed tt, m)
      else (translated >> modify (place_eip virt lin_eip)) m

  -- `read8`, `read16` and `read32`
  unfoldable pub read_lin : Width → ℕ → M D ℕ
  unfolding read_mem
  read_lin w lin m = settle 0 (read_mem bus w lin m.tlb_shift_read m)

  unfoldable pub lin2phys : ℕ → M D ℕ
  unfolding cpu_mmu_translate
  lin2phys addr m = settle 1 (
      (translate_if bus addr (tag_of addr 0 m) 0 >> λ after.
      (completed (phys_of addr after), after))
        m)
