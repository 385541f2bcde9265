-- ===== src/Memory/Access.antt =====
-- cpu/access.cpp: reads and writes at a linear address, each with the tag bits of its page, and the
-- macro of the callers that goes to the memory itself when these bits allow it. The three widths of a
-- function are one definition; `m_read_result` is what a read returns.
use cpu_ia32_cpp.Base.{
  ℕ, zero, suc, ◌+◌, ◌*◌, bit_and, bit_or, bit_xor, Bool, ◌&&◌, ◌||◌, ltb, leb, ◌==◌, ◌!=◌,
  if◌then◌else◌, not32, u32, add32, Width, w8, w16, w32, ◌<<<◌, ◌>>>◌,
}
use cpu_ia32_cpp.Memory.State.{Bus, Machine, M, completed, get, pure, ◌>>=◌, ◌>>◌}
use cpu_ia32_cpp.Memory.Physical.{
  load8, load16, load32, store8, store16, store32, is_mmio_read, from_bus, to_bus,
}
use cpu_ia32_cpp.Memory.Code.{cpu_smc_has_code, cpu_smc_invalidate}
use cpu_ia32_cpp.Memory.Translate.{cpu_mmu_translate}

-- The size for the bus.
abbrev pub size_code : Width → ℕ
size_code w8 = 0
size_code w16 = 1
size_code w32 = 2

abbrev pub bytes : Width → ℕ
bytes w8 = 1
bytes w16 = 2
bytes w32 = 4

abbrev pub load : Width → (ℕ → ℕ) → ℕ → ℕ
load w8 = load8
load w16 = load16
load w32 = load32

abbrev pub store : Width → ℕ → ℕ → (ℕ → ℕ) → ℕ → ℕ
store w8 = store8
store w16 = store16
store w32 = store32

-- The bits of an address that are 0 where the width is aligned.
abbrev pub align_mask : Width → ℕ
align_mask w8 = 0
align_mask w16 = 1
align_mask w32 = 3

-- The test of the macro before it goes to the memory itself.
abbrev pub is_indirect : Width → ℕ → ℕ → Bool
is_indirect w8 addr tag = bit_and tag 1 != 0
is_indirect w16 addr tag = bit_and (bit_or addr tag) 1 != 0
is_indirect w32 addr tag = bit_and (bit_or addr tag) 3 != 0

module _ {D : Type 0} where
  -- `m_tlb_tags[addr >> 12] >> shift`
  abbrev pub tag_of : ℕ → ℕ → Machine D → ℕ
  tag_of addr shift m = m.tlb_tags (addr >>> 12) >>> shift

  -- The distance of `m_tlb[addr >> 12] + addr` from `m_mem`.
  abbrev pub phys_of : ℕ → Machine D → ℕ
  phys_of addr m = add32 (m.tlb (addr >>> 12)) addr

  -- A write goes past the memory over a wider range than a read.
  abbrev pub is_mmio_write : ℕ → Machine D → Bool
  is_mmio_write phys m = (leb 0xa_0000 phys && ltb phys 0x10_0000) || leb m.memory_size phys

  abbrev pub put_mem : Width → ℕ → ℕ → Machine D → Machine D
  put_mem w phys value m = record m { mem = store w phys value m.mem }

  unfoldable pub forget_code : ℕ → ℕ → Machine D → Machine D
  unfolding cpu_smc_has_code cpu_smc_invalidate
  forget_code addr phys m =
      if cpu_smc_has_code phys m == 0 then m else cpu_smc_invalidate addr phys m

module _ {D : Type 0} (bus : Bus D) where
  unfoldable pub translate_if : ℕ → ℕ → ℕ → M D (Unit {0})
  unfolding cpu_mmu_translate
  translate_if addr tag shift =
      if bit_and tag 2 != 0 then cpu_mmu_translate bus addr shift else pure tt

  -- An aligned access, after the translation.
  unfoldable pub read_at : Width → ℕ → M D ℕ
  read_at w addr m =
      let phys = phys_of addr m in
      if is_mmio_read phys m
      then from_bus bus phys (size_code w) m
      else (completed (load w m.mem phys), m)

  unfoldable pub write_at : Width → ℕ → ℕ → M D (Unit {0})
  unfolding forget_code
  write_at w addr value m =
      let phys = phys_of addr m in
      if is_mmio_write phys m
      then to_bus bus phys value (size_code w) m
      else (completed tt, put_mem w phys value (forget_code addr phys m))

  unfoldable pub read_aligned : Width → ℕ → ℕ → ℕ → M D ℕ
  unfolding translate_if read_at
  read_aligned w addr tag shift = do translate_if addr tag shift; read_at w addr

  unfoldable pub write_aligned : Width → ℕ → ℕ → ℕ → ℕ → M D (Unit {0})
  unfolding translate_if write_at
  write_aligned w addr value tag shift = do translate_if addr tag shift; write_at w addr value

  -- A misaligned access, a byte at a time from byte `i` on.
  unfoldable pub read_bytes : ℕ → ℕ → ℕ → ℕ → ℕ → M D ℕ
  unfolding read_aligned
  read_bytes zero i res addr shift = pure res
  read_bytes (suc rounds) i res addr shift = do
    m ← get
    byte ← read_aligned w8 (add32 addr i) (tag_of (add32 addr i) shift m) shift
    read_bytes rounds (i + 1) (bit_or res (u32 (byte <<< (8 * i)))) addr shift

  unfoldable pub write_bytes : ℕ → ℕ → ℕ → ℕ → ℕ → M D (Unit {0})
  unfolding write_aligned
  write_bytes zero i value addr shift = pure tt
  write_bytes (suc rounds) i value addr shift = do
    m ← get
    write_aligned w8 (add32 addr i) (value >>> (8 * i)) (tag_of (add32 addr i) shift m) shift
    write_bytes rounds (i + 1) value addr shift

  unfoldable pub cpu_access_read : Width → ℕ → ℕ → ℕ → M D ℕ
  unfolding read_aligned read_bytes
  cpu_access_read w addr tag shift =
      if bit_and addr (align_mask w) != 0
      then read_bytes (bytes w) 0 0 addr shift
      else read_aligned w addr tag shift

  unfoldable pub cpu_access_write : Width → ℕ → ℕ → ℕ → ℕ → M D (Unit {0})
  unfolding write_aligned write_bytes
  cpu_access_write w addr value tag shift =
      if bit_and addr (align_mask w) != 0
      then write_bytes (bytes w) 0 value addr shift
      else write_aligned w addr value tag shift

  -- That a range of two pages at most can be accessed.
  unfoldable pub cpu_access_verify : ℕ → ℕ → ℕ → M D (Unit {0})
  unfolding translate_if
  cpu_access_verify addr last shift =
      let crosses = bit_and (bit_xor addr last) (not32 0xfff) != 0 in
      let first_page = (do m ← get; translate_if addr (tag_of addr 0 m) shift) in
      let last_page = if crosses then last else addr in
      do
        if crosses then first_page else pure tt
        m ← get
        translate_if last_page (tag_of last_page 0 m) shift

  -- The macro of the callers.
  unfoldable pub read_mem : Width → ℕ → ℕ → M D ℕ
  unfolding cpu_access_read
  read_mem w addr shift m =
      if is_indirect w addr (tag_of addr shift m)
      then cpu_access_read w addr (tag_of addr shift m) shift m
      else (completed (load w m.mem (phys_of addr m)), m)

  unfoldable pub write_mem : Width → ℕ → ℕ → ℕ → M D (Unit {0})
  unfolding cpu_access_write
  write_mem w addr value shift m =
      if is_indirect w addr (tag_of addr shift m)
      then cpu_access_write w addr value (tag_of addr shift m) shift m
      else (completed tt, put_mem w (phys_of addr m) value m)
