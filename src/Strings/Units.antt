-- ===== src/Strings/Units.antt =====
-- cpu/string.cpp: the seven instructions, each for a width of the data and an address size. A result
-- of `true` is the 1 of a loop that has rounds to go; a fault is the 1 after `cpu_exception`.
use cpu_ia32_cpp.Base.{
  ℕ, bit_and, Bool, false, ◌==◌, ◌!=◌, if◌then◌else◌, sub32, add32, Width, w16, sign_extend,
  truncate, ◌>>>◌,
}
use cpu_ia32_cpp.Cpu.State.{sub, code}
use cpu_ia32_cpp.Memory.State.{Bus, Machine, M, aborted, get, modify, pure, ◌>>=◌, ◌>>◌}
use cpu_ia32_cpp.Memory.Access.{read_mem, write_mem, bytes}
use cpu_ia32_cpp.Memory.Control.{cpu_io_check_access}
use cpu_ia32_cpp.Strings.Loop.{
  AddressSize, source_segment, capped, register, set_register, count_of, source_of, dest_of,
  step_of, advance, count_down, unfinished, repeat_until, rep,
}

-- `io_readb` to `io_readd` and `io_writeb` to `io_writed` of io.cpp: a device may reach the processor
-- and the memory.
pub record Ports (D : Type 0) : Type 0 where
  pub io_read : Width → ℕ → Machine D → ℕ × Machine D
  pub io_write : Width → ℕ → ℕ → Machine D → Machine D

module _ {D : Type 0} where
  -- `cpu_inb` to `cpu_ind`, and `cpu_outb` to `cpu_outd`.
  abbrev pub cpu_in : Ports D → Width → ℕ → M D ℕ
  cpu_in ports w port m = let (value, m') = ports.io_read w port m in pure (truncate w value) m'

  abbrev pub cpu_out : Ports D → Width → ℕ → ℕ → M D (Unit {0})
  cpu_out ports w port value = modify (ports.io_write w port value)

  -- DX
  abbrev pub port_of : Machine D → ℕ
  port_of m = register w16 2 m

  -- The lazy flags of `dest - src`.
  unfoldable pub compared : Width → ℕ → ℕ → Machine D → Machine D
  compared w dest src m = record m {
    cpu = record m.cpu { lr = sign_extend w (sub32 dest src); lop2 = src; laux = code (sub w) };
  }

  -- The switch of SCAS and CMPS on `flags >> 6 & 3`. A round gives the operands, with the indexes
  -- moved; REPZ ends where they differ, REPNZ where they are equal.
  abbrev pub compare_round : Width → AddressSize → M D (ℕ × ℕ) → (ℕ → ℕ → Bool) → M D Bool
  unfolding count_down compared
  compare_round w a operands ends = do
    (dest, src) ← operands
    modify (count_down a)
    modify (compared w dest src)
    pure (ends dest src)

  abbrev pub compare_loop : Width → AddressSize → ℕ → M D (ℕ × ℕ) → (ℕ → ℕ → Bool) → M D Bool
  unfolding count_down compared repeat_until
  compare_loop w a rounds operands ends =
      repeat_until rounds (compare_round w a operands ends) >>= λ ended.
      if ended then pure false else unfinished a

  abbrev pub compare_once : Width → M D (ℕ × ℕ) → M D Bool
  unfolding compared
  compare_once w operands = do (dest, src) ← operands; modify (compared w dest src); pure false

  unfoldable pub compare : Width → AddressSize → ℕ → ℕ → M D (ℕ × ℕ) → M D Bool
  unfolding count_down compared repeat_until
  compare w a flags rounds operands =
      let prefix = bit_and (flags >>> 6) 3 in
      if prefix == 0
      then compare_once w operands
      else if prefix == 1
      then compare_loop w a rounds operands (λ dest src. src != dest)
      else if prefix == 2
      then compare_loop w a rounds operands (λ dest src. src == dest)
      else λ m. (aborted, m)

module _ {D : Type 0} (bus : Bus D) where
  -- The reads and the write of a round.
  abbrev pub read_source : Width → AddressSize → ℕ → M D ℕ
  unfolding read_mem
  read_source w a base = do m ← get; read_mem bus w (add32 base (source_of a m)) m.tlb_shift_read

  abbrev pub read_dest : Width → AddressSize → M D ℕ
  unfolding read_mem
  read_dest w a = do m ← get; read_mem bus w (add32 (m.seg_base 0) (dest_of a m)) m.tlb_shift_read

  abbrev pub write_dest : Width → AddressSize → ℕ → M D (Unit {0})
  unfolding write_mem
  write_dest w a value = do
    m ← get
    write_mem bus w (add32 (m.seg_base 0) (dest_of a m)) value m.tlb_shift_write

  unfoldable pub movs_round : Width → AddressSize → ℕ → ℕ → M D (Unit {0})
  unfolding read_mem write_mem advance
  movs_round w a base add = do
    src ← read_source w a base
    write_dest w a src
    modify (advance a 6 add)
    modify (advance a 7 add)

  unfoldable pub stos_round : Width → AddressSize → ℕ → ℕ → M D (Unit {0})
  unfolding write_mem advance
  stos_round w a src add = do write_dest w a src; modify (advance a 7 add)

  unfoldable pub lods_round : Width → AddressSize → ℕ → ℕ → M D (Unit {0})
  unfolding read_mem advance
  lods_round w a base add = do
    value ← read_source w a base
    modify (set_register w 0 value)
    modify (advance a 6 add)

  unfoldable pub ins_round : Ports D → Width → AddressSize → ℕ → M D (Unit {0})
  unfolding write_mem advance
  ins_round ports w a add = do
    m ← get
    src ← cpu_in ports w (port_of m)
    write_dest w a src
    modify (advance a 7 add)

  unfoldable pub outs_round : Ports D → Width → AddressSize → ℕ → ℕ → M D (Unit {0})
  unfolding read_mem advance
  outs_round ports w a base add = do
    src ← read_source w a base
    m ← get
    cpu_out ports w (port_of m) src
    modify (advance a 6 add)

  -- The locals that hold the operands have the width of the data.
  unfoldable pub scas_operands : Width → AddressSize → ℕ → ℕ → M D (ℕ × ℕ)
  unfolding read_mem advance
  scas_operands w a dest add = do
    src ← read_dest w a
    modify (advance a 7 add)
    pure (dest, truncate w src)

  unfoldable pub cmps_operands : Width → AddressSize → ℕ → ℕ → M D (ℕ × ℕ)
  unfolding read_mem advance
  cmps_operands w a base add = do
    dest ← read_source w a base
    src ← read_dest w a
    modify (advance a 7 add)
    modify (advance a 6 add)
    pure (truncate w dest, truncate w src)

  unfoldable pub movs : Width → AddressSize → ℕ → M D Bool
  unfolding movs_round rep
  movs w a flags m =
      rep a flags (capped (count_of a m))
        (movs_round w a (m.seg_base (source_segment flags)) (step_of w m)) m

  unfoldable pub stos : Width → AddressSize → ℕ → M D Bool
  unfolding stos_round rep
  stos w a flags m =
      rep a flags (capped (count_of a m)) (stos_round w a (register w 0 m) (step_of w m)) m

  unfoldable pub lods : Width → AddressSize → ℕ → M D Bool
  unfolding lods_round rep
  lods w a flags m =
      rep a flags (capped (count_of a m))
        (lods_round w a (m.seg_base (source_segment flags)) (step_of w m)) m

  -- The bitmap of the ports is looked at once, before the first round.
  unfoldable pub ins : Ports D → Width → AddressSize → ℕ → M D Bool
  unfolding ins_round rep cpu_io_check_access
  ins ports w a flags = do
    m ← get
    cpu_io_check_access bus (port_of m) (bytes w)
    rep a flags (capped (count_of a m)) (ins_round ports w a (step_of w m))

  unfoldable pub outs : Ports D → Width → AddressSize → ℕ → M D Bool
  unfolding outs_round rep cpu_io_check_access
  outs ports w a flags = do
    m ← get
    cpu_io_check_access bus (port_of m) (bytes w)
    rep a flags (capped (count_of a m))
        (outs_round ports w a (m.seg_base (source_segment flags)) (step_of w m))

  unfoldable pub scas : Width → AddressSize → ℕ → M D Bool
  unfolding scas_operands compare
  scas w a flags m =
      compare w a flags (capped (count_of a m)) (scas_operands w a (register w 0 m) (step_of w m)) m

  unfoldable pub cmps : Width → AddressSize → ℕ → M D Bool
  unfolding cmps_operands compare
  cmps w a flags m =
      compare w a flags (capped (count_of a m))
        (cmps_operands w a (m.seg_base (source_segment flags)) (step_of w m)) m
