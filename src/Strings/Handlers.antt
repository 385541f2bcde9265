-- ===== src/Strings/Handlers.antt =====
-- cpu/opcodes.cpp: the handlers `op_movsb16` to `op_lodsd32` of the string instructions.
use cpu_ia32_cpp.Base.{ℕ, bit_and, Bool, true, false, add32, Width}
use cpu_ia32_cpp.Memory.State.{Bus, Machine, Outcome, completed, exception, refused, aborted, M}
use cpu_ia32_cpp.Strings.Loop.{AddressSize}
use cpu_ia32_cpp.Strings.Units.{Ports, movs, stos, scas, ins, outs, cmps, lods}

-- What a handler returns: the instruction after this one, or `cpu_get_trace()`, which looks up the
-- instruction at the address of the instruction pointer.
pub data Next : Type 0 where
  following traced : Next

module _ {D : Type 0} where
  -- `m_phys_eip += flags & 15`
  abbrev pub pass : ℕ → Machine D → Machine D
  pass flags m = record m { phys_eip = add32 m.phys_eip (bit_and flags 15) }

  -- `m_cycles_to_run++`
  abbrev pub give_back : Machine D → Machine D
  give_back m = record m { cpu = record m.cpu { cycles_to_run = add32 m.cpu.cycles_to_run 1 } }

  -- After the call: a result other than 0 leaves the instruction pointer where it is, so that the
  -- instruction is run again, or where the exception has put it.
  abbrev pub handled : ℕ → Outcome Bool × Machine D → Outcome Next × Machine D
  handled flags (completed false, m) = (completed following, pass flags m)
  handled flags (completed true, m) = (completed traced, give_back m)
  handled flags (exception vector code, m) = (exception vector code, give_back m)
  handled flags (refused, m) = (refused, give_back m)
  handled flags (aborted, m) = (aborted, m)

  unfoldable pub op_string : (ℕ → M D Bool) → ℕ → M D Next
  op_string instruction flags m = handled flags (instruction flags m)

module _ {D : Type 0} (bus : Bus D) where
  unfoldable pub op_movs : Width → AddressSize → ℕ → M D Next
  unfolding op_string movs
  op_movs w a = op_string (movs bus w a)

  unfoldable pub op_stos : Width → AddressSize → ℕ → M D Next
  unfolding op_string stos
  op_stos w a = op_string (stos bus w a)

  unfoldable pub op_scas : Width → AddressSize → ℕ → M D Next
  unfolding op_string scas
  op_scas w a = op_string (scas bus w a)

  unfoldable pub op_ins : Ports D → Width → AddressSize → ℕ → M D Next
  unfolding op_string ins
  op_ins ports w a = op_string (ins bus ports w a)

  unfoldable pub op_outs : Ports D → Width → AddressSize → ℕ → M D Next
  unfolding op_string outs
  op_outs ports w a = op_string (outs bus ports w a)

  unfoldable pub op_cmps : Width → AddressSize → ℕ → M D Next
  unfolding op_string cmps
  op_cmps w a = op_string (cmps bus w a)

  unfoldable pub op_lods : Width → AddressSize → ℕ → M D Next
  unfolding op_string lods
  op_lods w a = op_string (lods bus w a)
