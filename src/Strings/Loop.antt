-- ===== src/Strings/Loop.antt =====
-- cpu/string.cpp: what its functions share: the registers at the two address sizes, the step of the
-- index registers, the prefixes, and the loop under a prefix.
use cpu_ia32_cpp.Base.{
  ℕ, zero, suc, ◌+◌, ◌-◌, ◌%◌, bit_and, bit_or, Bool, true, false, ltb, ◌!=◌, if◌then◌else◌, sub32,
  Width, w16, w32, size, truncate, update, ◌<<<◌, ◌>>>◌,
}
use cpu_ia32_cpp.Cpu.State.{Cpu}
use cpu_ia32_cpp.Memory.State.{Machine, M, get, modify, pure, ◌>>=◌, ◌>>◌}
use cpu_ia32_cpp.Memory.Access.{bytes}

-- The number at the end of a function's name.
pub data AddressSize : Type 0 where
  a16 a32 : AddressSize

-- `m_reg16` or `m_reg32`
abbrev pub index_width : AddressSize → Width
index_width a16 = w16
index_width a32 = w32

-- A store to `m_reg8`, `m_reg16` or `m_reg32` keeps the bits above it.
abbrev pub with_low : Width → ℕ → ℕ → ℕ
with_low w value old = old - old % size w + truncate w value

-- `flags & ((1 << 6) | (2 << 6))`: the prefixes REPZ and REPNZ.
abbrev pub has_rep : ℕ → Bool
has_rep flags = bit_and flags (bit_or (1 <<< 6) (2 <<< 6)) != 0

-- The segment register of the source.
abbrev pub source_segment : ℕ → ℕ
source_segment flags = bit_and (flags >>> 22) 7

-- The rounds of one call: `if ((unsigned int) count > 65536) count = 65536`.
abbrev pub capped : ℕ → ℕ
capped count = if ltb 65536 count then 65536 else count

-- `m_eflags & 0x400 ? -n : n` for an access of `n` bytes.
abbrev pub step_for : Width → ℕ → ℕ
step_for w eflags = if bit_and eflags 0x400 != 0 then sub32 0 (bytes w) else bytes w

abbrev pub put_register : Width → ℕ → ℕ → Cpu → Cpu
put_register w i value c = record c { reg32 = update c.reg32 i (with_low w value (c.reg32 i)) }

module _ {D : Type 0} where
  abbrev pub register : Width → ℕ → Machine D → ℕ
  register w i m = truncate w (m.cpu.reg32 i)

  abbrev pub set_register : Width → ℕ → ℕ → Machine D → Machine D
  set_register w i value m = record m { cpu = put_register w i value m.cpu }

  -- CX, SI and DI, or ECX, ESI and EDI.
  abbrev pub count_of : AddressSize → Machine D → ℕ
  count_of a m = register (index_width a) 1 m

  abbrev pub source_of : AddressSize → Machine D → ℕ
  source_of a m = register (index_width a) 6 m

  abbrev pub dest_of : AddressSize → Machine D → ℕ
  dest_of a m = register (index_width a) 7 m

  abbrev pub step_of : Width → Machine D → ℕ
  step_of w m = step_for w m.cpu.eflags

  -- `+= add` on an index register.
  unfoldable pub advance : AddressSize → ℕ → ℕ → Machine D → Machine D
  advance a i add m = set_register (index_width a) i (register (index_width a) i m + add) m

  -- `--` on the count.
  unfoldable pub count_down : AddressSize → Machine D → Machine D
  count_down a m = set_register (index_width a) 1 (sub32 (count_of a m) 1) m

  -- The count is not 0 yet.
  abbrev pub unfinished : AddressSize → M D Bool
  unfinished a = do m ← get; pure (count_of a m != 0)

  unfoldable pub repeat : ℕ → M D (Unit {0}) → M D (Unit {0})
  repeat zero body = pure tt
  repeat (suc rounds) body = do body; repeat rounds body

  -- A round says whether the loop ends; the result says whether one has.
  unfoldable pub repeat_until : ℕ → M D Bool → M D Bool
  repeat_until zero body = pure false
  repeat_until (suc rounds) body =
      body >>= λ ends. if ends then pure true else repeat_until rounds body

  -- One round without a prefix; under a prefix `rounds` of them, each of which takes 1 from the count.
  unfoldable pub rep : AddressSize → ℕ → ℕ → M D (Unit {0}) → M D Bool
  unfolding count_down repeat
  rep a flags rounds body =
      if has_rep flags
      then repeat rounds (body >> modify (count_down a)) >> unfinished a
      else body >> pure false
