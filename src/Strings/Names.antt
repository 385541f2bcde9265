-- ===== src/Strings/Names.antt =====
-- cpu/string.cpp: its functions by name. The letter is the width of the data (`b`, `w`, `d` for 1, 2
-- and 4 bytes), the number the address size.
use cpu_ia32_cpp.Base.{ℕ, Bool, w8, w16, w32}
use cpu_ia32_cpp.Memory.State.{Bus, M}
use cpu_ia32_cpp.Strings.Loop.{a16, a32}
use cpu_ia32_cpp.Strings.Units.{Ports, movs, stos, scas, ins, outs, cmps, lods}

module _ {D : Type 0} (bus : Bus D) where
  unfoldable pub movsb16 : ℕ → M D Bool
  unfolding movs
  movsb16 flags = movs bus w8 a16 flags

  unfoldable pub movsb32 : ℕ → M D Bool
  unfolding movs
  movsb32 flags = movs bus w8 a32 flags

  unfoldable pub movsw16 : ℕ → M D Bool
  unfolding movs
  movsw16 flags = movs bus w16 a16 flags

  unfoldable pub movsw32 : ℕ → M D Bool
  unfolding movs
  movsw32 flags = movs bus w16 a32 flags

  unfoldable pub movsd16 : ℕ → M D Bool
  unfolding movs
  movsd16 flags = movs bus w32 a16 flags

  unfoldable pub movsd32 : ℕ → M D Bool
  unfolding movs
  movsd32 flags = movs bus w32 a32 flags

  unfoldable pub stosb16 : ℕ → M D Bool
  unfolding stos
  stosb16 flags = stos bus w8 a16 flags

  unfoldable pub stosb32 : ℕ → M D Bool
  unfolding stos
  stosb32 flags = stos bus w8 a32 flags

  unfoldable pub stosw16 : ℕ → M D Bool
  unfolding stos
  stosw16 flags = stos bus w16 a16 flags

  unfoldable pub stosw32 : ℕ → M D Bool
  unfolding stos
  stosw32 flags = stos bus w16 a32 flags

  unfoldable pub stosd16 : ℕ → M D Bool
  unfolding stos
  stosd16 flags = stos bus w32 a16 flags

  unfoldable pub stosd32 : ℕ → M D Bool
  unfolding stos
  stosd32 flags = stos bus w32 a32 flags

  unfoldable pub scasb16 : ℕ → M D Bool
  unfolding scas
  scasb16 flags = scas bus w8 a16 flags

  unfoldable pub scasb32 : ℕ → M D Bool
  unfolding scas
  scasb32 flags = scas bus w8 a32 flags

  unfoldable pub scasw16 : ℕ → M D Bool
  unfolding scas
  scasw16 flags = scas bus w16 a16 flags

  unfoldable pub scasw32 : ℕ → M D Bool
  unfolding scas
  scasw32 flags = scas bus w16 a32 flags

  unfoldable pub scasd16 : ℕ → M D Bool
  unfolding scas
  scasd16 flags = scas bus w32 a16 flags

  unfoldable pub scasd32 : ℕ → M D Bool
  unfolding scas
  scasd32 flags = scas bus w32 a32 flags

  unfoldable pub insb16 : Ports D → ℕ → M D Bool
  unfolding ins
  insb16 ports flags = ins bus ports w8 a16 flags

  unfoldable pub insb32 : Ports D → ℕ → M D Bool
  unfolding ins
  insb32 ports flags = ins bus ports w8 a32 flags

  unfoldable pub insw16 : Ports D → ℕ → M D Bool
  unfolding ins
  insw16 ports flags = ins bus ports w16 a16 flags

  unfoldable pub insw32 : Ports D → ℕ → M D Bool
  unfolding ins
  insw32 ports flags = ins bus ports w16 a32 flags

  unfoldable pub insd16 : Ports D → ℕ → M D Bool
  unfolding ins
  insd16 ports flags = ins bus ports w32 a16 flags

  unfoldable pub insd32 : Ports D → ℕ → M D Bool
  unfolding ins
  insd32 ports flags = ins bus ports w32 a32 flags

  unfoldable pub outsb16 : Ports D → ℕ → M D Bool
  unfolding outs
  outsb16 ports flags = outs bus ports w8 a16 flags

  unfoldable pub outsb32 : Ports D → ℕ → M D Bool
  unfolding outs
  outsb32 ports flags = outs bus ports w8 a32 flags

  unfoldable pub outsw16 : Ports D → ℕ → M D Bool
  unfolding outs
  outsw16 ports flags = outs bus ports w16 a16 flags

  unfoldable pub outsw32 : Ports D → ℕ → M D Bool
  unfolding outs
  outsw32 ports flags = outs bus ports w16 a32 flags

  unfoldable pub outsd16 : Ports D → ℕ → M D Bool
  unfolding outs
  outsd16 ports flags = outs bus ports w32 a16 flags

  unfoldable pub outsd32 : Ports D → ℕ → M D Bool
  unfolding outs
  outsd32 ports flags = outs bus ports w32 a32 flags

  unfoldable pub cmpsb16 : ℕ → M D Bool
  unfolding cmps
  cmpsb16 flags = cmps bus w8 a16 flags

  unfoldable pub cmpsb32 : ℕ → M D Bool
  unfolding cmps
  cmpsb32 flags = cmps bus w8 a32 flags

  unfoldable pub cmpsw16 : ℕ → M D Bool
  unfolding cmps
  cmpsw16 flags = cmps bus w16 a16 flags

  unfoldable pub cmpsw32 : ℕ → M D Bool
  unfolding cmps
  cmpsw32 flags = cmps bus w16 a32 flags

  unfoldable pub cmpsd16 : ℕ → M D Bool
  unfolding cmps
  cmpsd16 flags = cmps bus w32 a16 flags

  unfoldable pub cmpsd32 : ℕ → M D Bool
  unfolding cmps
  cmpsd32 flags = cmps bus w32 a32 flags

  unfoldable pub lodsb16 : ℕ → M D Bool
  unfolding lods
  lodsb16 flags = lods bus w8 a16 flags

  unfoldable pub lodsb32 : ℕ → M D Bool
  unfolding lods
  lodsb32 flags = lods bus w8 a32 flags

  unfoldable pub lodsw16 : ℕ → M D Bool
  unfolding lods
  lodsw16 flags = lods bus w16 a16 flags

  unfoldable pub lodsw32 : ℕ → M D Bool
  unfolding lods
  lodsw32 flags = lods bus w16 a32 flags

  unfoldable pub lodsd16 : ℕ → M D Bool
  unfolding lods
  lodsd16 flags = lods bus w32 a16 flags

  unfoldable pub lodsd32 : ℕ → M D Bool
  unfolding lods
  lodsd32 flags = lods bus w32 a32 flags
