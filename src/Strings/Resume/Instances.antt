-- ===== src/Strings/Resume/Instances.antt =====
-- cpu/string.cpp: MOVS, STOS and LODS under a prefix, run again until the count is 0.
use cpu_ia32_cpp.Base.{ℕ, Width, truncate}
use cpu_ia32_cpp.Memory.State.{Bus, Machine, M}
use cpu_ia32_cpp.Memory.Keeps.Rules.{Context}
use cpu_ia32_cpp.Strings.Loop.{
  AddressSize, index_width, source_segment, register, step_of, step_for,
}
use cpu_ia32_cpp.Strings.Units.{movs_round, stos_round, lods_round}

module _ {D : Type 0} (bus : Bus D) (w : Width) (a : AddressSize) (flags : ℕ) where
  -- What each instruction computes before its loop.
  abbrev pub source_setup : Machine D → ℕ × ℕ
  source_setup m = (m.seg_base (source_segment flags), step_of w m)

  abbrev pub value_setup : Machine D → ℕ × ℕ
  value_setup m = (register w 0 m, step_of w m)

  abbrev pub movs_by : ℕ × ℕ → M D (Unit {0})
  unfolding movs_round
  movs_by s = movs_round bus w a (s.0) (s.1)

  abbrev pub stos_by : ℕ × ℕ → M D (Unit {0})
  unfolding stos_round
  stos_by s = stos_round bus w a (s.0) (s.1)

  abbrev pub lods_by : ℕ × ℕ → M D (Unit {0})
  unfolding lods_round
  lods_by s = lods_round bus w a (s.0) (s.1)

  -- The same parts of the context.
  abbrev source_part : Context → ℕ × ℕ
  source_part c = (c.seg_base (source_segment flags), step_for w c.eflags)

  abbrev value_part : Context → ℕ × ℕ
  value_part c = (truncate w (c.reg32 0), step_for w c.eflags)

  abbrev count_part : Context → ℕ
  count_part c = truncate (index_width a) (c.reg32 1)
