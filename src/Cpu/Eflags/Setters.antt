-- ===== src/Cpu/Eflags/Setters.antt =====
-- `cpu_set_cf`, `cpu_set_of` and `cpu_set_af` of cpu/eflags.cpp.
use cpu_ia32_cpp.Base.{
  ℕ, ◌*◌, ◌<◌, bit_and, bit_or, ◌≡◌, refl, sym, ◌∙◌, some, arith, not32, int_of, ◌==◌,
}
use cpu_ia32_cpp.Base.Bits.{
  bit_at, bit_at-lt, bit_at-zero, bit_and-mask, bit_and-mod, bit_or-mod, bit_at-bit_and,
  bit_at-bit_or, bit_at-bit_xor, bit_and-zero, bit_and-bit_or, bit_and_assoc, bit_xor-lt, bit_or-lt,
  bit_and-lt, bit_or-zero, shifted-bit_at, bit_and-one,
}
use cpu_ia32_cpp.Cpu.State.{Cpu, IsWords, full_update, lazy_op}
use cpu_ia32_cpp.Cpu.Eflags.{
  ◌>>=◌, put_flag, cpu_get_sf, cpu_get_pf, cf_of, of_of, af_of, cpu_get_oac, oac_mask, cpu_set_cf,
  cpu_set_of, cpu_set_af,
}
use cpu_ia32_cpp.Cpu.Eflags.Kinds.{
  cpu_get_cf-lt, cpu_get_af-lt, cpu_get_of-lt, cpu_get_cf-eq, cpu_get_of-eq, cpu_get_af-eq,
}
use cpu_ia32_cpp.Cpu.Eflags.Marks.{mark_full-op, cpu_get_sf-mark, cpu_get_pf-mark, flags-parts}
use cpu_ia32_cpp.Cpu.Flags.{Flags, flags}

-- `m_eflags` after `cpu_get_oac` read the three flags.
abbrev gathered : ℕ → ℕ → ℕ → ℕ → ℕ
gathered e of af cf =
    bit_or (bit_and e (not32 oac_mask))
      (bit_and (bit_or (bit_or (of * 0x800) (af * 0x10)) (cf * 0x01)) oac_mask)

-- CF, AF and OF as they stand in `m_eflags`.
abbrev pub Stores : ℕ → ℕ → ℕ → ℕ → Type 0
Stores e cf af of = (bit_at 0 e ≡ cf) × (bit_at 4 e ≡ af) × (bit_at 11 e ≡ of)

pub ruleset bit_laws = (bit_at-bit_or, bit_at-bit_and)

module _ (e of af cf v : ℕ) (of_lt : of < 2) (af_lt : af < 2) (cf_lt : cf < 2) (v_lt : v < 2) where
  Stores-put_cf : Stores (bit_or (bit_and (gathered e of af cf) (not32 0x01)) (v * 0x01)) v af of
  unfolding bit_at
  Stores-put_cf = simp bit_laws (omega arith)

  Stores-put_af : Stores (bit_or (bit_and (gathered e of af cf) (not32 0x10)) (v * 0x10)) cf v of
  unfolding bit_at
  Stores-put_af = simp bit_laws (omega arith)

  Stores-put_of : Stores (bit_or (bit_and (gathered e of af cf) (not32 0x800)) (v * 0x800)) cf af v
  unfolding bit_at
  Stores-put_of = simp bit_laws (omega arith)

-- Flags that stand in `m_eflags`.
pub flags-full :
    (d : Cpu)
    → lazy_op (bit_and d.laux 63) ≡ some full_update
    → flags d
      ≡ some (record {
        cf = bit_at 0 d.eflags;
        pf = cpu_get_pf d;
        af = bit_at 4 d.eflags;
        zf = int_of (d.lr == 0);
        sf = cpu_get_sf d;
        of = bit_at 11 d.eflags;
      })
unfolding flags cf_of af_of of_of
flags-full d full =
    rw
      (
        cpu_get_cf-eq full_update d full,
        cpu_get_af-eq full_update d full,
        cpu_get_of-eq full_update d full,
        bit_and-one d.eflags,
        ← bit_at-zero d.eflags,
        shifted-bit_at 4 d.eflags,
        shifted-bit_at 11 d.eflags,
      )
      refl

module _ (c : Cpu) (f : Flags) (v : ℕ) (words : IsWords c) (read : flags c ≡ some f)
    (v_lt : v < 2) where
  abbrev oac : Cpu
  oac = record c { eflags = gathered c.eflags f.of f.af f.cf }

  cpu_get_oac-eq : cpu_get_oac c ≡ some oac
  unfolding cpu_get_oac
  cpu_get_oac-eq = let (cf, af, of, _, _, _) = flags-parts c f read in rw (of, af, cf)

  -- A flag put into the gathered word, seen through `flags`.
  flags-put :
      (flag cf af of : ℕ)
      → Stores (bit_or (bit_and oac.eflags (not32 flag)) (v * flag)) cf af of
      → flags (put_flag flag v oac) ≡ some (record f { cf = cf; af = af; of = of })
  flags-put flag cf af of e =
      let d = put_flag flag v oac in
      let (_, _, _, pf, _, sf) = flags-parts c f read in
      flags-full d (mark_full-op c.laux) ∙ λ i. some (record {
        cf = e.0 i;
        pf = (cpu_get_pf-mark c d refl refl ∙ sym pf) i;
        af = e.1 i;
        zf = zf-back i;
        sf = (cpu_get_sf-mark c d words refl refl ∙ sym sf) i;
        of = e.2 i;
      })
    where
      zf-back : int_of (c.lr == 0) ≡ f.zf
      zf-back = sym (flags-parts c f read).4

  binary : (f.of < 2) × (f.af < 2) × (f.cf < 2)
  binary =
      let (cf, af, of, _, _, _) = flags-parts c f read in
      (cpu_get_of-lt c f.of of, cpu_get_af-lt c f.af af, cpu_get_cf-lt c f.cf cf)

  pub flags-cpu_set_cf : (cpu_set_cf v c >>= flags) ≡ some (record f { cf = v })
  unfolding cpu_set_cf
  flags-cpu_set_cf = rw cpu_get_oac-eq (
      flags-put 0x01 v f.af f.of
        (Stores-put_cf c.eflags f.of f.af f.cf v binary.0 binary.1 binary.2 v_lt))

  pub flags-cpu_set_af : (cpu_set_af v c >>= flags) ≡ some (record f { af = v })
  unfolding cpu_set_af
  flags-cpu_set_af = rw cpu_get_oac-eq (
      flags-put 0x10 f.cf v f.of
        (Stores-put_af c.eflags f.of f.af f.cf v binary.0 binary.1 binary.2 v_lt))

  pub flags-cpu_set_of : (cpu_set_of v c >>= flags) ≡ some (record f { of = v })
  unfolding cpu_set_of
  flags-cpu_set_of = rw cpu_get_oac-eq (
      flags-put 0x800 f.cf f.af v
        (Stores-put_of c.eflags f.of f.af f.cf v binary.0 binary.1 binary.2 v_lt))

  -- `cpu_set_cf`, `cpu_set_af` and `cpu_set_of`, on words of 32 bits whose six flags can be read:
  -- each succeeds, sets its flag to the given 0 or 1, and keeps the other five flags.
  pub flags-set :
      ((cpu_set_cf v c >>= flags) ≡ some (record f { cf = v }))
      × ((cpu_set_af v c >>= flags) ≡ some (record f { af = v }))
      × ((cpu_set_of v c >>= flags) ≡ some (record f { of = v }))
  flags-set = (flags-cpu_set_cf, flags-cpu_set_af, flags-cpu_set_of)
