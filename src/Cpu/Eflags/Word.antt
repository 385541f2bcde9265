-- ===== src/Cpu/Eflags/Word.antt =====
-- EFLAGS as one word: `cpu_get_eflags` packs the flags, `cpu_set_eflags` takes them apart.
use cpu_ia32_cpp.Base.{
  ℕ, ◌+◌, ◌*◌, ◌^◌, ◌<◌, bit_and, bit_or, ◌≡◌, ap, ◌∙◌, some, Bool, true, false, arith, not32,
  int_of, ◌==◌,
}
use cpu_ia32_cpp.Base.Bits.{bit_at, bit_xor-lt, bit_or-lt, bit_and-one, SameBits-eq, bit_or_assoc}
use cpu_ia32_cpp.Cpu.State.{Cpu, IsWords}
use cpu_ia32_cpp.Cpu.Eflags.{cpu_get_sf, cpu_get_pf}
use cpu_ia32_cpp.Cpu.Eflags.Kinds.{cpu_get_cf-lt, cpu_get_af-lt, cpu_get_of-lt}
use cpu_ia32_cpp.Cpu.Eflags.Marks.{flags-parts}
use cpu_ia32_cpp.Cpu.Flags.{Flags, flags}
use cpu_ia32_cpp.Cpu.Eflags.{cpu_get_eflags, arith_mask}
use cpu_ia32_cpp.Cpu.Eflags.Setters.{bit_laws}

-- The six flags in their places.
abbrev pub packed : Flags → ℕ
packed f = f.cf * 1 + f.pf * 4 + f.af * 16 + f.zf * 64 + f.sf * 128 + f.of * 2048

abbrev pub IsBinary : Flags → Type 0
IsBinary f = (f.cf < 2) × (f.pf < 2) × (f.af < 2) × (f.zf < 2) × (f.sf < 2) × (f.of < 2)

abbrev joined : Flags → ℕ
joined f = bit_or (f.of * 0x800) (
    bit_or (f.sf * 0x80)
      (bit_or (f.zf * 0x40) (bit_or (f.af * 0x10) (bit_or (f.pf * 0x04) (f.cf * 0x01)))))

-- The chain of `|=` of `cpu_get_eflags`.
abbrev chained : ℕ → Flags → ℕ
chained rest f =
    bit_or
      (bit_or
        (bit_or (bit_or (bit_or (bit_or rest (f.of * 0x800)) (f.sf * 0x80)) (f.zf * 0x40))
          (f.af * 0x10))
        (f.pf * 0x04))
      (f.cf * 0x01)

regroup : (rest : ℕ) (f : Flags) → chained rest f ≡ bit_or rest (joined f)
regroup rest f = simp bit_or_assoc

joined-lt : (f : Flags) → IsBinary f → joined f < 2 ^ 12
joined-lt f b = bit_or-lt 12 _ _ (omega arith) (
    bit_or-lt 12 _ _ (omega arith) (
      bit_or-lt 12 _ _ (omega arith)
        (bit_or-lt 12 _ _ (omega arith) (bit_or-lt 12 _ _ (omega arith) (omega arith)))))

joined-eq : (f : Flags) → IsBinary f → joined f ≡ packed f
unfolding bit_at
joined-eq f b =
    SameBits-eq 12 (joined f) (packed f) (joined-lt f b) (omega arith) (simp bit_laws (omega arith))

int_of-lt : (b : Bool) → int_of b < 2
int_of-lt true = omega arith
int_of-lt false = omega arith

cpu_get_pf-lt : (c : Cpu) → cpu_get_pf c < 2
unfolding cpu_get_pf
cpu_get_pf-lt c = omega (arith, bit_and-one)

cpu_get_sf-lt : (c : Cpu) → IsWords c → cpu_get_sf c < 2
unfolding cpu_get_sf
cpu_get_sf-lt c v = omega (arith, bit_xor-lt 32 c.lr c.laux v.lr_fits v.laux_fits)

pub flags-IsBinary : (c : Cpu) (f : Flags) → IsWords c → flags c ≡ some f → IsBinary f
flags-IsBinary c f v read =
    let (cf, af, of, pf, zf, sf) = flags-parts c f read in
    (
      cpu_get_cf-lt c f.cf cf,
      rw pf (cpu_get_pf-lt c),
      cpu_get_af-lt c f.af af,
      rw zf (int_of-lt (c.lr == 0)),
      rw sf (cpu_get_sf-lt c v),
      cpu_get_of-lt c f.of of,
    )

-- `cpu_get_eflags`, where the six flags can be read from 32-bit words: the six flags in their
-- places, and for the other bits those of `m_eflags`.
pub cpu_get_eflags-packed :
    (c : Cpu) (f : Flags)
    → IsWords c
    → flags c ≡ some f
    → cpu_get_eflags c ≡ some (bit_or (bit_and c.eflags (not32 arith_mask)) (packed f))
unfolding cpu_get_eflags
cpu_get_eflags-packed c f v read =
    let (cf, af, of, pf, zf, sf) = flags-parts c f read in
    rw (of, af, cf, ← pf, ← zf, ← sf)
      (ap some (
        regroup (bit_and c.eflags (not32 arith_mask)) f
        ∙ ap (bit_or (bit_and c.eflags (not32 arith_mask)))
            (joined-eq f (flags-IsBinary c f v read))))
