-- ===== src/Cpu/Eflags/Marks.antt =====
-- What `m_laux` says after the flags were written into `m_eflags`.
use cpu_ia32_cpp.Base.{
  ℕ, ◌+◌, ◌/◌, ◌%◌, ◌^◌, ◌<◌, bit_and, bit_or, ◌≡◌, sym, ap, ◌∙◌, some, arith, not32, int_of, ◌==◌,
}
use cpu_ia32_cpp.Base.Bits.{
  bit_at, bit_and-mask, bit_and-mod, bit_or-mod, bit_at-bit_and, bit_at-bit_or, bit_at-bit_xor,
  bit_and-zero, bit_and-bit_or, bit_and_assoc, bit_xor-lt, bit_or-lt, bit_and-lt, bit_or-zero,
}
use cpu_ia32_cpp.Cpu.State.{Cpu, IsWords, full_update, lazy_op}
use cpu_ia32_cpp.Cpu.Eflags.{mark_full, cpu_get_sf, cpu_get_pf, cpu_get_cf, cpu_get_of, cpu_get_af}
use cpu_ia32_cpp.Cpu.Flags.{Flags, flags}

pub mark_full-op : (laux : ℕ) → lazy_op (bit_and (mark_full laux) 63) ≡ some full_update
mark_full-op laux = ap lazy_op (
    bit_and-mask 6 (mark_full laux)
    ∙ bit_or-mod 6 (bit_and laux (not32 63)) 33
    ∙ ap (λ (t : ℕ). bit_or t 33) (bit_and-mod 6 laux (not32 63) ∙ bit_and-zero (laux % 64)))

mark_full-bit_7 : (laux : ℕ) → bit_and (mark_full laux) 0x80 ≡ bit_and laux 0x80
mark_full-bit_7 laux =
    bit_and-bit_or (bit_and laux (not32 63)) 33 0x80
    ∙ bit_or-zero (bit_and (bit_and laux (not32 63)) 0x80)
    ∙ bit_and_assoc laux (not32 63) 0x80

pub mark_full-lt : (laux : ℕ) → mark_full laux < 2 ^ 32
mark_full-lt laux =
    bit_or-lt 32 (bit_and laux (not32 63)) 33 (bit_and-lt 32 laux (not32 63) (omega arith))
      (omega arith)

-- The sign flag is the exclusive or of two top bits.
top_bit : (x : ℕ) → x < 2 ^ 32 → x / 2 ^ 31 ≡ bit_at 31 x
unfolding bit_at
top_bit x h = omega arith

mark_full-bit_31 : (laux : ℕ) → bit_at 31 (mark_full laux) ≡ bit_at 31 laux
unfolding bit_at
mark_full-bit_31 laux =
    omega (arith, bit_at-bit_or 31 (bit_and laux (not32 63)) 33, bit_at-bit_and 31 laux (not32 63))

-- Marking keeps SF and PF.
pub cpu_get_sf-mark :
    (c d : Cpu) → IsWords c → d.lr ≡ c.lr → d.laux ≡ mark_full c.laux → cpu_get_sf d ≡ cpu_get_sf c
unfolding cpu_get_sf
cpu_get_sf-mark c d v same marked =
    rw (same, marked)
      (top_bit _ (bit_xor-lt 32 c.lr (mark_full c.laux) v.lr_fits (mark_full-lt c.laux))
        ∙ bit_at-bit_xor 31 c.lr (mark_full c.laux)
        ∙ ap (λ (t : ℕ). (bit_at 31 c.lr + t) % 2) (mark_full-bit_31 c.laux)
        ∙ sym (bit_at-bit_xor 31 c.lr c.laux)
        ∙ sym (top_bit _ (bit_xor-lt 32 c.lr c.laux v.lr_fits v.laux_fits)))

pub cpu_get_pf-mark :
    (c d : Cpu) → d.lr ≡ c.lr → d.laux ≡ mark_full c.laux → cpu_get_pf d ≡ cpu_get_pf c
unfolding cpu_get_pf
cpu_get_pf-mark c d same marked = rw (same, marked, mark_full-bit_7 c.laux)

-- What `flags` read.
pub flags-parts :
    (c : Cpu) (f : Flags)
    → flags c ≡ some f
    → (cpu_get_cf c ≡ some f.cf)
      × (cpu_get_af c ≡ some f.af)
      × (cpu_get_of c ≡ some f.of)
      × (f.pf ≡ cpu_get_pf c)
      × (f.zf ≡ int_of (c.lr == 0))
      × (f.sf ≡ cpu_get_sf c)
unfolding flags
flags-parts c f e = ground arith
