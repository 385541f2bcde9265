-- ===== src/Cpu/Arith/Sums.antt =====
-- The carry, the auxiliary carry and the overflow of additions.
use cpu_ia32_cpp.Base.{
  ℕ, ◌+◌, ◌%◌, ◌<◌, ◌≡◌, ap, ◌∙◌, some, arith, leb, int_of, Width, w8, w16, w32, size, sign_extend,
}
use cpu_ia32_cpp.Base.Bits.{bit_at, bit_and-mask, shifted-bit_at, bit_at-bit_xor, bit_at-bit_and}
use cpu_ia32_cpp.Cpu.State.{Cpu, add, adc}
use cpu_ia32_cpp.Cpu.Eflags.{cf_of, of_of, af_of}
use cpu_ia32_cpp.Cpu.Flags.{signed_add_overflows}
use cpu_ia32_cpp.Cpu.Arith.{leave, plus}

-- The processor after an addition without carry.
abbrev pub added : Width → ℕ → ℕ → Cpu → Cpu
added w d s c = leave w (add w) (plus w d s) (record c { lop2 = s })

pub cf-add :
    (w : Width) (d s : ℕ) (c : Cpu)
    → d < size w
    → s < size w
    → cf_of (add w) (added w d s c) ≡ some (int_of (leb (size w) (d + s + 0)))
unfolding cf_of
cf-add w8 d s c p q =
    ground (arith, bit_and-mask 8 (sign_extend w8 (plus w8 d s)), bit_and-mask 8 s)
cf-add w16 d s c p q =
    ground (arith, bit_and-mask 16 (sign_extend w16 (plus w16 d s)), bit_and-mask 16 s)
cf-add w32 d s c p q = ground arith

pub af-add :
    (w : Width) (d s : ℕ) (c : Cpu)
    → d < size w
    → s < size w
    → af_of (add w) (added w d s c) ≡ some (int_of (leb 16 (d % 16 + s % 16 + 0)))
unfolding af_of bit_at
af-add w8 d s c p q = ap some (shifted-bit_at 4 _ ∙ simp bit_at-bit_xor (ground arith))
af-add w16 d s c p q = ap some (shifted-bit_at 4 _ ∙ simp bit_at-bit_xor (ground arith))
af-add w32 d s c p q = ap some (shifted-bit_at 4 _ ∙ simp bit_at-bit_xor (ground arith))

pub of-add :
    (w : Width) (d s : ℕ) (c : Cpu)
    → d < size w
    → s < size w
    → of_of (add w) (added w d s c) ≡ some (int_of (signed_add_overflows w d s 0))
unfolding of_of bit_at
of-add w8 d s c p q =
    ap some (shifted-bit_at 7 _ ∙ simp (bit_at-bit_and, bit_at-bit_xor) (ground arith))
of-add w16 d s c p q =
    ap some (shifted-bit_at 15 _ ∙ simp (bit_at-bit_and, bit_at-bit_xor) (ground arith))
of-add w32 d s c p q =
    ap some (shifted-bit_at 31 _ ∙ simp (bit_at-bit_and, bit_at-bit_xor) (ground arith))

-- The processor after an addition with the carry `k`.
abbrev pub added_with : Width → ℕ → ℕ → ℕ → Cpu → Cpu
added_with w d s k c = leave w (adc w) (plus w d (s + k)) (record c { lop1 = d; lop2 = s })

pub cf-adc :
    (w : Width) (d s k : ℕ) (c : Cpu)
    → d < size w
    → s < size w
    → k < 2
    → cf_of (adc w) (added_with w d s k c) ≡ some (int_of (leb (size w) (d + s + k)))
unfolding cf_of bit_at
cf-adc w8 d s k c p q r =
    ap some (shifted-bit_at 7 _ ∙ simp (bit_at-bit_and, bit_at-bit_xor) (ground arith))
cf-adc w16 d s k c p q r =
    ap some (shifted-bit_at 15 _ ∙ simp (bit_at-bit_and, bit_at-bit_xor) (ground arith))
cf-adc w32 d s k c p q r =
    ap some (shifted-bit_at 31 _ ∙ simp (bit_at-bit_and, bit_at-bit_xor) (ground arith))

pub af-adc :
    (w : Width) (d s k : ℕ) (c : Cpu)
    → d < size w
    → s < size w
    → k < 2
    → af_of (adc w) (added_with w d s k c) ≡ some (int_of (leb 16 (d % 16 + s % 16 + k)))
unfolding af_of bit_at
af-adc w8 d s k c p q r = ap some (shifted-bit_at 4 _ ∙ simp bit_at-bit_xor (ground arith))
af-adc w16 d s k c p q r = ap some (shifted-bit_at 4 _ ∙ simp bit_at-bit_xor (ground arith))
af-adc w32 d s k c p q r = ap some (shifted-bit_at 4 _ ∙ simp bit_at-bit_xor (ground arith))

pub of-adc :
    (w : Width) (d s k : ℕ) (c : Cpu)
    → d < size w
    → s < size w
    → k < 2
    → of_of (adc w) (added_with w d s k c) ≡ some (int_of (signed_add_overflows w d s k))
unfolding of_of bit_at
of-adc w8 d s k c p q r =
    ap some (shifted-bit_at 7 _ ∙ simp (bit_at-bit_and, bit_at-bit_xor) (ground arith))
of-adc w16 d s k c p q r =
    ap some (shifted-bit_at 15 _ ∙ simp (bit_at-bit_and, bit_at-bit_xor) (ground arith))
of-adc w32 d s k c p q r =
    ap some (shifted-bit_at 31 _ ∙ simp (bit_at-bit_and, bit_at-bit_xor) (ground arith))
