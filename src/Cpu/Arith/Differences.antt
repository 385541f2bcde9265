-- ===== src/Cpu/Arith/Differences.antt =====
-- The carry, the auxiliary carry and the overflow of subtractions.
use cpu_ia32_cpp.Base.{
  ℕ, ◌+◌, ◌%◌, ◌<◌, ◌≡◌, ap, ◌∙◌, some, arith, ltb, int_of, add32, Width, w8, w16, w32, size,
  sign_extend,
}
use cpu_ia32_cpp.Base.Bits.{bit_at, bit_and-mask, shifted-bit_at, bit_at-bit_xor, bit_at-bit_and}
use cpu_ia32_cpp.Cpu.State.{Cpu, sub, sbb}
use cpu_ia32_cpp.Cpu.Eflags.{cf_of, of_of, af_of}
use cpu_ia32_cpp.Cpu.Flags.{signed_sub_overflows}
use cpu_ia32_cpp.Cpu.Arith.{leave, minus}

-- The processor after a subtraction without borrow.
abbrev pub subtracted : Width → ℕ → ℕ → Cpu → Cpu
subtracted w d s c = leave w (sub w) (minus w d s) (record c { lop2 = s })

pub cf-sub :
    (w : Width) (d s : ℕ) (c : Cpu)
    → d < size w
    → s < size w
    → cf_of (sub w) (subtracted w d s c) ≡ some (int_of (ltb d (s + 0)))
unfolding cf_of
cf-sub w8 d s c p q = ground (arith, bit_and-mask 8 (add32 s (sign_extend w8 (minus w8 d s))))
cf-sub w16 d s c p q = ground (arith, bit_and-mask 16 (add32 s (sign_extend w16 (minus w16 d s))))
cf-sub w32 d s c p q = ground arith

pub af-sub :
    (w : Width) (d s : ℕ) (c : Cpu)
    → d < size w
    → s < size w
    → af_of (sub w) (subtracted w d s c) ≡ some (int_of (ltb (d % 16) (s % 16 + 0)))
unfolding af_of bit_at
af-sub w8 d s c p q = ap some (shifted-bit_at 4 _ ∙ simp bit_at-bit_xor (ground arith))
af-sub w16 d s c p q = ap some (shifted-bit_at 4 _ ∙ simp bit_at-bit_xor (ground arith))
af-sub w32 d s c p q = ap some (shifted-bit_at 4 _ ∙ simp bit_at-bit_xor (ground arith))

pub of-sub :
    (w : Width) (d s : ℕ) (c : Cpu)
    → d < size w
    → s < size w
    → of_of (sub w) (subtracted w d s c) ≡ some (int_of (signed_sub_overflows w d s 0))
unfolding of_of bit_at
of-sub w8 d s c p q =
    ap some (shifted-bit_at 7 _ ∙ simp (bit_at-bit_and, bit_at-bit_xor) (ground arith))
of-sub w16 d s c p q =
    ap some (shifted-bit_at 15 _ ∙ simp (bit_at-bit_and, bit_at-bit_xor) (ground arith))
of-sub w32 d s c p q =
    ap some (shifted-bit_at 31 _ ∙ simp (bit_at-bit_and, bit_at-bit_xor) (ground arith))

-- The processor after a subtraction with the borrow `k`.
abbrev pub subtracted_with : Width → ℕ → ℕ → ℕ → Cpu → Cpu
subtracted_with w d s k c = leave w (sbb w) (minus w d (s + k)) (record c { lop1 = d; lop2 = s })

pub cf-sbb :
    (w : Width) (d s k : ℕ) (c : Cpu)
    → d < size w
    → s < size w
    → k < 2
    → cf_of (sbb w) (subtracted_with w d s k c) ≡ some (int_of (ltb d (s + k)))
unfolding cf_of bit_at
cf-sbb w8 d s k c p q r =
    ap some (shifted-bit_at 7 _ ∙ simp (bit_at-bit_and, bit_at-bit_xor) (ground arith))
cf-sbb w16 d s k c p q r =
    ap some (shifted-bit_at 15 _ ∙ simp (bit_at-bit_and, bit_at-bit_xor) (ground arith))
cf-sbb w32 d s k c p q r =
    ap some (shifted-bit_at 31 _ ∙ simp (bit_at-bit_and, bit_at-bit_xor) (ground arith))

pub af-sbb :
    (w : Width) (d s k : ℕ) (c : Cpu)
    → d < size w
    → s < size w
    → k < 2
    → af_of (sbb w) (subtracted_with w d s k c) ≡ some (int_of (ltb (d % 16) (s % 16 + k)))
unfolding af_of bit_at
af-sbb w8 d s k c p q r = ap some (shifted-bit_at 4 _ ∙ simp bit_at-bit_xor (ground arith))
af-sbb w16 d s k c p q r = ap some (shifted-bit_at 4 _ ∙ simp bit_at-bit_xor (ground arith))
af-sbb w32 d s k c p q r = ap some (shifted-bit_at 4 _ ∙ simp bit_at-bit_xor (ground arith))

pub of-sbb :
    (w : Width) (d s k : ℕ) (c : Cpu)
    → d < size w
    → s < size w
    → k < 2
    → of_of (sbb w) (subtracted_with w d s k c) ≡ some (int_of (signed_sub_overflows w d s k))
unfolding of_of bit_at
of-sbb w8 d s k c p q r =
    ap some (shifted-bit_at 7 _ ∙ simp (bit_at-bit_and, bit_at-bit_xor) (ground arith))
of-sbb w16 d s k c p q r =
    ap some (shifted-bit_at 15 _ ∙ simp (bit_at-bit_and, bit_at-bit_xor) (ground arith))
of-sbb w32 d s k c p q r =
    ap some (shifted-bit_at 31 _ ∙ simp (bit_at-bit_and, bit_at-bit_xor) (ground arith))
