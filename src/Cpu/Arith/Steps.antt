-- ===== src/Cpu/Arith/Steps.antt =====
-- INC and DEC of cpu/arith.cpp beside the architecture's results and flags.
use cpu_ia32_cpp.Base.{
  ℕ, ◌+◌, ◌-◌, ◌%◌, ◌<◌, ◌≡◌, ap, ◌∙◌, some, arith, leb, ltb, ◌==◌, int_of, Width, w8, w16, w32,
  size, sign_extend, truncate, truncate-lt, not32, bit_and, bit_or,
}
use cpu_ia32_cpp.Base.Bits.{bit_at, bit_and-mask, bit_and-one, bit_at-bit_or, bit_at-bit_and}
use cpu_ia32_cpp.Cpu.State.{Cpu, inc, dec}
use cpu_ia32_cpp.Cpu.Eflags.{cpu_get_cf, cf_of, of_of, af_of}
use cpu_ia32_cpp.Cpu.Flags.{
  sum_flags, difference_flags, result_flags, signed_add_overflows, signed_sub_overflows,
}
use cpu_ia32_cpp.Cpu.Eflags.Kinds.{cpu_get_cf-lt}
use cpu_ia32_cpp.Cpu.Arith.{leave, plus, minus, keep_cf, cpu_inc, cpu_dec}
use cpu_ia32_cpp.Cpu.Arith.Refine.{flags-leave, observe, shown}

-- The carry that is kept in `m_eflags`.
kept : (e k : ℕ) → k < 2 → bit_and (bit_or (bit_and e (not32 1)) k) 1 ≡ k
unfolding bit_at
kept e k h =
    bit_and-one (bit_or (bit_and e (not32 1)) k)
    ∙ omega (arith, bit_at-bit_or 0 (bit_and e (not32 1)) k, bit_at-bit_and 0 e (not32 1))

inc_af :
    (w : Width) (d : ℕ)
    → d < size w
    → int_of (bit_and (sign_extend w (plus w d 1)) 15 == 0) ≡ int_of (leb 16 (d % 16 + 1 % 16 + 0))
inc_af w8 d h = ground (arith, bit_and-mask 4 (sign_extend w8 (plus w8 d 1)))
inc_af w16 d h = ground (arith, bit_and-mask 4 (sign_extend w16 (plus w16 d 1)))
inc_af w32 d h = ground (arith, bit_and-mask 4 (sign_extend w32 (plus w32 d 1)))

inc_of :
    (w : Width) (d : ℕ) (c : Cpu)
    → d < size w
    → of_of (inc w) (leave w (inc w) (plus w d 1) c) ≡ some (int_of (signed_add_overflows w d 1 0))
unfolding of_of
inc_of w8 d c h = ground (arith, bit_and-mask 8 (sign_extend w8 (plus w8 d 1)))
inc_of w16 d c h = ground (arith, bit_and-mask 16 (sign_extend w16 (plus w16 d 1)))
inc_of w32 d c h = ground (arith, bit_and-mask 32 (sign_extend w32 (plus w32 d 1)))

dec_af :
    (w : Width) (d : ℕ)
    → d < size w
    → int_of (bit_and (sign_extend w (minus w d 1)) 15 == 15) ≡ int_of (ltb (d % 16) (1 % 16 + 0))
dec_af w8 d h = ground (arith, bit_and-mask 4 (sign_extend w8 (minus w8 d 1)))
dec_af w16 d h = ground (arith, bit_and-mask 4 (sign_extend w16 (minus w16 d 1)))
dec_af w32 d h = ground (arith, bit_and-mask 4 (sign_extend w32 (minus w32 d 1)))

dec_of :
    (w : Width) (d : ℕ) (c : Cpu)
    → d < size w
    → of_of (dec w) (leave w (dec w) (minus w d 1) c) ≡ some (int_of (signed_sub_overflows w d 1 0))
unfolding of_of
dec_of w8 d c h = ground (arith, bit_and-mask 8 (sign_extend w8 (minus w8 d 1)))
dec_of w16 d c h = ground (arith, bit_and-mask 16 (sign_extend w16 (minus w16 d 1)))
dec_of w32 d c h = ground (arith, bit_and-mask 32 (sign_extend w32 (minus w32 d 1)))

module _ (w : Width) (d k : ℕ) (c : Cpu) (d_fits : d < size w) (carry : cpu_get_cf c ≡ some k) where
  binary : k < 2
  binary = cpu_get_cf-lt c k carry

  -- `cpu_inc8`, `cpu_inc16` and `cpu_inc32`, on an operand of the width and with a carry that can be
  -- read before: the result and the flags are those of adding 1, but for CF, which is kept.
  cpu_inc-refines :
      observe (cpu_inc w d c) ≡ shown (truncate w (d + 1), record (sum_flags w d 1 0) { cf = k })
  unfolding cpu_inc cf_of af_of
  cpu_inc-refines = rw carry (
      ap (λ f. some (plus w d 1, f))
        (flags-leave w (inc w) (plus w d 1) k _ _ (keep_cf k c) (truncate-lt w (d + 1))
            (ap some (kept c.eflags k binary)) (ap some (inc_af w d d_fits))
            (inc_of w d (keep_cf k c) d_fits)
          ∙ ap
              (λ (t : ℕ). some (
                result_flags w (truncate w t) k (int_of (leb 16 (d % 16 + 1 % 16 + 0)))
                  (int_of (signed_add_overflows w d 1 0))))
              (omega arith)))

  -- `cpu_dec8`, `cpu_dec16` and `cpu_dec32`, on an operand of the width and with a carry that can be
  -- read before: the result and the flags are those of subtracting 1, but for CF, which is kept.
  cpu_dec-refines :
      observe (cpu_dec w d c)
      ≡ shown (truncate w (d + size w - 1), record (difference_flags w d 1 0) { cf = k })
  unfolding cpu_dec cf_of af_of
  cpu_dec-refines = rw carry (
      ap (λ f. some (minus w d 1, f))
        (flags-leave w (dec w) (minus w d 1) k _ _ (keep_cf k c) (truncate-lt w (d + size w - 1))
          (ap some (kept c.eflags k binary)) (ap some (dec_af w d d_fits))
          (dec_of w d (keep_cf k c) d_fits)))

  -- `cpu_inc8` to `cpu_inc32` and `cpu_dec8` to `cpu_dec32`, on an operand of the width and with a
  -- carry that can be read before: the result and the flags are those of adding 1 and of subtracting
  -- 1, but for CF, which is kept.
  pub steps-refine :
      (observe (cpu_inc w d c) ≡ shown (truncate w (d + 1), record (sum_flags w d 1 0) { cf = k }))
      × (observe (cpu_dec w d c)
          ≡ shown (truncate w (d + size w - 1), record (difference_flags w d 1 0) { cf = k }))
  steps-refine = (cpu_inc-refines, cpu_dec-refines)
