-- ===== src/Cpu/Arith/Refine.antt =====
-- The arithmetic and logic instructions of cpu/arith.cpp beside the architecture's results and flags.
use cpu_ia32_cpp.Base.{
  ℕ, zero, suc, ◌+◌, ◌-◌, ◌%◌, ◌<◌, bit_and, bit_or, bit_xor, ◌≡◌, refl, ap, ◌∙◌, Option, none,
  some, ◌≢◌, arith, ltb, leb, int_of, Width, size, truncate, truncate-lt, bits,
}
use cpu_ia32_cpp.Base.Bits.{bit_or-lt, bit_and-lt, bit_xor-lt, bit_and-mask}
use cpu_ia32_cpp.Cpu.State.{LazyOp, Cpu, add, adc, sub, sbb, bit}
use cpu_ia32_cpp.Cpu.Eflags.{cpu_get_cf, cf_of, of_of, af_of}
use cpu_ia32_cpp.Cpu.Flags.{
  Flags, flags, result_flags, signed_sub_overflows, sum_flags, difference_flags, logic_flags,
  signed_add_overflows,
}
use cpu_ia32_cpp.Cpu.Eflags.Kinds.{
  lazy_op-code, cpu_get_cf-eq, cpu_get_of-eq, cpu_get_af-eq, cpu_get_cf-lt,
}
use cpu_ia32_cpp.Cpu.Arith.{leave, plus, minus, arith_op, cpu_arith}
use cpu_ia32_cpp.Cpu.Arith.Results.{lr-zero, cpu_get_sf-leave, cpu_get_pf-leave}
use cpu_ia32_cpp.Cpu.Arith.Sums.{added, added_with, cf-add, af-add, of-add, cf-adc, af-adc, of-adc}
use cpu_ia32_cpp.Cpu.Arith.Differences.{
  subtracted, subtracted_with, cf-sub, af-sub, of-sub, cf-sbb, af-sbb, of-sbb,
}

-- The flags of a result whose carry, auxiliary carry and overflow are known.
pub flags-leave :
    (w : Width) (op : LazyOp) (res cf af of : ℕ) (c : Cpu)
    → res < size w
    → cf_of op (leave w op res c) ≡ some cf
    → af_of op (leave w op res c) ≡ some af
    → of_of op (leave w op res c) ≡ some of
    → flags (leave w op res c) ≡ some (result_flags w res cf af of)
unfolding flags
flags-leave w op res cf af of c fits ecf eaf eof =
    let c' = leave w op res c in
    rw
      (
        cpu_get_cf-eq op c' (lazy_op-code op),
        cpu_get_af-eq op c' (lazy_op-code op),
        cpu_get_of-eq op c' (lazy_op-code op),
        ecf,
        eaf,
        eof,
        cpu_get_pf-leave w op res c,
        cpu_get_sf-leave w op res c fits,
        lr-zero w res fits,
      )
      refl

module _ (w : Width) (d s k : ℕ) (c : Cpu) (d_fits : d < size w) (s_fits : s < size w) where
  pub flags-added : flags (added w d s c) ≡ some (sum_flags w d s 0)
  flags-added =
      flags-leave w (add w) (plus w d s) _ _ _ (record c { lop2 = s }) (truncate-lt w (d + s))
        (cf-add w d s c d_fits s_fits) (af-add w d s c d_fits s_fits) (of-add w d s c d_fits s_fits)
      ∙ ap
          (λ (t : ℕ). some (
            result_flags w (truncate w t) (int_of (leb (size w) (d + s + 0)))
              (int_of (leb 16 (d % 16 + s % 16 + 0))) (int_of (signed_add_overflows w d s 0))))
          (omega arith)

  pub flags-added_with : k < 2 → flags (added_with w d s k c) ≡ some (sum_flags w d s k)
  flags-added_with r =
      flags-leave w (adc w) (plus w d (s + k)) _ _ _ (record c { lop1 = d; lop2 = s })
        (truncate-lt w (d + (s + k))) (cf-adc w d s k c d_fits s_fits r)
        (af-adc w d s k c d_fits s_fits r) (of-adc w d s k c d_fits s_fits r)
      ∙ ap
          (λ (t : ℕ). some (
            result_flags w (truncate w t) (int_of (leb (size w) (d + s + k)))
              (int_of (leb 16 (d % 16 + s % 16 + k))) (int_of (signed_add_overflows w d s k))))
          (omega arith)

  pub flags-subtracted : flags (subtracted w d s c) ≡ some (difference_flags w d s 0)
  flags-subtracted =
      flags-leave w (sub w) (minus w d s) _ _ _ (record c { lop2 = s })
        (truncate-lt w (d + size w - s)) (cf-sub w d s c d_fits s_fits)
        (af-sub w d s c d_fits s_fits) (of-sub w d s c d_fits s_fits)
      ∙ ap
          (λ (t : ℕ). some (
            result_flags w (truncate w t) (int_of (ltb d (s + 0)))
              (int_of (ltb (d % 16) (s % 16 + 0))) (int_of (signed_sub_overflows w d s 0))))
          (omega arith)

  pub flags-subtracted_with :
      k < 2 → flags (subtracted_with w d s k c) ≡ some (difference_flags w d s k)
  flags-subtracted_with r =
      flags-leave w (sbb w) (minus w d (s + k)) _ _ _ (record c { lop1 = d; lop2 = s })
        (truncate-lt w (d + size w - (s + k))) (cf-sbb w d s k c d_fits s_fits r)
        (af-sbb w d s k c d_fits s_fits r) (of-sbb w d s k c d_fits s_fits r)

pub flags-logic :
    (w : Width) (res : ℕ) (c : Cpu)
    → res < size w
    → flags (leave w bit res c) ≡ some (logic_flags w res)
unfolding cf_of af_of of_of
flags-logic w res c fits = flags-leave w bit res 0 0 0 c fits refl refl refl

-- What an instruction shows: its result and the six flags after it.
abbrev pub observe : Option (ℕ × Cpu) → Option (ℕ × Option Flags)
observe none = none
observe (some (res, c)) = some (res, flags c)

-- The architecture's result and flags of the operation `n`, with the carry `k` before it.
abbrev pub reference : ℕ → Width → ℕ → ℕ → ℕ → ℕ × Flags
reference zero w d s k = (truncate w (d + s), sum_flags w d s 0)
reference (suc zero) w d s k = (bit_or d s, logic_flags w (bit_or d s))
reference (suc (suc zero)) w d s k = (truncate w (d + s + k), sum_flags w d s k)
reference (suc (suc (suc zero))) w d s k =
    (truncate w (d + size w - (s + k)), difference_flags w d s k)
reference (suc (suc (suc (suc zero)))) w d s k = (bit_and d s, logic_flags w (bit_and d s))
reference (suc (suc (suc (suc (suc zero))))) w d s k =
    (truncate w (d + size w - s), difference_flags w d s 0)
reference _ w d s k = (bit_xor d s, logic_flags w (bit_xor d s))

abbrev pub shown : ℕ × Flags → Option (ℕ × Option Flags)
shown (res, f) = some (res, some f)

module _ (w : Width) (d s k : ℕ) (c : Cpu) (d_fits : d < size w) (s_fits : s < size w)
    (carry : cpu_get_cf c ≡ some k) where
  arith_op-refines : (n : ℕ) → n < 7 → observe (arith_op n w d s c) ≡ shown (reference n w d s k)
  unfolding arith_op
  arith_op-refines zero h = ap (λ f. some (plus w d s, f)) (flags-added w d s k c d_fits s_fits)
  arith_op-refines (suc zero) h =
      ap (λ f. some (bit_or d s, f))
        (flags-logic w (bit_or d s) c (bit_or-lt (bits w) d s d_fits s_fits))
  arith_op-refines (suc (suc zero)) h = rw carry (
      ap (λ f. some (plus w d (s + k), f))
        (flags-added_with w d s k c d_fits s_fits (cpu_get_cf-lt c k carry))
      ∙ ap (λ (t : ℕ). some (truncate w t, some (sum_flags w d s k))) (omega arith))
  arith_op-refines (suc (suc (suc zero))) h = rw carry (
      ap (λ f. some (minus w d (s + k), f))
        (flags-subtracted_with w d s k c d_fits s_fits (cpu_get_cf-lt c k carry)))
  arith_op-refines (suc (suc (suc (suc zero)))) h =
      ap (λ f. some (bit_and d s, f))
        (flags-logic w (bit_and d s) c (bit_and-lt (bits w) d s s_fits))
  arith_op-refines (suc (suc (suc (suc (suc zero))))) h =
      ap (λ f. some (minus w d s, f)) (flags-subtracted w d s k c d_fits s_fits)
  arith_op-refines (suc (suc (suc (suc (suc (suc zero)))))) h =
      ap (λ f. some (bit_xor d s, f))
        (flags-logic w (bit_xor d s) c (bit_xor-lt (bits w) d s d_fits s_fits))
  arith_op-refines (suc (suc (suc (suc (suc (suc (suc n))))))) h = absurd (omega arith)

-- `cpu_arith8`, `cpu_arith16` and `cpu_arith32`, on operands of their width and with a carry that
-- can be read before: for each operation that the switch has (`op & 7` is not 7), the result and
-- all six lazy flags after it are those of the architecture.
pub cpu_arith-refines :
    (w : Width) (op d s k : ℕ) (c : Cpu)
    → op % 8 ≢ 7
    → d < size w
    → s < size w
    → cpu_get_cf c ≡ some k
    → observe (cpu_arith w op d s c) ≡ shown (reference (op % 8) w d s k)
unfolding cpu_arith
cpu_arith-refines w op d s k c case d_fits s_fits carry =
    rw (bit_and-mask 3 op) (arith_op-refines w d s k c d_fits s_fits carry (op % 8) (omega arith))
