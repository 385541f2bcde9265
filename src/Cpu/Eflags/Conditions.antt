-- ===== src/Cpu/Eflags/Conditions.antt =====
-- `cpu_set_zf`, and the sixteen conditions of `cpu_cond`.
use cpu_ia32_cpp.Base.{
  ℕ, ◌*◌, ◌/◌, ◌%◌, ◌^◌, ◌<◌, bit_and, bit_or, bit_xor, ◌≡◌, refl, ap, ◌∙◌, some, Bool, true, false,
  arith, not32, int_of, ◌==◌,
}
use cpu_ia32_cpp.Base.Bits.{bit_at, bit_and-mask, bit_and-one}
use cpu_ia32_cpp.Cpu.State.{Cpu, IsWords}
use cpu_ia32_cpp.Cpu.Eflags.{◌>>=◌}
use cpu_ia32_cpp.Cpu.Eflags.Marks.{flags-parts}
use cpu_ia32_cpp.Cpu.Flags.{Flags, flags}
use cpu_ia32_cpp.Cpu.Eflags.{cpu_set_zf, arith_mask}
use cpu_ia32_cpp.Cpu.Eflags.Setters.{bit_laws}
use cpu_ia32_cpp.Base.{zero, suc, ◌!=◌, if◌then◌else◌}
use cpu_ia32_cpp.Cpu.Eflags.Word.{packed, cpu_get_eflags-packed}
use cpu_ia32_cpp.Base.{not, ◌||◌}
use cpu_ia32_cpp.Cpu.Eflags.{cpu_cond, condition}
use cpu_ia32_cpp.Cpu.Eflags.Word.{IsBinary, flags-IsBinary}
use cpu_ia32_cpp.Cpu.Eflags.RoundTrip.{merged, flags_in, flags-cpu_set_eflags}

module _ (e v : ℕ) (f : Flags) (binary : IsBinary f) (v_lt : v < 2) where
  abbrev with_zf : ℕ
  with_zf =
      bit_or (bit_and (bit_or (bit_and e (not32 arith_mask)) (packed f)) (not32 0x40)) (v * 0x40)

  flags_in-with_zf : flags_in (merged with_zf e) ≡ record f { zf = v }
  flags_in-with_zf = λ i. record {
    cf = bit_0 i;
    pf = bit_2 i;
    af = bit_4 i;
    zf = bit_6 i;
    sf = bit_7 i;
    of = bit_11 i;
  }
    where
      bit_0 : bit_at 0 (merged with_zf e) ≡ f.cf
      bit_0 = unfold bit_at in simp bit_laws (omega arith)

      bit_2 : bit_at 2 (merged with_zf e) ≡ f.pf
      bit_2 = unfold bit_at in simp bit_laws (omega arith)

      bit_4 : bit_at 4 (merged with_zf e) ≡ f.af
      bit_4 = unfold bit_at in simp bit_laws (omega arith)

      bit_6 : bit_at 6 (merged with_zf e) ≡ v
      bit_6 = unfold bit_at in simp bit_laws (omega arith)

      bit_7 : bit_at 7 (merged with_zf e) ≡ f.sf
      bit_7 = unfold bit_at in simp bit_laws (omega arith)

      bit_11 : bit_at 11 (merged with_zf e) ≡ f.of
      bit_11 = unfold bit_at in simp bit_laws (omega arith)

-- `cpu_set_zf`, on words of 32 bits whose six flags can be read, sets ZF to the given 0 or 1 and
-- keeps the other five flags.
flags-cpu_set_zf :
    (c : Cpu) (f : Flags) (v : ℕ)
    → IsWords c
    → flags c ≡ some f
    → v < 2
    → (cpu_set_zf v c >>= flags) ≡ some (record f { zf = v })
unfolding cpu_set_zf
flags-cpu_set_zf c f v words read v_lt = rw (cpu_get_eflags-packed c f words read) (
    flags-cpu_set_eflags (with_zf c.eflags v f (flags-IsBinary c f words read) v_lt) c
    ∙ ap some (flags_in-with_zf c.eflags v f (flags-IsBinary c f words read) v_lt))

-- The architecture's conditions: overflow, carry, zero, carry or zero, sign, parity, less, less or
-- equal.
abbrev pub holds : ℕ → Flags → Bool
holds zero f = f.of == 1
holds (suc zero) f = f.cf == 1
holds (suc (suc zero)) f = f.zf == 1
holds (suc (suc (suc zero))) f = f.cf == 1 || f.zf == 1
holds (suc (suc (suc (suc zero)))) f = f.sf == 1
holds (suc (suc (suc (suc (suc zero))))) f = f.pf == 1
holds (suc (suc (suc (suc (suc (suc zero)))))) f = f.sf != f.of
holds _ f = f.zf == 1 || f.sf != f.of

-- The low bit of the condition's number turns the test round.
turned : (b : Bool) (p : ℕ) → p < 2 → bit_xor (int_of b) p ≡ int_of (if p == 0 then b else not b)
turned true zero h = refl
turned true (suc zero) h = refl
turned false zero h = refl
turned false (suc zero) h = refl
turned true (suc (suc p)) h = absurd (omega arith)
turned false (suc (suc p)) h = absurd (omega arith)

module _ (c : Cpu) (f : Flags) (words : IsWords c) (read : flags c ≡ some f) where
  binary : IsBinary f
  binary = flags-IsBinary c f words read

  condition-eq : (n : ℕ) → n < 8 → condition n c ≡ some (int_of (holds n f))
  condition-eq zero h = ground (arith, flags-parts c f read, binary)
  condition-eq (suc zero) h = ground (arith, flags-parts c f read, binary)
  condition-eq (suc (suc zero)) h = ground (arith, flags-parts c f read, binary)
  condition-eq (suc (suc (suc zero))) h = ground (arith, flags-parts c f read, binary)
  condition-eq (suc (suc (suc (suc zero)))) h = ground (arith, flags-parts c f read, binary)
  condition-eq (suc (suc (suc (suc (suc zero))))) h = ground (arith, flags-parts c f read, binary)
  condition-eq (suc (suc (suc (suc (suc (suc zero)))))) h =
      ground (arith, flags-parts c f read, binary)
  condition-eq (suc (suc (suc (suc (suc (suc (suc zero))))))) h =
      ground (arith, flags-parts c f read, binary)
  condition-eq (suc (suc (suc (suc (suc (suc (suc (suc n)))))))) h = absurd (omega arith)

  -- `cpu_cond`, where the six flags can be read from 32-bit words: the value is 1 if the condition
  -- with the number `val / 2 % 8` holds of the flags, and for an odd `val` if it does not.
  pub cpu_cond-holds :
      (val : ℕ)
      → cpu_cond val c
        ≡ some
            (int_of (if val % 2 == 0 then holds (val / 2 % 8) f else not (holds (val / 2 % 8) f)))
  unfolding cpu_cond
  cpu_cond-holds val =
      rw (bit_and-mask 3 (val / 2 ^ 1), condition-eq (val / 2 % 8) (omega arith))
        (ap some (ap (bit_xor _) (bit_and-one val) ∙ turned _ (val % 2) (omega arith)))
