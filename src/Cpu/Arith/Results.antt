-- ===== src/Cpu/Arith/Results.antt =====
-- The flags that depend on the result alone: ZF, SF and PF of a result left by `leave`.
use cpu_ia32_cpp.Base.{
  ℕ, ◌/◌, ◌%◌, ◌^◌, ◌<◌, bit_and, bit_xor, ◌≡◌, refl, ap, ◌∙◌, true, arith, leb, ◌==◌, ==_iff,
  int_of, Width, w8, w16, w32, top, size, sign_extend,
}
use cpu_ia32_cpp.Base.Bits.{
  bit_at, bit_and-mask, bit_at-bit_xor, all_below, all_below_sound, bit_xor-zero, bit_xor-lt,
}
use cpu_ia32_cpp.Cpu.State.{LazyOp, code, Cpu}
use cpu_ia32_cpp.Cpu.Eflags.{cpu_get_sf, cpu_get_pf}
use cpu_ia32_cpp.Cpu.Flags.{even_parity, ones_below}
use cpu_ia32_cpp.Cpu.Arith.{leave}

-- `m_lr` is 0 exactly when the result is.
pub lr-zero : (w : Width) (x : ℕ) → x < size w → int_of (sign_extend w x == 0) ≡ int_of (x == 0)
lr-zero w8 x h = ground arith
lr-zero w16 x h = ground arith
lr-zero w32 x h = ground arith

abbrev parity_bit : ℕ → ℕ
parity_bit v = bit_and (0x9669 / 2 ^ bit_and (bit_xor v (v / 2 ^ 4)) 0x0f) 1

-- The folded byte indexes a table of 16 parities.
parity_table : all_below 256 (λ v. parity_bit v == even_parity v) ≡ true
unfolding all_below
parity_table = refl

parity_bit-eq : (v : ℕ) → v < 256 → parity_bit v ≡ even_parity v
parity_bit-eq v h = (==_iff _ _).0 (all_below_sound 256 _ v parity_table h)

-- A constant of the enum touches neither bit 7 nor bit 31 of `m_laux`.
code-lt : (op : LazyOp) → code op < 64
code-lt op = ground arith

low_table : all_below 64 (λ n. bit_and n 0x80 == 0) ≡ true
unfolding all_below
low_table = refl

code-bit_and : (op : LazyOp) → bit_and (code op) 0x80 ≡ 0
code-bit_and op = (==_iff _ _).0 (all_below_sound 64 _ (code op) low_table (code-lt op))

high_bit : (x n : ℕ) → x < 2 ^ 32 → n < 64 → bit_xor x n / 2 ^ 31 ≡ x / 2 ^ 31
unfolding bit_at
high_bit x n p q = omega (arith, bit_at-bit_xor 31 x n, bit_xor-lt 32 x n p (omega arith))

pub sign_extend-lt : (w : Width) (x : ℕ) → sign_extend w x < 2 ^ 32
sign_extend-lt w8 x = ground arith
sign_extend-lt w16 x = ground arith
sign_extend-lt w32 x = ground arith

sign_of : (w : Width) (x : ℕ) → x < size w → sign_extend w x / 2 ^ 31 ≡ int_of (leb (2 ^ top w) x)
sign_of w8 x h = ground arith
sign_of w16 x h = ground arith
sign_of w32 x h = ground arith

pub sign_extend-low : (w : Width) (x : ℕ) → sign_extend w x % size w ≡ x % size w
sign_extend-low w8 x = ground arith
sign_extend-low w16 x = ground arith
sign_extend-low w32 x = ground arith

low_byte : (w : Width) (x : ℕ) → sign_extend w x % 256 ≡ x % 256
low_byte w8 x = sign_extend-low w8 x
low_byte w16 x = omega (arith, sign_extend-low w16 x)
low_byte w32 x = omega (arith, sign_extend-low w32 x)

module _ (w : Width) (op : LazyOp) (x : ℕ) (c : Cpu) where
  pub cpu_get_sf-leave : x < size w → cpu_get_sf (leave w op x c) ≡ int_of (leb (2 ^ top w) x)
  unfolding cpu_get_sf
  cpu_get_sf-leave h =
      high_bit (sign_extend w x) (code op) (sign_extend-lt w x) (code-lt op) ∙ sign_of w x h

  pub cpu_get_pf-leave : cpu_get_pf (leave w op x c) ≡ even_parity x
  unfolding cpu_get_pf
  cpu_get_pf-leave =
      ap parity_bit (
        ap (λ (t : ℕ). bit_and (bit_xor (sign_extend w x) t) 0xff) (code-bit_and op)
        ∙ ap (λ (t : ℕ). bit_and t 0xff) (bit_xor-zero (sign_extend w x))
        ∙ bit_and-mask 8 (sign_extend w x)
        ∙ low_byte w x)
      ∙ parity_bit-eq (x % 256) (omega arith)
      ∙ ap (λ (t : ℕ). int_of (ones_below 8 t % 2 == 0)) twice
    where
      twice : x % 256 % 256 ≡ x % 256
      twice = omega arith
