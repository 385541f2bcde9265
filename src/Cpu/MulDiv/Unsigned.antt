-- ===== src/Cpu/MulDiv/Unsigned.antt =====
-- The unsigned multiplications and divisions of cpu/arith.cpp as products, quotients and remainders.
use cpu_ia32_cpp.Base.{
  ℕ, ◌+◌, ◌-◌, ◌*◌, ◌/◌, ◌%◌, ◌<◌, ◌≤◌, ◌≡◌, refl, false, some, arith, ltb, ◌==◌, ◌!=◌, int_of,
  Bool-cases, inl, inr, Width, w8, w16, w32, bits, size, truncate,
}
use native.Mathlib.Nat.{
  div-add-mod', mod-lt, div-lt_iff_lt-mul, mul-le-mul_left, mul-lt-mul_of_pos_right, one-le-pow,
}
use cpu_ia32_cpp.Cpu.State.{mul, Cpu}
use cpu_ia32_cpp.Cpu.Eflags.{cpu_get_cf, cpu_get_of, cf_of, of_of}
use cpu_ia32_cpp.Cpu.Eflags.Kinds.{lazy_op-code, cpu_get_cf-eq, cpu_get_of-eq}
use cpu_ia32_cpp.Cpu.Arith.{accumulator}
use cpu_ia32_cpp.Cpu.MulDiv.{
  completed, exception, put_product, multiply, dividend, put_quotient, divide,
}

size_pos : (w : Width) → 0 < size w
size_pos w = one-le-pow (bits w) 2 (omega arith)

-- The register that takes the remainder: AH, DX or EDX.
abbrev pub remainder : Width → Cpu → ℕ
remainder w8 c = c.reg32 0 / 256 % 256
remainder w16 c = truncate w16 (c.reg32 2)
remainder w32 c = truncate w32 (c.reg32 2)

dividend-put :
    (w : Width) (x : ℕ) (c d : Cpu)
    → x < size w * size w
    → d.reg32 ≡ put_product w x c.reg32
    → dividend w d ≡ x
dividend-put w8 x c d h e = rw e (omega arith)
dividend-put w16 x c d h e = rw e (omega arith)
dividend-put w32 x c d h e = rw e (omega arith)

module _ (w : Width) (src : ℕ) (c : Cpu) (fits : src < size w) where
  product-lt : src * accumulator w c < size w * size w
  product-lt =
      let a : accumulator w c < size w = mod-lt (c.reg32 0) (size_pos w) in
      let le : src * accumulator w c ≤ src * size w = mul-le-mul_left src (omega arith) in
      let lt : src * size w < size w * size w = mul-lt-mul_of_pos_right fits (size_pos w) in
      omega arith

  -- The unsigned multiplications on 8, 16 and 32 bits, with an operand of that width: they complete,
  -- AX, DX:AX or EDX:EAX is the product of the operand and the accumulator, and CF and OF are set
  -- exactly if the high half is not 0.
  pub multiply-product :
      (after : Cpu) × (multiply w src c ≡ completed after)
      × (dividend w after ≡ src * accumulator w c)
      × (cpu_get_cf after ≡ some (int_of (0 != src * accumulator w c / size w)))
      × (cpu_get_of after ≡ some (int_of (0 != src * accumulator w c / size w)))
  unfolding multiply cf_of of_of
  multiply-product = (
    _,
    refl,
    dividend-put w _ c _ product-lt refl,
    cpu_get_cf-eq mul _ (lazy_op-code mul),
    cpu_get_of-eq mul _ (lazy_op-code mul),
  )

quotient-put :
    (w : Width) (q r : ℕ) (c d : Cpu)
    → q < size w
    → r < size w
    → d.reg32 ≡ put_quotient w q r c.reg32
    → (accumulator w d ≡ q) × (remainder w d ≡ r)
quotient-put w8 q r c d g h e = rw e (omega arith, omega arith)
quotient-put w16 q r c d g h e = rw e (omega arith, omega arith)
quotient-put w32 q r c d g h e = rw e (omega arith, omega arith)

module _ (w : Width) (src : ℕ) (c : Cpu) where
  after_division : Cpu
  after_division = record c {
    reg32 = put_quotient w (dividend w c / src) (dividend w c % src) c.reg32;
  }

  completes : 0 < src → dividend w c / src < size w → divide w src c ≡ completed after_division
  unfolding divide after_division
  completes pos small =
      let nonzero : (src == 0) ≡ false = ground arith in
      let in_range : ltb (size w - 1) (dividend w c / src) ≡ false = ground (arith, size_pos w) in
      rw (nonzero, in_range) refl

  -- The unsigned divisions, with a divisor of the width that is not 0 and a quotient that fits: they
  -- complete, and the quotient in the accumulator and the remainder in AH, DX or EDX satisfy
  -- quotient * divisor + remainder = dividend, with the remainder below the divisor.
  pub divide-quotient :
      src < size w
      → 0 < src
      → dividend w c < size w * src
      → (after : Cpu) × (divide w src c ≡ completed after)
        × (accumulator w after * src + remainder w after ≡ dividend w c)
        × (remainder w after < src)
  unfolding after_division
  divide-quotient fits pos small =
      let less : dividend w c % src < src = mod-lt (dividend w c) pos in
      let quotient_fits = (div-lt_iff_lt-mul pos).1 small in
      let (q, r) =
        quotient-put w (dividend w c / src) (dividend w c % src) c after_division quotient_fits
          (omega arith) refl in
      (
        after_division,
        completes pos quotient_fits,
        rw (q, r) (div-add-mod' (dividend w c) src),
        rw r less,
      )

  -- The unsigned divisions by 0, or with a quotient that does not fit, raise the divide error and
  -- change nothing.
  pub divide-error : size w * src ≤ dividend w c → divide w src c ≡ exception 0 0 c
  unfolding divide
  divide-error large = elim (Bool-cases (src == 0)) [
    | inl zero_divisor ↦ rw zero_divisor refl
    | inr nonzero ↦
        let pos : 0 < src = ground arith in
        elim (Bool-cases (ltb (size w - 1) (dividend w c / src))) [
          | inl too_large ↦ rw (nonzero, too_large) refl
          | inr in_range ↦
              let small : dividend w c / src < size w = ground (arith, size_pos w) in
              absurd (omega (arith, (div-lt_iff_lt-mul pos).0 small))
        ]
  ]
