-- ===== src/Cpu/Shift/Carry.antt =====
-- The shifts of cpu/arith.cpp: their results, and the carry after them.
use cpu_ia32_cpp.Base.{
  ℕ, ◌-◌, ◌*◌, ◌/◌, ◌^◌, ◌<◌, ◌≤◌, bit_and, ◌≡◌, ap, ◌∙◌, true, false, some, arith, ltb, ◌==◌, u32,
  shift_right, Width, w8, w16, w32, bits, size, truncate, ◌<<<◌,
}
use native.Mathlib.Nat.{mod-eq_of_lt, div-le_self}
use cpu_ia32_cpp.Base.Bits.{bit_at, bit_and-mask, shifted-bit_at}
use cpu_ia32_cpp.Cpu.State.{Cpu, shl, shr}
use cpu_ia32_cpp.Cpu.Eflags.{◌>>=◌, cpu_get_cf, cf_of}
use cpu_ia32_cpp.Cpu.Eflags.Kinds.{lazy_op-code, cpu_get_cf-eq}
use cpu_ia32_cpp.Cpu.Shift.{shl_op, shr_op}

bits-le : (w : Width) → bits w ≤ 32
bits-le w = ground arith

left : (w : Width) (d n : ℕ) → truncate w (u32 (d <<< n)) ≡ truncate w (d * 2 ^ n)
left w8 d n = omega arith
left w16 d n = omega arith
left w32 d n = omega arith

-- The bit that a getter shifts down to the end.
last_out :
    (d j k : ℕ) → j ≡ k → k < 32 → (shift_right d j >>= λ x. some (bit_and x 1)) ≡ some (bit_at k d)
last_out d j k e h =
    let in_range : ltb k 32 ≡ true = ground arith in rw (e, in_range) (ap some (shifted-bit_at k d))

module _ (w : Width) (d n : ℕ) (c : Cpu) (some_bits : 0 < n) (within : n ≤ bits w)
    (small : n < 32) where
  count : bit_and n 31 ≡ n
  count = bit_and-mask 5 n ∙ omega arith

  counted : (n == 0) ≡ false
  counted = ground arith

  -- The left shift by a count from 1 to the width and below 32: the result is the operand times the
  -- power of two, cut to the width, and CF is the last bit shifted out.
  shl_op-shifts :
      ((shl_op w d n c).0 ≡ truncate w (d * 2 ^ n))
      × (cpu_get_cf (shl_op w d n c).1 ≡ some (bit_at (bits w - n) d))
  unfolding shl_op cf_of
  shl_op-shifts =
      rw (count, counted)
        (
          left w d n,
          cpu_get_cf-eq (shl w) _ (lazy_op-code (shl w))
              ∙ last_out d _ (bits w - n) (omega (arith, bits-le w)) (omega (arith, bits-le w)),
        )

  -- The logical right shift of an operand of the width by a count from 1 to the width and below 32:
  -- the result is the operand divided by the power of two, and CF is the last bit shifted out.
  shr_op-shifts :
      d < size w
      → ((shr_op w d n c).0 ≡ d / 2 ^ n) × (cpu_get_cf (shr_op w d n c).1 ≡ some (bit_at (n - 1) d))
  unfolding shr_op cf_of
  shr_op-shifts d_fits =
      rw (count, counted)
        (
          mod-eq_of_lt (omega (arith, div-le_self d (2 ^ n))),
          cpu_get_cf-eq (shr w) _ (lazy_op-code (shr w))
              ∙ last_out d _ (n - 1) (omega arith) (omega arith),
        )

  -- The left and the logical right shift of an operand of the width by a count from 1 to the width and
  -- below 32: the results are the operand times the power of two, cut to the width, and the operand
  -- divided by it, and CF is the last bit shifted out.
  pub shift_ops-shift :
      d < size w
      → ((shl_op w d n c).0 ≡ truncate w (d * 2 ^ n))
        × (cpu_get_cf (shl_op w d n c).1 ≡ some (bit_at (bits w - n) d))
        × ((shr_op w d n c).0 ≡ d / 2 ^ n)
        × (cpu_get_cf (shr_op w d n c).1 ≡ some (bit_at (n - 1) d))
  shift_ops-shift d_fits =
      let (left_result, left_carry) = shl_op-shifts in
      let (right_result, right_carry) = shr_op-shifts d_fits in
      (left_result, left_carry, right_result, right_carry)
