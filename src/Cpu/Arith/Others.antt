-- ===== src/Cpu/Arith/Others.antt =====
-- The operations that subtract or add in another form: NEG, CMPXCHG and XADD.
use cpu_ia32_cpp.Base.{
  ℕ, ◌+◌, ◌-◌, ◌%◌, ◌<◌, ◌≡◌, refl, ap, ◌∙◌, some, arith, Bool, true, false, ◌==◌, if◌then◌else◌,
  Width, w8, w16, w32, bits, size, truncate, truncate-fits, truncate-again, truncate-lt,
  sign_extend, Bool-cases, inl, inr,
}
use native.Mathlib.Nat.{one-le-pow}
use cpu_ia32_cpp.Cpu.State.{Cpu}
use cpu_ia32_cpp.Cpu.Flags.{flags, sum_flags, difference_flags}
use cpu_ia32_cpp.Cpu.Arith.{
  accumulator, put_low, plus, minus, cpu_neg, Place, elsewhere, low_part, second_byte, read_place,
  write_place, cpu_cmpxchg, xadd,
}
use cpu_ia32_cpp.Cpu.Arith.Places.{
  read_place-lt, is_accumulator, is_same, write_place-reads, writes-reads,
}
use cpu_ia32_cpp.Cpu.Arith.Refine.{flags-subtracted, flags-added}
use cpu_ia32_cpp.Cpu.Arith.Sums.{added}
use cpu_ia32_cpp.Cpu.Arith.Differences.{subtracted}

-- The flags of an addition or a subtraction do not depend on the registers.
module _ (w : Width) (a d : ℕ) (c : Cpu) (a_fits : a < size w) (d_fits : d < size w) where
  sum_flags-regs :
      (regs : ℕ → ℕ) → flags (record (added w a d c) { reg32 = regs }) ≡ some (sum_flags w a d 0)
  unfolding flags
  sum_flags-regs regs = flags-added w a d 0 (record c { reg32 = regs }) a_fits d_fits

  difference_flags-regs :
      (regs : ℕ → ℕ)
      → flags (record (subtracted w a d c) { reg32 = regs }) ≡ some (difference_flags w a d 0)
  unfolding flags
  difference_flags-regs regs = flags-subtracted w a d 0 (record c { reg32 = regs }) a_fits d_fits

if-same {ℓ} :
    {A : Type ℓ} {x x' y y' : A} (b : Bool)
    → x ≡ x'
    → y ≡ y'
    → (if b then x else y) ≡ (if b then x' else y')
if-same true p q = p
if-same false p q = q

module _ (w : Width) (p q : Place w) (c : Cpu) where
  -- `xadd8`, `xadd16` and `xadd32`: the first operand becomes the sum, and the second the old first
  -- one, but where both are the same register: there the sum is left. The six flags are those of the
  -- addition.
  xadd-refines :
      let d = read_place w p c in
      let s = read_place w q c in
      let (p', q', after) = xadd w p q c in
      (read_place w p' after ≡ truncate w (d + s))
      × (read_place w q' after ≡ (if is_same w p q then truncate w (d + s) else d))
      × (flags after ≡ some (sum_flags w d s 0))
  unfolding xadd write_place
  xadd-refines =
      let d = read_place w p c in
      let s = read_place w q c in
      let res = plus w d s in
      let c' = added w d s c in
      let again = truncate-again w (d + s) in
      (
        (write_place-reads w p res ((write_place w q d c').1)).0 ∙ again,
        writes-reads w p q res d c'
            ∙ if-same (is_same w p q) again (truncate-fits w d (read_place-lt w p c)),
        sum_flags-regs w d s c (read_place-lt w p c) (read_place-lt w q c) _,
      )

opposite : (w : Width) (d : ℕ) → d < size w → (minus w 0 d + d) % size w ≡ 0
opposite w8 d h = omega arith
opposite w16 d h = omega arith
opposite w32 d h = omega arith

module _ (w : Width) (d : ℕ) (c : Cpu) (d_fits : d < size w) where
  -- `cpu_neg8`, `cpu_neg16` and `cpu_neg32`, on an operand of the width: the result added to the
  -- operand is 0 modulo the width, and the six flags are those of subtracting the operand from 0.
  cpu_neg-refines :
      let (res, after) = cpu_neg w d c in
      ((res + d) % size w ≡ 0) × (flags after ≡ some (difference_flags w 0 d 0))
  unfolding cpu_neg
  cpu_neg-refines =
      (opposite w d d_fits, flags-subtracted w 0 d 0 c (one-le-pow (bits w) 2 (omega arith)) d_fits)

module _ (w : Width) (p q : Place w) (n : ℕ) (c : Cpu) (n_fits : n < size w) where
  -- `xadd8` to `xadd32`, on two operands each of which is outside the registers, the low part of a
  -- register or the second byte of one, and `cpu_neg8` to `cpu_neg32`, on an operand of the width:
  -- XADD leaves the sum in the first operand and the old first operand in the second, or the sum where
  -- both are the same register, with the flags of the addition; the result of NEG added to its operand
  -- is 0 modulo the width, and its flags are those of subtracting the operand from 0.
  pub xadd-neg-refine :
      let d = read_place w p c in
      let s = read_place w q c in
      let (p', q', added) = xadd w p q c in
      let (res, negated) = cpu_neg w n c in
      (read_place w p' added ≡ truncate w (d + s))
      × (read_place w q' added ≡ (if is_same w p q then truncate w (d + s) else d))
      × (flags added ≡ some (sum_flags w d s 0))
      × ((res + n) % size w ≡ 0)
      × (flags negated ≡ some (difference_flags w 0 n 0))
  xadd-neg-refine =
      let (sum, old, added) = xadd-refines w p q c in
      let (opposed, negated) = cpu_neg-refines w n c n_fits in (sum, old, added, opposed, negated)

same_result :
    (w : Width) (a d : ℕ) → a < size w → d < size w → (sign_extend w (minus w a d) == 0) ≡ (a == d)
same_result w8 a d h g = ground arith
same_result w16 a d h g = ground arith
same_result w32 a d h g = ground arith

loaded : (w : Width) (r d : ℕ) → d < size w → truncate w (r - r % size w + truncate w d) ≡ d
loaded w8 r d h = omega arith
loaded w16 r d h = omega arith
loaded w32 r d h = omega arith

-- A load of the accumulator leaves every other place as it is.
put_low-reads :
    (w : Width) (p : Place w) (a d v : ℕ) (c : Cpu)
    → is_accumulator w p ≡ false
    → read_place w p (record (subtracted w a d c) { reg32 = put_low w 0 v c.reg32 })
      ≡ read_place w p c
unfolding read_place
put_low-reads w (elsewhere u) a d v c other = refl
put_low-reads w (low_part i) a d v c other = ground arith
put_low-reads w8 (second_byte i) a d v c other = ground arith

-- The accumulator equals itself.
is_accumulator-reads :
    (w : Width) (p : Place w) (c : Cpu)
    → (accumulator w c == read_place w p c) ≡ false
    → is_accumulator w p ≡ false
unfolding read_place
is_accumulator-reads w (elsewhere u) c other = refl
is_accumulator-reads w (low_part i) c other = ground arith
is_accumulator-reads w8 (second_byte i) c other = refl

module _ (w : Width) (p : Place w) (s : ℕ) (c : Cpu) where
  -- `cpu_cmpxchg8`, `cpu_cmpxchg16` and `cpu_cmpxchg32`, on a destination that is outside the
  -- registers, the low part of any register, the accumulator included, or the second byte of one:
  -- if the accumulator equals the destination, the destination then holds the source, and otherwise
  -- what it held. The accumulator then holds the destination's old value, but where it is itself the
  -- destination: there it holds the source. The six flags are those of subtracting the destination's
  -- old value from the accumulator's.
  pub cpu_cmpxchg-refines :
      let d = read_place w p c in
      let (p', after) = cpu_cmpxchg w p s c in
      (read_place w p' after ≡ (if accumulator w c == d then truncate w s else d))
      × (accumulator w after ≡ (if is_accumulator w p then truncate w s else d))
      × (flags after ≡ some (difference_flags w (accumulator w c) d 0))
  unfolding cpu_cmpxchg write_place
  cpu_cmpxchg-refines =
      let a = accumulator w c in
      let d = read_place w p c in
      let a_fits = truncate-lt w (c.reg32 0) in
      let d_fits = read_place-lt w p c in
      let same = same_result w a d a_fits d_fits in
      elim (Bool-cases (a == d)) [
        | inl equal ↦
            let (stored, left) = write_place-reads w p s (subtracted w a d c) in
            let old : a ≡ d = ground arith in
            rw (same, equal)
              (
                stored,
                left ∙ ap (λ v. if is_accumulator w p then truncate w s else v) old,
                difference_flags-regs w a d c a_fits d_fits _,
              )
        | inr other ↦
            let apart = is_accumulator-reads w p c other in
            rw (same, other, apart)
              (
                put_low-reads w p a d d c apart,
                loaded w (c.reg32 0) d d_fits,
                difference_flags-regs w a d c a_fits d_fits (put_low w 0 d c.reg32),
              )
      ]
