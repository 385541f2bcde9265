-- ===== src/Cpu/MulDiv.antt =====
-- cpu/arith.cpp: multiplications and divisions. `none` is `abort()`, or a signed division whose
-- quotient does not fit the type that C divides in, which is undefined.
pub mod Unsigned
use cpu_ia32_cpp.Base.{
  ℕ, zero, suc, ◌+◌, ◌-◌, ◌*◌, ◌/◌, ◌%◌, ◌^◌, Bool, true, false, ◌&&◌, Option, none, some, ltb, leb,
  ◌==◌, if◌then◌else◌, bit_and, u16, u32, u64, ◌<<<◌, ◌>>>◌, Width, w8, w16, w32, bits, top, size,
  truncate, sign_extend,
}
use cpu_ia32_cpp.Cpu.State.{mul, code, Cpu}
use cpu_ia32_cpp.Cpu.Arith.{Reg32, put_low, accumulator}
use cpu_ia32_cpp.Cpu.Eflags.{◌>>=◌}

-- What an instruction that can fault leaves: the function returns 0, or it has called
-- `cpu_exception(vector, code)` and returns 1.
pub data Outcome : Type 0 where
  completed : Cpu → Outcome
  exception : ℕ → ℕ → Cpu → Outcome

abbrev pub divide_error : Cpu → Outcome
divide_error = exception 0 0

-- `m_reg8[1] = v`, which is AH.
abbrev pub put_ah : ℕ → Reg32 → Reg32
put_ah v r j = if 0 == j then r 0 - r 0 / 256 % 256 * 256 + v % 256 * 256 else r j

-- The sign extension of a width to 64 bits.
abbrev pub sign_extend64 : Width → ℕ → ℕ
sign_extend64 w x =
    if ltb (truncate w x) (2 ^ top w) then truncate w x else truncate w x + (2 ^ 64 - size w)

-- The low and the high half of a product, each sign-extended from the width to 32 bits, are
-- `low >> top` and `high`.
abbrev pub low_signs : Width → ℕ → ℕ
low_signs w result = if ltb (truncate w result) (2 ^ top w) then 0 else 2 ^ 32 - 1

abbrev pub signed_product : Width → ℕ → ℕ → ℕ
signed_product w a b = u64 (sign_extend64 w a * sign_extend64 w b)

-- The common end of the multiplications: the registers take the product.
abbrev pub put_product : Width → ℕ → Reg32 → Reg32
put_product w8 result r = put_low w16 0 result r
put_product w16 result r = put_low w16 2 (result >>> 16) (put_low w16 0 result r)
put_product w32 result r = put_low w32 2 (result >>> 32) (put_low w32 0 result r)

abbrev pub finish_product : Width → ℕ → ℕ → ℕ → Cpu → Outcome
finish_product w result lop1 lop2 c = completed (record c {
  lr = sign_extend w result;
  lop1 = lop1;
  lop2 = lop2;
  laux = code mul;
  reg32 = put_product w result c.reg32;
})

-- Cases 4 and 5 of the switch; a product of two operands fits 64 bits.
unfoldable pub multiply : Width → ℕ → Cpu → Outcome
multiply w src c =
    let result = src * accumulator w c in finish_product w result 0 (result >>> bits w) c

unfoldable pub multiply_signed : Width → ℕ → Cpu → Outcome
multiply_signed w src c =
    let result = signed_product w src (accumulator w c) in
    finish_product w result (low_signs w result) (sign_extend w (result >>> bits w)) c

-- `AX`, `DX:AX` or `EDX:EAX`.
abbrev pub dividend : Width → Cpu → ℕ
dividend w8 c = truncate w16 (c.reg32 0)
dividend w16 c = truncate w16 (c.reg32 2) * 2 ^ 16 + truncate w16 (c.reg32 0)
dividend w32 c = truncate w32 (c.reg32 2) * 2 ^ 32 + truncate w32 (c.reg32 0)

abbrev pub put_quotient : Width → ℕ → ℕ → Reg32 → Reg32
put_quotient w8 q r regs = put_ah r (put_low w8 0 q regs)
put_quotient w16 q r regs = put_low w16 2 r (put_low w16 0 q regs)
put_quotient w32 q r regs = put_low w32 2 r (put_low w32 0 q regs)

-- Case 6.
unfoldable pub divide : Width → ℕ → Cpu → Outcome
divide w src c =
    let result = dividend w c / src in
    if src == 0
    then divide_error c
    else if ltb (size w - 1) result
    then divide_error c
    else completed (record c { reg32 = put_quotient w result (dividend w c % src) c.reg32 })

-- The signed type of 32 or 64 bits that C divides in, as bit patterns below `full`.
abbrev pub negative : ℕ → ℕ → Bool
negative full x = leb (full / 2) x

abbrev pub magnitude : ℕ → ℕ → ℕ
magnitude full x = if negative full x then full - x else x

abbrev pub signed : ℕ → Bool → ℕ → ℕ
signed full true n = (full - n) % full
signed full false n = n

abbrev pub differ : Bool → Bool → Bool
differ true true = false
differ false false = false
differ _ _ = true

-- C rounds towards 0; the remainder has the sign of the dividend. The least value divided by -1
-- has no quotient in the type.
unfoldable pub signed_quotient : ℕ → ℕ → ℕ → Option ℕ
signed_quotient full a b =
    if a == full / 2 && b == full - 1
    then none
    else some (
        signed full (differ (negative full a) (negative full b))
          (magnitude full a / magnitude full b))

unfoldable pub signed_remainder : ℕ → ℕ → ℕ → ℕ
signed_remainder full a b = signed full (negative full a) (magnitude full a % magnitude full b)

-- `temp > limit - 1 || temp < -limit` for a signed `temp`.
abbrev pub out_of_range : ℕ → ℕ → ℕ → Bool
out_of_range full limit temp =
    if negative full temp then ltb temp (full - limit) else ltb (limit - 1) temp

-- The type of the division: `int` for the operands of 8 and 16 bits, `int64_t` for 32.
abbrev pub full_of : Width → ℕ
full_of w8 = 2 ^ 32
full_of w16 = 2 ^ 32
full_of w32 = 2 ^ 64

-- The type of `temp`.
abbrev pub temp_of : Width → ℕ
temp_of w8 = 2 ^ 16
temp_of w16 = 2 ^ 32
temp_of w32 = 2 ^ 64

abbrev pub signed_dividend : Width → Cpu → ℕ
signed_dividend w8 c = sign_extend w16 (dividend w8 c)
signed_dividend w16 c = dividend w16 c
signed_dividend w32 c = dividend w32 c

abbrev pub signed_divisor : Width → ℕ → ℕ
signed_divisor w8 src = sign_extend w8 src
signed_divisor w16 src = sign_extend w16 src
signed_divisor w32 src = sign_extend64 w32 src

-- Case 7.
unfoldable pub divide_signed : Width → ℕ → Cpu → Option Outcome
unfolding signed_quotient signed_remainder
divide_signed w src c =
    let a = signed_dividend w c in
    let b = signed_divisor w src in
    let divided : Option Outcome = do
      result ← signed_quotient (full_of w) a b
      let rest = signed_remainder (full_of w) a b
      some (
          if out_of_range (temp_of w) (2 ^ top w) (result % temp_of w)
          then divide_error c
          else completed (record c { reg32 = put_quotient w result rest c.reg32 }))
    in if src == 0 then some (divide_error c) else divided

-- The cases of the switch on `op & 7`; below 4 the program stops.
abbrev pub muldiv_op : ℕ → Width → ℕ → Cpu → Option Outcome
muldiv_op (suc (suc (suc (suc zero)))) w src c = some (multiply w src c)
muldiv_op (suc (suc (suc (suc (suc zero))))) w src c = some (multiply_signed w src c)
muldiv_op (suc (suc (suc (suc (suc (suc zero)))))) w src c = some (divide w src c)
muldiv_op (suc (suc (suc (suc (suc (suc (suc n))))))) w src c = divide_signed w src c
muldiv_op _ w src c = none

unfoldable pub cpu_muldiv : Width → ℕ → ℕ → Cpu → Option Outcome
unfolding multiply multiply_signed divide divide_signed
cpu_muldiv w op src c = muldiv_op (bit_and op 7) w src c

abbrev pub cpu_muldiv8 : ℕ → ℕ → Cpu → Option Outcome
cpu_muldiv8 = cpu_muldiv w8

abbrev pub cpu_muldiv16 : ℕ → ℕ → Cpu → Option Outcome
cpu_muldiv16 = cpu_muldiv w16

abbrev pub cpu_muldiv32 : ℕ → ℕ → Cpu → Option Outcome
cpu_muldiv32 = cpu_muldiv w32

-- `cpu_imul8`, `cpu_imul16` and `cpu_imul32`: the product is returned, not put into registers.
unfoldable pub cpu_imul : Width → ℕ → ℕ → Cpu → ℕ × Cpu
cpu_imul w op1 op2 c =
    let result = signed_product w op1 op2 in
    (
      truncate w result,
      record c {
        laux = code mul;
        lop1 = low_signs w result;
        lop2 = sign_extend w (result >>> bits w);
        lr = sign_extend w result;
      },
    )
