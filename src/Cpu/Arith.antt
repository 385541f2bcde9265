-- ===== src/Cpu/Arith.antt =====
-- cpu/arith.cpp but for the shifts, multiplications and divisions. The three functions of one
-- operation on 8, 16 and 32 bits are one definition over the width. A function that writes through
-- a pointer takes the old value and returns the new one beside the processor; CMPXCHG and XADD, which
-- read a register or a second pointer as well, take and return a `Place`.
pub mod Results
pub mod Sums
pub mod Differences
pub mod Refine
pub mod Places
pub mod Others
pub mod Steps
use cpu_ia32_cpp.Base.{
  ℕ, zero, suc, ◌+◌, ◌-◌, ◌*◌, ◌/◌, ◌%◌, bit_and, bit_or, bit_xor, Option, some, ◌==◌,
  if◌then◌else◌, not32, Width, w8, w16, w32, size, truncate, sign_extend,
}
use cpu_ia32_cpp.Cpu.State.{LazyOp, add, adc, sbb, sub, inc, dec, bit, code, Cpu}
use cpu_ia32_cpp.Cpu.Eflags.{◌>>=◌, cpu_get_cf}

abbrev pub Reg32 : Type 0
Reg32 = ℕ → ℕ

-- `m_reg8[0]`, `m_reg16[0]` or `m_reg32[0]`.
abbrev pub accumulator : Width → Cpu → ℕ
accumulator w c = truncate w (c.reg32 0)

-- A write to the low part of register `i` keeps the rest of it.
abbrev pub put_low : Width → ℕ → ℕ → Reg32 → Reg32
put_low w i v r j = if i == j then r i - r i % size w + truncate w v else r j

-- The result and the kind of operation, for the flags.
abbrev pub leave : Width → LazyOp → ℕ → Cpu → Cpu
leave w op res c = record c { lr = sign_extend w res; laux = code op }

-- `*dest += a` and `*dest -= a`; `a` is at most the size of the type.
abbrev pub plus : Width → ℕ → ℕ → ℕ
plus w dest a = truncate w (dest + a)

abbrev pub minus : Width → ℕ → ℕ → ℕ
minus w dest a = truncate w (dest + size w - a)

-- The cases of the switch on `op & 7`; 7 is no case.
unfoldable pub arith_op : ℕ → Width → ℕ → ℕ → Cpu → Option (ℕ × Cpu)
arith_op zero w dest src c =
    let res = plus w dest src in some (res, leave w (add w) res (record c { lop2 = src }))
arith_op (suc zero) w dest src c = let res = bit_or dest src in some (res, leave w bit res c)
arith_op (suc (suc zero)) w dest src c = do
  old_cf ← cpu_get_cf c
  let res = plus w dest (src + old_cf)
  some (res, leave w (adc w) res (record c { lop1 = dest; lop2 = src }))
arith_op (suc (suc (suc zero))) w dest src c = do
  old_cf ← cpu_get_cf c
  let res = minus w dest (src + old_cf)
  some (res, leave w (sbb w) res (record c { lop1 = dest; lop2 = src }))
arith_op (suc (suc (suc (suc zero)))) w dest src c =
    let res = bit_and dest src in some (res, leave w bit res c)
arith_op (suc (suc (suc (suc (suc zero))))) w dest src c =
    let res = minus w dest src in some (res, leave w (sub w) res (record c { lop2 = src }))
arith_op (suc (suc (suc (suc (suc (suc zero)))))) w dest src c =
    let res = bit_xor dest src in some (res, leave w bit res c)
arith_op _ w dest src c = some (dest, c)

unfoldable pub cpu_arith : Width → ℕ → ℕ → ℕ → Cpu → Option (ℕ × Cpu)
unfolding arith_op
cpu_arith w op dest src c = arith_op (bit_and op 7) w dest src c

abbrev pub cpu_arith8 : ℕ → ℕ → ℕ → Cpu → Option (ℕ × Cpu)
cpu_arith8 = cpu_arith w8

abbrev pub cpu_arith16 : ℕ → ℕ → ℕ → Cpu → Option (ℕ × Cpu)
cpu_arith16 = cpu_arith w16

abbrev pub cpu_arith32 : ℕ → ℕ → ℕ → Cpu → Option (ℕ × Cpu)
cpu_arith32 = cpu_arith w32

unfoldable pub cpu_neg : Width → ℕ → Cpu → ℕ × Cpu
cpu_neg w dest c = let res = minus w 0 dest in (res, leave w (sub w) res (record c { lop2 = dest }))

-- The carry survives in `m_eflags`: the new kind of operation reads it there.
abbrev pub keep_cf : ℕ → Cpu → Cpu
keep_cf cf c = record c { eflags = bit_or (bit_and c.eflags (not32 0x01)) cf }

unfoldable pub cpu_inc : Width → ℕ → Cpu → Option (ℕ × Cpu)
cpu_inc w dest c = do
  cf ← cpu_get_cf c
  let res = plus w dest 1
  some (res, leave w (inc w) res (keep_cf cf c))

unfoldable pub cpu_dec : Width → ℕ → Cpu → Option (ℕ × Cpu)
cpu_dec w dest c = do
  cf ← cpu_get_cf c
  let res = minus w dest 1
  some (res, leave w (dec w) res (keep_cf cf c))

unfoldable pub cpu_not : Width → ℕ → ℕ
cpu_not w dest = size w - 1 - dest

-- What a pointer to an operand points to: the value at a place outside the registers (memory, or
-- `m_read_result`), the low part of register `i` (`&m_reg8[4 * i]`, `&m_reg16[2 * i]`,
-- `&m_reg32[i]`), or its second byte (`&m_reg8[4 * i + 1]`).
pub data Place : Width → Type 0 where
  elsewhere : {w : Width} → ℕ → Place w
  low_part : {w : Width} → ℕ → Place w
  second_byte : ℕ → Place w8

-- `*p`.
unfoldable pub read_place : (w : Width) → Place w → Cpu → ℕ
read_place w (elsewhere v) c = truncate w v
read_place w (low_part i) c = truncate w (c.reg32 i)
read_place w8 (second_byte i) c = truncate w8 (c.reg32 i / 256)

abbrev pub put_second : ℕ → ℕ → Reg32 → Reg32
put_second i v r j = if i == j then r j - r j / 256 % 256 * 256 + v % 256 * 256 else r j

-- `*p = v`: the registers, and what the pointer then points to.
unfoldable pub assign_regs : (w : Width) → Place w → ℕ → Reg32 → Reg32
assign_regs w (elsewhere _) v r = r
assign_regs w (low_part i) v r = put_low w i v r
assign_regs w8 (second_byte i) v r = put_second i v r

unfoldable pub assign_place : (w : Width) → Place w → ℕ → Place w
assign_place w (elsewhere _) v = elsewhere (truncate w v)
assign_place w (low_part i) v = low_part i
assign_place w8 (second_byte i) v = second_byte i

unfoldable pub write_place : (w : Width) → Place w → ℕ → Cpu → Place w × Cpu
unfolding assign_regs assign_place
write_place w p v c = (assign_place w p v, record c { reg32 = assign_regs w p v c.reg32 })

-- `*op1` is compared with the accumulator and replaced by `op2`, or loaded into it. The pointer may
-- be to the accumulator itself.
unfoldable pub cpu_cmpxchg : (w : Width) → Place w → ℕ → Cpu → Place w × Cpu
unfolding read_place write_place
cpu_cmpxchg w op1 op2 c =
    let lop2 = read_place w op1 c in
    let lr = sign_extend w (minus w (accumulator w c) lop2) in
    let c' = record c { lop2 = lop2; lr = lr; laux = code (sub w) } in
    if lr == 0
    then write_place w op1 op2 c'
    else (op1, record c' { reg32 = put_low w 0 lop2 c.reg32 })

-- `*op2` is written first. The pointers may be to the same register.
unfoldable pub xadd : (w : Width) → Place w → Place w → Cpu → Place w × Place w × Cpu
unfolding read_place write_place
xadd w op1 op2 c =
    let dest = read_place w op1 c in
    let lop2 = read_place w op2 c in
    let res = plus w dest lop2 in
    let (op2', c') = write_place w op2 dest (leave w (add w) res (record c { lop2 = lop2 })) in
    let (op1', c'') = write_place w op1 res c' in (op1', op2', c'')
