-- ===== src/Cpu/Shift.antt =====
-- cpu/arith.cpp: shifts and rotations.
pub mod Carry
use cpu_ia32_cpp.Base.{
  ℕ, zero, suc, ◌+◌, ◌-◌, ◌%◌, ◌^◌, bit_and, bit_or, bit_xor, Option, some, ltb, ◌==◌,
  if◌then◌else◌, u32, not32, ◌<<<◌, ◌>>>◌, Width, w8, w16, w32, bits, top, truncate, sign_extend,
}
use cpu_ia32_cpp.Cpu.State.{LazyOp, shl, shr, sar, Cpu}
use cpu_ia32_cpp.Cpu.Eflags.{◌>>=◌, bit_test, cpu_get_cf, cpu_set_cf, cpu_set_of}
use cpu_ia32_cpp.Cpu.Arith.{leave}

-- `op2` of the rotations, and of the rotations through the carry.
abbrev pub rotate_count : Width → ℕ → ℕ
rotate_count w8 src = bit_and src 7
rotate_count w16 src = bit_and src 15
rotate_count w32 src = bit_and src 31

abbrev pub carry_count : Width → ℕ → ℕ
carry_count w8 src = bit_and src 31 % 9
carry_count w16 src = bit_and src 31 % 17
carry_count w32 src = bit_and src 31

-- `cpu_set_cf(cf); cpu_set_of(of)`.
abbrev pub set_cf_of : ℕ → ℕ → Cpu → Option Cpu
set_cf_of cf of c = cpu_set_cf cf c >>= cpu_set_of of

-- The shifted bits are cut to the width on assignment to `res`.
unfoldable pub rol : Width → ℕ → ℕ → Cpu → Option (ℕ × Cpu)
rol w dest src c = do
  let op2 = rotate_count w src
  let res = if op2 == 0 then dest else truncate w (bit_or (dest <<< op2) (dest >>> (bits w - op2)))
  let of = bit_and (bit_xor res (res >>> top w)) 1
  c' ← (if bit_and src 31 == 0 then some c else set_cf_of (bit_and res 1) of c)
  some (res, c')

-- `(res ^ (res << 1)) >> top & 1`: the two highest bits differ.
abbrev pub top_changes : Width → ℕ → ℕ
top_changes w res = bit_test (bit_xor res (u32 (res <<< 1))) (top w)

unfoldable pub ror : Width → ℕ → ℕ → Cpu → Option (ℕ × Cpu)
ror w dest src c = do
  let op2 = rotate_count w src
  let res = if op2 == 0 then dest else truncate w (bit_or (dest >>> op2) (dest <<< (bits w - op2)))
  c' ←
      (if bit_and src 31 == 0
        then some c
        else set_cf_of (bit_test res (top w)) (top_changes w res) c)
  some (res, c')

-- A rotation by one through the carry has a case of its own on 32 bits, where the general form
-- would shift by 32.
abbrev pub rcl_bits : Width → ℕ → ℕ → ℕ → ℕ
rcl_bits w op1 op2 cf =
    truncate w (bit_or (bit_or (op1 <<< op2) (cf <<< (op2 - 1))) (op1 >>> (bits w + 1 - op2)))

abbrev pub rcl_result : Width → ℕ → ℕ → ℕ → ℕ
rcl_result w8 op1 op2 cf = rcl_bits w8 op1 op2 cf
rcl_result w16 op1 op2 cf = rcl_bits w16 op1 op2 cf
rcl_result w32 op1 op2 cf =
    if op2 == 1 then truncate w32 (bit_or (op1 <<< 1) cf) else rcl_bits w32 op1 op2 cf

unfoldable pub rcl : Width → ℕ → ℕ → Cpu → Option (ℕ × Cpu)
rcl w dest src c =
    let op2 = carry_count w src in
    let rotated : Option (ℕ × Cpu) = do
      cf ← cpu_get_cf c
      let res = rcl_result w dest op2 cf
      let out = bit_test dest (bits w - op2)
      c' ← set_cf_of out (bit_and (bit_xor out (res >>> top w)) 1) c
      some (res, c')
    in if op2 == 0 then some (dest, c) else rotated

abbrev pub rcr_bits : Width → ℕ → ℕ → ℕ → ℕ
rcr_bits w op1 op2 cf =
    truncate w (bit_or (bit_or (op1 >>> op2) (cf <<< (bits w - op2))) (op1 <<< (bits w + 1 - op2)))

abbrev pub rcr_result : Width → ℕ → ℕ → ℕ → ℕ
rcr_result w8 op1 op2 cf = rcr_bits w8 op1 op2 cf
rcr_result w16 op1 op2 cf = rcr_bits w16 op1 op2 cf
rcr_result w32 op1 op2 cf =
    if op2 == 1 then bit_or (op1 >>> 1) (cf <<< 31) else rcr_bits w32 op1 op2 cf

unfoldable pub rcr : Width → ℕ → ℕ → Cpu → Option (ℕ × Cpu)
rcr w dest src c =
    let op2 = carry_count w src in
    let rotated : Option (ℕ × Cpu) = do
      cf ← cpu_get_cf c
      let res = rcr_result w dest op2 cf
      c' ← set_cf_of (bit_test dest (op2 - 1)) (top_changes w res) c
      some (res, c')
    in if op2 == 0 then some (dest, c) else rotated

-- `(int32_t)x >> n`
abbrev pub sar32 : ℕ → ℕ → ℕ
sar32 x n = if ltb x (2 ^ 31) then x >>> n else not32 (not32 x >>> n)

abbrev pub shifted : Width → LazyOp → ℕ → ℕ → ℕ → Cpu → ℕ × Cpu
shifted w op lop1 lop2 value c =
    (truncate w value, leave w op value (record c { lop1 = lop1; lop2 = lop2 }))

unfoldable pub shl_op : Width → ℕ → ℕ → Cpu → ℕ × Cpu
shl_op w dest src c =
    let count = bit_and src 31 in
    if count == 0 then (dest, c) else shifted w (shl w) dest count (u32 (dest <<< count)) c

unfoldable pub shr_op : Width → ℕ → ℕ → Cpu → ℕ × Cpu
shr_op w dest src c =
    let count = bit_and src 31 in
    if count == 0 then (dest, c) else shifted w (shr w) dest count (dest >>> count) c

unfoldable pub sar_op : Width → ℕ → ℕ → Cpu → ℕ × Cpu
sar_op w dest src c =
    let count = bit_and src 31 in
    let signed = sign_extend w dest in
    if count == 0 then (dest, c) else shifted w (sar w) signed count (sar32 signed count) c

-- The cases of the switch on `op & 7`.
unfoldable pub shift_op : ℕ → Width → ℕ → ℕ → Cpu → Option (ℕ × Cpu)
unfolding rol ror rcl rcr shl_op shr_op sar_op
shift_op zero w dest src c = rol w dest src c
shift_op (suc zero) w dest src c = ror w dest src c
shift_op (suc (suc zero)) w dest src c = rcl w dest src c
shift_op (suc (suc (suc zero))) w dest src c = rcr w dest src c
shift_op (suc (suc (suc (suc zero)))) w dest src c = some (shl_op w dest src c)
shift_op (suc (suc (suc (suc (suc zero))))) w dest src c = some (shr_op w dest src c)
shift_op (suc (suc (suc (suc (suc (suc zero)))))) w dest src c = some (shl_op w dest src c)
shift_op _ w dest src c = some (sar_op w dest src c)

unfoldable pub cpu_shift : Width → ℕ → ℕ → ℕ → Cpu → Option (ℕ × Cpu)
unfolding shift_op
cpu_shift w op dest src c =
    if src == 0 then some (dest, c) else shift_op (bit_and op 7) w dest src c

abbrev pub cpu_shift8 : ℕ → ℕ → ℕ → Cpu → Option (ℕ × Cpu)
cpu_shift8 = cpu_shift w8

abbrev pub cpu_shift16 : ℕ → ℕ → ℕ → Cpu → Option (ℕ × Cpu)
cpu_shift16 = cpu_shift w16

abbrev pub cpu_shift32 : ℕ → ℕ → ℕ → Cpu → Option (ℕ × Cpu)
cpu_shift32 = cpu_shift w32
