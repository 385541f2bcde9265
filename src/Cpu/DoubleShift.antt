-- ===== src/Cpu/DoubleShift.antt =====
-- cpu/arith.cpp: `cpu_shrd16`, `cpu_shrd32`, `cpu_shld16` and `cpu_shld32`.
use cpu_ia32_cpp.Base.{
  ℕ, ◌-◌, bit_and, bit_or, ltb, ◌==◌, if◌then◌else◌, u16, u32, ◌<<<◌, ◌>>>◌, w16, sign_extend,
}
use cpu_ia32_cpp.Cpu.State.{LazyOp, shld16, shld32, shrd16, shrd32, code, Cpu}

-- The value and the flag words of a double shift with the count `lop2`.
abbrev pub shifted16 : LazyOp → ℕ → ℕ → ℕ → Cpu → ℕ × Cpu
shifted16 op result lop1 lop2 c =
    (result, record c { lr = sign_extend w16 result; lop1 = lop1; lop2 = lop2; laux = code op })

abbrev pub shifted32 : LazyOp → ℕ → ℕ → ℕ → Cpu → ℕ × Cpu
shifted32 op result lop1 lop2 c =
    (result, record c { lr = result; lop1 = lop1; lop2 = lop2; laux = code op })

unfoldable pub cpu_shrd16 : ℕ → ℕ → ℕ → Cpu → ℕ × Cpu
cpu_shrd16 dest src count c =
    let n = bit_and count 0x1f in
    if n == 0
    then (dest, c)
    else if ltb n 16
    then shifted16 shrd16 (u16 (bit_or (dest >>> n) (src <<< (16 - n)))) dest n c
    else shifted16 shrd16 (u16 (bit_or (src >>> (n - 16)) (dest <<< (32 - n)))) src (n - 16) c

unfoldable pub cpu_shrd32 : ℕ → ℕ → ℕ → Cpu → ℕ × Cpu
cpu_shrd32 dest src count c =
    let n = bit_and count 0x1f in
    if n == 0
    then (dest, c)
    else shifted32 shrd32 (u32 (bit_or (dest >>> n) (src <<< (32 - n)))) dest n c

unfoldable pub cpu_shld16 : ℕ → ℕ → ℕ → Cpu → ℕ × Cpu
cpu_shld16 dest src count c =
    let n = bit_and count 0x1f in
    let result =
      if ltb n 16
      then u16 (bit_or (dest <<< n) (src >>> (16 - n)))
      else u16 (bit_or (src <<< (n - 16)) (dest >>> (32 - n))) in
    if n == 0 then (dest, c) else shifted16 shld16 result (if ltb 16 n then src else dest) n c

unfoldable pub cpu_shld32 : ℕ → ℕ → ℕ → Cpu → ℕ × Cpu
cpu_shld32 dest src count c =
    let n = bit_and count 0x1f in
    if n == 0
    then (dest, c)
    else shifted32 shld32 (u32 (bit_or (dest <<< n) (src >>> (32 - n)))) dest n c
