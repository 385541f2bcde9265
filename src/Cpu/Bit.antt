-- ===== src/Cpu/Bit.antt =====
-- cpu/bit.cpp: bit tests and bit scans. The operand that a function changes through a pointer is
-- returned beside the processor.
use cpu_ia32_cpp.Base.{
  ℕ, zero, suc, ◌-◌, ◌%◌, ◌/◌, bit_and, bit_or, bit_xor, Option, some, ◌==◌, if◌then◌else◌, ◌<<<◌,
  ◌+◌, Width, bits, size,
}
use cpu_ia32_cpp.Cpu.State.{bit, code, Cpu}
use cpu_ia32_cpp.Cpu.Eflags.{◌>>=◌, bit_test, cpu_set_cf, cpu_set_zf}

-- `shift &= 15` or `shift &= 31`; the functions come for 16 and 32 bits.
abbrev pub bit_number : Width → ℕ → ℕ
bit_number w shift = bit_and shift (bits w - 1)

unfoldable pub bt : Width → ℕ → ℕ → Cpu → Option Cpu
bt w a shift c = cpu_set_cf (bit_test a (bit_number w shift)) c

unfoldable pub bts : Width → ℕ → ℕ → Cpu → Option (ℕ × Cpu)
bts w a shift c = do
  c' ← cpu_set_cf (bit_test a (bit_number w shift)) c
  some (bit_or a (1 <<< bit_number w shift), c')

unfoldable pub btc : Width → ℕ → ℕ → Cpu → Option (ℕ × Cpu)
btc w a shift c = do
  c' ← cpu_set_cf (bit_test a (bit_number w shift)) c
  some (bit_xor a (1 <<< bit_number w shift), c')

-- `~(1 << shift)` within the width.
unfoldable pub btr : Width → ℕ → ℕ → Cpu → Option (ℕ × Cpu)
btr w a shift c = do
  c' ← cpu_set_cf (bit_test a (bit_number w shift)) c
  some (bit_and a (size w - 1 - (1 <<< bit_number w shift)), c')

-- `__builtin_ctz` on a number other than 0 below `2 ^ fuel`: the zeros below its lowest one.
unfoldable pub builtin_ctz : ℕ → ℕ → ℕ
builtin_ctz zero x = 0
builtin_ctz (suc fuel) x = let rest = builtin_ctz fuel (x / 2) in if x % 2 == 1 then 0 else rest + 1

-- `__builtin_clz(x) ^ 31` for such a number: the place of its highest one.
unfoldable pub highest_one : ℕ → ℕ → ℕ
highest_one zero x = 0
highest_one (suc fuel) x = let rest = highest_one fuel (x / 2) in if x / 2 == 0 then 0 else rest + 1

unfoldable pub bsf16 : ℕ → ℕ → Cpu → Option (ℕ × Cpu)
unfolding builtin_ctz
bsf16 src old c =
    if src == 0
    then (do some (old, (← cpu_set_zf 1 c)))
    else (do some (builtin_ctz 16 src, (← cpu_set_zf 0 c)))

-- This one leaves the flags of a logical operation.
unfoldable pub bsf32 : ℕ → ℕ → Cpu → ℕ × Cpu
unfolding builtin_ctz
bsf32 src old c =
    if src == 0
    then (old, record c { laux = code bit; lr = 0 })
    else (builtin_ctz 32 src, record c { laux = code bit; lr = 1 })

-- `bsr16` and `bsr32`.
unfoldable pub bsr : Width → ℕ → ℕ → Cpu → Option (ℕ × Cpu)
unfolding highest_one
bsr w src old c =
    if src == 0
    then (do some (old, (← cpu_set_zf 1 c)))
    else (do some (highest_one (bits w) src, (← cpu_set_zf 0 c)))
