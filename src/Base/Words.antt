-- ===== src/Base/Words.antt =====
-- Machine words as native numbers: a `uint32_t` is a number below 2 ^ 32, an `int` its bit pattern.
-- `-` on ℕ stops at 0, so a wrapping subtraction adds the modulus first.
use Prim.Native.Nat.{ℕ, ◌+◌, ◌-◌, ◌*◌, ◌/◌, ◌%◌, ◌^◌}
use mathlib.Core.Option.{Option, none, some}
use cpu_ia32_cpp.Base.Tests.{ltb, if◌then◌else◌}

abbrev pub u8 : ℕ → ℕ
u8 x = x % 2 ^ 8

abbrev pub u16 : ℕ → ℕ
u16 x = x % 2 ^ 16

abbrev pub u32 : ℕ → ℕ
u32 x = x % 2 ^ 32

abbrev pub u64 : ℕ → ℕ
u64 x = x % 2 ^ 64

abbrev pub add32 : ℕ → ℕ → ℕ
add32 a b = (a + b) % 2 ^ 32

abbrev pub sub32 : ℕ → ℕ → ℕ
sub32 a b = (a + 2 ^ 32 - b) % 2 ^ 32

-- `~x` on a `uint32_t`.
abbrev pub not32 : ℕ → ℕ
not32 x = 2 ^ 32 - 1 - x

-- `~x` within a byte.
abbrev pub not8 : ℕ → ℕ
not8 x = 255 - x

infixl 75 ◌<<<◌ ◌>>>◌
-- `x << k`, before the cast to the width of the result.
abbrev pub ◌<<<◌ : ℕ → ℕ → ℕ
x <<< k = x * 2 ^ k

abbrev pub ◌>>>◌ : ℕ → ℕ → ℕ
x >>> k = x / 2 ^ k

-- `x >> k` on a `uint32_t` is undefined in C from 32 on.
abbrev pub shift_right : ℕ → ℕ → Option ℕ
shift_right x k = if ltb k 32 then some (x >>> k) else none

-- The widths of the operands.
pub data Width : Type 0 where
  w8 w16 w32 : Width

abbrev pub bits : Width → ℕ
bits w8 = 8
bits w16 = 16
bits w32 = 32

-- The number of the sign bit.
abbrev pub top : Width → ℕ
top w8 = 7
top w16 = 15
top w32 = 31

abbrev pub size : Width → ℕ
size w = 2 ^ bits w

-- The cast to the unsigned type of a width.
abbrev pub truncate : Width → ℕ → ℕ
truncate w x = x % size w

-- The cast through the signed type of a width to `uint32_t`: the sign bit fills the word.
abbrev pub sign_extend : Width → ℕ → ℕ
sign_extend w x =
    if ltb (truncate w x) (2 ^ top w) then truncate w x else truncate w x + (2 ^ 32 - size w)
