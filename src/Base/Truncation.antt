-- ===== src/Base/Truncation.antt =====
-- The cast of a word to the unsigned type of a width.
use Prim.Native.Nat.{ℕ, ◌<◌}
use mathlib.Core.Path.{◌≡◌}
use native.Mathlib.Omega.{arith}
use cpu_ia32_cpp.Base.Words.{Width, w8, w16, w32, size, truncate}

pub truncate-lt : (w : Width) (n : ℕ) → truncate w n < size w
truncate-lt w8 n = omega arith
truncate-lt w16 n = omega arith
truncate-lt w32 n = omega arith

pub truncate-fits : (w : Width) (n : ℕ) → n < size w → truncate w n ≡ n
truncate-fits w8 n lt = omega arith
truncate-fits w16 n lt = omega arith
truncate-fits w32 n lt = omega arith

pub truncate-again : (w : Width) (n : ℕ) → truncate w (truncate w n) ≡ truncate w n
truncate-again w n = truncate-fits w (truncate w n) (truncate-lt w n)
