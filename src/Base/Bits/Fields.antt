-- ===== src/Base/Bits/Fields.antt =====
-- Fields of a word: a mask over a field is a quotient and a remainder, and `|` of fields that do not
-- overlap is their sum.
use Prim.Native.Nat.{ℕ, zero, suc, ◌+◌, ◌-◌, ◌*◌, ◌/◌, ◌%◌, ◌^◌, ◌<◌, min, max}
use Prim.Native.Nat.{bit_and, bit_or}
use mathlib.Core.Path.{◌≡◌, sym, ap, ap₂, ◌∙◌}
use native.Mathlib.Omega.{arith}
use native.Mathlib.Nat.{pow-suc, div-div-eq-div-mul}
use cpu_ia32_cpp.Base.Bits.Each.{
  bit_at-zero, bit_at-suc, zero-bit_at, bit_at-bit_and, bit_at-bit_or, bits_ext,
}
use cpu_ia32_cpp.Base.Bits.Masks.{bit_and-mask}

bit_or-half : (a b : ℕ) → bit_or a b / 2 ≡ bit_or (a / 2) (b / 2)
bit_or-half a b = bits_ext _ _ λ j. omega (
  arith,
  bit_at-suc j (bit_or a b),
  bit_at-suc j a,
  bit_at-suc j b,
  bit_at-bit_or (suc j) a b,
  bit_at-bit_or j (a / 2) (b / 2),
)

bit_and-half : (a b : ℕ) → bit_and a b / 2 ≡ bit_and (a / 2) (b / 2)
bit_and-half a b = bits_ext _ _ λ j. omega (
  arith,
  bit_at-suc j (bit_and a b),
  bit_at-suc j a,
  bit_at-suc j b,
  bit_at-bit_and (suc j) a b,
  bit_at-bit_and j (a / 2) (b / 2),
)

bit_or-parity : (a b : ℕ) → bit_or a b % 2 ≡ max (a % 2) (b % 2)
bit_or-parity a b =
    omega (arith, bit_at-zero (bit_or a b), bit_at-zero a, bit_at-zero b, bit_at-bit_or 0 a b)

bit_and-parity : (a b : ℕ) → bit_and a b % 2 ≡ min (a % 2) (b % 2)
bit_and-parity a b =
    omega (arith, bit_at-zero (bit_and a b), bit_at-zero a, bit_at-zero b, bit_at-bit_and 0 a b)

zero-bit_or : (a : ℕ) → bit_or 0 a ≡ a
zero-bit_or a = bits_ext _ _ λ j. omega (arith, bit_at-bit_or j 0 a, zero-bit_at j)

-- A multiple of a larger power of two is even, and its half one of the power before.
times-even : (n k : ℕ) → n * 2 ^ suc k ≡ 2 * (n * 2 ^ k)
times-even n k = omega (arith, ap (λ (t : ℕ). n * t) (pow-suc 2 k))

pub bit_or-field : (k low high : ℕ) → low < 2 ^ k → bit_or low (high * 2 ^ k) ≡ low + high * 2 ^ k
bit_or-field zero low high lt =
    let none_low : low ≡ 0 = omega arith in
    let same : high * 2 ^ 0 ≡ high = omega arith in
    ap₂ bit_or none_low same ∙ zero-bit_or high ∙ omega arith
bit_or-field (suc k) low high lt =
    let rest = bit_or-field k (low / 2) high (omega (arith, pow-suc 2 k)) in
    let even = times-even high k in
    let half = bit_or-half low (high * 2 ^ suc k) in
    let shifted : bit_or (low / 2) (high * 2 ^ suc k / 2) ≡ bit_or (low / 2) (high * 2 ^ k) =
      ap (bit_or (low / 2)) (omega arith) in
    omega (arith, bit_or-parity low (high * 2 ^ suc k))

pub bit_and-field : (k a n : ℕ) → bit_and a (n * 2 ^ k) ≡ bit_and (a / 2 ^ k) n * 2 ^ k
bit_and-field zero a n =
    let same : n * 2 ^ 0 ≡ n = omega arith in
    let whole : a ≡ a / 2 ^ 0 = omega arith in ap₂ bit_and whole same ∙ omega arith
bit_and-field (suc k) a n =
    let rest = bit_and-field k (a / 2) n in
    let even = times-even n k in
    let even' = times-even (bit_and (a / 2 ^ suc k) n) k in
    let half = bit_and-half a (n * 2 ^ suc k) in
    let shifted : bit_and (a / 2) (n * 2 ^ suc k / 2) ≡ bit_and (a / 2) (n * 2 ^ k) =
      ap (bit_and (a / 2)) (omega arith) in
    let same : bit_and (a / 2 / 2 ^ k) n * 2 ^ k ≡ bit_and (a / 2 ^ suc k) n * 2 ^ k =
      ap (λ (t : ℕ). bit_and t n * 2 ^ k)
        (div-div-eq-div-mul a 2 (2 ^ k)
          ∙ ap (λ (t : ℕ). a / t) (sym (pow-suc 2 k ∙ omega arith))) in
    omega (arith, bit_and-parity a (n * 2 ^ suc k))

-- A mask of `w` bits from bit `k` on.
pub bit_and-bits : (w k a : ℕ) → bit_and a ((2 ^ w - 1) * 2 ^ k) ≡ a / 2 ^ k % 2 ^ w * 2 ^ k
bit_and-bits w k a =
    bit_and-field k a (2 ^ w - 1) ∙ ap (λ (t : ℕ). t * 2 ^ k) (bit_and-mask w (a / 2 ^ k))

pub bit_or_comm : (a b : ℕ) → bit_or a b ≡ bit_or b a
bit_or_comm a b = bits_ext _ _ λ j. omega (arith, bit_at-bit_or j a b, bit_at-bit_or j b a)
