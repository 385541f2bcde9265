-- ===== src/Base/Bits/Masks.antt =====
-- Masks of low bits are remainders, and `&`, `|`, `^` stay below the power of two of their arguments.
use Prim.Native.Nat.{ℕ, zero, suc, ◌+◌, ◌-◌, ◌*◌, ◌/◌, ◌%◌, ◌^◌, ◌<◌, min}
use Prim.Native.Nat.{bit_and, bit_or, bit_xor}
use mathlib.Core.Path.{◌≡◌, sym, ap, ap₂, ◌∙◌}
use native.Mathlib.Decide.{ℕ_discrete}
use native.Mathlib.Omega.{arith}
use native.Mathlib.Nat.{
  pow-suc, div-add-mod, mod-lt, mod-eq_of_lt, add-mul-mod_self_left, one-le-pow,
}
use cpu_ia32_cpp.Base.Bits.Each.{
  bit_at, bit_at-lt, bit_at-zero, bit_at-suc, zero-bit_at, bit_at-bit_and, bit_at-bit_or,
  bit_at-bit_xor, bits_ext,
}

pow_pos : (k : ℕ) → 0 < 2 ^ k
pow_pos k = one-le-pow k 2 (omega arith)

-- One bit off the bottom of a remainder.
parity-mod : (k a : ℕ) → a % 2 ^ suc k % 2 ≡ a % 2
parity-mod k a =
    let split : 2 ^ suc k * (a / 2 ^ suc k) + a % 2 ^ suc k ≡ a = div-add-mod a (2 ^ suc k) in
    let even : 2 ^ suc k * (a / 2 ^ suc k) ≡ 2 * (2 ^ k * (a / 2 ^ suc k)) =
      omega (arith, ap (λ (t : ℕ). t * (a / 2 ^ suc k)) (pow-suc 2 k)) in
    omega arith

halve-mod : (k a : ℕ) → a % 2 ^ suc k / 2 ≡ a / 2 % 2 ^ k
halve-mod k a =
    let rest = a % 2 ^ suc k in
    let times = a / 2 ^ suc k in
    let split : 2 ^ suc k * times + rest ≡ a = div-add-mod a (2 ^ suc k) in
    let even : 2 ^ suc k * times ≡ 2 * (2 ^ k * times) =
      omega (arith, ap (λ (t : ℕ). t * times) (pow-suc 2 k)) in
    let below : rest < 2 ^ suc k = mod-lt a (pow_pos (suc k)) in
    let small : rest / 2 < 2 ^ k = omega (arith, pow-suc 2 k) in
    let half : a / 2 ≡ rest / 2 + 2 ^ k * times = omega arith in
    sym (
      ap (λ (t : ℕ). t % 2 ^ k) half
      ∙ add-mul-mod_self_left (rest / 2) (2 ^ k) times
      ∙ mod-eq_of_lt small)

-- The bits of a remainder by `2 ^ k` are those under the mask of `k` ones.
bit_at-mod : (j k a : ℕ) → bit_at j (a % 2 ^ k) ≡ min (bit_at j a) (bit_at j (2 ^ k - 1))
bit_at-mod j zero a =
    let gone : a % 2 ^ 0 ≡ 0 = omega arith in ap (bit_at j) gone ∙ omega (arith, zero-bit_at j)
bit_at-mod zero (suc k) a =
    let ones : (2 ^ suc k - 1) % 2 ≡ 1 = omega (arith, pow-suc 2 k, pow_pos k) in
    omega (
      arith,
      bit_at-zero (a % 2 ^ suc k),
      bit_at-zero a,
      bit_at-zero (2 ^ suc k - 1),
      parity-mod k a,
    )
bit_at-mod (suc j) (suc k) a =
    let ones : (2 ^ suc k - 1) / 2 ≡ 2 ^ k - 1 = omega (arith, pow-suc 2 k, pow_pos k) in
    bit_at-suc j (a % 2 ^ suc k)
    ∙ ap (bit_at j) (halve-mod k a)
    ∙ bit_at-mod j k (a / 2)
    ∙ ap₂ min (sym (bit_at-suc j a)) (sym (bit_at-suc j (2 ^ suc k - 1) ∙ ap (bit_at j) ones))

-- `a & (2 ^ k - 1)` keeps the `k` low bits.
pub bit_and-mask : (k a : ℕ) → bit_and a (2 ^ k - 1) ≡ a % 2 ^ k
bit_and-mask k a = bits_ext _ _ λ j. bit_at-bit_and j a (2 ^ k - 1) ∙ sym (bit_at-mod j k a)

pub bit_and-one : (a : ℕ) → bit_and a 1 ≡ a % 2
bit_and-one a = bit_and-mask 1 a

-- `x >> k & 1` reads bit `k`.
pub shifted-bit_at : (k x : ℕ) → bit_and (x / 2 ^ k) 1 ≡ bit_at k x
unfolding bit_at
shifted-bit_at k x = bit_and-one (x / 2 ^ k)

pub bit_and-mod : (k a b : ℕ) → bit_and a b % 2 ^ k ≡ bit_and (a % 2 ^ k) (b % 2 ^ k)
bit_and-mod k a b = bits_ext _ _ λ j. omega (
  arith,
  bit_at-mod j k (bit_and a b),
  bit_at-bit_and j a b,
  bit_at-bit_and j (a % 2 ^ k) (b % 2 ^ k),
  bit_at-mod j k a,
  bit_at-mod j k b,
)

pub bit_or-mod : (k a b : ℕ) → bit_or a b % 2 ^ k ≡ bit_or (a % 2 ^ k) (b % 2 ^ k)
bit_or-mod k a b = bits_ext _ _ λ j. omega (
  arith,
  bit_at-mod j k (bit_or a b),
  bit_at-bit_or j a b,
  bit_at-bit_or j (a % 2 ^ k) (b % 2 ^ k),
  bit_at-mod j k a,
  bit_at-mod j k b,
)

pub bit_xor-mod : (k a b : ℕ) → bit_xor a b % 2 ^ k ≡ bit_xor (a % 2 ^ k) (b % 2 ^ k)
bit_xor-mod k a b = bits_ext _ _ λ j. ground (
  arith,
  bit_at-mod j k (bit_xor a b),
  bit_at-bit_xor j a b,
  bit_at-bit_xor j (a % 2 ^ k) (b % 2 ^ k),
  bit_at-mod j k a,
  bit_at-mod j k b,
  bit_at-lt j a,
  bit_at-lt j b,
  bit_at-lt j (2 ^ k - 1),
)

-- The three operations do not leave the range of their arguments.
below_mod : (k n : ℕ) → n ≡ n % 2 ^ k → n < 2 ^ k
below_mod k n e = let small : n % 2 ^ k < 2 ^ k = mod-lt n (pow_pos k) in omega arith

pub bit_or-lt : (k a b : ℕ) → a < 2 ^ k → b < 2 ^ k → bit_or a b < 2 ^ k
bit_or-lt k a b p q =
    below_mod k (bit_or a b)
      (ap₂ bit_or (sym (mod-eq_of_lt p)) (sym (mod-eq_of_lt q)) ∙ sym (bit_or-mod k a b))

pub bit_xor-lt : (k a b : ℕ) → a < 2 ^ k → b < 2 ^ k → bit_xor a b < 2 ^ k
bit_xor-lt k a b p q =
    below_mod k (bit_xor a b)
      (ap₂ bit_xor (sym (mod-eq_of_lt p)) (sym (mod-eq_of_lt q)) ∙ sym (bit_xor-mod k a b))

pub bit_and-zero : (a : ℕ) → bit_and a 0 ≡ 0
bit_and-zero a = bits_ext _ _ λ j. omega (arith, bit_at-bit_and j a 0, zero-bit_at j)

pub bit_and_comm : (a b : ℕ) → bit_and a b ≡ bit_and b a
bit_and_comm a b = bits_ext _ _ λ j. omega (arith, bit_at-bit_and j a b, bit_at-bit_and j b a)

pub bit_and_assoc : (a b c : ℕ) → bit_and (bit_and a b) c ≡ bit_and a (bit_and b c)
bit_and_assoc a b c = bits_ext _ _ λ j. omega (
  arith,
  bit_at-bit_and j (bit_and a b) c,
  bit_at-bit_and j a b,
  bit_at-bit_and j a (bit_and b c),
  bit_at-bit_and j b c,
)

pub bit_or-zero : (a : ℕ) → bit_or a 0 ≡ a
bit_or-zero a = bits_ext _ _ λ j. omega (arith, bit_at-bit_or j a 0, zero-bit_at j)

pub bit_xor-zero : (a : ℕ) → bit_xor a 0 ≡ a
bit_xor-zero a = bits_ext _ _ λ j. omega (arith, bit_at-bit_xor j a 0, zero-bit_at j, bit_at-lt j a)

pub bit_and-lt : (k a b : ℕ) → b < 2 ^ k → bit_and a b < 2 ^ k
bit_and-lt k a b q = below_mod k (bit_and a b) (
    bits_ext _ _ λ j. omega (
      arith,
      bit_at-bit_and j a b,
      bit_at-mod j k (bit_and a b),
      ap (bit_at j) (mod-eq_of_lt q),
      bit_at-mod j k b,
    ))

-- Masking distributes over `|`.
pub bit_and-bit_or : (a b c : ℕ) → bit_and (bit_or a b) c ≡ bit_or (bit_and a c) (bit_and b c)
bit_and-bit_or a b c = bits_ext _ _ λ j. omega (
  arith,
  bit_at-bit_and j (bit_or a b) c,
  bit_at-bit_or j a b,
  bit_at-bit_or j (bit_and a c) (bit_and b c),
  bit_at-bit_and j a c,
  bit_at-bit_and j b c,
)

pub bit_or_assoc : (a b c : ℕ) → bit_or (bit_or a b) c ≡ bit_or a (bit_or b c)
bit_or_assoc a b c = bits_ext _ _ λ j. omega (
  arith,
  bit_at-bit_or j (bit_or a b) c,
  bit_at-bit_or j a b,
  bit_at-bit_or j a (bit_or b c),
  bit_at-bit_or j b c,
)

-- Two masks together.
pub bit_or-masked : (a m n : ℕ) → bit_or (bit_and a m) (bit_and a n) ≡ bit_and a (bit_or m n)
bit_or-masked a m n = bits_ext _ _ λ j. omega (
  arith,
  bit_at-bit_or j (bit_and a m) (bit_and a n),
  bit_at-bit_and j a m,
  bit_at-bit_and j a n,
  bit_at-bit_and j a (bit_or m n),
  bit_at-bit_or j m n,
)

-- The `n` low bits are the same, as one statement for each bit.
abbrev pub SameBits : ℕ → ℕ → ℕ → Type 0
SameBits zero a b = Unit {0}
SameBits (suc n) a b = (bit_at n a ≡ bit_at n b) × SameBits n a b

SameBits-bit_at : (n a b : ℕ) → SameBits n a b → (k : ℕ) → k < n → bit_at k a ≡ bit_at k b
SameBits-bit_at zero a b h k p = absurd (omega arith)
SameBits-bit_at (suc n) a b h k p = elim (ℕ_discrete k n) [
  | yes e ↦ rw e h.0
  | no ne ↦ SameBits-bit_at n a b h.1 k (omega arith)
]

ext_below :
    (n a b : ℕ) → a < 2 ^ n → b < 2 ^ n → ((k : ℕ) → k < n → bit_at k a ≡ bit_at k b) → a ≡ b
ext_below zero a b p q h = omega arith
ext_below (suc n) a b p q h =
    let low : a % 2 ≡ b % 2 = sym (bit_at-zero a) ∙ h 0 (omega arith) ∙ bit_at-zero b in
    let high : a / 2 ≡ b / 2 =
      ext_below n (a / 2) (b / 2) (omega (arith, pow-suc 2 n)) (omega (arith, pow-suc 2 n))
        (λ k r. sym (bit_at-suc k a) ∙ h (suc k) (omega arith) ∙ bit_at-suc k b) in
    omega arith

pub SameBits-eq : (n a b : ℕ) → a < 2 ^ n → b < 2 ^ n → SameBits n a b → a ≡ b
SameBits-eq n a b p q h = ext_below n a b p q (SameBits-bit_at n a b h)

pub masked-bit_or : (a x y : ℕ) → bit_and a (bit_or x y) ≡ 0 → bit_and a x ≡ 0
masked-bit_or a x y e = bits_ext _ _ λ j. omega (
  arith,
  ap (bit_at j) e,
  zero-bit_at j,
  bit_at-bit_and j a (bit_or x y),
  bit_at-bit_or j x y,
  bit_at-bit_and j a x,
)
