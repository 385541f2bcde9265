-- ===== src/Base/Bits/Each.antt =====
-- The bits of a number, and what `&`, `|` and `^` do to each: the code packs flags and masks into
-- words, and every proof about a flag reads one bit of such a word.
use Prim.Native.Nat.{ℕ, zero, suc, ◌+◌, ◌*◌, ◌/◌, ◌%◌, ◌^◌, ◌≤◌, ◌<◌, min, max}
use Prim.Native.Nat.{bit_and, bit_or, bit_xor, digits, differ}
use Prim.Native.Nat.{bit_and-bitwise, bit_or-bitwise, bit_xor-bitwise}
use mathlib.Core.Path.{◌≡◌, refl, sym, ap, ◌∙◌}
use native.Mathlib.Omega.{arith}
use native.Mathlib.Nat.{pow-suc, div-div-eq-div-mul}

-- Bit `k` of `x`.
unfoldable pub bit_at : ℕ → ℕ → ℕ
bit_at k x = x / 2 ^ k % 2

pub bit_at-lt : (k x : ℕ) → bit_at k x < 2
unfolding bit_at
bit_at-lt k x = omega arith

pub bit_at-zero : (x : ℕ) → bit_at 0 x ≡ x % 2
unfolding bit_at
bit_at-zero x = omega arith

pub bit_at-suc : (k x : ℕ) → bit_at (suc k) x ≡ bit_at k (x / 2)
unfolding bit_at
bit_at-suc k x =
    ap (λ (t : ℕ). t % 2) (ap (λ (t : ℕ). x / t) doubled ∙ sym (div-div-eq-div-mul x 2 (2 ^ k)))
  where
    doubled : 2 ^ suc k ≡ 2 * 2 ^ k
    doubled = omega (arith, pow-suc 2 k)

pub zero-bit_at : (k : ℕ) → bit_at k 0 ≡ 0
zero-bit_at zero = bit_at-zero 0
zero-bit_at (suc k) = bit_at-suc k 0 ∙ zero-bit_at k

-- An operation on digits acts on each bit by itself.
module _ (z : ℕ → ℕ) (f : ℕ → ℕ → ℕ) (rest : (k b : ℕ) → bit_at k (z b) ≡ f 0 (bit_at k b))
    (binary : (x y : ℕ) → x < 2 → y < 2 → f x y < 2) where
  bit_at-digits : (k n a b : ℕ) → a ≤ n → bit_at k (digits z f n a b) ≡ f (bit_at k a) (bit_at k b)
  bit_at-digits k zero zero b h = rw zero-bit_at (rest k b)
  bit_at-digits k zero (suc a) b h = absurd (omega arith)
  bit_at-digits k (suc n) zero b h = rw zero-bit_at (rest k b)
  bit_at-digits zero (suc n) (suc a) b h =
      rw (bit_at-zero, bit_at-zero, bit_at-zero)
        (omega (arith, binary (suc a % 2) (b % 2) (omega arith) (omega arith)))
  bit_at-digits (suc k) (suc n) (suc a) b h =
      rw (bit_at-suc k (suc a), bit_at-suc k b)
        (bit_at-suc k _
          ∙ ap (bit_at k) halved
          ∙ bit_at-digits k n (suc a / 2) (b / 2) (omega arith))
    where
      halved :
          (digits z f n (suc a / 2) (b / 2) * 2 + f (suc a % 2) (b % 2)) / 2
          ≡ digits z f n (suc a / 2) (b / 2)
      halved = omega (arith, binary (suc a % 2) (b % 2) (omega arith) (omega arith))

differ-lt : (x y : ℕ) → x < 2 → y < 2 → differ x y < 2
differ-lt zero y p q = q
differ-lt (suc zero) zero p q = omega arith
differ-lt (suc zero) (suc y) p q = omega arith
differ-lt (suc (suc x)) y p q = absurd (omega arith)

differ-eq : (x y : ℕ) → x < 2 → y < 2 → differ x y ≡ (x + y) % 2
differ-eq zero y p q = omega arith
differ-eq (suc zero) zero p q = omega arith
differ-eq (suc zero) (suc zero) p q = omega arith
differ-eq (suc zero) (suc (suc y)) p q = absurd (omega arith)
differ-eq (suc (suc x)) y p q = absurd (omega arith)

pub bit_at-bit_and : (k a b : ℕ) → bit_at k (bit_and a b) ≡ min (bit_at k a) (bit_at k b)
bit_at-bit_and k a b =
    ap (bit_at k) (bit_and-bitwise a b)
    ∙ bit_at-digits (λ _. 0) min (λ j c. rw zero-bit_at (omega arith)) (λ x y p q. omega arith) k a
        a b (omega arith)

pub bit_at-bit_or : (k a b : ℕ) → bit_at k (bit_or a b) ≡ max (bit_at k a) (bit_at k b)
bit_at-bit_or k a b =
    ap (bit_at k) (bit_or-bitwise a b)
    ∙ bit_at-digits (λ c. c) max (λ j c. omega arith) (λ x y p q. omega arith) k a a b (omega arith)

pub bit_at-bit_xor : (k a b : ℕ) → bit_at k (bit_xor a b) ≡ (bit_at k a + bit_at k b) % 2
bit_at-bit_xor k a b =
    ap (bit_at k) (bit_xor-bitwise a b)
    ∙ bit_at-digits (λ c. c) differ (λ j c. refl) differ-lt k a a b (omega arith)
    ∙ differ-eq (bit_at k a) (bit_at k b) (bit_at-lt k a) (bit_at-lt k b)

-- Numbers with the same bits are equal.
bits_below : (n a b : ℕ) → a ≤ n → b ≤ n → ((k : ℕ) → bit_at k a ≡ bit_at k b) → a ≡ b
bits_below zero a b p q h = omega arith
bits_below (suc n) a b p q h =
    let low : a % 2 ≡ b % 2 = sym (bit_at-zero a) ∙ h 0 ∙ bit_at-zero b in
    let high : a / 2 ≡ b / 2 =
      bits_below n (a / 2) (b / 2) (omega arith) (omega arith)
        (λ k. sym (bit_at-suc k a) ∙ h (suc k) ∙ bit_at-suc k b) in
    omega arith

pub bits_ext : (a b : ℕ) → ((k : ℕ) → bit_at k a ≡ bit_at k b) → a ≡ b
bits_ext a b = bits_below (max a b) a b (omega arith) (omega arith)
