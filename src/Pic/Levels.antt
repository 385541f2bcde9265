-- ===== src/Pic/Levels.antt =====
-- One line's bit in a register of a controller: set, cleared and tested.
use cpu_ia32_cpp.Base.{
  not8, ℕ, ◌+◌, ◌-◌, ◌%◌, ◌/◌, ◌<◌, bit_and, bit_or, bit_xor, ◌≡◌, refl, true, arith, ◌==◌, ◌!=◌,
  ==_iff, int_of, ◌<<<◌, if◌then◌else◌,
}
use cpu_ia32_cpp.Base.Bits.{
  bit_at, bit_at-lt, bit_at-bit_and, bit_at-bit_or, bit_at-bit_xor, all_below, all_below_sound,
  bit_and-mask,
}
use cpu_ia32_cpp.Pic.Bits.{test_bit, bit_at-not8}

line_table : all_below 8 (λ i. all_below 8 (λ n. bit_at n (1 <<< i) == int_of (n == i))) ≡ true
unfolding all_below bit_at
line_table = refl

pub bit_at-line : (i n : ℕ) → i < 8 → n < 8 → bit_at n (1 <<< i) ≡ int_of (n == i)
bit_at-line i n p q = (==_iff _ _).0 (
    all_below_sound 8 (λ (n : ℕ). bit_at n (1 <<< i) == int_of (n == i)) n
      (all_below_sound 8 _ i line_table p) q)

size_table : all_below 8 (λ i. int_of ((1 <<< i) == 0) + (1 <<< i) / 256 == 0) ≡ true
unfolding all_below
size_table = refl

pub line-lt : (i : ℕ) → i < 8 → 1 <<< i < 256
line-lt i p =
    let e = (==_iff _ _).0 (
      all_below_sound 8 (λ (i : ℕ). int_of ((1 <<< i) == 0) + (1 <<< i) / 256 == 0) i size_table
        p) in
    omega (arith, e)

-- The bit of one line as a register has it after the line is set, toggled or cleared.
module _ (i n x : ℕ) (p : i < 8) (q : n < 8) where
  pub bit_at-set : bit_at n (bit_or x (1 <<< i)) ≡ (if n == i then 1 else bit_at n x)
  bit_at-set = ground (arith, bit_at-bit_or n x (1 <<< i), bit_at-line i n p q, bit_at-lt n x)

  pub bit_at-toggled :
      bit_at n (bit_xor x (1 <<< i)) ≡ (if n == i then 1 - bit_at n x else bit_at n x)
  bit_at-toggled = ground (arith, bit_at-bit_xor n x (1 <<< i), bit_at-line i n p q, bit_at-lt n x)

  pub bit_at-cleared : bit_at n (bit_and x (not8 (1 <<< i))) ≡ (if n == i then 0 else bit_at n x)
  bit_at-cleared = ground (
    arith,
    bit_at-bit_and n x (not8 (1 <<< i)),
    bit_at-not8 n (1 <<< i) q (line-lt i p),
    bit_at-line i n p q,
    bit_at-lt n x,
  )

-- A register's test for a line that is set, or is not.
module _ (i x : ℕ) (p : i < 8) (q : x < 256) where
  pub tested : (bit_and x (1 <<< i) != 0) ≡ (bit_at i x == 1)
  tested = ground (arith, test_bit i x p q)

  pub untested : (bit_and x (1 <<< i) == 0) ≡ (bit_at i x == 0)
  untested = ground (arith, test_bit i x p q, bit_at-lt i x)

pub low3 : (a : ℕ) → bit_and a 7 ≡ a % 8
low3 a = bit_and-mask 3 a
