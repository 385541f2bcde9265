-- ===== src/Pic/Bits.antt =====
-- The bits of the controllers' registers, by evaluation over all bytes.
use cpu_ia32_cpp.Base.{
  not8, ℕ, ◌+◌, ◌-◌, ◌%◌, ◌<◌, bit_and, ◌≡◌, refl, true, arith, ◌==◌, ◌!=◌, ==_iff, int_of, ◌<<<◌,
}
use cpu_ia32_cpp.Base.Bits.{bit_at, all_below, all_below_sound}
use cpu_ia32_cpp.Pic.Update.{rol}

test_table :
    all_below 8 (λ i. all_below 256 (λ x. int_of (bit_and x (1 <<< i) != 0) == bit_at i x)) ≡ true
unfolding all_below bit_at
test_table = refl

-- `x & (1 << i)` tests bit `i`.
pub test_bit : (i x : ℕ) → i < 8 → x < 256 → int_of (bit_and x (1 <<< i) != 0) ≡ bit_at i x
test_bit i x p q = (==_iff _ _).0 (
    all_below_sound 256 (λ (x : ℕ). int_of (bit_and x (1 <<< i) != 0) == bit_at i x) x
      (all_below_sound 8 _ i test_table p) q)

not_table : all_below 8 (λ i. all_below 256 (λ x. bit_at i (not8 x) == 1 - bit_at i x)) ≡ true
unfolding all_below bit_at
not_table = refl

pub bit_at-not8 : (i x : ℕ) → i < 8 → x < 256 → bit_at i (not8 x) ≡ 1 - bit_at i x
bit_at-not8 i x p q = (==_iff _ _).0 (
    all_below_sound 256 (λ (x : ℕ). bit_at i (not8 x) == 1 - bit_at i x) x
      (all_below_sound 8 _ i not_table p) q)

rol_table :
    all_below 8 (λ b.
      all_below 8 (λ i. all_below 256 (λ x. bit_at i (rol x b) == bit_at ((b + 1 + i) % 8) x)))
    ≡ true
unfolding all_below bit_at rol
rol_table = refl

-- The rotation brings the level after the priority base to the bottom.
pub bit_at-rol :
    (b i x : ℕ) → b < 8 → i < 8 → x < 256 → bit_at i (rol x b) ≡ bit_at ((b + 1 + i) % 8) x
bit_at-rol b i x p q r = (==_iff _ _).0 (
    all_below_sound 256 (λ (x : ℕ). bit_at i (rol x b) == bit_at ((b + 1 + i) % 8) x) x
      (all_below_sound 8
        (λ (i : ℕ). all_below 256 (λ x. bit_at i (rol x b) == bit_at ((b + 1 + i) % 8) x)) i
        (all_below_sound 8 _ b rol_table p) q)
      r)

pub rol-lt : (x b : ℕ) → rol x b < 256
unfolding rol
rol-lt x b = omega arith
