-- ===== src/Memory/Walk/Rights.antt =====
-- cpu/mmu.cpp: the test of the two entries against the rights of an access.
use cpu_ia32_cpp.Base.{
  ℕ, zero, suc, ◌*◌, ◌/◌, ◌%◌, ◌^◌, ◌<◌, ◌≡◌, refl, ap, ap₂, ◌∙◌, Bool, true, false, ◌&&◌, ◌||◌,
  not, ◌==◌, ◌!=◌, bit_and, bit_or, not32, arith,
}
use cpu_ia32_cpp.Base.Bits.{bit_and-bits, bit_and-bit_or, bit_and-zero}
use cpu_ia32_cpp.Memory.Translate.{refuses_write, refuses_user}

abbrev pub flag : ℕ → ℕ → Bool
flag n x = x / 2 ^ n % 2 == 1

-- An access of the user needs bit 2 of both entries. A write needs bit 1 of both, but for one of the
-- system without write protection.
abbrev pub allowed : ℕ → ℕ → Bool → ℕ → ℕ → Bool
allowed write user protect pde pte =
    (user == 0 || flag 2 pde && flag 2 pte)
    && (write == 0 || flag 1 pde && flag 1 pte || user == 0 && not protect)

-- The bits of the complements, together.
either_clear :
    (n a b : ℕ)
    → n < 2
    → a < 2
    → b < 2
    → (bit_or (a * 2 ^ suc n) (b * 2 ^ suc n) != 0) ≡ not (a == 0 && b == 0)
either_clear zero zero zero ln la lb = refl
either_clear zero zero (suc zero) ln la lb = refl
either_clear zero (suc zero) zero ln la lb = refl
either_clear zero (suc zero) (suc zero) ln la lb = refl
either_clear (suc zero) zero zero ln la lb = refl
either_clear (suc zero) zero (suc zero) ln la lb = refl
either_clear (suc zero) (suc zero) zero ln la lb = refl
either_clear (suc zero) (suc zero) (suc zero) ln la lb = refl
either_clear (suc (suc n)) _ _ ln la lb = absurd (omega arith)
either_clear _ (suc (suc a)) _ ln la lb = absurd (omega arith)
either_clear _ _ (suc (suc b)) ln la lb = absurd (omega arith)

read_of_user : (u : Bool) → not u ≡ not (u && true)
read_of_user true = refl
read_of_user false = refl

write_of_system : (w protect : Bool) → (not w && protect || false) ≡ not (w || not protect)
write_of_system true protect = refl
write_of_system false true = refl
write_of_system false false = refl

write_of_user : (w u : Bool) → (not w && true || not u) ≡ not (u && (w || false))
write_of_user true true = refl
write_of_user true false = refl
write_of_user false true = refl
write_of_user false false = refl

module _ (pde pte : ℕ) (pde_fits : pde < 2 ^ 32) (pte_fits : pte < 2 ^ 32) where
  write_refused : (bit_and (bit_or (not32 pte) (not32 pde)) 2 != 0) ≡ not (flag 1 pde && flag 1 pte)
  write_refused =
      ap (λ (word : ℕ). word != 0)
        (bit_and-bit_or (not32 pte) (not32 pde) 2
          ∙ ap₂ bit_or (bit_and-bits 1 1 (not32 pte)) (bit_and-bits 1 1 (not32 pde)))
      ∙ either_clear 0 (not32 pte / 2 ^ 1 % 2) (not32 pde / 2 ^ 1 % 2) (omega arith) (omega arith)
          (omega arith)
      ∙ ground arith

  user_refused : (bit_and (bit_or (not32 pte) (not32 pde)) 4 != 0) ≡ not (flag 2 pde && flag 2 pte)
  user_refused =
      ap (λ (word : ℕ). word != 0)
        (bit_and-bit_or (not32 pte) (not32 pde) 4
          ∙ ap₂ bit_or (bit_and-bits 1 2 (not32 pte)) (bit_and-bits 1 2 (not32 pde)))
      ∙ either_clear 1 (not32 pte / 2 ^ 2 % 2) (not32 pde / 2 ^ 2 % 2) (omega arith) (omega arith)
          (omega arith)
      ∙ ground arith

  none_asked : (bit_and (bit_or (not32 pte) (not32 pde)) 0 != 0) ≡ false
  none_asked = ap (λ (word : ℕ). word != 0) (bit_and-zero _)

  pub refuses-allowed :
      (write user cr0 : ℕ)
      → write < 2
      → user < 2
      → (refuses_write (bit_or (not32 pte) (not32 pde)) write user cr0
          || refuses_user (bit_or (not32 pte) (not32 pde)) user)
        ≡ not (allowed write user (bit_and cr0 65536 != 0) pde pte)
  refuses-allowed zero zero cr0 lw lu =
      ap₂ (λ w u. w && (0 != 0 || bit_and cr0 65536 != 0) || u) none_asked none_asked
  refuses-allowed zero (suc zero) cr0 lw lu =
      ap₂ (λ w u. w && (1 != 0 || bit_and cr0 65536 != 0) || u) none_asked user_refused
      ∙ read_of_user (flag 2 pde && flag 2 pte)
  refuses-allowed (suc zero) zero cr0 lw lu =
      ap₂ (λ w u. w && (0 != 0 || bit_and cr0 65536 != 0) || u) write_refused none_asked
      ∙ write_of_system (flag 1 pde && flag 1 pte) (bit_and cr0 65536 != 0)
  refuses-allowed (suc zero) (suc zero) cr0 lw lu =
      ap₂ (λ w u. w && (1 != 0 || bit_and cr0 65536 != 0) || u) write_refused user_refused
      ∙ write_of_user (flag 1 pde && flag 1 pte) (flag 2 pde && flag 2 pte)
  refuses-allowed (suc (suc write)) _ cr0 lw lu = absurd (omega arith)
  refuses-allowed _ (suc (suc user)) cr0 lw lu = absurd (omega arith)
