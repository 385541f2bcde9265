-- ===== src/Memory/Walk/Entries.antt =====
-- cpu/mmu.cpp: the entries that a walk reads, with what their bits and the error code say.
use cpu_ia32_cpp.Base.{
  ℕ, zero, suc, ◌+◌, ◌*◌, ◌^◌, ◌<◌, ◌≡◌, ◌≢◌, refl, sym, ap, ap₂, ◌∙◌, Bool, true, false, ◌&&◌, not,
  ◌==◌, ◌!=◌, if◌then◌else◌, bit_and, bit_or, update, arith, ◌>>>◌,
}
use cpu_ia32_cpp.Base.Bits.{bit_and-mask}
use cpu_ia32_cpp.Memory.State.{Machine}
use cpu_ia32_cpp.Memory.Physical.{load32, is_mmio_read}
use cpu_ia32_cpp.Memory.Translate.{pde_address, pte_address, access_code}
use cpu_ia32_cpp.Memory.Walk.Rights.{flag, allowed}

-- The error code: bit 0 if both entries are present, then the kind of the access.
abbrev pub fault_code : ℕ → ℕ → ℕ → ℕ → ℕ
fault_code write user pde pte = (if flag 0 pde && flag 0 pte then 1 else 0) + 2 * write + 4 * user

pub load32-lt : (mem : ℕ → ℕ) (a : ℕ) → ((b : ℕ) → mem b < 256) → load32 mem a < 2 ^ 32
load32-lt mem a fits = omega (arith, fits a, fits (a + 1), fits (a + 2), fits (a + 2 + 1))

module _ {D : Type 0} where
  -- The entries that a walk for `lin` reads, and that it does: paging is on, its entries have 32 bits,
  -- the memory answers for both and holds bytes, and the directory's entry is not of a large page.
  abbrev pub pde_of : ℕ → Machine D → ℕ
  pde_of lin m = load32 m.mem (pde_address lin (m.cr 3))

  abbrev pub pte_of : ℕ → Machine D → ℕ
  pte_of lin m = load32 m.mem (pte_address lin (pde_of lin m))

  pub record IsWalk (lin : ℕ) (m : Machine D) : Type 0 where
    pub paging : bit_and (m.cr 0) 0x8000_0000 ≢ 0
    pub legacy : bit_and (m.cr 4) 0x20 ≡ 0
    pub directory_in_memory : is_mmio_read (pde_address lin (m.cr 3)) m ≡ false
    pub table_in_memory : is_mmio_read (pte_address lin (pde_of lin m)) m ≡ false
    pub small_page : bit_and (pde_of lin m) 0x80 ≡ 0
    pub bytes_fit : (a : ℕ) → m.mem a < 256

  -- `m_cr[2]` has the address; nothing else is changed.
  abbrev pub faulted : ℕ → Machine D → Machine D
  faulted lin m = record m { cr = update m.cr 2 lin }

  -- The access is granted: both entries are present and allow it.
  abbrev pub grants : ℕ → ℕ → ℕ → Machine D → Bool
  grants lin write user m =
      flag 0 (pde_of lin m)
      && (flag 0 (pte_of lin m)
          && allowed write user (bit_and (m.cr 0) 65536 != 0) (pde_of lin m) (pte_of lin m))

-- The kind of an access, by bits 1 and 2 of `shift`.
abbrev pub write_of : ℕ → ℕ
write_of shift = bit_and (shift >>> 1) 1

abbrev pub user_of : ℕ → ℕ
user_of shift = bit_and (shift >>> 2) 1

present_bit : (x : ℕ) → (bit_and x 1 == 0) ≡ not (flag 0 x)
present_bit x = ap (λ (word : ℕ). word == 0) (bit_and-mask 1 x) ∙ ground arith

-- What the test of the bit says.
pub there_bit : (x : ℕ) → (bit_and x 1 == 0) ≡ false → flag 0 x ≡ true
there_bit x there = not_false (sym (present_bit x) ∙ there)
  where
    not_false : {b : Bool} → not b ≡ false → b ≡ true
    not_false {b = true} e = refl
    not_false {b = false} e = sym e

pub missing_bit : (x : ℕ) → (bit_and x 1 == 0) ≡ true → flag 0 x ≡ false
missing_bit x missing = not_true (sym (present_bit x) ∙ missing)
  where
    not_true : {b : Bool} → not b ≡ true → b ≡ false
    not_true {b = true} e = sym e
    not_true {b = false} e = refl

no_bit : (write user : ℕ) → 2 * write + 4 * user ≡ 0 + 2 * write + 4 * user
no_bit write user = omega arith

pub missing_code :
    (write user pde pte : ℕ)
    → (bit_and pte 1 == 0) ≡ true
    → 2 * write + 4 * user ≡ fault_code write user pde pte
missing_code write user pde pte missing =
    no_bit write user
    ∙ sym (
        ap (λ b. (if b then 1 else 0) + 2 * write + 4 * user)
          (ap (λ b. flag 0 pde && b) (missing_bit pte missing) ∙ and_false (flag 0 pde)))
  where
    and_false : (b : Bool) → (b && false) ≡ false
    and_false true = refl
    and_false false = refl

pub absent_code :
    (write user pde pte : ℕ)
    → (bit_and pde 1 == 0) ≡ true
    → 2 * write + 4 * user ≡ fault_code write user pde pte
absent_code write user pde pte missing =
    no_bit write user
    ∙ sym (
        ap (λ b. (if b && flag 0 pte then 1 else 0) + 2 * write + 4 * user)
          (missing_bit pde missing))

pub present_code :
    (write user pde pte : ℕ)
    → flag 0 pde ≡ true
    → flag 0 pte ≡ true
    → 1 + 2 * write + 4 * user ≡ fault_code write user pde pte
present_code write user pde pte present there =
    sym (ap₂ (λ b c. (if b && c then 1 else 0) + 2 * write + 4 * user) present there)

pub no_grant :
    (there grant : Bool) → (there && grant) ≡ false → there ≡ true → not grant ≡ false → ⊥
no_grant true true refused e g = cc
no_grant true false refused e g = cc
no_grant false grant refused e g = cc

pub one_bit : (x : ℕ) → bit_and x 1 < 2
one_bit x = omega (arith, bit_and-mask 1 x)

pub not_large : (n : ℕ) (b : Bool) → n ≡ 0 → (n != 0 && b) ≡ true → ⊥
not_large n true e large = absurd (ground arith)
not_large n false e large = absurd (ground arith)

pub code_table :
    (write user : ℕ)
    → write < 2
    → user < 2
    → (access_code write user ≡ 2 * write + 4 * user)
      × (bit_or 1 (access_code write user) ≡ 1 + 2 * write + 4 * user)
code_table zero zero lw lu = (refl, refl)
code_table zero (suc zero) lw lu = (refl, refl)
code_table (suc zero) zero lw lu = (refl, refl)
code_table (suc zero) (suc zero) lw lu = (refl, refl)
code_table (suc (suc write)) _ lw lu = absurd (omega arith)
code_table _ (suc (suc user)) lw lu = absurd (omega arith)
