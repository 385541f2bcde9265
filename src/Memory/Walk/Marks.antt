-- ===== src/Memory/Walk/Marks.antt =====
-- cpu/mmu.cpp: the bits that a walk sets in the two entries.
use cpu_ia32_cpp.Base.{
  ℕ, ◌+◌, ◌^◌, ◌<◌, ◌≤◌, ◌≡◌, ◌⊎◌, inl, inr, refl, sym, ap, ◌∙◌, ◌==◌, if◌then◌else◌, if-either,
  ==_true, ==_false, bit_and, bit_or, arith, ◌<<<◌, w32,
}
use cpu_ia32_cpp.Base.Bits.{bit_and-bits, bit_or-lt, bits_ext, bit_at-bit_or, bit_at-bit_and}
use cpu_ia32_cpp.Memory.Physical.{load32, store32}
use cpu_ia32_cpp.Memory.StackTrip.{load-store, store-other}

-- The memory after the directory's entry, and after the table's, is marked as accessed and as written.
abbrev pub mark_directory : ℕ → ℕ → (ℕ → ℕ) → ℕ → ℕ
mark_directory pde_addr pde mem =
    if bit_and pde 0x20 == 0 then store32 pde_addr (bit_or pde 0x20) mem else mem

abbrev pub new_pte : ℕ → ℕ → ℕ
new_pte write pte = bit_or (bit_or pte (write <<< 6)) 0x20

abbrev pub mark_table : ℕ → ℕ → ℕ → (ℕ → ℕ) → ℕ → ℕ
mark_table write pte_addr pte mem =
    if new_pte write pte == pte then mem else store32 pte_addr (new_pte write pte) mem

-- Words that do not overlap.
abbrev pub Apart : ℕ → ℕ → Type 0
Apart a b = (a + 4 ≤ b) ⊎ (b + 4 ≤ a)

bit_or-marked : (x : ℕ) → bit_or x (bit_and x 0x20) ≡ x
bit_or-marked x =
    bits_ext _ _ λ j. omega (arith, bit_at-bit_or j x (bit_and x 0x20), bit_at-bit_and j x 0x20)

already : (x : ℕ) → bit_and x 0x20 ≡ 0x20 → bit_or x 0x20 ≡ x
already x set = ap (bit_or x) (sym set) ∙ bit_or-marked x

load32-store32 :
    (a b value : ℕ) (mem : ℕ → ℕ) → Apart a b → load32 (store32 b value mem) a ≡ load32 mem a
load32-store32 a b value mem (inl before) = omega (
  arith,
  store-other w32 b value a mem (inl (omega arith)),
  store-other w32 b value (a + 1) mem (inl (omega arith)),
  store-other w32 b value (a + 2) mem (inl (omega arith)),
  store-other w32 b value (a + 2 + 1) mem (inl (omega arith)),
)
load32-store32 a b value mem (inr behind) = omega (
  arith,
  store-other w32 b value a mem (inr (omega arith)),
  store-other w32 b value (a + 1) mem (inr (omega arith)),
  store-other w32 b value (a + 2) mem (inr (omega arith)),
  store-other w32 b value (a + 2 + 1) mem (inr (omega arith)),
)

module _ (write pde_addr pte_addr : ℕ) (mem : ℕ → ℕ) where
  -- A byte of neither entry.
  abbrev pub Elsewhere : ℕ → Type 0
  Elsewhere a = ((a < pde_addr) ⊎ (pde_addr + 4 ≤ a)) × ((a < pte_addr) ⊎ (pte_addr + 4 ≤ a))

  -- Both entries have their marks, and the other bytes are as before.
  abbrev pub IsMarked : (ℕ → ℕ) → Type 0
  IsMarked after =
      (load32 after pde_addr ≡ bit_or (load32 mem pde_addr) 0x20)
      × (load32 after pte_addr ≡ new_pte write (load32 mem pte_addr))
      × ((a : ℕ) → Elsewhere a → after a ≡ mem a)

module _ (write pde_addr pte_addr : ℕ) (mem : ℕ → ℕ) (lw : write < 2)
    (apart : Apart pte_addr pde_addr) where
  pub load32-mark_directory :
      load32 mem pde_addr < 2 ^ 32
      → load32 (mark_directory pde_addr (load32 mem pde_addr) mem) pde_addr
        ≡ bit_or (load32 mem pde_addr) 0x20
  load32-mark_directory fits =
      let pde = load32 mem pde_addr in
      let small = bit_or-lt 32 pde 0x20 fits (omega arith) in
      if-either (λ mem'. load32 mem' pde_addr ≡ bit_or pde 0x20) (bit_and pde 0x20 == 0)
        (λ _. load-store w32 pde_addr (bit_or pde 0x20) mem ∙ omega arith)
        (λ set. sym (already pde (omega (arith, bit_and-bits 1 5 pde, ==_false _ _ set))))

  directory_apart :
      (pde : ℕ) → load32 (mark_directory pde_addr pde mem) pte_addr ≡ load32 mem pte_addr
  directory_apart pde =
      if-either (λ mem'. load32 mem' pte_addr ≡ load32 mem pte_addr) (bit_and pde 0x20 == 0)
        (λ _. load32-store32 pte_addr pde_addr (bit_or pde 0x20) mem apart) (λ _. refl)

  new_pte-lt : (pte : ℕ) → pte < 2 ^ 32 → new_pte write pte < 2 ^ 32
  new_pte-lt pte fits =
      bit_or-lt 32 (bit_or pte (write <<< 6)) 0x20
        (bit_or-lt 32 pte (write <<< 6) fits (omega arith)) (omega arith)

  table_marked :
      (pte : ℕ) (mem' : ℕ → ℕ)
      → pte < 2 ^ 32
      → load32 mem' pte_addr ≡ pte
      → load32 (mark_table write pte_addr pte mem') pte_addr ≡ new_pte write pte
  table_marked pte mem' fits same =
      let small = new_pte-lt pte fits in
      if-either (λ after. load32 after pte_addr ≡ new_pte write pte) (new_pte write pte == pte)
        (λ old. same ∙ sym (==_true _ _ old))
        (λ _. load-store w32 pte_addr (new_pte write pte) mem' ∙ omega arith)

  table_apart :
      (pte : ℕ) (mem' : ℕ → ℕ)
      → load32 (mark_table write pte_addr pte mem') pde_addr ≡ load32 mem' pde_addr
  table_apart pte mem' =
      if-either (λ after. load32 after pde_addr ≡ load32 mem' pde_addr) (new_pte write pte == pte)
        (λ _. refl) (λ _. load32-store32 pde_addr pte_addr (new_pte write pte) mem' (flip apart))
    where
      flip : Apart pte_addr pde_addr → Apart pde_addr pte_addr
      flip (inl before) = inr before
      flip (inr behind) = inl behind

  pub marks-IsMarked :
      load32 mem pde_addr < 2 ^ 32
      → load32 mem pte_addr < 2 ^ 32
      → IsMarked write pde_addr pte_addr mem (
          mark_table write pte_addr
            (load32 mem pte_addr)
            (mark_directory pde_addr (load32 mem pde_addr) mem))
  marks-IsMarked pde_fits pte_fits =
      let pde = load32 mem pde_addr in
      let pte = load32 mem pte_addr in
      let mem' = mark_directory pde_addr pde mem in
      (
        table_apart pte mem' ∙ load32-mark_directory pde_fits,
        table_marked pte mem' pte_fits (directory_apart pde),
        λ a elsewhere.
            if-either (λ (after : ℕ → ℕ). after a ≡ mem' a) (new_pte write pte == pte) (λ _. refl)
              (λ _. store-other w32 pte_addr (new_pte write pte) a mem' elsewhere.1)
            ∙ if-either (λ (after : ℕ → ℕ). after a ≡ mem a) (bit_and pde 0x20 == 0)
                (λ _. store-other w32 pde_addr (bit_or pde 0x20) a mem elsewhere.0) (λ _. refl),
      )
