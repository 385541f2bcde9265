-- ===== src/Dma/Units.antt =====
-- dma.cpp: the units that a transfer moves.
use cpu_ia32_cpp.Base.{
  ℕ, zero, suc, ◌+◌, ◌-◌, ◌*◌, ◌^◌, ◌<◌, bit_xor, List, [], ◌∷◌, ltb, ◌==◌, ◌!=◌, if◌then◌else◌,
  u32, ◌≡◌, refl, sym, ap, ap₂, ◌∙◌, arith, Bool-cases, inl, inr,
}
use native.Mathlib.Numerals.{unary_clauses}
use native.Mathlib.Nat.{suc-mul}
use cpu_ia32_cpp.Dma.State.{Action, cpu_init_dma, to_memory, from_memory, fdc_dma_complete}
use cpu_ia32_cpp.Dma.Transfers.{
  Transfer, Progress, memory_address, unit, transfer_unit, transfer_units,
}

-- The units among the actions.
unfoldable pub units : List Action → List Action
units [] = []
units (cpu_init_dma addr ∷ rest) = units rest
units (to_memory addr offset size ∷ rest) = to_memory addr offset size ∷ units rest
units (from_memory addr offset size ∷ rest) = from_memory addr offset size ∷ units rest
units (fdc_dma_complete ∷ rest) = units rest

-- What a unit adds to the address register: 1, or -1 as a 32 bit word.
abbrev pub direction : Transfer → ℕ
direction t = if t.incdec_down == 0 then 1 else 2 ^ 32 - 1

-- The first `n` units of a transfer, the newest first, before those of `earlier`.
pub expected : ℕ → Transfer → ℕ → ℕ → List Action → List Action
expected zero t addr offset earlier = earlier
expected (suc n) t addr offset earlier =
    unit t (memory_address t (u32 (addr + n * direction t))) (offset + n * (t.is16 + 1))
    ∷ expected n t addr offset earlier

next_multiple : (n x : ℕ) → suc n * x ≡ x + n * x
next_multiple n x = suc-mul n x ∙ omega arith

module _ (t : Transfer) where
  units-unit : (a o : ℕ) (rest : List Action) → units (unit t a o ∷ rest) ≡ unit t a o ∷ units rest
  unfolding units
  units-unit a o rest = elim (Bool-cases (t.is_write != 0)) [
    | inl write ↦ rw write refl
    | inr read ↦ rw read refl
  ]

  moved : (s : Progress) → (transfer_unit t s).addr ≡ u32 (s.addr + direction t)
  unfolding transfer_unit
  moved s = elim (Bool-cases (t.incdec_down == 0)) [
    | inl up ↦ rw up refl
    | inr down ↦ rw down (omega arith)
  ]

  units-transfer_unit :
      (s : Progress)
      → units (transfer_unit t s).actions
        ≡ unit t (memory_address t s.addr) s.offset ∷ units s.actions
  unfolding transfer_unit units
  units-transfer_unit s =
      units-unit _ _ _ ∙ (elim (Bool-cases (ltb 4095 (bit_xor (memory_address t s.addr) s.page))) [
        | inl crosses ↦ rw crosses refl
        | inr within ↦ rw within refl
      ])

  -- The oldest unit of `suc n` can be taken off the other end.
  expected-first :
      (n a o : ℕ) (earlier : List Action)
      → a < 2 ^ 32
      → expected (suc n) t a o earlier
        ≡ expected n t
            (u32 (a + direction t))
            (o + (t.is16 + 1))
            (unit t (memory_address t a) o ∷ earlier)
  unfolding expected
  expected-first zero a o earlier h =
      let same_addr : u32 (a + 0 * direction t) ≡ a = simp unary_clauses (omega arith) in
      let same_place : o + 0 * (t.is16 + 1) ≡ o = simp unary_clauses (omega arith) in
      ap₂ (λ (b p : ℕ). unit t (memory_address t b) p ∷ earlier) same_addr same_place
  expected-first (suc n) a o earlier h =
      ap₂ (λ (b p : ℕ). unit t (memory_address t b) p ∷ expected (suc n) t a o earlier) same_addr
        same_place
      ∙ ap
          (unit t (memory_address t (u32 (u32 (a + direction t) + n * direction t)))
            (o + (t.is16 + 1) + n * (t.is16 + 1)) ∷◌)
          (expected-first n a o earlier h)
    where
      same_addr : u32 (a + suc n * direction t) ≡ u32 (u32 (a + direction t) + n * direction t)
      same_addr = omega (arith, next_multiple n (direction t))

      same_place : o + suc n * (t.is16 + 1) ≡ o + (t.is16 + 1) + n * (t.is16 + 1)
      same_place = omega (arith, next_multiple n (t.is16 + 1))

  moved-lt : (s : Progress) → (transfer_unit t s).addr < 2 ^ 32
  moved-lt s = rw (moved s) (omega arith)

  pub units-transfer_units :
      (n : ℕ) (s : Progress)
      → s.addr < 2 ^ 32
      → units (transfer_units n t s).actions ≡ expected n t s.addr s.offset (units s.actions)
  unfolding transfer_units expected
  units-transfer_units zero s h = refl
  units-transfer_units (suc n) s h =
      units-transfer_units n (transfer_unit t s) (moved-lt s)
      ∙ rw (moved s, units-transfer_unit s)
          (sym (expected-first n s.addr s.offset (units s.actions) h))

  pub addr-transfer_units :
      (n : ℕ) (s : Progress)
      → s.addr < 2 ^ 32
      → (transfer_units n t s).addr ≡ u32 (s.addr + n * direction t)
  unfolding transfer_units
  addr-transfer_units zero s h = omega arith
  addr-transfer_units (suc n) s h =
      addr-transfer_units n (transfer_unit t s) (moved-lt s)
      ∙ rw (moved s) (omega (arith, next_multiple n (direction t)))
