-- ===== src/Strings/Registers.antt =====
-- cpu/string.cpp: the registers that a round of a string instruction reads and writes.
use cpu_ia32_cpp.Base.{
  ℕ, ◌+◌, ◌-◌, ◌<◌, ◌≡◌, refl, ap, ◌∙◌, ◌≢◌, arith, sub32, Width, w8, w16, w32, size, truncate,
  truncate-lt, update-at, update-other,
}
use cpu_ia32_cpp.Memory.State.{Machine}
use cpu_ia32_cpp.Strings.Loop.{
  AddressSize, a16, a32, index_width, with_low, register, count_of, advance, count_down,
}

pub with_low-low :
    (w : Width) (value old : ℕ) → truncate w (with_low w value old) ≡ truncate w value
with_low-low w8 value old = omega arith
with_low-low w16 value old = omega arith
with_low-low w32 value old = omega arith

one_less :
    (a : AddressSize) (n : ℕ)
    → 0 < n
    → n < size (index_width a)
    → truncate (index_width a) (sub32 n 1) ≡ n - 1
one_less a16 n positive fits = omega arith
one_less a32 n positive fits = omega arith

module _ {D : Type 0} where
  -- Another register than the one that moves.
  pub advance-other :
      (a : AddressSize) (w : Width) (i j add : ℕ) (m : Machine D)
      → i ≢ j
      → register w j (advance a i add m) ≡ register w j m
  unfolding advance
  advance-other a w i j add m ne = ap (truncate w) (update-other m.cpu.reg32 i _ j ne)

  pub advance-same :
      (a : AddressSize) (i add : ℕ) (m : Machine D)
      → register (index_width a) i (advance a i add m)
        ≡ truncate (index_width a) (register (index_width a) i m + add)
  unfolding advance
  advance-same a i add m =
      ap (truncate (index_width a)) (update-at m.cpu.reg32 i _ i refl)
      ∙ with_low-low (index_width a) (register (index_width a) i m + add) (m.cpu.reg32 i)

  pub count_down-other :
      (a : AddressSize) (w : Width) (j : ℕ) (m : Machine D)
      → 1 ≢ j
      → register w j (count_down a m) ≡ register w j m
  unfolding count_down
  count_down-other a w j m ne = ap (truncate w) (update-other m.cpu.reg32 1 _ j ne)

  pub count_down-count :
      (a : AddressSize) (m : Machine D)
      → 0 < count_of a m
      → count_of a (count_down a m) ≡ count_of a m - 1
  unfolding count_down
  count_down-count a m positive =
      ap (truncate (index_width a)) (update-at m.cpu.reg32 1 _ 1 refl)
      ∙ with_low-low (index_width a) (sub32 (count_of a m) 1) (m.cpu.reg32 1)
      ∙ one_less a (count_of a m) positive (truncate-lt (index_width a) (m.cpu.reg32 1))
