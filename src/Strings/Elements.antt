-- ===== src/Strings/Elements.antt =====
-- The elements that a repeated string instruction (cpu/string.cpp) reads or writes.
use cpu_ia32_cpp.Base.{
  ℕ, zero, suc, ◌+◌, ◌*◌, ◌%◌, ◌^◌, ◌≤◌, ◌<◌, ◌≡◌, ap, ◌∙◌, ◌⊎◌, inl, inr, arith, subst, false,
  Width, w8, w16, w32,
}
use cpu_ia32_cpp.Memory.State.{Machine}
use cpu_ia32_cpp.Memory.Access.{is_indirect, tag_of, phys_of, load, store, bytes}
use cpu_ia32_cpp.Memory.StackTrip.{load-store, store-other}

-- The elements of a width, `n` of them from `p` on, are all `value`, and the other bytes are as before.
abbrev pub IsFilled : Width → ℕ → ℕ → ℕ → (ℕ → ℕ) → (ℕ → ℕ) → Type 0
IsFilled w n p value mem after =
    ((j : ℕ) → j < n → load w after (p + j * bytes w) ≡ value % 2 ^ (8 * bytes w))
    × ((x : ℕ) → (x < p) ⊎ (p + n * bytes w ≤ x) → after x ≡ mem x)

-- A load reads the bytes of its element only.
load-ext :
    (w : Width) (p : ℕ) (mem mem' : ℕ → ℕ)
    → ((x : ℕ) → p ≤ x → x < p + bytes w → mem' x ≡ mem x)
    → load w mem' p ≡ load w mem p
load-ext w8 p mem mem' same = same p (omega arith) (omega arith)
load-ext w16 p mem mem' same =
    omega (arith, same p (omega arith) (omega arith), same (p + 1) (omega arith) (omega arith))
load-ext w32 p mem mem' same = omega (
  arith,
  same p (omega arith) (omega arith),
  same (p + 1) (omega arith) (omega arith),
  same (p + 2) (omega arith) (omega arith),
  same (p + 2 + 1) (omega arith) (omega arith),
)

-- One element more in front.
pub IsFilled-suc :
    (w : Width) (n p value : ℕ) (mem after : ℕ → ℕ)
    → IsFilled w n (p + bytes w) value (store w p value mem) after
    → IsFilled w (suc n) p value mem after
IsFilled-suc w n p value mem after (filled, kept) = (
  element,
  λ x out. elim out [
    | inl below ↦ kept x (inl (omega arith)) ∙ store-other w p value x mem (inl below)
    | inr above ↦ kept x (inr (omega arith)) ∙ store-other w p value x mem (inr (omega arith))
  ],
)
  where
    element : (j : ℕ) → j < suc n → load w after (p + j * bytes w) ≡ value % 2 ^ (8 * bytes w)
    element zero lt =
        let here : p + 0 * bytes w ≡ p = omega arith in
        ap (load w after) here
        ∙ load-ext w p (store w p value mem) after (λ x low high. kept x (inl high))
        ∙ load-store w p value mem
    element (suc j) lt =
        let there : p + suc j * bytes w ≡ p + bytes w + j * bytes w = omega arith in
        ap (load w after) there ∙ filled j (omega arith)

pub bytes-positive : (w : Width) → 0 < bytes w
bytes-positive w8 = omega arith
bytes-positive w16 = omega arith
bytes-positive w32 = omega arith

module _ {D : Type 0} where
  -- The elements from `addr` on are aligned, go to the memory directly for the kind of access that
  -- `shift` says, and lie from `p` on in it.
  abbrev pub IsDirect : Width → ℕ → ℕ → ℕ → ℕ → Machine D → Type 0
  IsDirect w n addr p shift m =
      (j : ℕ)
      → j < n
      → (is_indirect w (addr + j * bytes w) (tag_of (addr + j * bytes w) shift m) ≡ false)
        × (phys_of (addr + j * bytes w) m ≡ p + j * bytes w)

  pub IsDirect-first :
      (w : Width) (n addr p shift : ℕ) (m : Machine D)
      → IsDirect w (suc n) addr p shift m
      → (is_indirect w addr (tag_of addr shift m) ≡ false) × (phys_of addr m ≡ p)
  IsDirect-first w n addr p shift m direct =
      let (goes, lies) = direct 0 (omega arith) in
      let start : addr + 0 * bytes w ≡ addr = omega arith in
      (
        subst (λ x. is_indirect w x (tag_of x shift m) ≡ false) start goes,
        subst (λ x. phys_of x m ≡ p) start (omega (arith, lies)),
      )

  pub IsDirect-rest :
      (w : Width) (n addr p shift : ℕ) (m : Machine D)
      → IsDirect w (suc n) addr p shift m
      → IsDirect w n (addr + bytes w) (p + bytes w) shift m
  IsDirect-rest w n addr p shift m direct j lt =
      let next : addr + suc j * bytes w ≡ addr + bytes w + j * bytes w = omega arith in
      let phys_next : p + suc j * bytes w ≡ p + bytes w + j * bytes w = omega arith in
      let (goes, lies) = direct (suc j) (omega arith) in
      (
        subst (λ x. is_indirect w x (tag_of x shift m) ≡ false) next goes,
        subst (λ x. phys_of x m ≡ p + bytes w + j * bytes w) next (lies ∙ phys_next),
      )
