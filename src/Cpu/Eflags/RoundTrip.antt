-- ===== src/Cpu/Eflags/RoundTrip.antt =====
-- `cpu_set_eflags` followed by `cpu_get_eflags`.
use cpu_ia32_cpp.Base.{
  ℕ, ◌-◌, ◌*◌, ◌^◌, ◌<◌, bit_and, bit_or, bit_xor, ◌≡◌, refl, ap, ◌∙◌, some, arith, not32, int_of,
  ◌==◌,
}
use cpu_ia32_cpp.Base.Bits.{
  bit_at, bit_at-lt, bit_and-mask, bit_or-lt, bit_and-lt, shifted-bit_at, SameBits, SameBits-eq,
  bit_or-masked,
}
use cpu_ia32_cpp.Cpu.State.{Cpu, IsWords, full_update, code, lazy_op}
use cpu_ia32_cpp.Cpu.Eflags.{cpu_get_sf, cpu_get_pf}
use cpu_ia32_cpp.Cpu.Flags.{Flags, flags}
use cpu_ia32_cpp.Cpu.Eflags.{cpu_get_eflags, cpu_set_eflags, settable, arith_mask, bit_test}
use cpu_ia32_cpp.Cpu.Eflags.Setters.{flags-full, bit_laws}
use cpu_ia32_cpp.Base.{zero, suc, inl, inr, Bool-cases, ◌<<<◌, ◌!=◌}
use cpu_ia32_cpp.Cpu.State.{cpu_request_fast_return}
use native.Mathlib.Nat.{mod-eq_of_lt}
use cpu_ia32_cpp.Cpu.Eflags.Word.{packed, cpu_get_eflags-packed}

-- `m_eflags` after `cpu_set_eflags`: the settable bits of the argument, the others as before.
abbrev pub merged : ℕ → ℕ → ℕ
merged eflags e = bit_or (bit_and e (not32 settable)) (bit_and eflags settable)

-- `m_laux` for the parity `p`, the sign `s` and the result `l`.
abbrev encoding : ℕ → ℕ → ℕ → ℕ
encoding p l s =
    bit_or (bit_or (code full_update) ((s * 0x80) <<< 24)) (bit_xor (bit_xor p l) 1 <<< 7)

abbrev Encoded : ℕ → ℕ → ℕ → Cpu → Type 0
Encoded p l s c =
    let d = record c { lr = l; laux = encoding p l s } in
    (cpu_get_sf d ≡ s)
    × (cpu_get_pf d ≡ p)
    × (lazy_op (bit_and d.laux 63) ≡ some full_update)
    × (d.laux < 2 ^ 32)

-- The word encodes SF and PF for the functions that read them.
encoded : (p l s : ℕ) (c : Cpu) → (p < 2) × (l < 2) × (s < 2) → Encoded p l s c
unfolding cpu_get_sf cpu_get_pf
encoded zero zero zero c h = (refl, refl, refl, omega arith)
encoded zero zero (suc zero) c h = (refl, refl, refl, omega arith)
encoded zero (suc zero) zero c h = (refl, refl, refl, omega arith)
encoded zero (suc zero) (suc zero) c h = (refl, refl, refl, omega arith)
encoded (suc zero) zero zero c h = (refl, refl, refl, omega arith)
encoded (suc zero) zero (suc zero) c h = (refl, refl, refl, omega arith)
encoded (suc zero) (suc zero) zero c h = (refl, refl, refl, omega arith)
encoded (suc zero) (suc zero) (suc zero) c h = (refl, refl, refl, omega arith)
encoded (suc (suc p)) l s c h = absurd (omega arith)
encoded p (suc (suc l)) s c h = absurd (omega arith)
encoded p l (suc (suc s)) c h = absurd (omega arith)

flag_7 : (x : ℕ) → bit_and x 0x80 ≡ bit_at 7 x * 0x80
flag_7 x = SameBits-eq 8 _ _ (bit_and-lt 8 x 0x80 (omega arith)) (omega (arith, bit_at-lt 7 x)) same
  where
    same : SameBits 8 (bit_and x 0x80) (bit_at 7 x * 0x80)
    same = unfold bit_at in simp bit_laws (omega arith)

flag_6 : (x : ℕ) → bit_and x 0x40 ≡ bit_at 6 x * 0x40
flag_6 x = SameBits-eq 7 _ _ (bit_and-lt 7 x 0x40 (omega arith)) (omega (arith, bit_at-lt 6 x)) same
  where
    same : SameBits 7 (bit_and x 0x40) (bit_at 6 x * 0x40)
    same = unfold bit_at in simp bit_laws (omega arith)

-- The six flags of a word.
abbrev pub flags_in : ℕ → Flags
flags_in x = record {
  cf = bit_at 0 x;
  pf = bit_at 2 x;
  af = bit_at 4 x;
  zf = bit_at 6 x;
  sf = bit_at 7 x;
  of = bit_at 11 x;
}

packed-flags_in : (x : ℕ) → packed (flags_in x) ≡ bit_and x arith_mask
packed-flags_in x =
    SameBits-eq 12 _ _ (omega (arith, bit_at-lt)) (bit_and-lt 12 x arith_mask (omega arith)) same
  where
    same : SameBits 12 (packed (flags_in x)) (bit_and x arith_mask)
    same = unfold bit_at in simp bit_laws (omega arith)

-- Each of PF, ZF and SF is settable.
merged-bits :
    (eflags e : ℕ)
    → (bit_at 6 (merged eflags e) ≡ bit_at 6 eflags)
      × (bit_at 7 (merged eflags e) ≡ bit_at 7 eflags)
unfolding bit_at
merged-bits eflags e = simp bit_laws (omega arith)

merged-lt : (eflags e : ℕ) → e < 2 ^ 32 → merged eflags e < 2 ^ 32
merged-lt eflags e h =
    bit_or-lt 32 _ _ (bit_and-lt 32 e (not32 settable) (omega arith))
      (bit_and-lt 32 eflags settable (omega arith))

module _ (eflags : ℕ) (c : Cpu) where
  abbrev word : ℕ
  word = merged eflags c.eflags

  abbrev target : Cpu
  target = record c {
    eflags = word;
    lr = 1 - bit_at 6 word;
    laux = encoding (bit_at 2 word) (1 - bit_at 6 word) (bit_at 7 word);
  }

  abbrev IsTarget : Cpu → Type 0
  IsTarget d =
      (d.eflags ≡ target.eflags)
      × (d.lr ≡ target.lr)
      × (d.laux ≡ target.laux)
      × (d.lop1 ≡ c.lop1)
      × (d.lop2 ≡ c.lop2)

  abbrev new_lr : ℕ
  new_lr = int_of (bit_and eflags 0x40 == 0)

  abbrev new_laux : ℕ
  new_laux =
      bit_or (bit_or (code full_update) (bit_and eflags 0x80 <<< 24))
        (bit_xor (bit_xor (bit_test word 2) new_lr) 1 <<< 7)

  new_lr-eq : new_lr ≡ 1 - bit_at 6 word
  new_lr-eq = ground (arith, flag_6 eflags, merged-bits eflags c.eflags, bit_at-lt 6 eflags)

  new_laux-eq : new_laux ≡ target.laux
  new_laux-eq =
      rw (new_lr-eq, flag_7 eflags, shifted-bit_at 2 word, ← (merged-bits eflags c.eflags).1) refl

  -- Interrupts allowed or forbidden end the run of instructions, which changes no flag.
  cpu_set_eflags-IsTarget : IsTarget (cpu_set_eflags eflags c)
  unfolding cpu_set_eflags cpu_request_fast_return
  cpu_set_eflags-IsTarget = elim (Bool-cases (bit_and (bit_xor c.eflags word) 0x200 != 0)) [
    | inl changed ↦ rw changed (refl, new_lr-eq, new_laux-eq, refl, refl)
    | inr same ↦ rw same (refl, new_lr-eq, new_laux-eq, refl, refl)
  ]

  target-Encoded : Encoded (bit_at 2 word) (1 - bit_at 6 word) (bit_at 7 word) c
  target-Encoded =
      encoded (bit_at 2 word) (1 - bit_at 6 word) (bit_at 7 word) c
        (bit_at-lt 2 word, omega arith, bit_at-lt 7 word)

  sf-IsTarget : (d : Cpu) → IsTarget d → cpu_get_sf d ≡ bit_at 7 word
  unfolding cpu_get_sf
  sf-IsTarget d t = rw (t.1, t.2) target-Encoded.0

  pf-IsTarget : (d : Cpu) → IsTarget d → cpu_get_pf d ≡ bit_at 2 word
  unfolding cpu_get_pf
  pf-IsTarget d t = rw (t.1, t.2) target-Encoded.1

  zf-IsTarget : (d : Cpu) → IsTarget d → int_of (d.lr == 0) ≡ bit_at 6 word
  zf-IsTarget d t = ground (arith, bit_at-lt 6 word)

  flags-IsTarget : (d : Cpu) → IsTarget d → flags d ≡ some (flags_in word)
  flags-IsTarget d t =
      flags-full d (ap (λ (x : ℕ). lazy_op (bit_and x 63)) t.2 ∙ target-Encoded.2) ∙ λ i.
      some (record {
        cf = bit_at 0 (t.0 i);
        pf = pf-IsTarget d t i;
        af = bit_at 4 (t.0 i);
        zf = zf-IsTarget d t i;
        sf = sf-IsTarget d t i;
        of = bit_at 11 (t.0 i);
      })

  -- After `cpu_set_eflags` the six flags that can be read are those bits of the word.
  pub flags-cpu_set_eflags : flags (cpu_set_eflags eflags c) ≡ some (flags_in word)
  flags-cpu_set_eflags = flags-IsTarget (cpu_set_eflags eflags c) cpu_set_eflags-IsTarget

whole : (x : ℕ) → x < 2 ^ 32 → bit_or (bit_and x (not32 arith_mask)) (bit_and x arith_mask) ≡ x
whole x h = bit_or-masked x (not32 arith_mask) arith_mask ∙ bit_and-mask 32 x ∙ mod-eq_of_lt h

pub cpu_set_eflags-IsWords : (eflags : ℕ) (c : Cpu) → IsWords c → IsWords (cpu_set_eflags eflags c)
cpu_set_eflags-IsWords eflags c v =
    let t = cpu_set_eflags-IsTarget eflags c in
    let e = target-Encoded eflags c in
    record {
      lr_fits = omega (arith, t.1);
      lop1_fits = omega (arith, t.3, v.lop1_fits);
      lop2_fits = omega (arith, t.4, v.lop2_fits);
      laux_fits = omega (arith, t.2, e.3);
      eflags_fits = omega (arith, t.0, merged-lt eflags c.eflags v.eflags_fits);
    }

-- `cpu_get_eflags` after `cpu_set_eflags eflags` gives `eflags` in the bits that can be set and the
-- old `m_eflags` in the others.
pub cpu_get_eflags-cpu_set_eflags :
    (eflags : ℕ) (c : Cpu)
    → IsWords c
    → cpu_get_eflags (cpu_set_eflags eflags c)
      ≡ some (bit_or (bit_and c.eflags (not32 settable)) (bit_and eflags settable))
cpu_get_eflags-cpu_set_eflags eflags c v =
    let d = cpu_set_eflags eflags c in
    let x = merged eflags c.eflags in
    cpu_get_eflags-packed d (flags_in x) (cpu_set_eflags-IsWords eflags c v)
      (flags-cpu_set_eflags eflags c)
    ∙ ap (λ (t : ℕ). some (bit_or (bit_and t (not32 arith_mask)) (packed (flags_in x))))
        (cpu_set_eflags-IsTarget eflags c).0
    ∙ ap some (
        ap (bit_or (bit_and x (not32 arith_mask))) (packed-flags_in x)
        ∙ whole x (merged-lt eflags c.eflags v.eflags_fits))
