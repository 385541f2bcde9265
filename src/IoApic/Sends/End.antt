-- ===== src/IoApic/Sends/End.antt =====
-- ioapic.cpp: what the end of an interrupt changes.
use cpu_ia32_cpp.Base.{
  ℕ, zero, suc, ◌+◌, ◌%◌, ◌^◌, ◌≤◌, ◌<◌, ◌≡◌, refl, sym, ap, ◌∙◌, inl, inr, arith, subst, bit_and,
  ◌!=◌, if-either, equal-cases, not32, u8, update-at, update-cases, ◌<<<◌,
}
use cpu_ia32_cpp.Base.Bits.{bit_and_assoc, bit_and-zero, bit_and-mod, bit_and-mask}
use cpu_ia32_cpp.IoApic.State.{IoApic, low_word, interrupt_masked, remote_irr}
use cpu_ia32_cpp.IoApic.Lines.{put_low_word, end_line, end_from, ioapic_remote_eoi}
use cpu_ia32_cpp.IoApic.Sends.Words.{IsMarked, IsMarked-trans, type_field}

-- A field that the mask does not touch.
unmark-apart :
    (low field : ℕ)
    → bit_and (not32 remote_irr) field ≡ field
    → bit_and (bit_and low (not32 remote_irr)) field ≡ bit_and low field
unmark-apart low field kept = bit_and_assoc low (not32 remote_irr) field ∙ ap (bit_and low) kept

unmarked-IsMarked : (low : ℕ) → IsMarked low (bit_and low (not32 remote_irr))
unmarked-IsMarked low = record {
  same_vector = bit_and-mod 8 low (not32 remote_irr) ∙ bit_and-mask 8 (low % 2 ^ 8) ∙ omega arith;
  same_type = omega (
    arith,
    type_field (bit_and low (not32 remote_irr)),
    type_field low,
    unmark-apart low 0x700 refl,
  );
  same_level = unmark-apart low (1 <<< 15) refl;
  same_mask = unmark-apart low interrupt_masked refl;
}

unmark-clear : (low : ℕ) → bit_and (bit_and low (not32 remote_irr)) remote_irr ≡ 0
unmark-clear low = bit_and_assoc low (not32 remote_irr) remote_irr ∙ bit_and-zero low

same-IsMarked : (low : ℕ) → IsMarked low low
same-IsMarked low = record {
  same_vector = refl;
  same_type = refl;
  same_level = refl;
  same_mask = refl;
}

module _ {P : Type 0} where
  -- The entries are as before but for the bit that waits for the end, which is never set.
  pub record IsEnded (s after : IoApic P) : Type 0 where
    pub words : (k : ℕ) → IsMarked (low_word k s) (low_word k after)
    pub cleared :
        (k : ℕ) → bit_and (low_word k s) remote_irr ≡ 0 → bit_and (low_word k after) remote_irr ≡ 0
    pub same_enabled : after.enabled ≡ s.enabled
    pub same_irr : after.irr ≡ s.irr
    pub same_messages : after.messages ≡ s.messages

  same-IsEnded : (s : IoApic P) → IsEnded s s
  same-IsEnded s = record {
    words = λ k. same-IsMarked (low_word k s);
    cleared = λ k clear. clear;
    same_enabled = refl;
    same_irr = refl;
    same_messages = refl;
  }

  IsEnded-trans : (a b c : IoApic P) → IsEnded a b → IsEnded b c → IsEnded a c
  IsEnded-trans a b c first second = record {
    words = λ k.
        IsMarked-trans (low_word k a) (low_word k b) (low_word k c) (first.words k)
          (second.words k);
    cleared = λ k clear. second.cleared k (first.cleared k clear);
    same_enabled = second.same_enabled ∙ first.same_enabled;
    same_irr = second.same_irr ∙ first.same_irr;
    same_messages = second.same_messages ∙ first.same_messages;
  }

  abbrev cleared_line : ℕ → IoApic P → IoApic P
  cleared_line i s = put_low_word i (bit_and (low_word i s) (not32 remote_irr)) s

  cleared_line-IsEnded : (i : ℕ) (s : IoApic P) → IsEnded s (cleared_line i s)
  cleared_line-IsEnded i s = record {
    words = λ k. elim (update-cases s.redtbl (i <<< 1) low' (k <<< 1)) [
      | inl (same, value) ↦
          let here : low_word i s ≡ low_word k s = ap s.redtbl same in
          subst (IsMarked (low_word k s))
            (sym (value ∙ ap (λ l. bit_and l (not32 remote_irr)) here))
            (unmarked-IsMarked (low_word k s))
      | inr (other, value) ↦
          subst (IsMarked (low_word k s)) (sym value) (same-IsMarked (low_word k s))
    ];
    cleared = λ k clear. elim (update-cases s.redtbl (i <<< 1) low' (k <<< 1)) [
      | inl (same, value) ↦ ap (λ l. bit_and l remote_irr) value ∙ unmark-clear (low_word i s)
      | inr (other, value) ↦ ap (λ l. bit_and l remote_irr) value ∙ clear
    ];
    same_enabled = refl;
    same_irr = refl;
    same_messages = refl;
  }
    where
      low' : ℕ
      low' = bit_and (low_word i s) (not32 remote_irr)

  end_line-IsEnded : (vector i : ℕ) (s : IoApic P) → IsEnded s (end_line vector i s)
  end_line-IsEnded vector i s =
      if-either (IsEnded s) (bit_and (low_word i s) 0xff != vector) (λ _. same-IsEnded s)
        (λ _.
          if-either (IsEnded s) (bit_and (low_word i s) remote_irr != 0)
            (λ _. cleared_line-IsEnded i s) (λ _. same-IsEnded s))

  -- The entry with the vector waits no more.
  end_line-clears :
      (vector i : ℕ) (s : IoApic P)
      → u8 (low_word i s) ≡ vector
      → bit_and (low_word i (end_line vector i s)) remote_irr ≡ 0
  end_line-clears vector i s same =
      if-either Clear (bit_and (low_word i s) 0xff != vector)
        (λ other. absurd (ground (arith, same, bit_and-mask 8 (low_word i s))))
        (λ _.
          if-either Clear (bit_and (low_word i s) remote_irr != 0)
            (λ _.
              ap (λ l. bit_and l remote_irr)
                (update-at s.redtbl (i <<< 1) (bit_and (low_word i s) (not32 remote_irr)) (i <<< 1)
                  refl)
              ∙ unmark-clear (low_word i s))
            (λ clear. ground arith))
    where
      Clear : IoApic P → Type 0
      Clear after = bit_and (low_word i after) remote_irr ≡ 0

  end_from-IsEnded : (vector rounds j : ℕ) (s : IoApic P) → IsEnded s (end_from vector rounds j s)
  unfolding end_from
  end_from-IsEnded vector zero j s = same-IsEnded s
  end_from-IsEnded vector (suc rounds) j s =
      IsEnded-trans s (end_line vector j s) _ (end_line-IsEnded vector j s)
        (end_from-IsEnded vector rounds (j + 1) (end_line vector j s))

  end_from-clears :
      (vector rounds j i : ℕ) (s : IoApic P)
      → u8 (low_word i s) ≡ vector
      → j ≤ i
      → i < j + rounds
      → bit_and (low_word i (end_from vector rounds j s)) remote_irr ≡ 0
  unfolding end_from
  end_from-clears vector zero j i s same lower upper = absurd (omega arith)
  end_from-clears vector (suc rounds) j i s same lower upper = elim (equal-cases j i) [
    | inl here ↦ (end_from-IsEnded vector rounds (j + 1) (end_line vector j s)).cleared i (
        subst (λ k. bit_and (low_word i (end_line vector k s)) remote_irr ≡ 0) (sym here)
          (end_line-clears vector i s same))
    | inr later ↦
        end_from-clears vector rounds (j + 1) i (end_line vector j s)
          (((end_line-IsEnded vector j s).words i).same_vector ∙ same) (omega arith) (omega arith)
  ]

  pub ioapic_remote_eoi-IsEnded :
      (vector : ℕ) (s : IoApic P) → IsEnded s (ioapic_remote_eoi vector s)
  unfolding ioapic_remote_eoi
  ioapic_remote_eoi-IsEnded vector s = end_from-IsEnded vector 24 0 s

  pub ioapic_remote_eoi-clears :
      (vector i : ℕ) (s : IoApic P)
      → i < 24
      → u8 (low_word i s) ≡ vector
      → bit_and (low_word i (ioapic_remote_eoi vector s)) remote_irr ≡ 0
  unfolding ioapic_remote_eoi
  ioapic_remote_eoi-clears vector i s lt same =
      end_from-clears vector 24 0 i s same (omega arith) (omega arith)
