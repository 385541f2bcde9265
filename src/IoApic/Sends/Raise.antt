-- ===== src/IoApic/Sends/Raise.antt =====
-- ioapic.cpp: what a raised line sends.
use cpu_ia32_cpp.Base.{
  ℕ, ◌<◌, ◌≡◌, refl, sym, ap, ap₂, ◌∙◌, ◌≢◌, ◌⊎◌, inl, inr, arith, subst, bit_and, bit_or, true,
  false, ◌&&◌, ◌==◌, ◌!=◌, not, ◌∷◌, if◌then◌else◌, u8, update-at, update-other, ◌<<<◌,
}
use cpu_ia32_cpp.Base.Bits.{all_below_sound, bit_and-bit_or, bit_or-zero}
use cpu_ia32_cpp.IoApic.State.{
  IoApic, Vectors, interrupt_masked, remote_irr, pin_polarity, is_level, delivery, asks, low_word,
  ioapic_update,
}
use cpu_ia32_cpp.IoApic.Lines.{pin_of, put_low_word, request, raise_line, ioapic_raise_irq}
use cpu_ia32_cpp.IoApic.Sends.Words.{
  other_bit, bit_or-apart, IsMarked, asks-less, message_type, nonzero_table, absorb, left_request,
  message, message-marks, polarity-IsMarked, remote-IsMarked, IsMarked-trans,
}
use cpu_ia32_cpp.IoApic.Sends.Rounds.{IsAlone, sent, ioapic_update-sent}

-- The polarity changes neither the mode nor the bit that waits.
pub polarity-level : (low : ℕ) → is_level (bit_or low pin_polarity) ≡ is_level low
polarity-level low = ap (λ n. n != 0) (bit_or-apart low pin_polarity (1 <<< 15) refl)

pub polarity-waits :
    (low : ℕ) → bit_and (bit_or low pin_polarity) remote_irr ≡ bit_and low remote_irr
polarity-waits low = bit_or-apart low pin_polarity remote_irr refl

module _ {P : Type 0} where
  -- The message of line `i` goes out, and only a line triggered by its level still asks.
  abbrev pub Sends : ℕ → IoApic P → IoApic P → Type 0
  Sends i s after =
      let low = low_word i s in
      (after.messages ≡ message (u8 low) (message_type low) (is_level low) ∷ s.messages)
      × (bit_and after.irr (1 <<< i) ≡ (if is_level low then 1 <<< i else 0))

  -- The state in which line `i` asks, and `ioapic_update` is called.
  pub record IsAsked (i : ℕ) (s asked : IoApic P) : Type 0 where
    pub marks : IsMarked (low_word i s) (low_word i asked)
    pub others : (k : ℕ) → k ≢ i → low_word k asked ≡ low_word k s
    pub requests : asked.irr ≡ bit_or s.irr (1 <<< i)
    pub unsent : asked.messages ≡ s.messages
    pub still_enabled : asked.enabled ≡ s.enabled

  -- Line `i` may send: nobody else asks, it is not masked, and it has its own vector.
  pub record MaySend (i : ℕ) (s : IoApic P) : Type 0 where
    pub in_table : i < 24
    pub alone : IsAlone i s
    pub unmasked : bit_and (low_word i s) interrupt_masked ≡ 0
    pub internal : delivery (low_word i s) ≢ 7

  IsAsked-own :
      (i : ℕ) (s asked : IoApic P) → IsAsked i s asked → bit_and asked.irr (1 <<< i) ≡ 1 <<< i
  IsAsked-own i s asked is_asked =
      ap (λ n. bit_and n (1 <<< i)) is_asked.requests ∙ absorb s.irr (1 <<< i)

  pub IsAsked-IsAlone :
      (i : ℕ) (s asked : IoApic P) → i < 24 → IsAlone i s → IsAsked i s asked → IsAlone i asked
  IsAsked-IsAlone i s asked lt alone is_asked k k_lt ne =
      ap (λ low. asks k low asked.irr) (is_asked.others k ne)
      ∙ asks-less k (low_word k s) s.irr asked.irr
          (λ none.
            ap (λ n. bit_and n (1 <<< k)) is_asked.requests
            ∙ bit_and-bit_or s.irr (1 <<< i) (1 <<< k)
            ∙ ap₂ bit_or none (other_bit i k lt k_lt λ e. ne (sym e))
            ∙ bit_or-zero 0)
          (alone k k_lt ne)

  -- What a line triggered by its level waits in, and one triggered by its edge.
  abbrev pub level_asked : ℕ → IoApic P → IoApic P
  level_asked i s =
      let low = bit_or (low_word i s) pin_polarity in
      request i (put_low_word i (bit_or low remote_irr) (put_low_word i low s))

  abbrev edge_asked : ℕ → IoApic P → IoApic P
  edge_asked i s = request i (put_low_word i (bit_or (low_word i s) pin_polarity) s)

  pub level_asked-IsAsked : (i : ℕ) (s : IoApic P) → IsAsked i s (level_asked i s)
  level_asked-IsAsked i s =
      let low = low_word i s in
      let low1 = bit_or low pin_polarity in
      let low2 = bit_or low1 remote_irr in
      let raised = put_low_word i low1 s in
      record {
        marks =
            subst (IsMarked low) (sym (update-at raised.redtbl (i <<< 1) low2 (i <<< 1) refl))
              (IsMarked-trans low low1 low2 (polarity-IsMarked low) (remote-IsMarked low1));
        others = λ k ne.
            let apart : i <<< 1 ≢ k <<< 1 = λ e. ne (omega (arith, e)) in
            update-other raised.redtbl (i <<< 1) low2 (k <<< 1) apart
            ∙ update-other s.redtbl (i <<< 1) low1 (k <<< 1) apart;
        requests = refl;
        unsent = refl;
        still_enabled = refl;
      }

  edge_asked-IsAsked : (i : ℕ) (s : IoApic P) → IsAsked i s (edge_asked i s)
  edge_asked-IsAsked i s =
      let low = low_word i s in
      let low1 = bit_or low pin_polarity in
      record {
        marks =
            subst (IsMarked low) (sym (update-at s.redtbl (i <<< 1) low1 (i <<< 1) refl))
              (polarity-IsMarked low);
        others =
            λ k ne. update-other s.redtbl (i <<< 1) low1 (k <<< 1) (λ e. ne (omega (arith, e)));
        requests = refl;
        unsent = refl;
        still_enabled = refl;
      }

module _ {P : Type 0} (pic : Vectors P) where
  pub IsAsked-sent :
      (i : ℕ) (s asked : IoApic P)
      → MaySend i s
      → IsAsked i s asked
      → ioapic_update pic asked ≡ sent i asked
  IsAsked-sent i s asked may is_asked =
      let asking : asks i (low_word i asked) asked.irr ≡ true =
        ap₂ (λ a b. a == 0 && b != 0) (is_asked.marks.same_mask ∙ may.unmasked)
          (IsAsked-own i s asked is_asked)
        ∙ all_below_sound 24 (λ (n : ℕ). 1 <<< n != 0) i nonzero_table may.in_table in
      ioapic_update-sent pic i asked may.in_table
        (IsAsked-IsAlone i s asked may.in_table may.alone is_asked) asking
        (λ e. may.internal (sym is_asked.marks.same_type ∙ e))

  IsAsked-Sends :
      (i : ℕ) (s asked : IoApic P)
      → MaySend i s
      → IsAsked i s asked
      → Sends i s (ioapic_update pic asked)
  IsAsked-Sends i s asked may is_asked =
      let low = low_word i s in
      let low' = low_word i asked in
      let result = IsAsked-sent i s asked may is_asked in
      let level : is_level low' ≡ is_level low = ap (λ n. n != 0) is_asked.marks.same_level in
      (
        ap (λ s'. s'.messages) result
            ∙ ap₂ ◌∷◌ (message-marks low low' is_asked.marks) is_asked.unsent,
        ap (λ s'. bit_and s'.irr (1 <<< i)) result
            ∙ left_request (is_level low') asked.irr i may.in_table (IsAsked-own i s asked is_asked)
            ∙ ap (λ b. if b then 1 <<< i else 0) level,
      )

  -- The two branches that send.
  pub raise-enabled :
      (line : ℕ) (s : IoApic P)
      → s.enabled ≡ true
      → let i = pin_of line in
        let low = bit_or (low_word i s) pin_polarity in
        ioapic_raise_irq pic line s ≡ raise_line pic i low (put_low_word i low s)
  unfolding ioapic_raise_irq
  raise-enabled line s enabled =
      let i = pin_of line in
      let low = bit_or (low_word i s) pin_polarity in
      ap (λ b. if not b then s else raise_line pic i low (put_low_word i low s)) enabled

  raise_line-level :
      (i low : ℕ) (s : IoApic P)
      → is_level low ≡ true
      → (bit_and low remote_irr != 0) ≡ false
      → raise_line pic i low s
        ≡ ioapic_update pic (request i (put_low_word i (bit_or low remote_irr) s))
  unfolding raise_line
  raise_line-level i low s level ended =
      let asked = ioapic_update pic (request i (put_low_word i (bit_or low remote_irr) s)) in
      ap
        (λ b.
          if b
          then if bit_and low remote_irr != 0 then s else asked
          else if bit_and s.pin_state (1 <<< i) == 0
          then ioapic_update pic (request i s)
          else s)
        level
      ∙ ap (λ b. if b then s else asked) ended

  raise_line-edge :
      (i low : ℕ) (s : IoApic P)
      → is_level low ≡ false
      → (bit_and s.pin_state (1 <<< i) == 0) ≡ true
      → raise_line pic i low s ≡ ioapic_update pic (request i s)
  unfolding raise_line
  raise_line-edge i low s edge lowered =
      let asked = ioapic_update pic (request i (put_low_word i (bit_or low remote_irr) s)) in
      ap
        (λ b.
          if b
          then if bit_and low remote_irr != 0 then s else asked
          else if bit_and s.pin_state (1 <<< i) == 0
          then ioapic_update pic (request i s)
          else s)
        edge
      ∙ ap (λ b. if b then ioapic_update pic (request i s) else s) lowered

  pub raise-level_asked :
      (line : ℕ) (s : IoApic P)
      → s.enabled ≡ true
      → is_level (low_word (pin_of line) s) ≡ true
      → bit_and (low_word (pin_of line) s) remote_irr ≡ 0
      → ioapic_raise_irq pic line s ≡ ioapic_update pic (level_asked (pin_of line) s)
  raise-level_asked line s enabled level ended =
      let i = pin_of line in
      let low = low_word i s in
      let low1 = bit_or low pin_polarity in
      raise-enabled line s enabled
      ∙ raise_line-level i low1 (put_low_word i low1 s) (polarity-level low ∙ level)
          (ap (λ n. n != 0) (polarity-waits low ∙ ended))

  -- A raised line that is enabled, not masked and not an external interrupt of the interrupt
  -- controllers, while no other line asks: where it is triggered by its level and the end of the last
  -- interrupt has come, or is triggered by its edge and has been lowered, exactly one message goes
  -- out, with the vector, the type (3 for the lowest priority) and the mode of the line's entry; the
  -- request of a line triggered by its edge is gone, that of the other one stays.
  pub ioapic_raise_irq-Sends :
      (line : ℕ) (s : IoApic P)
      → s.enabled ≡ true
      → MaySend (pin_of line) s
      → ((is_level (low_word (pin_of line) s) ≡ true)
          × (bit_and (low_word (pin_of line) s) remote_irr ≡ 0))
        ⊎ ((is_level (low_word (pin_of line) s) ≡ false)
            × (bit_and s.pin_state (1 <<< pin_of line) ≡ 0))
      → Sends (pin_of line) s (ioapic_raise_irq pic line s)
  ioapic_raise_irq-Sends line s enabled may (inl (level, ended)) =
      let i = pin_of line in
      subst (Sends i s) (sym (raise-level_asked line s enabled level ended))
        (IsAsked-Sends i s (level_asked i s) may (level_asked-IsAsked i s))
  ioapic_raise_irq-Sends line s enabled may (inr (edge, lowered)) =
      let i = pin_of line in
      let low = low_word i s in
      let low1 = bit_or low pin_polarity in
      subst (Sends i s)
        (sym (
          raise-enabled line s enabled
          ∙ raise_line-edge i low1 (put_low_word i low1 s) (polarity-level low ∙ edge)
              (ap (λ n. n == 0) lowered)))
        (IsAsked-Sends i s (edge_asked i s) may (edge_asked-IsAsked i s))
