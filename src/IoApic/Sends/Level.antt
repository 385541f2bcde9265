-- ===== src/IoApic/Sends/Level.antt =====
-- ioapic.cpp: a line triggered by its level, from one interrupt to its end and the next.
use cpu_ia32_cpp.Base.{
  ℕ, ◌≡◌, refl, sym, ap, ap₂, ◌∙◌, bit_and, bit_or, true, ◌==◌, ◌!=◌, ◌&&◌, ◌∷◌, if◌then◌else◌, inl,
  u8, update-at, ◌<<<◌,
}
use cpu_ia32_cpp.IoApic.State.{
  IoApic, Vectors, remote_irr, pin_polarity, is_level, asks, low_word, ioapic_update,
}
use cpu_ia32_cpp.IoApic.Lines.{
  pin_of, put_low_word, request, raise_line, ioapic_raise_irq, ioapic_remote_eoi,
}
use cpu_ia32_cpp.IoApic.Sends.Words.{
  absorb, IsMarked-trans, IsMarked, message, message_type, message-marks,
}
use cpu_ia32_cpp.IoApic.Sends.Rounds.{sent, sent-IsAlone}
use cpu_ia32_cpp.IoApic.Sends.Raise.{
  MaySend, IsAsked, IsAsked-IsAlone, IsAsked-sent, level_asked, level_asked-IsAsked, polarity-level,
  polarity-waits, raise-enabled, raise-level_asked, ioapic_raise_irq-Sends,
}
use cpu_ia32_cpp.IoApic.Sends.End.{IsEnded, ioapic_remote_eoi-IsEnded, ioapic_remote_eoi-clears}

-- The word of a raised line waits.
waits : (low : ℕ) → (bit_and (bit_or (bit_or low pin_polarity) remote_irr) remote_irr != 0) ≡ true
waits low = ap (λ n. n != 0) (absorb (bit_or low pin_polarity) remote_irr)

module _ {P : Type 0} where
  IsEnded-MaySend : (i : ℕ) (s after : IoApic P) → MaySend i s → IsEnded s after → MaySend i after
  IsEnded-MaySend i s after may ended = record {
    in_table = may.in_table;
    alone = λ k lt ne.
        ap (λ n. n == 0 && bit_and after.irr (1 <<< k) != 0) ((ended.words k).same_mask)
        ∙ ap (λ irr. asks k (low_word k s) irr) ended.same_irr
        ∙ may.alone k lt ne;
    unmasked = (ended.words i).same_mask ∙ may.unmasked;
    internal = λ e. may.internal (sym ((ended.words i).same_type) ∙ e);
  }

  sent-MaySend :
      (i : ℕ) (s asked : IoApic P) → MaySend i s → IsAsked i s asked → MaySend i (sent i asked)
  sent-MaySend i s asked may is_asked = record {
    in_table = may.in_table;
    alone = sent-IsAlone i asked (IsAsked-IsAlone i s asked may.in_table may.alone is_asked);
    unmasked = is_asked.marks.same_mask ∙ may.unmasked;
    internal = λ e. may.internal (sym is_asked.marks.same_type ∙ e);
  }

module _ {P : Type 0} (pic : Vectors P) where
  raise_line-waits :
      (i low : ℕ) (s : IoApic P)
      → is_level low ≡ true
      → (bit_and low remote_irr != 0) ≡ true
      → raise_line pic i low s ≡ s
  unfolding raise_line
  raise_line-waits i low s level waiting =
      let asked = ioapic_update pic (request i (put_low_word i (bit_or low remote_irr) s)) in
      ap
        (λ b.
          if b
          then if bit_and low remote_irr != 0 then s else asked
          else if bit_and s.pin_state (1 <<< i) == 0
          then ioapic_update pic (request i s)
          else s)
        level
      ∙ ap (λ b. if b then s else asked) waiting

  module _ (line : ℕ) (s : IoApic P) (enabled : s.enabled ≡ true) (may : MaySend (pin_of line) s)
      (level : is_level (low_word (pin_of line) s) ≡ true) where
    -- The state after the first raise, and its entry.
    abbrev first : IoApic P
    first = sent (pin_of line) (level_asked (pin_of line) s)

    first-marks : IsMarked (low_word (pin_of line) s) (low_word (pin_of line) first)
    first-marks = (level_asked-IsAsked (pin_of line) s).marks

    first-level : is_level (low_word (pin_of line) first) ≡ true
    first-level = ap (λ n. n != 0) first-marks.same_level ∙ level

    first-waits : (bit_and (low_word (pin_of line) first) remote_irr != 0) ≡ true
    first-waits =
        let i = pin_of line in
        let low = bit_or (low_word i s) pin_polarity in
        ap (λ l. bit_and l remote_irr != 0)
          (update-at (put_low_word i low s).redtbl (i <<< 1) (bit_or low remote_irr) (i <<< 1) refl)
        ∙ waits (low_word i s)

    -- Before the end of the interrupt.
    second-silent : (ioapic_raise_irq pic line first).messages ≡ first.messages
    second-silent =
        let i = pin_of line in
        let low = bit_or (low_word i first) pin_polarity in
        ap (λ s'. s'.messages)
          (raise-enabled pic line first enabled
            ∙ raise_line-waits i low (put_low_word i low first)
                (polarity-level (low_word i first) ∙ first-level)
                (ap (λ n. n != 0) (polarity-waits (low_word i first)) ∙ first-waits))

    -- After it.
    third-sends :
        (ioapic_raise_irq pic line
          (ioapic_remote_eoi (u8 (low_word (pin_of line) s)) first)).messages
        ≡ message
            (u8 (low_word (pin_of line) s))
            (message_type (low_word (pin_of line) s))
            (is_level (low_word (pin_of line) s))
          ∷ first.messages
    third-sends =
        let i = pin_of line in
        let low = low_word i s in
        let over = ioapic_remote_eoi (u8 low) first in
        let ended = ioapic_remote_eoi-IsEnded (u8 low) first in
        let may' =
          IsEnded-MaySend i first over
            (sent-MaySend i s (level_asked i s) may (level_asked-IsAsked i s)) ended in
        let level' : is_level (low_word i over) ≡ true =
          ap (λ n. n != 0) ((ended.words i).same_level) ∙ first-level in
        let clear =
          ioapic_remote_eoi-clears (u8 low) i first may.in_table first-marks.same_vector in
        let sends =
          ioapic_raise_irq-Sends pic line over (ended.same_enabled ∙ enabled) may'
            (inl (level', clear)) in
        sends.0
        ∙ ap₂ ◌∷◌
            (message-marks low (low_word i over)
              (IsMarked-trans low (low_word i first) (low_word i over) first-marks (ended.words i)))
            ended.same_messages

  -- A line triggered by its level that may send, with the end of its last interrupt come: raised, and
  -- raised again before the end of the interrupt, it has sent one message; raised again after the end
  -- of the interrupt with its vector, it has sent the same message a second time.
  pub ioapic_raise_irq-ioapic_remote_eoi :
      (line : ℕ) (s : IoApic P)
      → s.enabled ≡ true
      → MaySend (pin_of line) s
      → is_level (low_word (pin_of line) s) ≡ true
      → bit_and (low_word (pin_of line) s) remote_irr ≡ 0
      → let low = low_word (pin_of line) s in
        let one = message (u8 low) (message_type low) true in
        let once = ioapic_raise_irq pic line s in
        (once.messages ≡ one ∷ s.messages)
        × ((ioapic_raise_irq pic line once).messages ≡ one ∷ s.messages)
        × ((ioapic_raise_irq pic line (ioapic_remote_eoi (u8 low) once)).messages
            ≡ one ∷ one ∷ s.messages)
  ioapic_raise_irq-ioapic_remote_eoi line s enabled may level ended =
      let i = pin_of line in
      let low = low_word i s in
      let is_first : ioapic_raise_irq pic line s ≡ first line s enabled may level =
        raise-level_asked pic line s enabled level ended
        ∙ IsAsked-sent pic i s (level_asked i s) may (level_asked-IsAsked i s) in
      let one = message (u8 low) (message_type low) true in
      let by_level = ap (message (u8 low) (message_type low)) level in
      let sent_once =
        (ioapic_raise_irq-Sends pic line s enabled may (inl (level, ended))).0
        ∙ ap (λ l. l ∷ s.messages) by_level in
      let at_first : (first line s enabled may level).messages ≡ one ∷ s.messages =
        sym (ap (λ s'. s'.messages) is_first) ∙ sent_once in
      (
        sent_once,
        ap (λ s'. (ioapic_raise_irq pic line s').messages) is_first
            ∙ second-silent line s enabled may level
            ∙ at_first,
        ap (λ s'. (ioapic_raise_irq pic line (ioapic_remote_eoi (u8 low) s')).messages) is_first
            ∙ third-sends line s enabled may level
            ∙ ap₂ ◌∷◌ by_level at_first,
      )
