-- ===== src/IoApic/Sends/Rounds.antt =====
-- ioapic.cpp: `ioapic_update` where one line asks.
use cpu_ia32_cpp.Base.{
  ℕ, zero, suc, ◌+◌, ◌-◌, ◌≤◌, ◌<◌, ◌≡◌, refl, ap, ◌∙◌, ◌≢◌, inl, inr, arith, bit_and, true, false,
  ◌==◌, if◌then◌else◌, if-either, equal-cases, not32, u8, ◌<<<◌,
}
use cpu_ia32_cpp.IoApic.State.{
  IoApic, Vectors, is_level, delivery, asks, low_word, send, take_request, deliver, update_line,
  update_from, ioapic_update,
}
use cpu_ia32_cpp.IoApic.Sends.Words.{asks-less, fewer, message_type}

module _ {P : Type 0} where
  -- No other line asks.
  abbrev pub IsAlone : ℕ → IoApic P → Type 0
  IsAlone i s = (k : ℕ) → k < 24 → k ≢ i → asks k (low_word k s) s.irr ≡ false

  abbrev pub sent : ℕ → IoApic P → IoApic P
  sent i s =
      let low = low_word i s in
      send (u8 low) (message_type low) (is_level low) (take_request i low s)

  -- Nobody else asks afterwards.
  pub sent-IsAlone : (i : ℕ) (s : IoApic P) → IsAlone i s → IsAlone i (sent i s)
  sent-IsAlone i s alone k lt ne =
      asks-less k (low_word k s) s.irr (sent i s).irr
        (λ none.
          if-either (λ n. bit_and n (1 <<< k) ≡ 0) (is_level (low_word i s)) (λ _. none)
            (λ _. fewer s.irr (not32 (1 <<< i)) (1 <<< k) none))
        (alone k lt ne)

module _ {P : Type 0} (pic : Vectors P) where
  update_from-add :
      (a b j : ℕ) (s : IoApic P)
      → update_from pic (a + b) j s ≡ update_from pic b (j + a) (update_from pic a j s)
  unfolding update_from
  update_from-add zero b j s =
      let same : 0 + b ≡ b = omega arith in
      let same' : j ≡ j + 0 = omega arith in
      ap (λ n. update_from pic n j s) same ∙ ap (λ n. update_from pic b n s) same'
  update_from-add (suc a) b j s =
      let same : suc a + b ≡ suc (a + b) = omega arith in
      let same' : j + 1 + a ≡ j + suc a = omega arith in
      ap (λ n. update_from pic n j s) same
      ∙ update_from-add a b (j + 1) (update_line pic j s)
      ∙ ap (λ n. update_from pic b n (update_from pic a (j + 1) (update_line pic j s))) same'

  -- Lines that do not ask are passed over.
  update_from-quiet :
      (rounds j : ℕ) (s : IoApic P)
      → ((k : ℕ) → j ≤ k → k < j + rounds → asks k (low_word k s) s.irr ≡ false)
      → update_from pic rounds j s ≡ s
  unfolding update_from update_line
  update_from-quiet zero j s quiet = refl
  update_from-quiet (suc rounds) j s quiet =
      let first : update_line pic j s ≡ s =
        ap (λ b. if b then deliver pic (low_word j s) (take_request j (low_word j s) s) else s)
          (quiet j (omega arith) (omega arith)) in
      ap (update_from pic rounds (j + 1)) first
      ∙ update_from-quiet rounds (j + 1) s (λ k le lt. quiet k (omega arith) (omega arith))

  deliver-send :
      (low : ℕ) (s : IoApic P)
      → delivery low ≢ 7
      → deliver pic low s ≡ send (u8 low) (message_type low) (is_level low) s
  unfolding deliver
  deliver-send low s internal = elim (equal-cases (delivery low) 1) [
    | inl lowest ↦ let one : (delivery low == 1) ≡ true = ground arith in rw one refl
    | inr other ↦
        let one : (delivery low == 1) ≡ false = ground arith in
        let seven : (delivery low == 7) ≡ false = ground arith in rw (one, seven) refl
  ]

  pub ioapic_update-sent :
      (i : ℕ) (s : IoApic P)
      → i < 24
      → IsAlone i s
      → asks i (low_word i s) s.irr ≡ true
      → delivery (low_word i s) ≢ 7
      → ioapic_update pic s ≡ sent i s
  unfolding ioapic_update update_from update_line
  ioapic_update-sent i s lt alone asking internal =
      let low = low_word i s in
      let rest = 23 - i in
      let split : 24 ≡ i + suc rest = omega arith in
      let start : 0 + i ≡ i = omega arith in
      let line : update_line pic i s ≡ sent i s =
        ap (λ b. if b then deliver pic low (take_request i low s) else s) asking
        ∙ deliver-send low (take_request i low s) internal in
      ap (λ n. update_from pic n 0 s) split
      ∙ update_from-add i (suc rest) 0 s
      ∙ ap (update_from pic (suc rest) (0 + i))
          (update_from-quiet i 0 s λ k le below. alone k (omega arith) λ e. absurd (omega arith))
      ∙ ap (λ n. update_from pic (suc rest) n s) start
      ∙ ap (update_from pic rest (i + 1)) line
      ∙ update_from-quiet rest (i + 1) (sent i s)
          (λ k le below. sent-IsAlone i s alone k (omega arith) λ e. absurd (omega arith))
