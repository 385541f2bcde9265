-- ===== src/IoApic/Sends/Words.antt =====
-- ioapic.cpp: the bits of the lines, and the words of the table with the marks of a raised line.
use cpu_ia32_cpp.Base.{
  ℕ, ◌*◌, ◌%◌, ◌^◌, ◌<◌, ◌≡◌, refl, sym, ap, ◌∙◌, ◌≢◌, inl, inr, arith, bit_and, bit_or, Bool, true,
  false, ◌&&◌, ◌||◌, ◌==◌, ◌!=◌, if◌then◌else◌, equal-cases, ==_true, not32, u8, ◌<<<◌,
}
use cpu_ia32_cpp.Base.Bits.{
  all_below, all_below_sound, bit_and_assoc, bit_and_comm, bit_and-zero, bit_and-bit_or,
  bit_or-zero, bit_and-field, bit_or-mod, bits_ext, bit_at-bit_and, bit_at-bit_or,
}
use cpu_ia32_cpp.IoApic.State.{
  Message, interrupt_masked, remote_irr, pin_polarity, is_level, delivery, asks,
}

-- The bits of two lines.
bits_table :
    all_below 24 (λ i. all_below 24 (λ k. i == k || bit_and (1 <<< i) (1 <<< k) == 0)) ≡ true
unfolding all_below
bits_table = refl

pub other_bit : (i k : ℕ) → i < 24 → k < 24 → i ≢ k → bit_and (1 <<< i) (1 <<< k) ≡ 0
other_bit i k lt lt' ne =
    let row =
      all_below_sound 24 (λ (n : ℕ). all_below 24 λ k. n == k || bit_and (1 <<< n) (1 <<< k) == 0) i
        bits_table lt in
    let cell =
      all_below_sound 24 (λ (n : ℕ). i == n || bit_and (1 <<< i) (1 <<< n) == 0) k row lt' in
    ground (arith, ne, cell)

cleared_table : all_below 24 (λ n. bit_and (not32 (1 <<< n)) (1 <<< n) == 0) ≡ true
unfolding all_below
cleared_table = refl

own_table : all_below 24 (λ i. bit_and (1 <<< i) (1 <<< i) == 1 <<< i) ≡ true
unfolding all_below
own_table = refl

pub own_bit : (i : ℕ) → i < 24 → bit_and (1 <<< i) (1 <<< i) ≡ 1 <<< i
own_bit i lt =
    ==_true _ _
      (all_below_sound 24 (λ (n : ℕ). bit_and (1 <<< n) (1 <<< n) == 1 <<< n) i own_table lt)

-- A field that the marks do not touch.
pub bit_or-apart :
    (low mark field : ℕ)
    → bit_and mark field ≡ 0
    → bit_and (bit_or low mark) field ≡ bit_and low field
bit_or-apart low mark field apart =
    bit_and-bit_or low mark field ∙ ap (bit_or (bit_and low field)) apart ∙ bit_or-zero _

-- The word with marks has the same vector, type, mode and mask.
pub record IsMarked (low low' : ℕ) : Type 0 where
  pub same_vector : u8 low' ≡ u8 low
  pub same_type : delivery low' ≡ delivery low
  pub same_level : bit_and low' (1 <<< 15) ≡ bit_and low (1 <<< 15)
  pub same_mask : bit_and low' interrupt_masked ≡ bit_and low interrupt_masked

pub type_field : (low : ℕ) → bit_and low 0x700 ≡ delivery low * 2 ^ 8
type_field low = bit_and-field 8 low 7

and_false : (b : Bool) → (b && false) ≡ false
and_false true = refl
and_false false = refl

-- A line that does not ask does not ask with fewer requests, or with one of another line more.
pub asks-less :
    (k low irr irr' : ℕ)
    → (bit_and irr (1 <<< k) ≡ 0 → bit_and irr' (1 <<< k) ≡ 0)
    → asks k low irr ≡ false
    → asks k low irr' ≡ false
asks-less k low irr irr' less quiet = elim (equal-cases (bit_and irr (1 <<< k)) 0) [
  | inl none ↦
      ap (λ n. bit_and low interrupt_masked == 0 && n != 0) (less none)
      ∙ and_false (bit_and low interrupt_masked == 0)
  | inr some ↦
      let masked : (bit_and low interrupt_masked == 0) ≡ false = ground arith in
      ap (λ b. b && bit_and irr' (1 <<< k) != 0) masked
]

pub fewer : (irr mask bit : ℕ) → bit_and irr bit ≡ 0 → bit_and (bit_and irr mask) bit ≡ 0
fewer irr mask bit none =
    bit_and_assoc irr mask bit
    ∙ ap (bit_and irr) (bit_and_comm mask bit)
    ∙ sym (bit_and_assoc irr bit mask)
    ∙ ap (λ n. bit_and n mask) none
    ∙ bit_and_comm 0 mask
    ∙ bit_and-zero mask

-- The type that a message carries.
abbrev pub message_type : ℕ → ℕ
message_type low = if delivery low == 1 then 3 else delivery low

pub nonzero_table : all_below 24 (λ n. 1 <<< n != 0) ≡ true
unfolding all_below
nonzero_table = refl

pub absorb : (a b : ℕ) → bit_and (bit_or a b) b ≡ b
absorb a b = bits_ext _ _ λ k. rw (bit_at-bit_and, bit_at-bit_or) (ground arith)

cleared_own : (irr i : ℕ) → i < 24 → bit_and (bit_and irr (not32 (1 <<< i))) (1 <<< i) ≡ 0
cleared_own irr i lt =
    bit_and_assoc irr (not32 (1 <<< i)) (1 <<< i)
    ∙ ap (bit_and irr) (
        ==_true _ _ (
          all_below_sound 24 (λ (n : ℕ). bit_and (not32 (1 <<< n)) (1 <<< n) == 0) i cleared_table
            lt))
    ∙ bit_and-zero irr

-- What a round leaves of the request.
pub left_request :
    (level : Bool) (irr i : ℕ)
    → i < 24
    → bit_and irr (1 <<< i) ≡ 1 <<< i
    → bit_and (if level then irr else bit_and irr (not32 (1 <<< i))) (1 <<< i)
      ≡ (if level then 1 <<< i else 0)
left_request true irr i lt own = own
left_request false irr i lt own = cleared_own irr i lt

abbrev pub message : ℕ → ℕ → Bool → Message
message vector type level = record { vector = vector; type = type; trigger_mode = level }

-- A word with other marks makes the same message.
pub message-marks :
    (low low' : ℕ)
    → IsMarked low low'
    → message (u8 low') (message_type low') (is_level low')
      ≡ message (u8 low) (message_type low) (is_level low)
message-marks low low' marks =
    ap (λ v. message v (message_type low') (is_level low')) marks.same_vector
    ∙ ap (λ n. message (u8 low) (if n == 1 then 3 else n) (is_level low')) marks.same_type
    ∙ ap (λ n. message (u8 low) (message_type low) (n != 0)) marks.same_level

-- The marks of a raised line: the polarity, and for a level the bit that waits for the end.
marks-IsMarked :
    (low mark : ℕ)
    → mark % 2 ^ 8 ≡ 0
    → bit_and mark 0x700 ≡ 0
    → bit_and mark (1 <<< 15) ≡ 0
    → bit_and mark interrupt_masked ≡ 0
    → IsMarked low (bit_or low mark)
marks-IsMarked low mark vector type level mask = record {
  same_vector = bit_or-mod 8 low mark ∙ ap (bit_or (u8 low)) vector ∙ bit_or-zero (u8 low);
  same_type =
      omega (arith, type_field (bit_or low mark), type_field low, bit_or-apart low mark 0x700 type);
  same_level = bit_or-apart low mark (1 <<< 15) level;
  same_mask = bit_or-apart low mark interrupt_masked mask;
}

pub polarity-IsMarked : (low : ℕ) → IsMarked low (bit_or low pin_polarity)
polarity-IsMarked low = marks-IsMarked low pin_polarity refl refl refl refl

pub remote-IsMarked : (low : ℕ) → IsMarked low (bit_or low remote_irr)
remote-IsMarked low = marks-IsMarked low remote_irr refl refl refl refl

pub IsMarked-trans : (a b c : ℕ) → IsMarked a b → IsMarked b c → IsMarked a c
IsMarked-trans a b c first second = record {
  same_vector = second.same_vector ∙ first.same_vector;
  same_type = second.same_type ∙ first.same_type;
  same_level = second.same_level ∙ first.same_level;
  same_mask = second.same_mask ∙ first.same_mask;
}
