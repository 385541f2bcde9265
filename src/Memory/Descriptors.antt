-- ===== src/Memory/Descriptors.antt =====
-- cpu/seg.cpp: what the functions on a descriptor read, against the layout of its two words.
use cpu_ia32_cpp.Base.{
  ℕ, zero, suc, ◌+◌, ◌*◌, ◌/◌, ◌%◌, ◌^◌, ◌<◌, ◌≡◌, refl, ap, ap₂, ◌∙◌, ◌==◌, ◌!=◌, if◌then◌else◌,
  bit_and, bit_or, u32, arith, ◌<<<◌,
}
use cpu_ia32_cpp.Base.Bits.{bit_and-bits, bit_or-field, bit_or_comm, bit_and-mask}
use cpu_ia32_cpp.Memory.Segments.{
  SegDesc, access_of, type_of, dpl_of, cpu_seg_get_base, cpu_seg_get_limit,
}

-- The words of a descriptor: its base and its limit in their parts, the access byte, and four flags,
-- of which bit 3 says that the limit counts pages of 4096 bytes.
abbrev pub descriptor : ℕ → ℕ → ℕ → ℕ → SegDesc
descriptor base limit access flags = record {
  raw0 = limit % 2 ^ 16 + base % 2 ^ 16 * 2 ^ 16;
  raw1 =
      base / 2 ^ 16 % 2 ^ 8
      + access * 2 ^ 8
      + limit / 2 ^ 16 * 2 ^ 16
      + flags * 2 ^ 20
      + base / 2 ^ 24 * 2 ^ 24;
}

-- The last step of `cpu_seg_get_limit`, from the flag and the 20 bits.
abbrev select_limit : ℕ → ℕ → ℕ
select_limit pages limit = if pages != 0 then bit_or (u32 (limit <<< 12)) 0xfff else limit

scaled : (limit : ℕ) → limit < 2 ^ 20 → bit_or (u32 (limit <<< 12)) 0xfff ≡ limit * 4096 + 4095
scaled limit lt =
    let whole : u32 (limit <<< 12) ≡ limit * 2 ^ 12 = omega arith in
    bit_or_comm _ _
    ∙ ap (bit_or 0xfff) whole
    ∙ bit_or-field 12 0xfff limit (omega arith)
    ∙ omega arith

select_limit-pages :
    (pages limit : ℕ)
    → pages < 2
    → limit < 2 ^ 20
    → select_limit (pages * 2 ^ 15) limit ≡ (if pages == 1 then limit * 4096 + 4095 else limit)
select_limit-pages zero limit lt fits = refl
select_limit-pages (suc zero) limit lt fits = scaled limit fits
select_limit-pages (suc (suc pages)) limit lt fits = absurd (omega arith)

module _ (base limit access flags : ℕ) (base_fits : base < 2 ^ 32) (limit_fits : limit < 2 ^ 20)
    (access_fits : access < 2 ^ 8) (flags_fit : flags < 2 ^ 4) where
  base_middle :
      bit_and (u32 ((descriptor base limit access flags).raw1 <<< 16)) 0xff_0000
      ≡ base / 2 ^ 16 % 2 ^ 8 * 2 ^ 16
  base_middle = bit_and-bits 8 16 _ ∙ omega arith

  base_high :
      bit_and ((descriptor base limit access flags).raw1) 0xff00_0000 ≡ base / 2 ^ 24 * 2 ^ 24
  base_high = bit_and-bits 8 24 _ ∙ omega arith

  get_base : cpu_seg_get_base (descriptor base limit access flags) ≡ base
  unfolding cpu_seg_get_base
  get_base =
      let low : (descriptor base limit access flags).raw0 / 2 ^ 16 ≡ base % 2 ^ 16 = omega arith in
      let high =
        ap₂ bit_or base_middle base_high
        ∙ bit_or-field 24 (base / 2 ^ 16 % 2 ^ 8 * 2 ^ 16) (base / 2 ^ 24) (omega arith) in
      ap₂ bit_or low high
      ∙ ap (bit_or (base % 2 ^ 16)) (omega arith)
      ∙ bit_or-field 16 (base % 2 ^ 16) (base / 2 ^ 16) (omega arith)
      ∙ omega arith

  limit_of :
      bit_or
        (bit_and ((descriptor base limit access flags).raw0) 0xffff)
        (bit_and ((descriptor base limit access flags).raw1) 0xf_0000)
      ≡ limit
  limit_of =
      ap₂ bit_or (bit_and-mask 16 _) (bit_and-bits 4 16 _)
      ∙ ap₂ (λ low high. bit_or low (high * 2 ^ 16)) low_part high_part
      ∙ bit_or-field 16 (limit % 2 ^ 16) (limit / 2 ^ 16) (omega arith)
      ∙ omega arith
    where
      low_part : (descriptor base limit access flags).raw0 % 2 ^ 16 ≡ limit % 2 ^ 16
      low_part = omega arith

      high_part : (descriptor base limit access flags).raw1 / 2 ^ 16 % 2 ^ 4 ≡ limit / 2 ^ 16
      high_part = omega arith

  -- Bit 15 of the access word is the flag for pages.
  pages_bit : bit_and (access_of (descriptor base limit access flags)) 0x8000 ≡ flags / 8 * 2 ^ 15
  pages_bit =
      ap (λ (word : ℕ). bit_and word 0x8000) (bit_and-mask 16 _) ∙ bit_and-bits 1 15 _ ∙ omega arith

  get_limit :
      cpu_seg_get_limit (descriptor base limit access flags)
      ≡ (if flags / 8 == 1 then limit * 4096 + 4095 else limit)
  unfolding cpu_seg_get_limit
  get_limit =
      ap₂ select_limit pages_bit limit_of
      ∙ select_limit-pages (flags / 8) limit (omega arith) limit_fits

  get_type : type_of (access_of (descriptor base limit access flags)) ≡ access % 2 ^ 5
  get_type = bit_and-mask 5 _ ∙ ap (λ (word : ℕ). word % 2 ^ 5) (bit_and-mask 16 _) ∙ omega arith

  get_dpl : dpl_of (access_of (descriptor base limit access flags)) ≡ access / 2 ^ 5 % 4
  get_dpl =
      bit_and-mask 2 _ ∙ ap (λ (word : ℕ). word / 2 ^ 5 % 2 ^ 2) (bit_and-mask 16 _) ∙ omega arith

  -- What is read from a descriptor is what was laid out in it, for a base of 32 bits, a limit of 20, an
  -- access byte and four flags: `cpu_seg_get_base` gives the base, `cpu_seg_get_limit` the limit, or in
  -- pages the last byte of the last page if bit 3 of the flags is set, and the type and the privilege
  -- level of the access word are those of the byte.
  pub descriptor-roundtrip :
      (cpu_seg_get_base (descriptor base limit access flags) ≡ base)
      × (cpu_seg_get_limit (descriptor base limit access flags)
          ≡ (if flags / 8 == 1 then limit * 4096 + 4095 else limit))
      × (type_of (access_of (descriptor base limit access flags)) ≡ access % 2 ^ 5)
      × (dpl_of (access_of (descriptor base limit access flags)) ≡ access / 2 ^ 5 % 4)
  descriptor-roundtrip = (get_base, get_limit, get_type, get_dpl)
