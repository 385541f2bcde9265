-- ===== src/Dma/Bytes.antt =====
-- dma.cpp: a register written and read as two bytes.
use cpu_ia32_cpp.Base.{
  ℕ, ◌%◌, ◌^◌, ◌<◌, bit_and, bit_or, true, ◌==◌, if◌then◌else◌, u8, u16, ◌≡◌, refl, ap, ap₂, ◌∙◌,
  arith, ◌<<<◌, ◌>>>◌, ==_iff, Bool-cases, inl, inr,
}
use cpu_ia32_cpp.Base.Bits.{
  bit_and-zero, bit_and-mask, bit_or-zero, bit_or-mod, bit_and-mod, bit_or-lt, all_below,
  all_below_sound,
}
use cpu_ia32_cpp.Dma.FlipFlop.{dma_flipflop_write, dma_flipflop_read}
use cpu_ia32_cpp.Dma.State.{Dma}
use cpu_ia32_cpp.Dma.Ports.{offset_of, write_channel, write_address}

-- The two halves put together.
abbrev pub joined : ℕ → ℕ → ℕ
joined low high = bit_or (u8 low) (u8 high <<< 8)

zero_table : all_below 256 (λ x. bit_or 0 x == x) ≡ true
unfolding all_below
zero_table = refl

-- The first byte replaces the low half.
low_half : (orig low : ℕ) → bit_and (u16 (bit_or (bit_and orig 65280) (u8 low <<< 0))) 255 ≡ u8 low
low_half orig low =
    bit_and-mask 8 (u16 (bit_or (bit_and orig 65280) (u8 low <<< 0)))
    ∙ twice (bit_or (bit_and orig 65280) (u8 low <<< 0))
    ∙ bit_or-mod 8 (bit_and orig 65280) (u8 low <<< 0)
    ∙ ap₂ bit_or (bit_and-mod 8 orig 65280 ∙ bit_and-zero (orig % 2 ^ 8)) same
    ∙ (==_iff _ _).0
        (all_below_sound 256 (λ (x : ℕ). bit_or 0 x == x) (u8 low) zero_table (omega arith))
  where
    twice : (x : ℕ) → u16 x % 2 ^ 8 ≡ x % 2 ^ 8
    twice x = omega arith

    same : (u8 low <<< 0) % 2 ^ 8 ≡ u8 low
    same = omega arith

-- The second byte replaces the high half.
pub dma_flipflop_write-both :
    (orig low high : ℕ)
    → (dma_flipflop_write (dma_flipflop_write orig low 0 1).0 high 1 1).0 ≡ joined low high
unfolding dma_flipflop_write
dma_flipflop_write-both orig low high =
    ap (λ (x : ℕ). u16 (bit_or x (u8 high <<< 8))) (low_half orig low) ∙ omega (arith, fits)
  where
    fits : joined low high < 2 ^ 16
    fits = bit_or-lt 16 (u8 low) (u8 high <<< 8) (omega arith) (omega arith)

-- What the two reads return.
joined-low : (low high : ℕ) → u8 (joined low high) ≡ u8 low
joined-low low high =
    bit_or-mod 8 (u8 low) (u8 high <<< 8)
    ∙ ap (bit_or (u8 low % 2 ^ 8)) shifted
    ∙ bit_or-zero _
    ∙ omega arith
  where
    shifted : (u8 high <<< 8) % 2 ^ 8 ≡ 0
    shifted = omega arith

high_table : all_below 256 (λ x. all_below 256 (λ y. bit_or x (y <<< 8) >>> 8 == y)) ≡ true
unfolding all_below
high_table = refl

joined-high : (low high : ℕ) → u8 (joined low high >>> 8) ≡ u8 high
joined-high low high =
    ap u8 (
      (==_iff _ _).0 (
        all_below_sound 256 (λ (y : ℕ). bit_or (u8 low) (y <<< 8) >>> 8 == y) (u8 high)
          (all_below_sound 256 (λ x. all_below 256 (λ y. bit_or x (y <<< 8) >>> 8 == y)) (u8 low)
            high_table (omega arith))
          (omega arith)))
    ∙ omega arith

-- Two writes of a register from a cleared flip-flop and two reads after them: the reads return the
-- two bytes written, and the flip-flop is cleared after each pair.
dma_flipflop-roundtrip :
    (orig low high : ℕ)
    → let (half, first) = dma_flipflop_write orig low 0 1 in
      let (whole, second) = dma_flipflop_write half high first 1 in
      let (byte0, third) = dma_flipflop_read whole second 1 in
      let (byte1, fourth) = dma_flipflop_read whole third 1 in
      (byte0 ≡ u8 low) × (byte1 ≡ u8 high) × (second ≡ 0) × (fourth ≡ 0)
unfolding dma_flipflop_write dma_flipflop_read
dma_flipflop-roundtrip orig low high = (
  ap (λ (x : ℕ). u8 (x >>> 0)) (dma_flipflop_write-both orig low high)
      ∙ omega (arith, joined-low low high),
  ap (λ (x : ℕ). u8 (x >>> 8)) (dma_flipflop_write-both orig low high) ∙ joined-high low high,
  refl,
  refl,
)

module _ (port low high : ℕ) (dma : Dma) (fresh : dma.flipflop (offset_of port) ≡ 0) where
  abbrev pub written : Dma
  written = write_address port high (write_address port low dma)

  same : (i : ℕ) → (i == i) ≡ true
  same i = ground arith

  -- Two bytes written to an address port, from a cleared flip-flop: the start and the current address
  -- of the port's channel are the two bytes joined, the low one first, those of the other channels
  -- are kept, and the flip-flop is cleared.
  pub write_address-both :
      (written.flipflop (offset_of port) ≡ 0)
      × ((i : ℕ)
          → (written.start_addr i
              ≡ (if write_channel port == i then joined low high else dma.start_addr i))
            × (written.current_addr i
                ≡ (if write_channel port == i then joined low high else dma.current_addr i)))
  unfolding write_address dma_flipflop_write
  write_address-both = (
    rw (same (offset_of port), fresh) refl,
    λ i. elim (Bool-cases (write_channel port == i)) [
      | inl this ↦
          rw (this, same (write_channel port), same (offset_of port), fresh)
            (
              dma_flipflop_write-both (dma.start_addr (write_channel port)) low high,
              dma_flipflop_write-both (dma.current_addr (write_channel port)) low high,
            )
      | inr other ↦ rw other (refl, refl)
    ],
  )
