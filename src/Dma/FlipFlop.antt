-- ===== src/Dma/FlipFlop.antt =====
-- dma.cpp: the 16 bit registers, which the processor writes and reads a byte at a time.
use cpu_ia32_cpp.Base.{ℕ, bit_and, bit_or, bit_xor, u8, u16, ◌<<<◌, ◌>>>◌}

-- The register after the write, and the flip-flop.
unfoldable pub dma_flipflop_write : ℕ → ℕ → ℕ → ℕ → ℕ × ℕ
dma_flipflop_write orig value flipflop modify =
    let shift = flipflop <<< 3 in
    (
      u16 (bit_or (bit_and orig (0xff <<< bit_xor shift 8)) (u8 value <<< shift)),
      bit_xor flipflop modify,
    )

-- The byte read, and the flip-flop.
unfoldable pub dma_flipflop_read : ℕ → ℕ → ℕ → ℕ × ℕ
dma_flipflop_read value flipflop modify = (u8 (value >>> (flipflop <<< 3)), bit_xor flipflop modify)
