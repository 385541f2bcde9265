-- ===== src/Base/Bits.antt =====
-- Bits and masks of machine words.
pub mod Each
pub mod Fields
pub mod Masks
pub mod Tables
unfoldable pub use Each.{bit_at}
pub use Each.{
  bit_at-lt, bit_at-zero, bit_at-suc, zero-bit_at, bit_at-bit_and, bit_at-bit_or, bit_at-bit_xor,
  bits_ext,
}
pub use Masks.*
unfoldable pub use Tables.{all_below}
pub use Tables.{all_below_sound}
pub use Fields.*
