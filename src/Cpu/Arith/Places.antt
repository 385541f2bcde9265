-- ===== src/Cpu/Arith/Places.antt =====
-- cpu/arith.cpp: what is read through a pointer to an operand after writes through pointers.
use cpu_ia32_cpp.Base.{
  ℕ, ◌<◌, ◌≡◌, arith, Bool, false, ◌==◌, if◌then◌else◌, Width, w8, w16, w32, size, truncate,
  truncate-lt,
}
use cpu_ia32_cpp.Cpu.State.{Cpu}
use cpu_ia32_cpp.Cpu.Arith.{
  accumulator, Place, elsewhere, low_part, second_byte, read_place, write_place,
}

pub read_place-lt : (w : Width) (p : Place w) (c : Cpu) → read_place w p c < size w
unfolding read_place
read_place-lt w (elsewhere v) c = truncate-lt w v
read_place-lt w (low_part i) c = truncate-lt w (c.reg32 i)
read_place-lt w8 (second_byte i) c = omega arith

-- Whether a pointer is to the accumulator of the width.
abbrev pub is_accumulator : (w : Width) → Place w → Bool
is_accumulator w (elsewhere v) = false
is_accumulator w (low_part i) = i == 0
is_accumulator w8 (second_byte i) = false

-- A write through a pointer is read back, and reaches the accumulator if the pointer is to it.
pub write_place-reads :
    (w : Width) (p : Place w) (v : ℕ) (c : Cpu)
    → let (p', after) = write_place w p v c in
      (read_place w p' after ≡ truncate w v)
      × (accumulator w after ≡ (if is_accumulator w p then truncate w v else accumulator w c))
unfolding read_place write_place
write_place-reads w8 (elsewhere u) v c = ground arith
write_place-reads w16 (elsewhere u) v c = ground arith
write_place-reads w32 (elsewhere u) v c = ground arith
write_place-reads w8 (low_part i) v c = ground arith
write_place-reads w16 (low_part i) v c = ground arith
write_place-reads w32 (low_part i) v c = ground arith
write_place-reads w8 (second_byte i) v c = ground arith

-- Whether two pointers are to the same place. Two values outside the registers are not; the second
-- pointer of XADD is to a register in all its callers.
abbrev pub is_same : (w : Width) → Place w → Place w → Bool
is_same w (elsewhere u) q = false
is_same w (low_part i) (low_part j) = i == j
is_same w (low_part i) q = false
is_same w8 (second_byte i) (second_byte j) = i == j
is_same w8 (second_byte i) q = false

-- What is read through a pointer that was written through before another one.
pub writes-reads :
    (w : Width) (p q : Place w) (v u : ℕ) (c : Cpu)
    → let (q', between) = write_place w q u c in
      let (p', after) = write_place w p v between in
      read_place w q' after ≡ (if is_same w p q then truncate w v else truncate w u)
unfolding read_place write_place
writes-reads w (elsewhere x) q v u c = (write_place-reads w q u c).0
writes-reads w8 (low_part i) (elsewhere y) v u c = ground arith
writes-reads w16 (low_part i) (elsewhere y) v u c = ground arith
writes-reads w32 (low_part i) (elsewhere y) v u c = ground arith
writes-reads w8 (low_part i) (low_part j) v u c = ground arith
writes-reads w16 (low_part i) (low_part j) v u c = ground arith
writes-reads w32 (low_part i) (low_part j) v u c = ground arith
writes-reads w8 (low_part i) (second_byte j) v u c = ground arith
writes-reads w8 (second_byte i) (elsewhere y) v u c = ground arith
writes-reads w8 (second_byte i) (low_part j) v u c = ground arith
writes-reads w8 (second_byte i) (second_byte j) v u c = ground arith
