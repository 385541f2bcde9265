-- ===== src/Cpu/State.antt =====
-- The part of `class CPU` (cpu/cpu.h) that the arithmetic instructions read and write.
use cpu_ia32_cpp.Base.{
  ℕ, ◌+◌, ◌-◌, ◌^◌, ◌<◌, Option, List, [], ◌∷◌, ltb, if◌then◌else◌, u64, sub32, Width, w8, w16, w32,
  get_elem?,
}

-- The operation that the lazy flags stand for: the enum `ADD8 ... EFLAGS_FULL_UPDATE`, where the
-- three constants of one operation on 8, 16 and 32 bits are one constructor with a width.
pub data LazyOp : Type 0 where
  add adc sbb sub shl shr sar inc dec : Width → LazyOp
  bit shld16 shld32 shrd16 shrd32 mul full_update : LazyOp

-- The constants of the enum in order; a constant is its position.
abbrev pub lazy_ops : List LazyOp
lazy_ops =
    add w8
    ∷ add w16
    ∷ add w32
    ∷ bit
    ∷ adc w8
    ∷ adc w16
    ∷ adc w32
    ∷ sbb w8
    ∷ sbb w16
    ∷ sbb w32
    ∷ sub w8
    ∷ sub w16
    ∷ sub w32
    ∷ shl w8
    ∷ shl w16
    ∷ shl w32
    ∷ shr w8
    ∷ shr w16
    ∷ shr w32
    ∷ sar w8
    ∷ sar w16
    ∷ sar w32
    ∷ shld16
    ∷ shld32
    ∷ shrd16
    ∷ shrd32
    ∷ mul
    ∷ inc w8
    ∷ inc w16
    ∷ inc w32
    ∷ dec w8
    ∷ dec w16
    ∷ dec w32
    ∷ full_update
    ∷ []

-- `none` is a value that the enum does not have.
abbrev pub lazy_op : ℕ → Option LazyOp
lazy_op n = get_elem? lazy_ops n

-- The three constants of an operation stand side by side.
abbrev at_width : ℕ → Width → ℕ
at_width base w8 = base
at_width base w16 = base + 1
at_width base w32 = base + 2

-- The number of a constant.
abbrev pub code : LazyOp → ℕ
code (add w) = at_width 0 w
code bit = 3
code (adc w) = at_width 4 w
code (sbb w) = at_width 7 w
code (sub w) = at_width 10 w
code (shl w) = at_width 13 w
code (shr w) = at_width 16 w
code (sar w) = at_width 19 w
code shld16 = 22
code shld32 = 23
code shrd16 = 24
code shrd32 = 25
code mul = 26
code (inc w) = at_width 27 w
code (dec w) = at_width 30 w
code full_update = 33

-- The fields carry the `m_` names of the class. `reg32` is the union of the register files:
-- `m_reg8` and `m_reg16` are its bytes and halves, lowest first.
pub record Cpu : Type 0 where
  pub lr : ℕ
  pub lop1 : ℕ
  pub lop2 : ℕ
  pub laux : ℕ
  pub eflags : ℕ
  pub reg32 : ℕ → ℕ
  pub cycles : ℕ
  pub refill_counter : ℕ
  pub cycles_to_run : ℕ
  pub cycle_offset : ℕ

-- Every flag word fits a `uint32_t`.
pub record IsWords (c : Cpu) : Type 0 where
  pub lr_fits : c.lr < 2 ^ 32
  pub lop1_fits : c.lop1 < 2 ^ 32
  pub lop2_fits : c.lop2 < 2 ^ 32
  pub laux_fits : c.laux < 2 ^ 32
  pub eflags_fits : c.eflags < 2 ^ 32

-- The `int` difference is converted to `uint64_t` with its sign.
unfoldable pub cpu_get_cycles : Cpu → ℕ
cpu_get_cycles c =
    let difference = sub32 c.cycle_offset c.cycles_to_run in
    if ltb difference (2 ^ 31)
    then u64 (c.cycles + difference)
    else u64 (c.cycles + difference + (2 ^ 64 - 2 ^ 32))

-- The argument `reason` is not used.
unfoldable pub cpu_request_fast_return : Cpu → Cpu
unfolding cpu_get_cycles
cpu_request_fast_return c = record c {
  cycles = u64 (c.cycles + (cpu_get_cycles c + 2 ^ 64 - c.cycles));
  refill_counter = sub32 c.cycles_to_run 1;
  cycles_to_run = 1;
  cycle_offset = 1;
}
