-- ===== src/Cpu/Flags.antt =====
-- The six arithmetic flags as an instruction leaves them, and what the architecture says they are
-- after an addition or a subtraction: the reference that the lazy flags are held to.
use cpu_ia32_cpp.Base.{
  ℕ, zero, suc, ◌+◌, ◌-◌, ◌*◌, ◌/◌, ◌%◌, ◌^◌, Option, some, ltb, leb, ◌==◌, int_of, Bool, ◌&&◌, not,
  Width, top, size, truncate,
}
use cpu_ia32_cpp.Cpu.State.{Cpu}
use cpu_ia32_cpp.Cpu.Eflags.{◌>>=◌, cpu_get_sf, cpu_get_pf, cpu_get_cf, cpu_get_of, cpu_get_af}

pub record Flags : Type 0 where
  pub cf : ℕ
  pub pf : ℕ
  pub af : ℕ
  pub zf : ℕ
  pub sf : ℕ
  pub of : ℕ

-- What the functions that read a flag give; `m_lr == 0` is the zero flag.
unfoldable pub flags : Cpu → Option Flags
flags c = do
  cf ← cpu_get_cf c
  af ← cpu_get_af c
  of ← cpu_get_of c
  some (record {
    cf = cf;
    pf = cpu_get_pf c;
    af = af;
    zf = int_of (c.lr == 0);
    sf = cpu_get_sf c;
    of = of;
  })

-- The number of ones among the `n` low bits.
abbrev pub ones_below : ℕ → ℕ → ℕ
ones_below zero x = 0
ones_below (suc n) x = x % 2 + ones_below n (x / 2)

-- PF: the low byte of the result has an even number of ones.
abbrev pub even_parity : ℕ → ℕ
even_parity res = int_of (ones_below 8 (res % 256) % 2 == 0)

-- The signed value of an operand, plus `2 ^ top`: signed order is the order of these.
abbrev pub biased : Width → ℕ → ℕ
biased w x = truncate w (x + 2 ^ top w)

-- The signed values of `a`, plus that of `b` and `carry`, has no room in the width.
abbrev pub signed_add_overflows : Width → ℕ → ℕ → ℕ → Bool
signed_add_overflows w a b carry =
    let total = biased w a + biased w b + carry in
    not (leb (2 ^ top w) total && ltb total (3 * 2 ^ top w))

-- So for the signed value of `a` less that of `b` and `borrow`; `size w` keeps the sum positive.
abbrev pub signed_sub_overflows : Width → ℕ → ℕ → ℕ → Bool
signed_sub_overflows w a b borrow =
    let total = biased w a + size w - biased w b - borrow in
    not (leb (2 ^ top w) total && ltb total (3 * 2 ^ top w))

-- The flags of a result, with those that it does not decide.
abbrev pub result_flags : Width → ℕ → ℕ → ℕ → ℕ → Flags
result_flags w res cf af of = record {
  cf = cf;
  pf = even_parity res;
  af = af;
  zf = int_of (res == 0);
  sf = int_of (leb (2 ^ top w) res);
  of = of;
}

abbrev pub sum_flags : Width → ℕ → ℕ → ℕ → Flags
sum_flags w a b carry =
    result_flags w (truncate w (a + b + carry)) (int_of (leb (size w) (a + b + carry)))
      (int_of (leb 16 (a % 16 + b % 16 + carry))) (int_of (signed_add_overflows w a b carry))

abbrev pub difference_flags : Width → ℕ → ℕ → ℕ → Flags
difference_flags w a b borrow =
    result_flags w (truncate w (a + size w - (b + borrow))) (int_of (ltb a (b + borrow)))
      (int_of (ltb (a % 16) (b % 16 + borrow))) (int_of (signed_sub_overflows w a b borrow))

-- `AND`, `OR` and `XOR` clear the carry, the overflow and (in this program) the auxiliary carry.
abbrev pub logic_flags : Width → ℕ → Flags
logic_flags w res = result_flags w res 0 0 0
