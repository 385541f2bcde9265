-- ===== src/Cpu/Eflags.antt =====
-- cpu/eflags.cpp. The flags are lazy: an instruction leaves its result `m_lr`, its operands and
-- the kind of operation in `m_laux`, and a flag is computed when something reads it.
-- `none` is a run that calls `abort()` or shifts a `uint32_t` by 32 or more.
pub mod Kinds
pub mod Marks
pub mod Setters
pub mod Word
pub mod RoundTrip
pub mod Conditions
use cpu_ia32_cpp.Base.{
  ℕ, zero, suc, ◌-◌, ◌*◌, ◌^◌, bit_and, bit_or, bit_xor, Option, none, some, ltb, leb, ◌==◌, ◌!=◌,
  int_of, if◌then◌else◌, u32, sub32, add32, not32, ◌<<<◌, ◌>>>◌, shift_right, Width, w8, w16, w32,
  bits, top, size,
}
use cpu_ia32_cpp.Cpu.State.{
  LazyOp, add, adc, sbb, sub, shl, shr, sar, inc, dec, bit, shld16, shld32, shrd16, shrd32, mul,
  full_update, lazy_op, code, Cpu, cpu_request_fast_return,
}

infixl 5 ◌>>=◌
abbrev pub ◌>>=◌ {ℓ κ} : {A : Type ℓ} {B : Type κ} → Option A → (A → Option B) → Option B
none >>= k = none
some a >>= k = k a

-- `x >> k & 1`
abbrev pub bit_test : ℕ → ℕ → ℕ
bit_test x k = bit_and (x >>> k) 1

-- The switch on `m_laux & 63` finds its case, or aborts.
abbrev pub dispatch : Cpu → (LazyOp → Option ℕ) → Option ℕ
dispatch c f = lazy_op (bit_and c.laux 63) >>= f

unfoldable pub cpu_get_sf : Cpu → ℕ
cpu_get_sf c = bit_xor c.lr c.laux >>> 31

unfoldable pub cpu_set_sf : ℕ → Cpu → Cpu
cpu_set_sf set c = record c {
  laux =
      bit_or (bit_and c.laux (not32 0x8000_0000))
        (bit_and (bit_xor c.lr (u32 (set <<< 31))) 0x8000_0000);
}

unfoldable pub cpu_get_pf : Cpu → ℕ
cpu_get_pf c =
    let v = bit_and (bit_xor c.lr (bit_and c.laux 0x80)) 0xff in
    let folded = bit_and (bit_xor v (v >>> 4)) 0x0f in bit_test 0x9669 folded

unfoldable pub cpu_set_pf : ℕ → Cpu → Cpu
unfolding cpu_get_pf
cpu_set_pf set c = record c {
  laux = bit_or (bit_and c.laux (not32 0x80)) (u32 (bit_xor (cpu_get_pf c) set <<< 7));
}

-- The cases of `cpu_get_cf`. A shift count that wraps below 0 is a shift by 32 or more.
unfoldable pub cf_of : LazyOp → Cpu → Option ℕ
cf_of mul c = some (int_of (c.lop1 != c.lop2))
cf_of (add w8) c = some (int_of (ltb (bit_and c.lr 0xff) (bit_and c.lop2 0xff)))
cf_of (add w16) c = some (int_of (ltb (bit_and c.lr 0xffff) (bit_and c.lop2 0xffff)))
cf_of (add w32) c = some (int_of (ltb c.lr c.lop2))
cf_of (sub w8) c = some (int_of (ltb (bit_and (add32 c.lop2 c.lr) 0xff) c.lop2))
cf_of (sub w16) c = some (int_of (ltb (bit_and (add32 c.lop2 c.lr) 0xffff) c.lop2))
cf_of (sub w32) c = some (int_of (ltb (add32 c.lop2 c.lr) c.lop2))
cf_of (adc w) c =
    some (bit_test (bit_xor c.lop1 (bit_and (bit_xor c.lop1 c.lop2) (bit_xor c.lop2 c.lr))) (top w))
cf_of (sbb w) c =
    some (bit_test (bit_xor c.lr (bit_and (bit_xor c.lr c.lop2) (bit_xor c.lop1 c.lop2))) (top w))
cf_of (shr w) c = do some (bit_and (← shift_right c.lop1 (sub32 c.lop2 1)) 1)
cf_of (sar w) c = do some (bit_and (← shift_right c.lop1 (sub32 c.lop2 1)) 1)
cf_of (shl w) c = do some (bit_and (← shift_right c.lop1 (sub32 (bits w) c.lop2)) 1)
cf_of shld16 c =
    if leb c.lop2 16
    then (do some (bit_and (← shift_right c.lop1 (sub32 16 c.lop2)) 1))
    else (do some (bit_and (← shift_right c.lop1 (sub32 32 c.lop2)) 1))
cf_of shld32 c = do some (bit_and (← shift_right c.lop1 (sub32 32 c.lop2)) 1)
cf_of shrd16 c = do some (bit_and (← shift_right c.lop1 (sub32 c.lop2 1)) 1)
cf_of shrd32 c = do some (bit_and (← shift_right c.lop1 (sub32 c.lop2 1)) 1)
cf_of (inc w) c = some (bit_and c.eflags 1)
cf_of (dec w) c = some (bit_and c.eflags 1)
cf_of full_update c = some (bit_and c.eflags 1)
cf_of bit c = some 0

unfoldable pub cpu_get_cf : Cpu → Option ℕ
cpu_get_cf c = dispatch c (λ op. cf_of op c)

-- All bits of a width.
abbrev ones : Width → ℕ
ones w = size w - 1

abbrev sign_bit : Width → ℕ
sign_bit w = 2 ^ top w

-- The cases of `cpu_get_of`.
unfoldable pub of_of : LazyOp → Cpu → Option ℕ
of_of mul c = some (int_of (c.lop1 != c.lop2))
of_of bit c = some 0
of_of (sar w) c = some 0
of_of (add w) c =
    let lop1 = sub32 c.lr c.lop2 in
    some (bit_test (bit_and (bit_xor (bit_xor lop1 c.lop2) (ones w)) (bit_xor c.lop2 c.lr)) (top w))
of_of (sub w) c =
    let lop1 = add32 c.lop2 c.lr in
    some (bit_test (bit_and (bit_xor lop1 c.lop2) (bit_xor lop1 c.lr)) (top w))
of_of (adc w) c = some (bit_test (bit_and (bit_xor c.lop1 c.lr) (bit_xor c.lop2 c.lr)) (top w))
of_of (sbb w) c = some (bit_test (bit_and (bit_xor c.lr c.lop1) (bit_xor c.lop2 c.lop1)) (top w))
of_of (shl w) c = do
  some (bit_and (bit_xor (c.lr >>> top w) (← shift_right c.lop1 (sub32 (bits w) c.lop2))) 1)
of_of (shr w) c = some (bit_test (bit_xor (u32 (c.lr <<< 1)) c.lr) (top w))
of_of shld16 c = do some (bit_xor (← cf_of shld16 c) (bit_test c.lr 15))
of_of shld32 c = do some (bit_xor (← cf_of shld32 c) (bit_test c.lr 31))
of_of shrd16 c = some (bit_test (bit_xor (u32 (c.lr <<< 1)) c.lr) 15)
of_of shrd32 c = some (bit_test (bit_xor (u32 (c.lr <<< 1)) c.lr) 31)
of_of (inc w) c = some (int_of (bit_and c.lr (ones w) == sign_bit w))
of_of (dec w) c = some (int_of (bit_and c.lr (ones w) == sign_bit w - 1))
of_of full_update c = some (bit_test c.eflags 11)

unfoldable pub cpu_get_of : Cpu → Option ℕ
cpu_get_of c = dispatch c (λ op. of_of op c)

-- The cases of `cpu_get_af`.
unfoldable pub af_of : LazyOp → Cpu → Option ℕ
af_of bit c = some 0
af_of mul c = some 0
af_of (shl w) c = some 0
af_of (shr w) c = some 0
af_of shld16 c = some 0
af_of shld32 c = some 0
af_of shrd16 c = some 0
af_of shrd32 c = some 0
af_of (sar w) c = some 0
af_of (add w) c = some (bit_test (bit_xor (bit_xor (sub32 c.lr c.lop2) c.lop2) c.lr) 4)
af_of (sub w) c = some (bit_test (bit_xor (bit_xor (add32 c.lr c.lop2) c.lop2) c.lr) 4)
af_of (adc w) c = some (bit_test (bit_xor (bit_xor c.lop1 c.lop2) c.lr) 4)
af_of (sbb w) c = some (bit_test (bit_xor (bit_xor c.lop1 c.lop2) c.lr) 4)
af_of (inc w) c = some (int_of (bit_and c.lr 15 == 0))
af_of (dec w) c = some (int_of (bit_and c.lr 15 == 15))
af_of full_update c = some (bit_test c.eflags 4)

unfoldable pub cpu_get_af : Cpu → Option ℕ
cpu_get_af c = dispatch c (λ op. af_of op c)

abbrev pub oac_mask : ℕ
oac_mask = 0x811

-- Computes the three lazy flags into `m_eflags`. (The value that it returns is not used anywhere.)
unfoldable pub cpu_get_oac : Cpu → Option Cpu
unfolding cpu_get_of cpu_get_af cpu_get_cf
cpu_get_oac c = do
  of ← cpu_get_of c
  af ← cpu_get_af c
  cf ← cpu_get_cf c
  let eflags = bit_or (bit_or (of * 0x800) (af * 0x10)) (cf * 0x01)
  some (record c { eflags = bit_or (bit_and c.eflags (not32 oac_mask)) (bit_and eflags oac_mask) })

-- The low six bits of `m_laux` say that the flags stand in `m_eflags`.
abbrev pub mark_full : ℕ → ℕ
mark_full laux = bit_or (bit_and laux (not32 63)) (code full_update)

abbrev pub put_flag : ℕ → ℕ → Cpu → Cpu
put_flag flag set c = record c {
  eflags = bit_or (bit_and c.eflags (not32 flag)) (set * flag);
  laux = mark_full c.laux;
}

unfoldable pub cpu_set_of : ℕ → Cpu → Option Cpu
unfolding cpu_get_oac
cpu_set_of set c = do some (put_flag 0x800 set (← cpu_get_oac c))

unfoldable pub cpu_set_af : ℕ → Cpu → Option Cpu
unfolding cpu_get_oac
cpu_set_af set c = do some (put_flag 0x10 set (← cpu_get_oac c))

unfoldable pub cpu_set_cf : ℕ → Cpu → Option Cpu
unfolding cpu_get_oac
cpu_set_cf set c = do some (put_flag 0x01 set (← cpu_get_oac c))

-- `EFLAGS_OF | EFLAGS_SF | EFLAGS_ZF | EFLAGS_AF | EFLAGS_PF | EFLAGS_CF`
abbrev pub arith_mask : ℕ
arith_mask = 0x8d5

unfoldable pub cpu_get_eflags : Cpu → Option ℕ
unfolding cpu_get_of cpu_get_af cpu_get_cf cpu_get_sf cpu_get_pf
cpu_get_eflags c = do
  let rest = bit_and c.eflags (not32 arith_mask)
  of ← cpu_get_of c
  let with_of = bit_or rest (of * 0x800)
  let with_sf = bit_or with_of (cpu_get_sf c * 0x80)
  let with_zf = bit_or with_sf (int_of (c.lr == 0) * 0x40)
  af ← cpu_get_af c
  let with_af = bit_or with_zf (af * 0x10)
  let with_pf = bit_or with_af (cpu_get_pf c * 0x04)
  cf ← cpu_get_cf c
  some (bit_or with_pf (cf * 0x01))

-- The flags that `cpu_set_eflags` takes from its argument; bits 1, 3, 5, 15 and 22 up stay.
abbrev pub settable : ℕ
settable = 0x3f7fd5

unfoldable pub cpu_set_eflags : ℕ → Cpu → Cpu
unfolding cpu_request_fast_return
cpu_set_eflags eflags c =
    let merged = bit_or (bit_and c.eflags (not32 settable)) (bit_and eflags settable) in
    let lr = int_of (bit_and eflags 0x40 == 0) in
    let pf = bit_test merged 2 in
    let sf = bit_and eflags 0x80 in
    let laux = bit_or (bit_or (code full_update) (sf <<< 24)) (bit_xor (bit_xor pf lr) 1 <<< 7) in
    let c' = record c { eflags = merged; lr = lr; laux = laux } in
    if bit_and (bit_xor c.eflags merged) 0x200 != 0 then cpu_request_fast_return c' else c'

unfoldable pub cpu_set_zf : ℕ → Cpu → Option Cpu
unfolding cpu_get_eflags cpu_set_eflags
cpu_set_zf set c = do
  some (cpu_set_eflags (bit_or (bit_and (← cpu_get_eflags c) (not32 0x40)) (set * 0x40)) c)

-- The eight tests of `cpu_cond`; a flag is 0 or 1. `||` does not read the carry if it need not.
abbrev pub condition : ℕ → Cpu → Option ℕ
condition zero c = cpu_get_of c
condition (suc zero) c = cpu_get_cf c
condition (suc (suc zero)) c = some (int_of (c.lr == 0))
condition (suc (suc (suc zero))) c =
    if c.lr == 0 then some 1 else (do some (int_of ((← cpu_get_cf c) != 0)))
condition (suc (suc (suc (suc zero)))) c = some (cpu_get_sf c)
condition (suc (suc (suc (suc (suc zero))))) c = some (cpu_get_pf c)
condition (suc (suc (suc (suc (suc (suc zero)))))) c = do
  some (int_of (cpu_get_sf c != (← cpu_get_of c)))
condition _ c = if c.lr == 0 then some 1 else (do some (int_of (cpu_get_sf c != (← cpu_get_of c))))

unfoldable pub cpu_cond : ℕ → Cpu → Option ℕ
unfolding cpu_get_of cpu_get_cf cpu_get_sf cpu_get_pf
cpu_cond val c = do cond ← condition (bit_and (val >>> 1) 7) c; some (bit_xor cond (bit_and val 1))
