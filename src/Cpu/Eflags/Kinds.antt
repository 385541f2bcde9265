-- ===== src/Cpu/Eflags/Kinds.antt =====
-- The kind of operation in `m_laux`, and the range of the three lazy flags.
use cpu_ia32_cpp.Base.{
  ℕ, ◌<◌, bit_and, bit_xor, ◌≡◌, sym, ◌∙◌, inl, inr, none, some, Option-cases, arith,
}
use cpu_ia32_cpp.Base.Bits.{bit_and-one, bit_xor-lt}
use cpu_ia32_cpp.Cpu.State.{LazyOp, shld16, shld32, code, Cpu, lazy_op}
use cpu_ia32_cpp.Cpu.Eflags.{
  ◌>>=◌, bit_test, cpu_get_cf, cpu_get_of, cpu_get_af, cf_of, of_of, af_of,
}

-- A kind of operation is found again in `m_laux`.
pub lazy_op-code : (op : LazyOp) → lazy_op (bit_and (code op) 63) ≡ some op
lazy_op-code op = ground arith

module _ (op : LazyOp) (c : Cpu) (kind : lazy_op (bit_and c.laux 63) ≡ some op) where
  pub cpu_get_cf-eq : cpu_get_cf c ≡ cf_of op c
  unfolding cpu_get_cf
  cpu_get_cf-eq = rw kind

  pub cpu_get_of-eq : cpu_get_of c ≡ of_of op c
  unfolding cpu_get_of
  cpu_get_of-eq = rw kind

  pub cpu_get_af-eq : cpu_get_af c ≡ af_of op c
  unfolding cpu_get_af
  cpu_get_af-eq = rw kind

cf_of-lt : (op : LazyOp) (c : Cpu) (k : ℕ) → cf_of op c ≡ some k → k < 2
unfolding cf_of
cf_of-lt op c k e = grind (arith, bit_and-one)

cpu_get_cf-none : (c : Cpu) → lazy_op (bit_and c.laux 63) ≡ none → cpu_get_cf c ≡ none
unfolding cpu_get_cf
cpu_get_cf-none c missing = rw missing

-- CF is 0 or 1.
pub cpu_get_cf-lt : (c : Cpu) (k : ℕ) → cpu_get_cf c ≡ some k → k < 2
cpu_get_cf-lt c k read = elim (Option-cases (lazy_op (bit_and c.laux 63))) [
  | inl missing ↦ cc (cpu_get_cf-none c missing)
  | inr (op, found) ↦ cf_of-lt op c k (sym (cpu_get_cf-eq op c found) ∙ read)
]

-- The overflow after a double shift to the left is the carry against the top bit.
shld_flag-lt :
    (op : LazyOp) (c : Cpu) (k t : ℕ)
    → t < 2
    → (cf_of op c >>= λ cf. some (bit_xor cf t)) ≡ some k
    → k < 2
shld_flag-lt op c k t small e = elim (Option-cases (cf_of op c)) [
  | inl missing ↦ cc (rw missing at e)
  | inr (cf, read) ↦
      let out : some (bit_xor cf t) ≡ some k = rw read at e in
      ground (arith, bit_xor-lt 1 cf t (cf_of-lt op c cf read) small)
]

of_of-lt : (op : LazyOp) (c : Cpu) (k : ℕ) → of_of op c ≡ some k → k < 2
unfolding of_of
of_of-lt shld16 c k e = shld_flag-lt shld16 c k (bit_test c.lr 15) (omega (arith, bit_and-one)) e
of_of-lt shld32 c k e = shld_flag-lt shld32 c k (bit_test c.lr 31) (omega (arith, bit_and-one)) e
of_of-lt op c k e = grind (arith, bit_and-one)

cpu_get_of-none : (c : Cpu) → lazy_op (bit_and c.laux 63) ≡ none → cpu_get_of c ≡ none
unfolding cpu_get_of
cpu_get_of-none c missing = rw missing

-- OF is 0 or 1.
pub cpu_get_of-lt : (c : Cpu) (k : ℕ) → cpu_get_of c ≡ some k → k < 2
cpu_get_of-lt c k read = elim (Option-cases (lazy_op (bit_and c.laux 63))) [
  | inl missing ↦ cc (cpu_get_of-none c missing)
  | inr (op, found) ↦ of_of-lt op c k (sym (cpu_get_of-eq op c found) ∙ read)
]

af_of-lt : (op : LazyOp) (c : Cpu) (k : ℕ) → af_of op c ≡ some k → k < 2
unfolding af_of
af_of-lt op c k e = grind (arith, bit_and-one)

cpu_get_af-none : (c : Cpu) → lazy_op (bit_and c.laux 63) ≡ none → cpu_get_af c ≡ none
unfolding cpu_get_af
cpu_get_af-none c missing = rw missing

-- AF is 0 or 1.
pub cpu_get_af-lt : (c : Cpu) (k : ℕ) → cpu_get_af c ≡ some k → k < 2
cpu_get_af-lt c k read = elim (Option-cases (lazy_op (bit_and c.laux 63))) [
  | inl missing ↦ cc (cpu_get_af-none c missing)
  | inr (op, found) ↦ af_of-lt op c k (sym (cpu_get_af-eq op c found) ∙ read)
]
