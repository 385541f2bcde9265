-- ===== src/Cpu/Tests.antt =====
-- The theorems about the processor on one machine state, and runs of its instructions.
use cpu_ia32_cpp.Base.{
  ◌+◌, ◌-◌, ◌*◌, ◌^◌, ◌≡◌, refl, ◌%◌, ◌/◌, ◌<◌, some, w8, w16, size, truncate, not32, bit_and,
  bit_or, int_of, not, if◌then◌else◌, ◌==◌, ◌!=◌, arith,
}
use cpu_ia32_cpp.Base.Bits.{bit_at}
use cpu_ia32_cpp.Cpu.State.{Cpu, IsWords, code, add}
use cpu_ia32_cpp.Cpu.Eflags.{
  ◌>>=◌, cf_of, cpu_get_cf, cpu_get_of, of_of, af_of, cpu_get_af, cpu_get_pf, cpu_get_sf,
  cpu_get_eflags, cpu_set_eflags, cpu_set_cf, cpu_set_af, cpu_set_of, cpu_cond, settable,
  arith_mask,
}
use cpu_ia32_cpp.Cpu.Flags.{Flags, flags, sum_flags, difference_flags}
use cpu_ia32_cpp.Cpu.Eflags.Setters.{flags-set}
use cpu_ia32_cpp.Cpu.Eflags.Word.{packed, cpu_get_eflags-packed}
use cpu_ia32_cpp.Cpu.Eflags.RoundTrip.{cpu_get_eflags-cpu_set_eflags}
use cpu_ia32_cpp.Cpu.Eflags.Conditions.{holds, cpu_cond-holds}
use cpu_ia32_cpp.Cpu.Arith.{
  cpu_arith, cpu_neg, elsewhere, low_part, second_byte, read_place, cpu_cmpxchg, xadd, cpu_inc,
  cpu_dec, accumulator,
}
use cpu_ia32_cpp.Cpu.Arith.Places.{is_accumulator, is_same}
use cpu_ia32_cpp.Cpu.Arith.Refine.{observe, shown, reference, cpu_arith-refines}
use cpu_ia32_cpp.Cpu.Arith.Others.{xadd-neg-refine, cpu_cmpxchg-refines}
use cpu_ia32_cpp.Cpu.Arith.Steps.{steps-refine}
use cpu_ia32_cpp.Cpu.Shift.{shl_op, shr_op}
use cpu_ia32_cpp.Cpu.Shift.Carry.{shift_ops-shift}
use cpu_ia32_cpp.Cpu.MulDiv.{completed, exception, multiply, divide, dividend}
use cpu_ia32_cpp.Cpu.MulDiv.Unsigned.{remainder, multiply-product, divide-quotient, divide-error}

-- After the addition of 0xf0 to 0x22 on bytes: the carry is set. EAX is 0x51234, EDX is 1.
abbrev after_add : Cpu
after_add = record {
  lr = 0x12;
  lop1 = 0;
  lop2 = 0xf0;
  laux = code (add w8);
  eflags = 2;
  reg32 = λ i. if i == 0 then 0x51234 else if i == 2 then 1 else 0;
  cycles = 0;
  refill_counter = 0;
  cycles_to_run = 100;
  cycle_offset = 100;
}

after_add-IsWords : IsWords after_add
after_add-IsWords = record {
  lr_fits = omega arith;
  lop1_fits = omega arith;
  lop2_fits = omega arith;
  laux_fits = omega arith;
  eflags_fits = omega arith;
}

abbrev its_flags : Flags
its_flags = record { cf = 1; pf = 1; af = 0; zf = 0; sf = 0; of = 0 }

reads : flags after_add ≡ some its_flags
unfolding flags cpu_get_cf cf_of cpu_get_of of_of cpu_get_af af_of cpu_get_pf cpu_get_sf
reads = refl

carries : cpu_get_cf after_add ≡ some 1
unfolding cpu_get_cf cf_of
carries = refl

-- 0x7f + 0x01 with the carry before it.
cpu_arith-refines_example :
    observe (cpu_arith w8 2 0x7f 0x01 after_add) ≡ shown (reference 2 w8 0x7f 0x01 1)
cpu_arith-refines_example =
    cpu_arith-refines w8 2 0x7f 0x01 1 after_add (ground arith) (omega arith) (omega arith) carries

cpu_get_eflags-packed_example :
    cpu_get_eflags after_add ≡ some (bit_or (bit_and 2 (not32 arith_mask)) (packed its_flags))
cpu_get_eflags-packed_example = cpu_get_eflags-packed after_add its_flags after_add-IsWords reads

cpu_get_eflags-cpu_set_eflags_example :
    cpu_get_eflags (cpu_set_eflags 0x246 after_add)
    ≡ some (bit_or (bit_and 2 (not32 settable)) (bit_and 0x246 settable))
cpu_get_eflags-cpu_set_eflags_example =
    cpu_get_eflags-cpu_set_eflags 0x246 after_add after_add-IsWords

flags-set_example :
    ((cpu_set_cf 0 after_add >>= flags) ≡ some (record its_flags { cf = 0 }))
    × ((cpu_set_af 0 after_add >>= flags) ≡ some (record its_flags { af = 0 }))
    × ((cpu_set_of 0 after_add >>= flags) ≡ some (record its_flags { of = 0 }))
flags-set_example = flags-set after_add its_flags 0 after_add-IsWords reads (omega arith)

-- "Above" is the negation of "carry or zero".
cpu_cond-holds_example :
    cpu_cond 7 after_add
    ≡ some (
        int_of
          (if 7 % 2 == 0 then holds (7 / 2 % 8) its_flags else not (holds (7 / 2 % 8) its_flags)))
cpu_cond-holds_example = cpu_cond-holds after_add its_flags after_add-IsWords reads 7

-- XADD AX, CX.
xadd-neg-refine_example :
    let d = read_place w16 (low_part 0) after_add in
    let s = read_place w16 (low_part 1) after_add in
    let (p', q', added) = xadd w16 (low_part 0) (low_part 1) after_add in
    let (res, negated) = cpu_neg w16 0xffff after_add in
    (read_place w16 p' added ≡ truncate w16 (d + s))
    × (read_place w16 q' added
        ≡ (if is_same w16 (low_part 0) (low_part 1) then truncate w16 (d + s) else d))
    × (flags added ≡ some (sum_flags w16 d s 0))
    × ((res + 0xffff) % size w16 ≡ 0)
    × (flags negated ≡ some (difference_flags w16 0 0xffff 0))
xadd-neg-refine_example =
    xadd-neg-refine w16 (low_part 0) (low_part 1) 0xffff after_add (omega arith)

-- CMPXCHG AX, whose accumulator is its destination.
cpu_cmpxchg-refines_example :
    let d = read_place w16 (low_part 0) after_add in
    let (p', after) = cpu_cmpxchg w16 (low_part 0) 7 after_add in
    (read_place w16 p' after ≡ (if accumulator w16 after_add == d then truncate w16 7 else d))
    × (accumulator w16 after ≡ (if is_accumulator w16 (low_part 0) then truncate w16 7 else d))
    × (flags after ≡ some (difference_flags w16 (accumulator w16 after_add) d 0))
cpu_cmpxchg-refines_example = cpu_cmpxchg-refines w16 (low_part 0) 7 after_add

-- A word of the memory that differs from the accumulator is loaded into it.
cmpxchg_memory : accumulator w16 (cpu_cmpxchg w16 (elsewhere 0x1234) 7 after_add).1 ≡ 0x1234
unfolding cpu_cmpxchg
cmpxchg_memory = refl

cmpxchg_itself : accumulator w16 (cpu_cmpxchg w16 (low_part 0) 7 after_add).1 ≡ 7
unfolding cpu_cmpxchg
cmpxchg_itself = refl

-- XADD AL, AH with 0x1280 in AX.
xadd_halves :
    let (p', q', after) =
      xadd w8 (low_part 0) (second_byte 0) (record after_add { reg32 = λ _. 0x1280 }) in
    after.reg32 0 ≡ 0x8092
unfolding xadd
xadd_halves = refl

shift_ops-shift_example :
    ((shl_op w8 0x81 3 after_add).0 ≡ truncate w8 (0x81 * 2 ^ 3))
    × (cpu_get_cf (shl_op w8 0x81 3 after_add).1 ≡ some (bit_at 5 0x81))
    × ((shr_op w8 0x81 3 after_add).0 ≡ 0x81 / 2 ^ 3)
    × (cpu_get_cf (shr_op w8 0x81 3 after_add).1 ≡ some (bit_at 2 0x81))
shift_ops-shift_example =
    shift_ops-shift w8 0x81 3 after_add (omega arith) (omega arith) (omega arith) (omega arith)

multiply-product_example :
    (after : Cpu) × (multiply w16 0x100 after_add ≡ completed after)
    × (dividend w16 after ≡ 0x100 * accumulator w16 after_add)
    × (cpu_get_cf after ≡ some (int_of (0 != 0x100 * accumulator w16 after_add / size w16)))
    × (cpu_get_of after ≡ some (int_of (0 != 0x100 * accumulator w16 after_add / size w16)))
multiply-product_example = multiply-product w16 0x100 after_add (omega arith)

divide-quotient_example :
    (after : Cpu) × (divide w16 7 after_add ≡ completed after)
    × (accumulator w16 after * 7 + remainder w16 after ≡ dividend w16 after_add)
    × (remainder w16 after < 7)
divide-quotient_example = divide-quotient w16 7 after_add (omega arith) (omega arith) (omega arith)

divide-error_example : divide w16 1 after_add ≡ exception 0 0 after_add
divide-error_example = divide-error w16 1 after_add (omega arith)

-- The carry of the addition before stays set.
steps-refine_example :
    (observe (cpu_inc w8 0x7f after_add)
      ≡ shown (truncate w8 (0x7f + 1), record (sum_flags w8 0x7f 1 0) { cf = 1 }))
    × (observe (cpu_dec w8 0x7f after_add)
        ≡ shown
            (truncate w8 (0x7f + size w8 - 1), record (difference_flags w8 0x7f 1 0) { cf = 1 }))
steps-refine_example = steps-refine w8 0x7f 1 after_add (omega arith) carries
