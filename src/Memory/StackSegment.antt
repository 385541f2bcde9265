-- ===== src/Memory/StackSegment.antt =====
-- cpu/seg.cpp: which descriptors the stack segment takes.
use cpu_ia32_cpp.Base.{
  ℕ, ◌/◌, ◌%◌, ◌≡◌, refl, sym, ap, ap₂, ◌∙◌, Bool, true, false, ◌&&◌, ◌||◌, not, ◌==◌, ◌!=◌,
  if◌then◌else◌, bit_and, arith,
}
use cpu_ia32_cpp.Base.Bits.{bit_and-mask, bit_and-bits, all_below, all_below_sound}
use cpu_ia32_cpp.Memory.State.{Bus, M, raise}
use cpu_ia32_cpp.Memory.Segments.{SegDesc, access_of, type_of, dpl_of, rpl_of}
use cpu_ia32_cpp.Memory.Selectors.{is_stack_type, cpu_seg_load_protected, load_stack}

-- A data segment, not of the system's own, that can be written.
abbrev pub is_writable_data : ℕ → Bool
is_writable_data access = access / 16 % 2 == 1 && access / 8 % 2 == 0 && access / 2 % 2 == 1

-- The levels of the processor, of the selector and of the descriptor are one; the segment is writable
-- data and present.
abbrev pub may_be_stack : ℕ → ℕ → ℕ → Bool
may_be_stack cpl val access =
    cpl == val % 4 && (cpl == access / 32 % 4 && (is_writable_data access && access / 128 % 2 == 1))

same_bool : (a b : Bool) → (if a then b else not b) ≡ true → a ≡ b
same_bool true b e = sym e
same_bool false true e = e
same_bool false false e = refl

type_table :
    all_below 32 (λ t. if is_stack_type t then is_writable_data t else not (is_writable_data t))
    ≡ true
unfolding all_below
type_table = refl

is_stack_type-data : (access : ℕ) → is_stack_type (type_of access) ≡ is_writable_data access
is_stack_type-data access =
    ap is_stack_type (bit_and-mask 5 access)
    ∙ same_bool _ _ (
        all_below_sound 32
          (λ (t : ℕ). if is_stack_type t then is_writable_data t else not (is_writable_data t))
          (access % 32) type_table (omega arith))
    ∙ narrowed
  where
    narrowed : is_writable_data (access % 32) ≡ is_writable_data access
    narrowed =
        let kind : access % 32 / 16 % 2 ≡ access / 16 % 2 = omega arith in
        let code : access % 32 / 8 % 2 ≡ access / 8 % 2 = omega arith in
        let writes : access % 32 / 2 % 2 ≡ access / 2 % 2 = omega arith in
        ap (λ x. x == 1 && access % 32 / 8 % 2 == 0 && access % 32 / 2 % 2 == 1) kind
        ∙ ap (λ x. access / 16 % 2 == 1 && x == 0 && access % 32 / 2 % 2 == 1) code
        ∙ ap (λ x. access / 16 % 2 == 1 && access / 8 % 2 == 0 && x == 1) writes

-- The tests in the order of the code, and together.
choose_once {ℓ} :
    {A : Type ℓ} (a b c d : Bool) (granted refused : A)
    → (if a || b then refused else if c then if d then refused else granted else refused)
      ≡ (if not a && (not b && (c && not d)) then granted else refused)
choose_once true b c d granted refused = refl
choose_once false true c d granted refused = refl
choose_once false false true true granted refused = refl
choose_once false false true false granted refused = refl
choose_once false false false d granted refused = refl

not_differs : (a b : ℕ) → not (a != b) ≡ (a == b)
not_differs a b = ground arith

present_bit : (access : ℕ) → not (bit_and access 0x80 == 0) ≡ (access / 128 % 2 == 1)
present_bit access = ap (λ (n : ℕ). not (n == 0)) (bit_and-bits 1 7 access) ∙ ground arith

module _ {D : Type 0} (bus : Bus D) where
  -- The case of the stack segment of `cpu_load_seg_value_mov` in protected mode, its descriptor read:
  -- where the privilege levels of the processor, of the selector and of the descriptor are the same and
  -- the descriptor is of a writable data segment that is present, the segment is loaded, and otherwise
  -- the call raises a general protection fault with the selector and does nothing else.
  pub load_stack-checks :
      (seg val cpl : ℕ) (info : SegDesc)
      → load_stack bus seg val info cpl ≡ (
          if may_be_stack cpl val (access_of info)
          then cpu_seg_load_protected bus seg val info
          else raise 13 (bit_and val 0xfffc))
  unfolding load_stack
  load_stack-checks seg val cpl info =
      let access = access_of info in
      let granted = cpu_seg_load_protected bus seg val info in
      let refused : M D (Unit {0}) = raise 13 (bit_and val 0xfffc) in
      choose_once (cpl != rpl_of val) (cpl != dpl_of access) (is_stack_type (type_of access))
        (bit_and access 0x80 == 0) granted refused
      ∙ ap (λ b. if b then granted else refused)
          (ap₂ (λ a b. a && b)
            (not_differs cpl (rpl_of val) ∙ ap (λ r. cpl == r) (bit_and-mask 2 val))
            (ap₂ (λ a b. a && b)
              (not_differs cpl (dpl_of access) ∙ ap (λ r. cpl == r) (bit_and-mask 2 (access / 32)))
              (ap₂ (λ a b. a && b) (is_stack_type-data access) (present_bit access))))
