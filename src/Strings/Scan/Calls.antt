-- ===== src/Strings/Scan/Calls.antt =====
-- cpu/string.cpp: how far one call of REPZ SCAS or REPNZ SCAS goes.
use cpu_ia32_cpp.Base.{
  ℕ, ◌+◌, ◌*◌, ◌^◌, ◌≤◌, ◌<◌, ◌≡◌, refl, sym, ap, ◌∙◌, ◌⊎◌, inl, inr, arith, Bool, true, false,
  ◌==◌, ◌!=◌, if◌then◌else◌, Width, size, sub32, bit_and, ◌>>>◌,
}
use cpu_ia32_cpp.Memory.State.{Bus, Machine, M, completed, aborted, continue, pure}
use cpu_ia32_cpp.Memory.Access.{bytes}
use cpu_ia32_cpp.Strings.Loop.{
  AddressSize, index_width, capped, register, count_of, dest_of, step_of, count_down, unfinished,
  repeat_until,
}
use cpu_ia32_cpp.Strings.Units.{compared, compare_loop, compare_once, compare, scas_operands, scas}
use cpu_ia32_cpp.Strings.Elements.{IsDirect}
use cpu_ia32_cpp.Strings.Scan.Rounds.{ends_for, scanned, last_scanned, IsCompared, rounds-Leaves}

module _ {D : Type 0} where
  module _ (bus : Bus D) (w : Width) (a : AddressSize) (flags : ℕ) where
    abbrev prefix_of : ℕ
    prefix_of = bit_and (flags >>> 6) 3

    -- The case of the switch.
    compare-loop :
        (rounds : ℕ) (operands : M D (ℕ × ℕ)) (m : Machine D)
        → (prefix_of ≡ 1) ⊎ (prefix_of ≡ 2)
        → compare w a flags rounds operands m
          ≡ compare_loop w a rounds operands (ends_for prefix_of) m
    unfolding compare count_down compared repeat_until
    compare-loop rounds operands m (inl one) =
        ap
          (λ k.
            (if k == 0
                then compare_once w operands
                else if k == 1
                then compare_loop w a rounds operands (λ dest src. src != dest)
                else if k == 2
                then compare_loop w a rounds operands (λ dest src. src == dest)
                else λ m'. (aborted, m'))
              m)
          one
        ∙ sym (ap (λ k. compare_loop w a rounds operands (ends_for k) m) one)
    compare-loop rounds operands m (inr two) =
        ap
          (λ k.
            (if k == 0
                then compare_once w operands
                else if k == 1
                then compare_loop w a rounds operands (λ dest src. src != dest)
                else if k == 2
                then compare_loop w a rounds operands (λ dest src. src == dest)
                else λ m'. (aborted, m'))
              m)
          two
        ∙ sym (ap (λ k. compare_loop w a rounds operands (ends_for k) m) two)

    -- The end of the call: the count is 0 where no round has ended the loop.
    end-finished :
        (ended : Bool) (n : ℕ) (m after : Machine D)
        → n ≡ count_of a m
        → (ended ≡ false → count_of a after + n ≡ count_of a m)
        → (if ended then pure false else unfinished a) after ≡ (completed false, after)
    end-finished true n m after all counted = refl
    end-finished false n m after all counted =
        let empty : count_of a after ≡ 0 = omega (arith, counted refl, all) in
        ap (λ k. (completed (k != 0), after)) empty

    -- REPZ and REPNZ SCAS at any width and address size, with the direction flag clear and a count of
    -- 65536 at most, where no address wraps and the elements are aligned, go to the memory directly
    -- and lie from `p` on in it: the call completes with result 0 after as many rounds as there are
    -- elements up to the first one that differs from the accumulator (REPZ) or equals it (REPNZ),
    -- that one included, or all; the count is less and the index further by so many, and the lazy
    -- flags are those of the accumulator less the last element, or as before where the count was 0.
    pub scas-scans :
        (p : ℕ) (m : Machine D)
        → (prefix_of ≡ 1) ⊎ (prefix_of ≡ 2)
        → bit_and m.cpu.eflags 0x400 ≡ 0
        → count_of a m ≤ 65536
        → dest_of a m + count_of a m * bytes w < size (index_width a)
        → m.seg_base 0 + dest_of a m + count_of a m * bytes w ≤ 2 ^ 32
        → IsDirect w (count_of a m) (m.seg_base 0 + dest_of a m) p m.tlb_shift_read m
        → let ends = ends_for prefix_of (register w 0 m) in
          (after : Machine D) × (scas bus w a flags m ≡ (completed false, after))
          × (count_of a after + scanned w ends m.mem (count_of a m) p ≡ count_of a m)
          × (dest_of a after ≡ dest_of a m + scanned w ends m.mem (count_of a m) p * bytes w)
          × IsCompared w (register w 0 m) (last_scanned w ends m.mem (count_of a m) p) m after
    unfolding scas scas_operands count_down compared repeat_until scanned last_scanned
    scas-scans p m prefix forward short fits linear direct =
        let n = count_of a m in
        let dest = register w 0 m in
        let ends = ends_for prefix_of in
        let (ended, after, runs, all, count, moved, flags') =
          rounds-Leaves bus w a dest ends n (m.seg_base 0 + dest_of a m) p m (omega arith) refl fits
            linear direct in
        let rounds : capped n ≡ n = ground arith in
        let step : step_of w m ≡ bytes w =
          ap (λ x. if x != 0 then sub32 0 (bytes w) else bytes w) forward in
        (
          after,
          compare-loop (capped n) (scas_operands bus w a dest (step_of w m)) m prefix
              ∙ ap (λ k. compare_loop w a k (scas_operands bus w a dest (step_of w m)) ends m)
                  rounds
              ∙ ap (λ add. compare_loop w a n (scas_operands bus w a dest add) ends m) step
              ∙ ap (λ o. continue o (λ e. if e then pure false else unfinished a)) runs
              ∙ end-finished ended n m after refl all,
          count,
          moved,
          flags',
        )
