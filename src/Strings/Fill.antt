-- ===== src/Strings/Fill.antt =====
-- cpu/string.cpp: what REP STOS leaves in the memory.
use cpu_ia32_cpp.Base.{
  ℕ, zero, suc, ◌+◌, ◌*◌, ◌^◌, ◌≤◌, ◌<◌, ◌≡◌, refl, ap, ◌∙◌, arith, true, false, Width, size,
  truncate-fits, add32, sub32, bit_and, if◌then◌else◌, ◌!=◌,
}
use cpu_ia32_cpp.Memory.State.{Bus, Machine, Outcome, M, completed, continue, modify, pure, ◌>>◌}
use cpu_ia32_cpp.Memory.Access.{is_indirect, tag_of, phys_of, put_mem, bytes, write_mem}
use cpu_ia32_cpp.Memory.StackTrip.{write_mem-direct}
use cpu_ia32_cpp.Strings.Loop.{
  AddressSize, index_width, has_rep, capped, register, count_of, dest_of, step_of, advance,
  count_down, unfinished, repeat, rep,
}
use cpu_ia32_cpp.Strings.Units.{stos_round, stos}
use cpu_ia32_cpp.Strings.Registers.{advance-other, advance-same, count_down-other, count_down-count}
use cpu_ia32_cpp.Strings.Elements.{
  IsFilled, IsFilled-suc, bytes-positive, IsDirect, IsDirect-first, IsDirect-rest,
}

module _ {D : Type 0} where
  module _ (bus : Bus D) (w : Width) (a : AddressSize) (src : ℕ) where
    abbrev body : M D (Unit {0})
    unfolding stos_round count_down
    body = stos_round bus w a src (bytes w) >> modify (count_down a)

    -- The state after one round, and its registers.
    abbrev stored : ℕ → Machine D → Machine D
    unfolding count_down advance
    stored p m = count_down a (advance a 7 (bytes w) (put_mem w p src m))

    stored-dest :
        (p : ℕ) (m : Machine D)
        → dest_of a m + bytes w < size (index_width a)
        → dest_of a (stored p m) ≡ dest_of a m + bytes w
    unfolding count_down advance
    stored-dest p m fits =
        count_down-other a (index_width a) 7 (advance a 7 (bytes w) (put_mem w p src m))
          (λ e. absurd (omega arith))
        ∙ advance-same a 7 (bytes w) (put_mem w p src m)
        ∙ truncate-fits (index_width a) _ fits

    stored-count :
        (p : ℕ) (m : Machine D) → 0 < count_of a m → count_of a (stored p m) + 1 ≡ count_of a m
    unfolding count_down advance
    stored-count p m positive =
        let moved = advance a 7 (bytes w) (put_mem w p src m) in
        let same : count_of a moved ≡ count_of a m =
          advance-other a (index_width a) 7 1 (bytes w) (put_mem w p src m)
            (λ e. absurd (omega arith)) in
        let less = count_down-count a moved (omega (arith, same, positive)) in
        omega (arith, same, less, positive)

    body-stored :
        (addr p : ℕ) (m : Machine D)
        → add32 (m.seg_base 0) (dest_of a m) ≡ addr
        → is_indirect w addr (tag_of addr m.tlb_shift_write m) ≡ false
        → phys_of addr m ≡ p
        → body m ≡ (completed tt, stored p m)
    unfolding stos_round count_down advance
    body-stored addr p m at direct phys =
        let moves = λ (o : Outcome (Unit {0}) × Machine D).
          continue (continue o (λ _. modify (advance a 7 (bytes w))))
            (λ _. modify (count_down a)) in
        ap (λ addr'. moves (write_mem bus w addr' src m.tlb_shift_write m)) at
        ∙ ap moves (write_mem-direct bus w addr src m.tlb_shift_write m direct)
        ∙ ap (λ p'. moves (completed tt, put_mem w p' src m)) phys

    -- What `n` rounds leave.
    abbrev Leaves : ℕ → ℕ → Machine D → Type 0
    unfolding repeat stos_round count_down
    Leaves n p m =
        (after : Machine D) × (repeat n body m ≡ (completed tt, after))
        × (count_of a after + n ≡ count_of a m)
        × (dest_of a after ≡ dest_of a m + n * bytes w)
        × IsFilled w n p src m.mem after.mem

    rounds-Leaves :
        (n addr p : ℕ) (m : Machine D)
        → n ≤ count_of a m
        → m.seg_base 0 + dest_of a m ≡ addr
        → dest_of a m + n * bytes w < size (index_width a)
        → addr + n * bytes w ≤ 2 ^ 32
        → IsDirect w n addr p m.tlb_shift_write m
        → Leaves n p m
    unfolding repeat stos_round count_down advance
    rounds-Leaves zero addr p m enough at fits linear direct =
        (m, refl, omega arith, omega arith, (λ j lt. absurd (omega arith), λ x out. refl))
    rounds-Leaves (suc n) addr p m enough at fits linear direct =
        let positive = bytes-positive w in
        let (goes, lies) = IsDirect-first w n addr p m.tlb_shift_write m direct in
        let m' = stored p m in
        let dest : dest_of a m' ≡ dest_of a m + bytes w = stored-dest p m (omega arith) in
        let count : count_of a m' + 1 ≡ count_of a m = stored-count p m (omega arith) in
        let first : body m ≡ (completed tt, m') =
          body-stored addr p m (omega (arith, positive)) goes lies in
        let (after, runs, counted, moved, filled) =
          rounds-Leaves n (addr + bytes w) (p + bytes w) m' (omega (arith, count))
            (omega (arith, dest)) (omega (arith, dest)) (omega arith)
            (IsDirect-rest w n addr p m.tlb_shift_write m direct) in
        (
          after,
          ap (λ o. continue o (λ _. repeat n body)) first ∙ runs,
          omega (arith, count, counted),
          omega (arith, dest, moved),
          IsFilled-suc w n p src m.mem after.mem filled,
        )

  module _ (bus : Bus D) (w : Width) (a : AddressSize) (flags : ℕ) where
    rep-has_rep :
        (rounds : ℕ) (round : M D (Unit {0})) (m : Machine D)
        → has_rep flags ≡ true
        → rep a flags rounds round m
          ≡ (repeat rounds (round >> modify (count_down a)) >> unfinished a) m
    unfolding rep repeat count_down
    rep-has_rep rounds round m repeats =
        ap
          (λ b.
            (if b
                then repeat rounds (round >> modify (count_down a)) >> unfinished a
                else round >> pure false)
              m)
          repeats

    -- REP STOS at any width and address size, with the direction flag clear and a count of 65536 at
    -- most, where no address wraps and the elements are aligned, go to the memory directly and lie
    -- from `p` on in it: it completes in one call with the count at 0 and the index behind the last
    -- element, every one of the `count` elements is the accumulator, and no other byte has changed.
    pub stos-fills :
        (p : ℕ) (m : Machine D)
        → has_rep flags ≡ true
        → bit_and m.cpu.eflags 0x400 ≡ 0
        → count_of a m ≤ 65536
        → dest_of a m + count_of a m * bytes w < size (index_width a)
        → m.seg_base 0 + dest_of a m + count_of a m * bytes w ≤ 2 ^ 32
        → IsDirect w (count_of a m) (m.seg_base 0 + dest_of a m) p m.tlb_shift_write m
        → (after : Machine D) × (stos bus w a flags m ≡ (completed false, after))
          × (count_of a after ≡ 0)
          × (dest_of a after ≡ dest_of a m + count_of a m * bytes w)
          × IsFilled w (count_of a m) p (register w 0 m) m.mem after.mem
    unfolding stos repeat count_down
    stos-fills p m repeats forward short fits linear direct =
        let n = count_of a m in
        let src = register w 0 m in
        let (after, runs, counted, moved, filled) =
          rounds-Leaves bus w a src n (m.seg_base 0 + dest_of a m) p m (omega arith) refl fits
            linear direct in
        let rounds : capped n ≡ n = ground arith in
        let step : step_of w m ≡ bytes w =
          ap (λ x. if x != 0 then sub32 0 (bytes w) else bytes w) forward in
        let empty : count_of a after ≡ 0 = omega (arith, counted) in
        (
          after,
          rep-has_rep (capped n) (stos_round bus w a src (step_of w m)) m repeats
              ∙ ap
                  (λ k.
                    (repeat k (stos_round bus w a src (step_of w m) >> modify (count_down a))
                        >> unfinished a)
                      m)
                  rounds
              ∙ ap
                  (λ add.
                    (repeat n (stos_round bus w a src add >> modify (count_down a)) >> unfinished a)
                      m)
                  step
              ∙ ap (λ o. continue o (λ _. unfinished a)) runs
              ∙ ap (λ k. (completed (k != 0), after)) empty,
          empty,
          moved,
          filled,
        )
