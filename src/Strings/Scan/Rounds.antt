-- ===== src/Strings/Scan/Rounds.antt =====
-- cpu/string.cpp: the rounds of SCAS under a prefix, and where they end.
use cpu_ia32_cpp.Base.{
  ℕ, zero, suc, ◌+◌, ◌*◌, ◌^◌, ◌≤◌, ◌<◌, ◌≡◌, refl, sym, ap, ◌∙◌, inl, inr, arith, Bool, true,
  false, ◌==◌, ◌!=◌, Option, none, some, if◌then◌else◌, subst, Bool-cases, Width, size, truncate,
  truncate-fits, sign_extend, add32, sub32,
}
use cpu_ia32_cpp.Cpu.State.{sub, code}
use cpu_ia32_cpp.Memory.State.{Bus, Machine, Outcome, M, completed, continue, modify, pure, ◌>>◌}
use cpu_ia32_cpp.Memory.Access.{is_indirect, tag_of, phys_of, load, bytes, read_mem}
use cpu_ia32_cpp.Memory.StackTrip.{read_mem-direct}
use cpu_ia32_cpp.Strings.Loop.{
  AddressSize, index_width, count_of, dest_of, advance, count_down, repeat_until,
}
use cpu_ia32_cpp.Strings.Units.{compared, compare_round, scas_operands}
use cpu_ia32_cpp.Strings.Registers.{advance-other, advance-same, count_down-other, count_down-count}
use cpu_ia32_cpp.Strings.Elements.{bytes-positive, IsDirect, IsDirect-first, IsDirect-rest}

-- The test that ends the loop under prefix 1 (REPZ) or 2 (REPNZ).
abbrev pub ends_for : ℕ → ℕ → ℕ → Bool
ends_for prefix dest src = if prefix == 1 then src != dest else src == dest

-- The element at `p`, in a local of its width.
abbrev pub element : Width → (ℕ → ℕ) → ℕ → ℕ
element w mem p = truncate w (load w mem p)

-- Of `n` elements from `p` on, how many there are up to the first one that ends the loop, it included,
-- or all; and the last one of these.
module _ (w : Width) (ends : ℕ → Bool) (mem : ℕ → ℕ) where
  unfoldable pub scanned : ℕ → ℕ → ℕ
  scanned zero p = 0
  scanned (suc n) p =
      let rest = scanned n (p + bytes w) in if ends (element w mem p) then 1 else suc rest

  abbrev pub or_else : Option ℕ → ℕ → Option ℕ
  or_else none other = some other
  or_else (some last) other = some last

  unfoldable pub last_scanned : ℕ → ℕ → Option ℕ
  last_scanned zero p = none
  last_scanned (suc n) p =
      let rest = last_scanned n (p + bytes w) in
      if ends (element w mem p) then some (element w mem p) else or_else rest (element w mem p)

module _ {D : Type 0} where
  -- The lazy flags are those of the difference of `dest` and the element, or as before.
  abbrev pub IsCompared : Width → ℕ → Option ℕ → Machine D → Machine D → Type 0
  IsCompared w dest none m after =
      (after.cpu.lr ≡ m.cpu.lr) × (after.cpu.lop2 ≡ m.cpu.lop2) × (after.cpu.laux ≡ m.cpu.laux)
  IsCompared w dest (some src) m after =
      (after.cpu.lr ≡ sign_extend w (sub32 dest src))
      × (after.cpu.lop2 ≡ src)
      × (after.cpu.laux ≡ code (sub w))

  module _ (bus : Bus D) (w : Width) (a : AddressSize) (dest : ℕ) (ends : ℕ → ℕ → Bool) where
    abbrev pub round : M D Bool
    unfolding scas_operands count_down compared
    round = compare_round w a (scas_operands bus w a dest (bytes w)) ends

    -- The state after one round, and its registers.
    abbrev seen : ℕ → Machine D → Machine D
    unfolding count_down advance compared
    seen src m = compared w dest src (count_down a (advance a 7 (bytes w) m))

    seen-dest :
        (src : ℕ) (m : Machine D)
        → dest_of a m + bytes w < size (index_width a)
        → dest_of a (seen src m) ≡ dest_of a m + bytes w
    unfolding count_down advance compared
    seen-dest src m fits =
        count_down-other a (index_width a) 7 (advance a 7 (bytes w) m) (λ e. absurd (omega arith))
        ∙ advance-same a 7 (bytes w) m
        ∙ truncate-fits (index_width a) _ fits

    seen-count :
        (src : ℕ) (m : Machine D) → 0 < count_of a m → count_of a (seen src m) + 1 ≡ count_of a m
    unfolding count_down advance compared
    seen-count src m positive =
        let moved = advance a 7 (bytes w) m in
        let same : count_of a moved ≡ count_of a m =
          advance-other a (index_width a) 7 1 (bytes w) m (λ e. absurd (omega arith)) in
        let less = count_down-count a moved (omega (arith, same, positive)) in
        omega (arith, same, less, positive)

    round-seen :
        (addr p : ℕ) (m : Machine D)
        → add32 (m.seg_base 0) (dest_of a m) ≡ addr
        → is_indirect w addr (tag_of addr m.tlb_shift_read m) ≡ false
        → phys_of addr m ≡ p
        → round m ≡ (completed (ends dest (element w m.mem p)), seen (element w m.mem p) m)
    unfolding scas_operands count_down advance compared
    round-seen addr p m at direct phys =
        let moves = λ (o : Outcome ℕ × Machine D).
          continue {A = ℕ × ℕ}
            (continue o λ src. modify (advance a 7 (bytes w)) >> pure (dest, truncate w src))
            (λ s.
              modify (count_down a)
              >> (modify (compared w (s.0) (s.1)) >> pure (ends (s.0) (s.1)))) in
        ap (λ addr'. moves (read_mem bus w addr' m.tlb_shift_read m)) at
        ∙ ap moves (read_mem-direct bus w addr m.tlb_shift_read m direct)
        ∙ ap (λ p'. moves (completed (load w m.mem p'), m)) phys

    IsCompared-later :
        (src : ℕ) (last : Option ℕ) (m after : Machine D)
        → IsCompared w dest last (seen src m) after
        → IsCompared w dest (or_else w (ends dest) m.mem last src) m after
    unfolding count_down advance compared
    IsCompared-later src none m after same = same
    IsCompared-later src (some last) m after same = same

    -- What the loop over `n` elements leaves.
    abbrev pub Leaves : ℕ → ℕ → Machine D → Type 0
    unfolding repeat_until scas_operands count_down compared scanned last_scanned
    Leaves n p m =
        (ended : Bool) × (after : Machine D) × (repeat_until n round m ≡ (completed ended, after))
        × (ended ≡ false → count_of a after + n ≡ count_of a m)
        × (count_of a after + scanned w (ends dest) m.mem n p ≡ count_of a m)
        × (dest_of a after ≡ dest_of a m + scanned w (ends dest) m.mem n p * bytes w)
        × IsCompared w dest (last_scanned w (ends dest) m.mem n p) m after

    -- The round at the front, which ends the loop or leaves the others.
    stops-Leaves :
        (n p : ℕ) (m : Machine D)
        → 0 < count_of a m
        → dest_of a m + bytes w < size (index_width a)
        → ends dest (element w m.mem p) ≡ true
        → round m ≡ (completed true, seen (element w m.mem p) m)
        → Leaves (suc n) p m
    unfolding repeat_until scas_operands count_down advance compared scanned last_scanned
    stops-Leaves n p m positive fits stops first =
        let src = element w m.mem p in
        let m' = seen src m in
        let one : scanned w (ends dest) m.mem (suc n) p ≡ 1 =
          ap (λ b. if b then 1 else suc (scanned w (ends dest) m.mem n (p + bytes w))) stops in
        let last : last_scanned w (ends dest) m.mem (suc n) p ≡ some src =
          ap
            (λ b.
              if b
              then some src
              else or_else w (ends dest) m.mem (last_scanned w (ends dest) m.mem n (p + bytes w))
                  src)
            stops in
        let dest' : dest_of a m' ≡ dest_of a m + 1 * bytes w =
          omega (arith, seen-dest src m fits) in
        (
          true,
          m',
          ap (λ o. continue o (λ e. if e then pure true else repeat_until n round)) first,
          (λ e. cc),
          omega (arith, seen-count src m positive, one),
          dest' ∙ ap (λ k. dest_of a m + k * bytes w) (sym one),
          subst (λ l. IsCompared w dest l m m') (sym last) (refl, refl, refl),
        )

    goes_on-Leaves :
        (n p : ℕ) (m : Machine D)
        → 0 < count_of a m
        → dest_of a m + bytes w < size (index_width a)
        → ends dest (element w m.mem p) ≡ false
        → round m ≡ (completed false, seen (element w m.mem p) m)
        → Leaves n (p + bytes w) (seen (element w m.mem p) m)
        → Leaves (suc n) p m
    unfolding repeat_until scas_operands count_down advance compared scanned last_scanned
    goes_on-Leaves n p m positive fits goes_on first
          (ended, after, runs, all, count, dest', flags) =
        let src = element w m.mem p in
        let rest = scanned w (ends dest) m.mem n (p + bytes w) in
        let more : scanned w (ends dest) m.mem (suc n) p ≡ suc rest =
          ap (λ b. if b then 1 else suc rest) goes_on in
        let others = last_scanned w (ends dest) m.mem n (p + bytes w) in
        let last : last_scanned w (ends dest) m.mem (suc n) p
            ≡ or_else w (ends dest) m.mem others src =
          ap (λ b. if b then some src else or_else w (ends dest) m.mem others src) goes_on in
        let less = seen-count src m positive in
        let moved : dest_of a after ≡ dest_of a m + suc rest * bytes w =
          omega (arith, seen-dest src m fits, dest') in
        (
          ended,
          after,
          ap (λ o. continue o (λ e. if e then pure true else repeat_until n round)) first ∙ runs,
          (λ e. omega (arith, all e, less)),
          omega (arith, count, less, more),
          moved ∙ ap (λ k. dest_of a m + k * bytes w) (sym more),
          subst (λ l. IsCompared w dest l m after) (sym last)
              (IsCompared-later src others m after flags),
        )

    pub rounds-Leaves :
        (n addr p : ℕ) (m : Machine D)
        → n ≤ count_of a m
        → m.seg_base 0 + dest_of a m ≡ addr
        → dest_of a m + n * bytes w < size (index_width a)
        → addr + n * bytes w ≤ 2 ^ 32
        → IsDirect w n addr p m.tlb_shift_read m
        → Leaves n p m
    unfolding repeat_until scas_operands count_down advance compared scanned last_scanned
    rounds-Leaves zero addr p m enough at fits linear direct =
        (false, m, refl, (λ _. omega arith), omega arith, omega arith, (refl, refl, refl))
    rounds-Leaves (suc n) addr p m enough at fits linear direct =
        let positive = bytes-positive w in
        let (goes, lies) = IsDirect-first w n addr p m.tlb_shift_read m direct in
        let src = element w m.mem p in
        let first = round-seen addr p m (omega (arith, positive)) goes lies in
        let dest' = seen-dest src m (omega arith) in
        elim (Bool-cases (ends dest src)) [
          | inl stops ↦
              stops-Leaves n p m (omega arith) (omega arith) stops
                (first ∙ ap (λ e. (completed e, seen src m)) stops)
          | inr goes_on ↦
              goes_on-Leaves n p m (omega arith) (omega arith) goes_on
                (first ∙ ap (λ e. (completed e, seen src m)) goes_on)
                (rounds-Leaves n (addr + bytes w) (p + bytes w) (seen src m)
                  (omega (arith, seen-count src m (omega arith))) (omega (arith, dest'))
                  (omega (arith, dest')) (omega arith)
                  (IsDirect-rest w n addr p m.tlb_shift_read m direct))
        ]
