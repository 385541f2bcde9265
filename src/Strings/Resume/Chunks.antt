-- ===== src/Strings/Resume/Chunks.antt =====
-- cpu/string.cpp: the loop under a prefix that a handler runs again until the count is 0, against the
-- loop over the whole count.
use cpu_ia32_cpp.Base.{
  ℕ, zero, suc, ◌+◌, ◌-◌, ◌*◌, ◌≤◌, ◌<◌, ◌≡◌, refl, sym, ap, ◌∙◌, arith, Bool, true, false, ◌!=◌,
  if◌then◌else◌, if-either,
}
use cpu_ia32_cpp.Memory.State.{
  Machine, Outcome, completed, exception, refused, aborted, M, continue, modify, pure, ◌>>=◌, ◌>>◌,
}
use cpu_ia32_cpp.Strings.Loop.{
  AddressSize, has_rep, capped, count_of, count_down, unfinished, repeat, rep,
}
use cpu_ia32_cpp.Strings.Registers.{count_down-count}

module _ {D : Type 0} where
  -- A handler runs its instruction again as long as the result is 1, here `calls` times at most; the
  -- result says whether it would go on.
  unfoldable pub run_again : ℕ → M D Bool → M D Bool
  run_again zero instruction = pure true
  run_again (suc calls) instruction =
      instruction >>= λ more. if more then run_again calls instruction else pure false

  continue_assoc :
      {A B C : Type 0} (o : Outcome A × Machine D) (f : A → M D B) (g : B → M D C)
      → continue (continue o f) g ≡ continue o (λ a m. continue (f a m) g)
  continue_assoc (completed a, m) f g = refl
  continue_assoc (exception vector code, m) f g = refl
  continue_assoc (refused, m) f g = refl
  continue_assoc (aborted, m) f g = refl

  pub continue_ext :
      {A B : Type 0} (o : Outcome A × Machine D) (f g : A → M D B)
      → ((a : A) (m : Machine D) → f a m ≡ g a m)
      → continue o f ≡ continue o g
  continue_ext (completed a, m) f g same = same a m
  continue_ext (exception vector code, m) f g same = refl
  continue_ext (refused, m) f g same = refl
  continue_ext (aborted, m) f g same = refl

  repeat-add :
      (j r : ℕ) (body : M D (Unit {0})) (m : Machine D)
      → repeat (j + r) body m ≡ continue (repeat j body m) (λ _. repeat r body)
  unfolding repeat
  repeat-add zero r body m = let same : 0 + r ≡ r = omega arith in ap (λ n. repeat n body m) same
  repeat-add (suc j) r body m =
      let same : suc j + r ≡ suc (j + r) = omega arith in
      ap (λ n. repeat n body m) same
      ∙ continue_ext (body m) (λ _. repeat (j + r) body)
          (λ _ m'. continue (repeat j body m') (λ _. repeat r body))
          (λ _ m'. repeat-add j r body m')
      ∙ sym (continue_assoc (body m) (λ _. repeat j body) (λ _. repeat r body))

-- The loop over the whole count, after what the instruction computes before it.
module _ {D S : Type 0} (a : AddressSize) (setup : Machine D → S) (round : S → M D (Unit {0})) where
  unfoldable pub whole_loop : M D Bool
  unfolding repeat count_down
  whole_loop m = (repeat (count_of a m) (round (setup m) >> modify (count_down a)) >> pure false) m

-- An instruction of this kind: `setup` is what it computes before the loop, which neither a round nor
-- the count changes.
pub record IsRepeated {D S : Type 0} (a : AddressSize) (flags : ℕ) (setup : Machine D → S)
    (round : S → M D (Unit {0})) : Type 0 where
  pub round_setup : (s : S) (m : Machine D) → setup ((round s m).1) ≡ setup m
  pub round_count : (s : S) (m : Machine D) → count_of a ((round s m).1) ≡ count_of a m
  pub count_setup : (m : Machine D) → setup (count_down a m) ≡ setup m

module _ {D S : Type 0} {a : AddressSize} {flags : ℕ} {setup : Machine D → S}
    {round : S → M D (Unit {0})} (laws : IsRepeated a flags setup round) where
  -- The state after `j` rounds that have completed.
  abbrev After : ℕ → Machine D → Outcome (Unit {0}) × Machine D → Type 0
  After j m (completed _, m') = (setup m' ≡ setup m) × (count_of a m' + j ≡ count_of a m)
  After j m (exception _ _, m') = Unit {0}
  After j m (refused, m') = Unit {0}
  After j m (aborted, m') = Unit {0}

  abbrev counted : S → M D (Unit {0})
  unfolding count_down
  counted s = round s >> modify (count_down a)

  After-weaken :
      (j : ℕ) (m m' : Machine D) (o : Outcome (Unit {0}) × Machine D)
      → setup m' ≡ setup m
      → count_of a m' + 1 ≡ count_of a m
      → After j m' o
      → After (suc j) m o
  After-weaken j m m' (completed _, m'') same less (same', less') =
      (same' ∙ same, omega (arith, less, less'))
  After-weaken j m m' (exception vector code, m'') same less after = tt
  After-weaken j m m' (refused, m'') same less after = tt
  After-weaken j m m' (aborted, m'') same less after = tt

  After-round :
      (j : ℕ) (s : S) (m : Machine D) (o : Outcome (Unit {0}) × Machine D)
      → ((m' : Machine D) → j ≤ count_of a m' → After j m' (repeat j (counted s) m'))
      → setup (o.1) ≡ setup m
      → count_of a (o.1) ≡ count_of a m
      → suc j ≤ count_of a m
      → After
          (suc j)
          m
          (continue (continue o (λ _. modify (count_down a))) (λ _. repeat j (counted s)))
  unfolding count_down
  After-round j s m (completed _, m') rest same count enough =
      let less = count_down-count a m' (omega (arith, count, enough)) in
      After-weaken j m (count_down a m') (repeat j (counted s) (count_down a m'))
        (laws.count_setup m' ∙ same) (omega (arith, less, count, enough))
        (rest (count_down a m') (omega (arith, less, count, enough)))
  After-round j s m (exception vector code, m') rest same count enough = tt
  After-round j s m (refused, m') rest same count enough = tt
  After-round j s m (aborted, m') rest same count enough = tt

  repeat-After :
      (j : ℕ) (s : S) (m : Machine D) → j ≤ count_of a m → After j m (repeat j (counted s) m)
  unfolding repeat count_down
  repeat-After zero s m enough = (refl, omega arith)
  repeat-After (suc j) s m enough =
      After-round j s m (round s m) (λ m' le. repeat-After j s m' le) (laws.round_setup s m)
        (laws.round_count s m) enough

  module _ (instruction : M D Bool) (repeats : has_rep flags ≡ true)
      (is_rep : (m : Machine D)
        → instruction m ≡ rep a flags (capped (count_of a m)) (round (setup m)) m) where
    one_call :
        (m : Machine D)
        → instruction m ≡ (repeat (capped (count_of a m)) (counted (setup m)) >> unfinished a) m
    unfolding rep count_down repeat
    one_call m =
        is_rep m
        ∙ ap
            (λ b.
              (if b
                  then repeat (capped (count_of a m)) (counted (setup m)) >> unfinished a
                  else round (setup m) >> pure false)
                m)
            repeats

    abbrev go_on : ℕ → Bool → M D Bool
    unfolding run_again
    go_on calls more = if more then run_again calls instruction else pure false

    -- From the state after a call on.
    calls_rest :
        (calls r : ℕ) (m : Machine D) (o : Outcome (Unit {0}) × Machine D)
        → ((m' : Machine D)
            → count_of a m' ≡ r
            → 0 < r
            → run_again calls instruction m' ≡ whole_loop a setup round m')
        → r + capped (count_of a m) ≡ count_of a m
        → After (capped (count_of a m)) m o
        → continue (continue o (λ _. unfinished a)) (go_on calls)
          ≡ continue (continue o (λ _. repeat r (counted (setup m)))) (λ _. pure false)
    unfolding repeat count_down run_again whole_loop
    calls_rest calls r m (completed _, m') again total (same, count) =
        let left : count_of a m' ≡ r = omega (arith, count, total) in
        if-either (λ (f : M D Bool). f m' ≡ (repeat r (counted (setup m)) >> pure false) m')
          (count_of a m' != 0)
          (λ more.
            again m' left (ground arith)
            ∙ ap (λ n. (repeat n (counted (setup m')) >> pure false) m') left
            ∙ ap (λ s. (repeat r (counted s) >> pure false) m') same)
          (λ done.
            let none_left : 0 ≡ r = ground arith in
            ap (λ n. (repeat n (counted (setup m)) >> pure false) m') none_left)
    calls_rest calls r m (exception vector code, m') again total after = refl
    calls_rest calls r m (refused, m') again total after = refl
    calls_rest calls r m (aborted, m') again total after = refl

    -- Enough calls, and one at least, do what the loop over the whole count does.
    pub run_again-whole :
        (calls : ℕ) (m : Machine D)
        → count_of a m ≤ 65536 * calls
        → 0 < count_of a m + calls
        → run_again calls instruction m ≡ whole_loop a setup round m
    unfolding run_again repeat whole_loop
    run_again-whole zero m enough some_call = absurd (omega arith)
    run_again-whole (suc calls) m enough some_call =
        let n = count_of a m in
        let c = capped n in
        let fits : c ≤ n = ground arith in
        let total : n - c + c ≡ n = omega (arith, fits) in
        let all : c + (n - c) ≡ n = omega (arith, fits) in
        let rest : n - c ≤ 65536 * calls = ground arith in
        ap (λ o. continue o (go_on calls)) (one_call m)
        ∙ calls_rest calls (n - c) m (repeat c (counted (setup m)) m)
            (λ m' left positive.
              run_again-whole calls m' (omega (arith, left, rest)) (omega (arith, left, positive)))
            total (repeat-After c (setup m) m fits)
        ∙ ap (λ o. continue o (λ _. pure false))
            (sym (repeat-add c (n - c) (counted (setup m)) m)
              ∙ ap (λ j. repeat j (counted (setup m)) m) all)
