-- ===== src/Pic/Scan.antt =====
-- The two loops of `pic_internal_update` as one search.
use cpu_ia32_cpp.Base.{
  ℕ, zero, suc, ◌+◌, ◌<◌, ◌≤◌, bit_and, ◌≡◌, refl, Bool, true, false, Option, none, some, arith,
  ◌!=◌, if◌then◌else◌, ◌<<<◌, Bool-cases, inl, inr,
}
use native.Mathlib.Decide.{ℕ_discrete}
use cpu_ia32_cpp.Pic.Update.{scan_normal, scan_special}

abbrev pub test : ℕ → ℕ → Bool
test x i = bit_and x (1 <<< i) != 0

-- Both loops, as one search for the first hit that nothing stops before.
pub scan : ℕ → ℕ → (ℕ → Bool) → (ℕ → Bool) → Option ℕ
scan zero i stop hit = none
scan (suc rounds) i stop hit =
    let rest = scan rounds (i + 1) stop hit in
    if stop i then none else if hit i then some i else rest

pub record IsFirst (stop hit : ℕ → Bool) (i j : ℕ) : Type 0 where
  pub lower : i ≤ j
  pub hits : hit j ≡ true
  pub free : stop j ≡ false
  pub before : (k : ℕ) → i ≤ k → k < j → (hit k ≡ false) × (stop k ≡ false)

module _ (stop hit : ℕ → Bool) where
  pub scan-IsFirst :
      (rounds i j : ℕ) → scan rounds i stop hit ≡ some j → IsFirst stop hit i j × (j < i + rounds)
  unfolding scan
  scan-IsFirst zero i j e = cc
  scan-IsFirst (suc rounds) i j e = elim (Bool-cases (stop i)) [
    | inl busy ↦ cc (rw busy at e)
    | inr idle ↦ elim (Bool-cases (hit i)) [
      | inl found ↦
          let here : i ≡ j = ground arith in
          (
            record {
              lower = omega arith;
              hits = rw (← here) found;
              free = rw (← here) idle;
              before = λ k p q. absurd (omega arith);
            },
            omega arith,
          )
      | inr miss ↦
          let later : scan rounds (i + 1) stop hit ≡ some j = rw (idle, miss) at e in
          let (rest, bound) = scan-IsFirst rounds (i + 1) j later in
          (
            record {
              lower = omega (arith, rest.lower);
              hits = rest.hits;
              free = rest.free;
              before = λ k p q. elim (ℕ_discrete k i) [
                | yes same ↦ rw same (miss, idle)
                | no other ↦ rest.before k (omega arith) q
              ];
            },
            omega arith,
          )
    ]
  ]

  pub scan_complete :
      (rounds i j : ℕ) → IsFirst stop hit i j → j < i + rounds → scan rounds i stop hit ≡ some j
  unfolding scan
  scan_complete zero i j f bound = absurd (omega (arith, f.lower))
  scan_complete (suc rounds) i j f bound = elim (ℕ_discrete i j) [
    | yes here ↦ rw here (rw (f.free, f.hits) refl)
    | no other ↦
        let (miss, idle) = f.before i (omega arith) (omega (arith, f.lower)) in
        rw (idle, miss)
          (scan_complete rounds (i + 1) j
            (record {
              lower = omega (arith, f.lower);
              hits = f.hits;
              free = f.free;
              before = λ k p q. f.before k (omega arith) q;
            })
            (omega arith))
  ]

pub scan_normal-scan :
    (rounds i isr unmasked : ℕ)
    → scan_normal rounds i isr unmasked ≡ scan rounds i (test isr) (test unmasked)
unfolding scan_normal scan
scan_normal-scan zero i isr unmasked = refl
scan_normal-scan (suc rounds) i isr unmasked = rw (scan_normal-scan rounds (i + 1) isr unmasked)

pub scan_special-scan :
    (rounds i unmasked : ℕ)
    → scan_special rounds i unmasked ≡ scan rounds i (λ _. false) (test unmasked)
unfolding scan_special scan
scan_special-scan zero i unmasked = refl
scan_special-scan (suc rounds) i unmasked = rw (scan_special-scan rounds (i + 1) unmasked)
