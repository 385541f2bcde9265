-- ===== src/Pic/EndOfInterrupt.antt =====
-- pic.cpp: the end of interrupt that names no level.
use cpu_ia32_cpp.Base.{
  ℕ, zero, suc, ◌+◌, ◌%◌, ◌<◌, bit_and, bit_xor, ◌≡◌, refl, ap, ◌∙◌, arith, ◌==◌, ◌!=◌, ◌<<<◌,
  if◌then◌else◌,
}
use cpu_ia32_cpp.Base.Bits.{bit_at, bit_and-mask}
use cpu_ia32_cpp.Pic.State.{Controller, IsController}
use cpu_ia32_cpp.Pic.Ports.{clear_from, pic_clear_highest_priority}
use cpu_ia32_cpp.Pic.Priority.{level, in_service}
use cpu_ia32_cpp.Pic.Levels.{tested, bit_at-toggled}

-- The highest priority level in service stands at place `i`.
pub record IsServed (c : Controller) (i : ℕ) : Type 0 where
  pub in_range : i < 8
  pub served : in_service c (level c i) ≡ 1
  pub before : (k : ℕ) → k < i → in_service c (level c k) ≡ 0

module _ (c : Controller) (v : IsController c) where
  place : ℕ → ℕ
  place i = bit_and (bit_and (c.priority_base + 1) 7 + i) 7

  place-level : (i : ℕ) → place i ≡ level c i
  unfolding place
  place-level i =
      rw (bit_and-mask 3 (c.priority_base + 1))
        (bit_and-mask 3 ((c.priority_base + 1) % 8 + i) ∙ omega arith)

  in_service_test : (i : ℕ) → (bit_and c.isr (1 <<< place i) != 0) ≡ (in_service c (level c i) == 1)
  in_service_test i = rw (place-level i) (tested (level c i) c.isr (omega arith) v.isr_fits)

  -- The loop passes the levels that are not in service.
  clear_from-passes :
      (rounds i j m : ℕ)
      → m ≡ i + j
      → ((k : ℕ) → k < m → in_service c (level c k) ≡ 0)
      → in_service c (level c m) ≡ 1
      → j < rounds
      → clear_from rounds i (bit_and (c.priority_base + 1) 7) c.isr
        ≡ bit_xor c.isr (1 <<< level c m)
  unfolding clear_from place
  clear_from-passes zero i j m e before here h = absurd (omega arith)
  clear_from-passes (suc rounds) i zero m e before here h =
      let same : m ≡ i = omega arith in
      let served : in_service c (level c i) ≡ 1 = rw same at here in
      rw same (
        rw (in_service_test i)
          (rw served (ap (λ (n : ℕ). bit_xor c.isr (1 <<< n)) (place-level i))))
  clear_from-passes (suc rounds) i (suc j) m e before here h =
      rw (in_service_test i, before i (omega arith))
        (clear_from-passes rounds (i + 1) j m (omega arith) before here (omega arith))

  clear_from-idle :
      (rounds i : ℕ)
      → ((k : ℕ) → in_service c (level c k) ≡ 0)
      → clear_from rounds i (bit_and (c.priority_base + 1) 7) c.isr ≡ c.isr
  unfolding clear_from place
  clear_from-idle zero i idle = refl
  clear_from-idle (suc rounds) i idle =
      rw (in_service_test i, idle i) (clear_from-idle rounds (i + 1) idle)

  -- `pic_clear_highest_priority`, on registers within their widths: when place `i` holds the highest
  -- level in service, that level is in service no longer, and every other level `n` below 8 is in
  -- service exactly if it was.
  pub pic_clear_highest_priority-clears :
      (i n : ℕ)
      → IsServed c i
      → n < 8
      → in_service (pic_clear_highest_priority c) n ≡ (if n == level c i then 0 else in_service c n)
  unfolding pic_clear_highest_priority
  pic_clear_highest_priority-clears i n s h =
      ap (bit_at n) (clear_from-passes 8 0 i i (omega arith) s.before s.served s.in_range)
      ∙ bit_at-toggled (level c i) n c.isr (omega arith) h
      ∙ ground (arith, s.served)
