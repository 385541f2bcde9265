-- ===== src/ControlFlow/Levels.antt =====
-- cpu/ctrlflow.cpp: from the user to the system by SYSENTER, and back by SYSEXIT.
use cpu_ia32_cpp.Base.{
  ℕ, ◌+◌, ◌^◌, ◌<◌, ◌≡◌, refl, sym, ap, ap₂, ◌∙◌, ◌≢◌, arith, false, ◌||◌, ◌==◌, ◌!=◌,
  if◌then◌else◌, if-either, subst, bit_and, bit_or, u16, add32, sub32,
}
use cpu_ia32_cpp.Memory.State.{Machine, completed, modify, raise}
use cpu_ia32_cpp.Memory.Access.{tag_of}
use cpu_ia32_cpp.Memory.Segments.{cpu_prot_update_cpl, virt_eip, set_eip}
use cpu_ia32_cpp.Memory.Stack.{esp_of, set_esp}
use cpu_ia32_cpp.ControlFlow.SystemCalls.{
  f_reload_cs_base, put_whole, switch_level, clear_flags, cs_offset, f_sysenter, sysexit,
}

-- A jump to a target that fits a word.
set_eip_lands :
    (phys bias eip : ℕ) → eip < 2 ^ 32 → add32 (add32 phys (sub32 eip (add32 phys bias))) bias ≡ eip
set_eip_lands phys bias eip fits = omega arith

module _ {D : Type 0} where
  -- The next instruction is at `eip`, the segments of code and stack are flat and have these
  -- selectors, and the tag bits that accesses look at are those of the level.
  abbrev pub RunsAt : ℕ → ℕ → ℕ → ℕ → ℕ → Machine D → Type 0
  RunsAt eip esp cs ss cpl m =
      (virt_eip m ≡ eip)
      × (esp_of m ≡ esp)
      × ((m.seg 1 ≡ cs) × (m.seg_base 1 ≡ 0) × (m.seg_limit 1 ≡ 0xffff_ffff))
      × ((m.seg 2 ≡ ss) × (m.seg_base 2 ≡ 0) × (m.seg_limit 2 ≡ 0xffff_ffff))
      × (m.cpl ≡ cpl)
      × (m.tlb_shift_read ≡ (if cpl == 3 then 4 else 0))
      × (m.tlb_shift_write ≡ (if cpl == 3 then 6 else 2))

  -- What the other direction starts from.
  abbrev IsReady : Machine D → Machine D → Type 0
  IsReady m after =
      (after.cpu.reg32 1 ≡ m.cpu.reg32 1)
      × (after.cpu.reg32 2 ≡ m.cpu.reg32 2)
      × (after.sysenter ≡ m.sysenter)
      × (after.cr ≡ m.cr)

  f_reload-virt_eip : (m : Machine D) → virt_eip (f_reload_cs_base m) ≡ virt_eip m
  unfolding f_reload_cs_base
  f_reload-virt_eip m =
      if-either (λ (m' : Machine D). virt_eip m' ≡ virt_eip m)
        (bit_and (tag_of (virt_eip m) m.tlb_shift_read m) 2 != 0) (λ _. refl) (λ _. omega arith)

  f_reload-RunsAt :
      (eip esp cs ss cpl : ℕ) (m : Machine D)
      → RunsAt eip esp cs ss cpl m
      → RunsAt eip esp cs ss cpl (f_reload_cs_base m)
  unfolding f_reload_cs_base
  f_reload-RunsAt eip esp cs ss cpl m (at, stack, code, stacks, level, reads, writes) =
      let (stack', code', stacks', level', reads', writes') =
        if-either
          (λ (m' : Machine D).
            (esp_of m' ≡ esp)
            × ((m'.seg 1 ≡ cs) × (m'.seg_base 1 ≡ 0) × (m'.seg_limit 1 ≡ 0xffff_ffff))
            × ((m'.seg 2 ≡ ss) × (m'.seg_base 2 ≡ 0) × (m'.seg_limit 2 ≡ 0xffff_ffff))
            × (m'.cpl ≡ cpl)
            × (m'.tlb_shift_read ≡ (if cpl == 3 then 4 else 0))
            × (m'.tlb_shift_write ≡ (if cpl == 3 then 6 else 2)))
          (bit_and (tag_of (virt_eip m) m.tlb_shift_read m) 2 != 0)
          (λ _. (stack, code, stacks, level, reads, writes))
          (λ _. (stack, code, stacks, level, reads, writes)) in
      (f_reload-virt_eip m ∙ at, stack', code', stacks', level', reads', writes')

  RunsAt-same :
      (eip esp cs ss eip' esp' cs' ss' cpl : ℕ) (m : Machine D)
      → eip ≡ eip'
      → esp ≡ esp'
      → cs ≡ cs'
      → ss ≡ ss'
      → RunsAt eip esp cs ss cpl m
      → RunsAt eip' esp' cs' ss' cpl m
  RunsAt-same eip esp cs ss eip' esp' cs' ss' cpl m e1 e2 e3 e4
        (at, stack, (code, code1, code2), (stacks, stacks1, stacks2), level, reads, writes) =
      (
        at ∙ e1,
        stack ∙ e2,
        (code ∙ e3, code1, code2),
        (stacks ∙ e4, stacks1, stacks2),
        level,
        reads,
        writes,
      )

  f_reload-IsReady : (start m : Machine D) → IsReady start m → IsReady start (f_reload_cs_base m)
  unfolding f_reload_cs_base
  f_reload-IsReady start m ready =
      if-either (IsReady start) (bit_and (tag_of (virt_eip m) m.tlb_shift_read m) 2 != 0)
        (λ _. ready) (λ _. ready)

  module _ (eip esp cs cs_access ss ss_access cpl : ℕ) (m : Machine D) where
    -- The state with the new level, before the tag bits follow it, and the last steps.
    abbrev jumped : Machine D
    jumped = record (put_whole 1 cs cs_access (set_esp esp (set_eip eip m))) { cpl = cpl }

    abbrev stacked : Machine D → Machine D
    stacked levelled = record (put_whole 2 ss ss_access (record levelled { state_hash = 0 })) {
      esp_mask = 0xffff_ffff;
    }

    switch_level-RunsAt :
        eip < 2 ^ 32
        → RunsAt eip esp cs ss cpl (switch_level eip esp cs cs_access ss ss_access cpl m)
    unfolding switch_level cpu_prot_update_cpl f_reload_cs_base
    switch_level-RunsAt fits =
        f_reload-RunsAt eip esp cs ss cpl (stacked (cpu_prot_update_cpl jumped)) (
          if-either (λ m'. RunsAt eip esp cs ss cpl (stacked m')) (cpl == 3)
            (λ user. (
              set_eip_lands m.phys_eip m.eip_phys_bias eip fits,
              refl,
              (refl, refl, refl),
              (refl, refl, refl),
              refl,
              sym (ap (λ b. if b then 4 else 0) user),
              sym (ap (λ b. if b then 6 else 2) user),
            ))
            (λ system. (
              set_eip_lands m.phys_eip m.eip_phys_bias eip fits,
              refl,
              (refl, refl, refl),
              (refl, refl, refl),
              refl,
              sym (ap (λ b. if b then 4 else 0) system),
              sym (ap (λ b. if b then 6 else 2) system),
            )))

    switch_level-IsReady : IsReady m (switch_level eip esp cs cs_access ss ss_access cpl m)
    unfolding switch_level cpu_prot_update_cpl f_reload_cs_base
    switch_level-IsReady = f_reload-IsReady m (stacked (cpu_prot_update_cpl jumped)) (
        if-either (λ m'. IsReady m (stacked m')) (cpl == 3) (λ _. (refl, refl, refl, refl))
          (λ _. (refl, refl, refl, refl)))

  -- In protected mode with a selector for SYSENTER: SYSENTER completes at level 0, at the target, the
  -- stack and the selectors that its registers name; SYSEXIT after it completes at level 3, at EDX with
  -- the stack at ECX and the selectors of the user; each time both segments are flat and the tag bits
  -- that accesses look at are those of the level.
  pub sysexit-f_sysenter :
      (m : Machine D)
      → bit_and (m.cr 0) 1 ≢ 0
      → cs_offset m ≢ 0
      → m.sysenter 2 < 2 ^ 32
      → m.cpu.reg32 2 < 2 ^ 32
      → (entered : Machine D) × (left : Machine D) × (f_sysenter m ≡ (completed tt, entered))
        × RunsAt
            (m.sysenter 2)
            (m.sysenter 1)
            (cs_offset m)
            (bit_and (cs_offset m + 8) 0xfffc)
            0
            entered
        × (sysexit entered ≡ (completed tt, left))
        × RunsAt
            (m.cpu.reg32 2)
            (m.cpu.reg32 1)
            (u16 (bit_or (m.sysenter 0) 3 + 16))
            (u16 (bit_or (m.sysenter 0) 3 + 24))
            3
            left
  unfolding f_sysenter sysexit switch_level
  sysexit-f_sysenter m protected named target_fits return_fits =
      let protected' : (bit_and (m.cr 0) 1 == 0) ≡ false = ground arith in
      let named' : (cs_offset m == 0) ≡ false = ground arith in
      let cs = cs_offset m in
      let ss = bit_and (cs_offset m + 8) 0xfffc in
      let enter = λ (m' : Machine D).
        switch_level (m.sysenter 2) (m.sysenter 1) cs 0x809b ss 0xc093 0 (clear_flags m') in
      let entered = enter m in
      let runs =
        switch_level-RunsAt (m.sysenter 2) (m.sysenter 1) cs 0x809b ss 0xc093 0 (clear_flags m)
          target_fits in
      let (counter, data_, same, same_cr) =
        switch_level-IsReady (m.sysenter 2) (m.sysenter 1) cs 0x809b ss 0xc093 0 (clear_flags m) in
      let at_zero : (entered.cpl != 0) ≡ false = ap (λ n. n != 0) (runs.4) in
      let cs' = u16 (bit_or (entered.sysenter 0) 3 + 16) in
      let ss' = u16 (bit_or (entered.sysenter 0) 3 + 24) in
      let leave = λ (m' : Machine D).
        switch_level (entered.cpu.reg32 2) (entered.cpu.reg32 1) cs' 0x80fb ss' 0xc0f3 3 m' in
      (
        entered,
        leave entered,
        ap₂ (λ a b. if a || b then raise 13 0 m else modify enter m) protected' named',
        runs,
        ap₂ (λ a b. if a || b || entered.cpl != 0 then raise 13 0 entered else modify leave entered)
              (ap (λ cr. bit_and (cr 0) 1 == 0) same_cr ∙ protected')
              (ap (λ s. bit_and (s 0) 0xfffc == 0) same ∙ named')
            ∙ ap (λ b. if b then raise 13 0 entered else modify leave entered) at_zero,
        RunsAt-same (entered.cpu.reg32 2) (entered.cpu.reg32 1) cs' ss' (m.cpu.reg32 2)
            (m.cpu.reg32 1) (u16 (bit_or (m.sysenter 0) 3 + 16))
            (u16 (bit_or (m.sysenter 0) 3 + 24)) 3 (leave entered) data_ counter
            (ap (λ s. u16 (bit_or (s 0) 3 + 16)) same) (ap (λ s. u16 (bit_or (s 0) 3 + 24)) same)
            (switch_level-RunsAt (entered.cpu.reg32 2) (entered.cpu.reg32 1) cs' 0x80fb ss' 0xc0f3 3
              entered (subst (λ n. n < 2 ^ 32) (sym data_) return_fits)),
      )
