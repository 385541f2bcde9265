-- ===== src/ControlFlow/SystemCalls.antt =====
-- cpu/ctrlflow.cpp: SYSENTER and SYSEXIT.
use cpu_ia32_cpp.Base.{
  ℕ, ◌+◌, bit_and, bit_or, ◌||◌, ◌==◌, ◌!=◌, if◌then◌else◌, not32, u16, add32, sub32, update,
}
use cpu_ia32_cpp.Memory.State.{Machine, M, modify, raise}
use cpu_ia32_cpp.Memory.Access.{tag_of, phys_of}
use cpu_ia32_cpp.Memory.Segments.{cpu_prot_update_cpl, virt_eip, set_eip}
use cpu_ia32_cpp.Memory.Stack.{set_esp}

module _ {D : Type 0} where
  -- The code segment's base is 0 here.
  unfoldable pub f_reload_cs_base : Machine D → Machine D
  f_reload_cs_base m =
      let eip = virt_eip m in
      if bit_and (tag_of eip m.tlb_shift_read m) 2 != 0
      then record m { last_phys_eip = add32 m.phys_eip 0x1000 }
      else record m {
        phys_eip = phys_of eip m;
        last_phys_eip = bit_and (phys_of eip m) (not32 0xfff);
        eip_phys_bias = sub32 eip (phys_of eip m);
      }

  -- A segment of 4 gigabytes from 0 on.
  abbrev pub put_whole : ℕ → ℕ → ℕ → Machine D → Machine D
  put_whole id sel access m = record m {
    seg = update m.seg id sel;
    seg_base = update m.seg_base id 0;
    seg_limit = update m.seg_limit id 0xffff_ffff;
    seg_access = update m.seg_access id access;
  }

  -- What both do once the checks are passed: the target, the two segments and the level.
  unfoldable pub switch_level : ℕ → ℕ → ℕ → ℕ → ℕ → ℕ → ℕ → Machine D → Machine D
  unfolding cpu_prot_update_cpl f_reload_cs_base
  switch_level eip esp cs cs_access ss ss_access cpl m =
      let jumped = put_whole 1 cs cs_access (set_esp esp (set_eip eip m)) in
      let levelled = cpu_prot_update_cpl (record jumped { cpl = cpl }) in
      f_reload_cs_base (record (put_whole 2 ss ss_access (record levelled { state_hash = 0 })) {
        esp_mask = 0xffff_ffff;
      })

  -- `m_eflags &= ~(0x200 | 0x20000)`
  abbrev pub clear_flags : Machine D → Machine D
  clear_flags m = record m {
    cpu = record m.cpu { eflags = bit_and m.cpu.eflags (not32 (bit_or 0x200 0x2_0000)) };
  }

  -- The selector of the code segment, without its level.
  abbrev pub cs_offset : Machine D → ℕ
  cs_offset m = bit_and (m.sysenter 0) 0xfffc

  unfoldable pub f_sysenter : M D (Unit {0})
  unfolding switch_level
  f_sysenter m =
      if bit_and (m.cr 0) 1 == 0 || cs_offset m == 0
      then raise 13 0 m
      else modify
          (λ m'.
            switch_level (m.sysenter 2) (m.sysenter 1) (cs_offset m) 0x809b
              (bit_and (cs_offset m + 8) 0xfffc) 0xc093 0 (clear_flags m'))
          m

  unfoldable pub sysexit : M D (Unit {0})
  unfolding switch_level
  sysexit m =
      if bit_and (m.cr 0) 1 == 0 || cs_offset m == 0 || m.cpl != 0
      then raise 13 0 m
      else modify
          (λ m'.
            switch_level (m.cpu.reg32 2) (m.cpu.reg32 1) (u16 (bit_or (m.sysenter 0) 3 + 16)) 0x80fb
              (u16 (bit_or (m.sysenter 0) 3 + 24)) 0xc0f3 3 m')
          m
