-- ===== src/ControlFlow/Jumps.antt =====
-- cpu/ctrlflow.cpp: far jumps. `do_task_switch` is a parameter.
use cpu_ia32_cpp.Base.{
  ℕ, bit_and, bit_or, Bool, ◌&&◌, ◌||◌, ltb, leb, ◌==◌, ◌!=◌, true, some, if◌then◌else◌, not32,
}
use cpu_ia32_cpp.Memory.State.{Bus, M, modify, raise, pure, ◌>>=◌}
use cpu_ia32_cpp.Memory.Segments.{
  SegDesc, access_of, type_of, dpl_of, rpl_of, cpu_seg_gate_target_segment,
  cpu_seg_gate_target_offset, cpu_load_csip_real,
}
use cpu_ia32_cpp.Memory.Selectors.{cpu_seg_load_descriptor, cpu_load_csip_protected}
use cpu_ia32_cpp.ControlFlow.TaskState.{load_tss_from_task_gate}

-- Code segments that are not conforming, and those that are.
abbrev pub is_plain_code : ℕ → Bool
is_plain_code type = leb 0x18 type && leb type 0x1b

abbrev pub is_conforming_code : ℕ → Bool
is_conforming_code type = leb 0x1c type && leb type 0x1f

-- `cs & ~3`
abbrev pub descriptor_offset : ℕ → ℕ
descriptor_offset cs = bit_and cs (not32 3)

-- A switch from the level `cpl` to the task of a selector and a descriptor, with `TASK_JMP`.
abbrev pub TaskSwitch : Type 0 → Type 0
TaskSwitch D = ℕ → SegDesc → ℕ → M D (Unit {0})

module _ {D : Type 0} (bus : Bus D) (do_task_switch : TaskSwitch D) where
  -- The target of a call gate; `type` is the gate's.
  unfoldable pub jump_to_target : ℕ → ℕ → ℕ → ℕ → SegDesc → M D (Unit {0})
  unfolding cpu_load_csip_protected
  jump_to_target gate_cs gate_eip type cpl info =
      let access = access_of info in
      let offset = descriptor_offset gate_cs in
      let eip = if type == 12 then gate_eip else bit_and gate_eip 0xffff in
      let refused =
        if is_conforming_code (type_of access)
        then ltb cpl (dpl_of access)
        else if is_plain_code (type_of access)
        then dpl_of access != cpl
        else true in
      if refused
      then raise 13 offset
      else if bit_and access 0x80 == 0
      then raise 11 offset
      else cpu_load_csip_protected bus (bit_or offset cpl) info eip

  unfoldable pub jump_by_gate : ℕ → ℕ → SegDesc → M D (Unit {0})
  unfolding cpu_seg_gate_target_segment cpu_seg_gate_target_offset cpu_seg_load_descriptor
      jump_to_target
  jump_by_gate type cpl info =
      let gate_cs = cpu_seg_gate_target_segment info in
      cpu_seg_load_descriptor bus gate_cs (some 13) (descriptor_offset gate_cs)
      >>= jump_to_target gate_cs (cpu_seg_gate_target_offset info) type cpl

  unfoldable pub switch_by_gate : SegDesc → ℕ → M D (Unit {0})
  unfolding load_tss_from_task_gate
  switch_by_gate info eip_after = do
    s ← load_tss_from_task_gate bus info
    do_task_switch (s.0) (s.1) eip_after

  -- The switch on the type of the descriptor; it has no default, so that another type is no jump.
  unfoldable pub jump_by_type : ℕ → ℕ → ℕ → ℕ → SegDesc → M D (Unit {0})
  unfolding cpu_load_csip_protected jump_by_gate switch_by_gate
  jump_by_type eip cs eip_after cpl info =
      let access = access_of info in
      let type = type_of access in
      let dpl = dpl_of access in
      let rpl = rpl_of cs in
      let offset = descriptor_offset cs in
      if bit_and access 0x80 == 0
      then raise 11 offset
      else if is_plain_code type
      then if ltb cpl rpl || dpl != cpl
        then raise 13 offset
        else cpu_load_csip_protected bus (bit_or offset cpl) info eip
      else if is_conforming_code type
      then if ltb cpl dpl
        then raise 13 offset
        else cpu_load_csip_protected bus (bit_or offset cpl) info eip
      else if type == 4 || type == 12
      then if ltb dpl cpl || ltb dpl rpl then raise 13 offset else jump_by_gate type cpl info
      else if type == 1 || type == 9
      then if ltb dpl cpl || ltb dpl rpl then raise 13 offset else do_task_switch cs info eip_after
      else if type == 5
      then if ltb dpl cpl || ltb dpl rpl then raise 13 offset else switch_by_gate info eip_after
      else pure tt

  -- The reads of descriptors leave `m_cpl` as it is at the start.
  unfoldable pub jmpf : ℕ → ℕ → ℕ → M D (Unit {0})
  unfolding cpu_load_csip_real cpu_seg_load_descriptor jump_by_type
  jmpf eip cs eip_after m =
      if bit_and (m.cr 0) 1 == 0 || bit_and m.cpu.eflags 0x2_0000 != 0
      then modify (cpu_load_csip_real cs eip) m
      else if descriptor_offset cs == 0
      then raise 13 0 m
      else (cpu_seg_load_descriptor bus cs (some 13) (descriptor_offset cs)
            >>= jump_by_type eip cs eip_after m.cpl)
          m
