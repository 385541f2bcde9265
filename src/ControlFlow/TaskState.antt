-- ===== src/ControlFlow/TaskState.antt =====
-- cpu/ctrlflow.cpp: the stacks of the levels in the task state segment, the segment that a task gate
-- names, and the parameters of a call gate.
use cpu_ia32_cpp.Base.{
  ℕ, ◌+◌, ◌-◌, ◌*◌, bit_and, Bool, ◌&&◌, ◌||◌, ltb, leb, ◌==◌, ◌!=◌, some, if◌then◌else◌, add32,
  Width, w16, w32,
}
use cpu_ia32_cpp.Memory.State.{Bus, M, get, raise, pure, ◌>>=◌}
use cpu_ia32_cpp.Memory.Access.{bytes, read_mem}
use cpu_ia32_cpp.Memory.Segments.{SegDesc, access_of, type_of, cpu_seg_gate_target_segment}
use cpu_ia32_cpp.Memory.Selectors.{cpu_seg_load_descriptor2}

-- `BUSY_TSS_286` and `AVAILABLE_TSS_286`
unfoldable pub tss_is_16 : ℕ → Bool
tss_is_16 type = type == 3 || type == 1

-- The distance from the first byte to the last.
abbrev last_byte : Width → ℕ
last_byte w = bytes w - 1

module _ {D : Type 0} (bus : Bus D) where
  -- The selector and the descriptor of the task state segment.
  unfoldable pub load_tss_from_task_gate : SegDesc → M D (ℕ × SegDesc)
  unfolding cpu_seg_gate_target_segment cpu_seg_load_descriptor2
  load_tss_from_task_gate gate =
      let new_seg = cpu_seg_gate_target_segment gate in
      let offset = bit_and new_seg 0xfffc in
      if bit_and new_seg 4 != 0 then raise 10 offset else do
        info ← cpu_seg_load_descriptor2 bus 7 new_seg (some 13) offset
        let type = type_of (access_of info)
        if type != 1 && type != 9
            then raise 13 offset
            else if bit_and (access_of info) 0x80 == 0
            then raise 11 offset
            else pure (new_seg, info)

  -- A field of the segment at `addr`, within its limit.
  abbrev read_tss : Width → ℕ → M D ℕ
  unfolding read_mem
  read_tss w addr = do
    m ← get
    if leb (m.seg_limit 6) (addr + bytes w)
        then raise 10 (bit_and (m.seg 6) 0xfffc)
        else read_mem bus w (add32 addr (m.seg_base 6)) 0

  unfoldable pub get_tss_esp : ℕ → M D ℕ
  unfolding read_mem tss_is_16
  get_tss_esp level = do
    m ← get
    if tss_is_16 (type_of (m.seg_access 6))
        then read_tss w16 (2 + level * 4)
        else read_tss w32 (4 + level * 8)

  unfoldable pub get_tss_ss : ℕ → M D ℕ
  unfolding read_mem tss_is_16
  get_tss_ss level = do
    m ← get
    temp ←
        if tss_is_16 (type_of (m.seg_access 6))
        then read_tss w16 (2 + level * 4 + 2)
        else read_tss w32 (4 + level * 8 + 4)
    pure (bit_and temp 0xffff)

  -- `call_gate_read_param32` and `call_gate_read_param16`
  unfoldable pub call_gate_read_param : Width → ℕ → ℕ → M D ℕ
  unfolding read_mem
  call_gate_read_param w addr mask = do
    m ← get
    if ltb (m.seg_limit 2) (add32 addr (last_byte w))
        then raise 12 0
        else read_mem bus w (add32 addr (m.seg_base 2)) mask
