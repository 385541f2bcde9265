-- ===== src/ControlFlow/Tests.antt =====
-- The theorem about SYSENTER and SYSEXIT on one state.
use cpu_ia32_cpp.Base.{ℕ, ◌≡◌, arith}
use cpu_ia32_cpp.Memory.State.{Machine, completed}
use cpu_ia32_cpp.Memory.Sample.{machine}
use cpu_ia32_cpp.ControlFlow.SystemCalls.{f_sysenter, sysexit}
use cpu_ia32_cpp.ControlFlow.Levels.{RunsAt, sysexit-f_sysenter}

-- A user's program in protected mode; ECX is 1 and EDX 2.
abbrev user : Machine ℕ
user = record machine { cr = λ _. 1; cpl = 3; tlb_shift_read = 4; tlb_shift_write = 6 }

sysexit-f_sysenter_example :
    (entered : Machine ℕ) × (left : Machine ℕ) × (f_sysenter user ≡ (completed tt, entered))
    × RunsAt 0x6100 0x5000 8 16 0 entered
    × (sysexit entered ≡ (completed tt, left))
    × RunsAt 2 1 27 35 3 left
sysexit-f_sysenter_example =
    sysexit-f_sysenter user (λ e. absurd (omega arith)) (λ e. absurd (omega arith)) (omega arith)
      (omega arith)
