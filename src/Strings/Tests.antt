-- ===== src/Strings/Tests.antt =====
-- The theorems about the string instructions on one state.
use cpu_ia32_cpp.Base.{
  ℕ, zero, suc, ◌+◌, ◌*◌, ◌≡◌, refl, inr, arith, false, ◌==◌, if◌then◌else◌, w8, w32,
}
use cpu_ia32_cpp.Memory.State.{Machine, completed}
use cpu_ia32_cpp.Memory.Sample.{counter, registers, machine}
use cpu_ia32_cpp.Strings.Loop.{a16, a32, count_of, dest_of}
use cpu_ia32_cpp.Strings.Units.{stos, scas}
use cpu_ia32_cpp.Strings.Elements.{IsFilled, IsDirect}
use cpu_ia32_cpp.Strings.Fill.{stos-fills}
use cpu_ia32_cpp.Strings.Scan.Rounds.{IsCompared, ends_for, scanned, last_scanned}
use cpu_ia32_cpp.Strings.Scan.Calls.{scas-scans}

-- Three elements at 0x6004, in the page that the translation buffer has; the accumulator is 6.
abbrev ready : Machine ℕ
ready = record machine {
  cpu = record registers { reg32 = λ i. if i == 7 then 0x6004 else if i == 1 then 3 else 6 };
}

-- REPZ and REPNZ.
abbrev repz : ℕ
repz = 64

abbrev repnz : ℕ
repnz = 128

dwords-IsDirect : IsDirect w32 3 0x6004 0x6004 2 ready
dwords-IsDirect zero lt = (refl, refl)
dwords-IsDirect (suc zero) lt = (refl, refl)
dwords-IsDirect (suc (suc zero)) lt = (refl, refl)
dwords-IsDirect (suc (suc (suc j))) lt = absurd (omega arith)

bytes-IsDirect : IsDirect w8 3 0x6004 0x6004 0 ready
bytes-IsDirect zero lt = (refl, refl)
bytes-IsDirect (suc zero) lt = (refl, refl)
bytes-IsDirect (suc (suc zero)) lt = (refl, refl)
bytes-IsDirect (suc (suc (suc j))) lt = absurd (omega arith)

stos-fills_example :
    (after : Machine ℕ) × (stos counter w32 a32 repz ready ≡ (completed false, after))
    × (count_of a32 after ≡ 0)
    × (dest_of a32 after ≡ 0x6010)
    × IsFilled w32 3 0x6004 6 ready.mem after.mem
stos-fills_example =
    stos-fills counter w32 a32 repz 0x6004 ready refl refl (omega arith) (omega arith) (omega arith)
      dwords-IsDirect

-- The bytes are 4, 5 and 6.
scas-scans_example :
    (after : Machine ℕ) × (scas counter w8 a16 repnz ready ≡ (completed false, after))
    × (count_of a16 after + scanned w8 (ends_for 2 6) ready.mem 3 0x6004 ≡ 3)
    × (dest_of a16 after ≡ 0x6004 + scanned w8 (ends_for 2 6) ready.mem 3 0x6004 * 1)
    × IsCompared w8 6 (last_scanned w8 (ends_for 2 6) ready.mem 3 0x6004) ready after
scas-scans_example =
    scas-scans counter w8 a16 repnz 0x6004 ready (inr refl) refl (omega arith) (omega arith)
      (omega arith) bytes-IsDirect

all_scanned : scanned w8 (ends_for 2 6) ready.mem 3 0x6004 ≡ 3
unfolding scanned
all_scanned = refl
