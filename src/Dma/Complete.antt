-- ===== src/Dma/Complete.antt =====
-- dma.cpp: a transfer of the floppy controller's channel.
use cpu_ia32_cpp.Base.{
  ℕ, ◌+◌, ◌-◌, ◌*◌, ◌^◌, ◌<◌, bit_and, bit_or, bit_xor, true, ◌&&◌, ◌==◌, ◌!=◌, if◌then◌else◌, u16,
  u32, ◌≡◌, refl, ap, ◌∙◌, arith, some, ◌<<<◌,
}
use cpu_ia32_cpp.Base.Bits.{bit_at, all_below, all_below_sound}
use cpu_ia32_cpp.Dma.State.{Dma, Machine}
use cpu_ia32_cpp.Dma.Transfers.{
  Progress, transfer_of, begin_transfer, transfer_units, finish, run_channel,
}
use cpu_ia32_cpp.Dma.Units.{units, expected, direction, units-transfer_units, addr-transfer_units}

-- What the registers of channel 2 are after a transfer of `current_count + 1` units.
pub record IsDone (before after : Dma) : Type 0 where
  pub end_addr : after.current_addr 2 ≡ (
      if bit_and (before.mode 2) 0x10 != 0
      then before.start_addr 2
      else u16
          (before.current_addr 2 + (before.current_count 2 + 1) * direction (transfer_of before 2)))
  pub end_count :
      after.current_count 2
      ≡ (if bit_and (before.mode 2) 0x10 != 0 then before.start_count 2 else 0)
  pub reached : bit_at 2 (after.status 0) ≡ 1
  pub served : bit_at 6 (after.status 0) ≡ 1 - bit_at 6 (before.status 0)
  pub other_addr :
      (i : ℕ)
      → after.current_addr i ≡ (if 2 == i then after.current_addr 2 else before.current_addr i)
  pub other_count :
      (i : ℕ)
      → after.current_count i ≡ (if 2 == i then after.current_count 2 else before.current_count i)

status_table :
    all_below 256 (λ x.
      (bit_at 2 (bit_or (bit_xor x (16 <<< 2)) (1 <<< 2)) == 1)
      && (bit_at 6 (bit_or (bit_xor x (16 <<< 2)) (1 <<< 2)) == 1 - bit_at 6 x))
    ≡ true
unfolding all_below bit_at
status_table = refl

module _ (m : Machine) (a_fits : m.dma.current_addr 2 < 2 ^ 16)
    (s_fits : m.dma.status 0 < 256) where
  done : Progress
  done =
      transfer_units (m.dma.current_count 2 + 1) (transfer_of m.dma 2)
        (begin_transfer m.dma 2 m.actions)

  last_addr :
      done.addr
      ≡ u32 (m.dma.current_addr 2 + (m.dma.current_count 2 + 1) * direction (transfer_of m.dma 2))
  unfolding done
  last_addr = addr-transfer_units _ _ _ (omega arith)

  status_after :
      (bit_at 2 (bit_or (bit_xor (m.dma.status 0) (16 <<< 2)) (1 <<< 2)) ≡ 1)
      × (bit_at 6 (bit_or (bit_xor (m.dma.status 0) (16 <<< 2)) (1 <<< 2))
          ≡ 1 - bit_at 6 (m.dma.status 0))
  status_after =
      let both =
        all_below_sound 256
          (λ (x : ℕ).
            (bit_at 2 (bit_or (bit_xor x (16 <<< 2)) (1 <<< 2)) == 1)
            && (bit_at 6 (bit_or (bit_xor x (16 <<< 2)) (1 <<< 2)) == 1 - bit_at 6 x))
          (m.dma.status 0) status_table s_fits in
      (ground arith, ground arith)

  done-IsDone : IsDone m.dma (finish 2 done m.dma)
  done-IsDone = record {
    end_addr =
        ap (λ (x : ℕ). if bit_and (m.dma.mode 2) 0x10 != 0 then m.dma.start_addr 2 else x)
          (ap u16 last_addr ∙ omega arith);
    end_count = refl;
    reached = status_after.0;
    served = status_after.1;
    other_addr = λ i. refl;
    other_count = λ i. refl;
  }

  -- The transfer of channel 2, its address register below 2 ^ 16 and the status register a byte,
  -- completes: it moves `current_count + 1` units between the buffer's places in order and the
  -- addresses counted up or down from `current_addr`; the status then shows the terminal count and
  -- the request bit turned; the registers are reloaded or stand at the end, by the mode; the
  -- current addresses and counts of the other channels are kept.
  pub run_channel-completes :
      (after : Machine) × (run_channel 2 m ≡ some after)
      × (units after.actions
          ≡ expected
              (m.dma.current_count 2 + 1)
              (transfer_of m.dma 2)
              (m.dma.current_addr 2)
              0
              (units m.actions))
      × IsDone m.dma after.dma
  unfolding run_channel units done
  run_channel-completes = (
    _,
    refl,
    units-transfer_units (transfer_of m.dma 2) (m.dma.current_count 2 + 1)
        (begin_transfer m.dma 2 m.actions) (omega arith),
    done-IsDone,
  )
