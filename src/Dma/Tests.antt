-- ===== src/Dma/Tests.antt =====
-- The theorems about the DMA controllers on one state.
use cpu_ia32_cpp.Base.{ℕ, ◌≡◌, refl, some, [], if◌then◌else◌, ◌==◌, arith}
use cpu_ia32_cpp.Dma.State.{Dma, Machine}
use cpu_ia32_cpp.Base.{int_of}
use cpu_ia32_cpp.Dma.Ports.{among, read_channel, offset_of, write_channel}
use cpu_ia32_cpp.Dma.Channels.{agreeing_ports, read_channel-write_channel}
use cpu_ia32_cpp.Dma.Transfers.{run_channel, transfer_of}
use cpu_ia32_cpp.Dma.Units.{units, expected}
use cpu_ia32_cpp.Dma.Complete.{IsDone, run_channel-completes}
use cpu_ia32_cpp.Dma.Bytes.{joined, written, write_address-both}

-- The floppy controller asks for four bytes into the memory before 0x1000.
abbrev asking : Dma
asking = record {
  addr_high = λ _. 0;
  start_addr = λ _. 0;
  current_addr = λ i. if i == 2 then 0x0ffe else 0;
  start_count = λ _. 0;
  current_count = λ i. if i == 2 then 3 else 0;
  mode = λ i. if i == 2 then 0x46 else 0;
  command = λ _. 0;
  status = λ i. if i == 0 then 0x40 else 0;
  request = λ _. 0;
  mask = λ _. 0;
  flipflop = λ _. 0;
}

abbrev machine : Machine
machine = record { dma = asking; actions = [] }

run_channel-completes_example :
    (after : Machine) × (run_channel 2 machine ≡ some after)
    × (units after.actions ≡ expected 4 (transfer_of asking 2) 0x0ffe 0 (units []))
    × IsDone asking after.dma
run_channel-completes_example = run_channel-completes machine (omega arith) (omega arith)

write_address-both_example :
    ((written 0x04 0xfe 0x0f asking refl).flipflop (offset_of 0x04) ≡ 0)
    × ((i : ℕ)
        → ((written 0x04 0xfe 0x0f asking refl).start_addr i
            ≡ (if write_channel 0x04 == i then joined 0xfe 0x0f else asking.start_addr i))
          × ((written 0x04 0xfe 0x0f asking refl).current_addr i
              ≡ (if write_channel 0x04 == i then joined 0xfe 0x0f else asking.current_addr i)))
write_address-both_example = write_address-both 0x04 0xfe 0x0f asking refl

-- Channel 1's address port reads channel 2.
read_channel-write_channel_example :
    int_of (read_channel 0x02 == write_channel 0x02) ≡ int_of (among 0x02 agreeing_ports)
read_channel-write_channel_example = read_channel-write_channel 0x02 (omega arith) refl
