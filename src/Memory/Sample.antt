-- ===== src/Memory/Sample.antt =====
-- A machine of one megabyte, on which the tests of this folder and of Strings run.
use cpu_ia32_cpp.Base.{ℕ, ◌+◌, ◌%◌, ◌==◌, if◌then◌else◌}
use cpu_ia32_cpp.Cpu.State.{Cpu}
use cpu_ia32_cpp.Memory.State.{Bus, Machine}

-- A bus that counts the writes and reads the count.
abbrev pub counter : Bus ℕ
counter = record { mmio_read = λ _ _ d. (d, d); mmio_write = λ _ _ _ d. d + 1 }

abbrev pub registers : Cpu
registers = record {
  lr = 0;
  lop1 = 0;
  lop2 = 0;
  laux = 0;
  eflags = 2;
  reg32 = λ i. if i == 4 then 0x7000 else i;
  cycles = 0;
  refill_counter = 0;
  cycles_to_run = 100;
  cycle_offset = 100;
}

-- One megabyte, paging off, code in blocks 0 and 2 of page 1, and page 6 in the translation buffer.
abbrev pub machine : Machine ℕ
machine = record {
  cpu = registers;
  cr = λ _. 0;
  dr = λ _. 0;
  cpl = 0;
  ia32_efer = 0;
  sysenter = λ i. if i == 0 then 8 else if i == 1 then 0x5000 else 0x6100;
  seg = λ _. 0;
  seg_base = λ _. 0;
  seg_limit = λ _. 0xffff;
  seg_access = λ _. 0;
  esp_mask = 0xffff;
  state_hash = 3;
  phys_eip = 0x1000;
  last_phys_eip = 0x1000;
  eip_phys_bias = 0;
  tlb_shift_read = 0;
  tlb_shift_write = 2;
  a20_mask = 0xffff_ffff;
  memory_size = 0x10_0000;
  mem = λ a. a % 256;
  smc_has_code_length = 256;
  smc_has_code = λ page. if page == 1 then 5 else 0;
  tlb_entry_count = 1;
  tlb_entry_indexes = λ _. 6;
  tlb_tags = λ entry. if entry == 6 then 0 else 0xff;
  tlb_attrs = λ entry. if entry == 6 then 2 else 0xff;
  tlb = λ _. 0;
  trace_phys = λ place. place;
  trace_flags = λ _. 1;
  devices = 0;
}
