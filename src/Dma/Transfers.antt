-- ===== src/Dma/Transfers.antt =====
-- dma.cpp: the transfers of the channels that a device has raised and that are not masked.
use cpu_ia32_cpp.Base.{
  update, ℕ, zero, suc, ◌+◌, bit_and, bit_or, bit_xor, Option, none, some, List, ◌∷◌, ltb, leb,
  ◌==◌, ◌!=◌, int_of, if◌then◌else◌, u8, u16, add32, sub32, ◌<<<◌, ◌>>>◌,
}
use cpu_ia32_cpp.Dma.State.{
  Dma, Action, Machine, cpu_init_dma, to_memory, from_memory, fdc_dma_complete,
}

-- What the loop keeps fixed, and what it changes; the device's buffer is counted from its start.
pub record Transfer : Type 0 where
  pub high : ℕ
  pub is_write : ℕ
  pub incdec_down : ℕ
  pub is16 : ℕ

pub record Progress : Type 0 where
  pub addr : ℕ
  pub page : ℕ
  pub offset : ℕ
  pub actions : List Action

-- `((addr << is16) & 0xFFFF) | dma.addr_high[i]`
abbrev pub memory_address : Transfer → ℕ → ℕ
memory_address t addr = bit_or (bit_and (addr <<< t.is16) 0xffff) t.high

abbrev pub unit : Transfer → ℕ → ℕ → Action
unit t current_addr offset =
    if t.is_write != 0
    then to_memory current_addr offset (t.is16 + 1)
    else from_memory current_addr offset (t.is16 + 1)

-- One round of the loop.
unfoldable pub transfer_unit : Transfer → Progress → Progress
transfer_unit t s =
    let current_addr = memory_address t s.addr in
    let crosses = ltb 4095 (bit_xor current_addr s.page) in
    record {
      addr = if t.incdec_down == 0 then add32 s.addr 1 else sub32 s.addr 1;
      page = if crosses then current_addr else s.page;
      offset = s.offset + (t.is16 + 1);
      actions =
          unit t current_addr s.offset
          ∷ (if crosses then cpu_init_dma current_addr ∷ s.actions else s.actions);
    }

-- `while (ccount)`
unfoldable pub transfer_units : ℕ → Transfer → Progress → Progress
unfolding transfer_unit
transfer_units zero t s = s
transfer_units (suc ccount) t s = transfer_units ccount t (transfer_unit t s)

abbrev pub transfer_of : Dma → ℕ → Transfer
transfer_of dma i = record {
  high = dma.addr_high i;
  is_write = int_of (bit_and (dma.mode i) 0x0c == 4);
  incdec_down = bit_and (dma.mode i) 0x20;
  is16 = int_of (leb 4 i);
}

abbrev pub begin_transfer : Dma → ℕ → List Action → Progress
begin_transfer dma i actions = record {
  addr = dma.current_addr i;
  page = memory_address (transfer_of dma i) (dma.current_addr i);
  offset = 0;
  actions = actions;
}

-- After the loop, `ccount` is 0; the channel reloads in the auto-initialize mode.
abbrev pub finish : ℕ → Progress → Dma → Dma
finish i s dma =
    let reload = bit_and (dma.mode i) 0x10 != 0 in
    let requested = bit_xor (dma.status (i >>> 2)) (16 <<< bit_and i 3) in
    record dma {
      current_addr = update dma.current_addr i (if reload then dma.start_addr i else u16 s.addr);
      current_count = update dma.current_count i (if reload then dma.start_count i else 0);
      status = update dma.status (i >>> 2) (bit_or requested (1 <<< bit_and i 3));
    }

-- The transfer of one channel. `dma_get_buf` aborts the program on every line but the floppy
-- controller's.
unfoldable pub run_channel : ℕ → Machine → Option Machine
unfolding transfer_units
run_channel i m =
    let dma = m.dma in
    let done =
      transfer_units (dma.current_count i + 1) (transfer_of dma i)
        (begin_transfer dma i m.actions) in
    if i == 2
    then some (record { dma = finish i done dma; actions = fdc_dma_complete ∷ done.actions })
    else none

abbrev pub is_pending : Dma → ℕ → ℕ
is_pending dma i = bit_and (dma.status (i >>> 2)) (16 <<< bit_and i 3)

abbrev pub is_masked : Dma → ℕ → ℕ
is_masked dma i = bit_and (dma.mask (i >>> 2)) (1 <<< bit_and i 3)

unfoldable pub run_if_pending : ℕ → Machine → Option Machine
unfolding run_channel
run_if_pending i m =
    if is_pending m.dma i == 0
    then some m
    else if is_masked m.dma i != 0
    then some m
    else run_channel i m

-- The loop over the channels from `i`, with `rounds` to go.
unfoldable pub run_from : ℕ → ℕ → Machine → Option Machine
unfolding run_if_pending
run_from zero i m = some m
run_from (suc rounds) i m = elim (run_if_pending i m) [
  | none ↦ none
  | some m' ↦ run_from rounds (i + 1) m'
]

unfoldable pub dma_run_transfers : Machine → Option Machine
unfolding run_from
dma_run_transfers m = run_from 8 0 m

unfoldable pub dma_raise_dreq : ℕ → Machine → Option Machine
unfolding dma_run_transfers
dma_raise_dreq line m =
    let dma = m.dma in
    dma_run_transfers (record m {
      dma = record dma {
        status =
            update dma.status (line >>> 2)
              (u8 (bit_or (dma.status (line >>> 2)) (16 <<< bit_and line 3)));
      };
    })
