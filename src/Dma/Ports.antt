-- ===== src/Dma/Ports.antt =====
-- dma.cpp: the ports of the DMA controllers.
use cpu_ia32_cpp.Base.{
  ℕ, ◌+◌, bit_and, bit_or, Option, none, some, List, [], ◌∷◌, Bool, false, ◌||◌, ◌&&◌, leb, ◌==◌,
  ◌!=◌, int_of, if◌then◌else◌, u8, u32, not8, not32, get_elem?, update, ◌<<<◌, ◌>>>◌,
}
use cpu_ia32_cpp.Dma.State.{Dma, Machine}
use cpu_ia32_cpp.Dma.FlipFlop.{dma_flipflop_write, dma_flipflop_read}
use cpu_ia32_cpp.Dma.Transfers.{dma_run_transfers}

-- The case labels of the two switches.
abbrev pub among : ℕ → List ℕ → Bool
among port [] = false
among port (x ∷ xs) = (port == x) || among port xs

abbrev pub address_ports : List ℕ
address_ports = 0x00 ∷ 0xc0 ∷ 0x02 ∷ 0xc4 ∷ 0x04 ∷ 0xc8 ∷ 0x06 ∷ 0xcc ∷ []

abbrev pub count_ports : List ℕ
count_ports = 0x01 ∷ 0xc2 ∷ 0x03 ∷ 0xc6 ∷ 0x05 ∷ 0xca ∷ 0x07 ∷ 0xce ∷ []

abbrev pub page_register_offsets : List ℕ
page_register_offsets = 8 ∷ 2 ∷ 3 ∷ 1 ∷ 8 ∷ 8 ∷ 8 ∷ 0 ∷ 8 ∷ 6 ∷ 7 ∷ 5 ∷ 8 ∷ 8 ∷ 8 ∷ 4 ∷ []

-- The channel of a page register, `none` for an unused one.
abbrev pub page_channel : ℕ → Option ℕ
page_channel port = elim (get_elem? page_register_offsets (bit_and port 15)) [
  | none ↦ none
  | some id ↦ if leb id 7 then some id else none
]

-- `port >= 0xC0`
abbrev pub offset_of : ℕ → ℕ
offset_of port = int_of (leb 0xc0 port)

-- The channel that a port reads, and the one that it writes.
abbrev pub read_channel : ℕ → ℕ
read_channel port =
    let offset = offset_of port in bit_and (bit_or (bit_and (port >>> offset) 3) (offset <<< 2)) 7

abbrev pub write_channel : ℕ → ℕ
write_channel port =
    let offset = offset_of port in
    bit_and (bit_or (bit_and (port >>> (offset + 1)) 3) (offset <<< 2)) 7

abbrev pub read_register : ℕ → ℕ → Dma → ℕ × Dma
read_register register offset dma =
    let (result, flipflop) = dma_flipflop_read register (dma.flipflop offset) 1 in
    (result, record dma { flipflop = update dma.flipflop offset flipflop })

abbrev pub page_byte : ℕ → ℕ → Dma → ℕ
page_byte port shift dma = elim (page_channel port) [
  | none ↦ 0xffffffff
  | some id ↦ bit_and (dma.addr_high id >>> shift) 255
]

unfoldable pub dma_io_readb : ℕ → Dma → ℕ × Dma
unfolding dma_flipflop_read
dma_io_readb port dma =
    let offset = offset_of port in
    if among port address_ports
    then read_register (dma.current_addr (read_channel port)) offset dma
    else if among port count_ports
    then read_register (dma.current_count (read_channel port)) offset dma
    else if among port (0x08 ∷ 0xd0 ∷ [])
    then (dma.status offset, dma)
    else if among port (0x0f ∷ 0xde ∷ [])
    then (dma.mask offset, dma)
    else if leb 0x80 port && leb port 0x8f
    then (page_byte port 16 dma, dma)
    else if leb 0x480 port && leb port 0x48f
    then (page_byte port 24 dma, dma)
    else (0xffffffff, dma)

-- Both the start and the current register take the byte; the flip-flop turns after the second.
unfoldable pub write_address : ℕ → ℕ → Dma → Dma
unfolding dma_flipflop_write
write_address port value dma =
    let offset = offset_of port in
    let channel = write_channel port in
    let (start, same) = dma_flipflop_write (dma.start_addr channel) value (dma.flipflop offset) 0 in
    let (current, turned) = dma_flipflop_write (dma.current_addr channel) value same 1 in
    record dma {
      start_addr = update dma.start_addr channel start;
      current_addr = update dma.current_addr channel current;
      flipflop = update dma.flipflop offset turned;
    }

unfoldable pub write_count : ℕ → ℕ → Dma → Dma
unfolding dma_flipflop_write
write_count port value dma =
    let offset = offset_of port in
    let channel = write_channel port in
    let (start, same) =
      dma_flipflop_write (dma.start_count channel) value (dma.flipflop offset) 0 in
    let (current, turned) = dma_flipflop_write (dma.current_count channel) value same 1 in
    record dma {
      start_count = update dma.start_count channel start;
      current_count = update dma.current_count channel current;
      flipflop = update dma.flipflop offset turned;
    }

-- The software request: it takes the terminal count bit away too.
abbrev pub write_request : ℕ → ℕ → Dma → Dma
write_request offset value dma =
    let channel = bit_and value 3 in
    let taken = bit_and (dma.status offset) (not8 (1 <<< channel)) in
    record dma {
      status = update dma.status offset (
          if bit_and value 4 != 0
          then bit_or taken (1 <<< (channel + 4))
          else bit_and taken (not8 (1 <<< (channel + 4))));
    }

abbrev pub write_single_mask : ℕ → ℕ → Dma → Dma
write_single_mask offset value dma =
    let channel = bit_and value 3 in
    record dma {
      mask = update dma.mask offset (
          if bit_and value 4 != 0
          then bit_or (dma.mask offset) (1 <<< channel)
          else bit_and (dma.mask offset) (not8 (1 <<< channel)));
    }

abbrev pub clear_controller : ℕ → Dma → Dma
clear_controller offset dma = record dma {
  flipflop = update dma.flipflop offset 0;
  command = update dma.command offset 0;
  status = update dma.status offset 0;
  mask = update dma.mask offset 15;
}

abbrev pub write_page : ℕ → ℕ → ℕ → ℕ → Dma → Dma
write_page port byte shift value dma = elim (page_channel port) [
  | none ↦ dma
  | some id ↦ record dma {
    addr_high =
        update dma.addr_high id
          (u32 (bit_or (bit_and (dma.addr_high id) (not32 byte)) (value <<< shift)));
  }
]

abbrev pub store : Dma → Machine → Option Machine
store dma m = some (record m { dma = dma })

abbrev pub store_and_run : Dma → Machine → Option Machine
store_and_run dma m = dma_run_transfers (record m { dma = dma })

-- `none`: a transfer aborts the program.
unfoldable pub dma_io_writeb : ℕ → ℕ → Machine → Option Machine
unfolding write_address write_count dma_run_transfers
dma_io_writeb port value m =
    let offset = offset_of port in
    let dma = m.dma in
    if among port address_ports
    then store (write_address port value dma) m
    else if among port count_ports
    then store (write_count port value dma) m
    else if among port (0x08 ∷ 0xd0 ∷ [])
    then store (record dma { command = update dma.command offset (u8 value) }) m
    else if among port (0x09 ∷ 0xd2 ∷ [])
    then store_and_run (write_request offset value dma) m
    else if among port (0x0a ∷ 0xd4 ∷ [])
    then store_and_run (write_single_mask offset value dma) m
    else if among port (0x0b ∷ 0xd6 ∷ [])
    then store_and_run
        (record dma { mode = update dma.mode (bit_or (bit_and value 3) (offset <<< 2)) (u8 value) })
        m
    else if among port (0x0c ∷ 0xd8 ∷ [])
    then store (record dma { flipflop = update dma.flipflop offset 0 }) m
    else if among port (0x0d ∷ 0xda ∷ [])
    then store_and_run (clear_controller offset dma) m
    else if among port (0x0e ∷ 0xdc ∷ [])
    then store_and_run (record dma { mask = update dma.mask offset 0 }) m
    else if among port (0x0f ∷ 0xde ∷ [])
    then store_and_run (record dma { mask = update dma.mask offset (u8 value) }) m
    else if leb 0x80 port && leb port 0x8f
    then store (write_page port 0x00ff0000 16 value dma) m
    else if leb 0x480 port && leb port 0x48f
    then store (write_page port 0xff000000 24 value dma) m
    else some m

unfoldable pub dma_reset : Dma → Dma
dma_reset dma = clear_controller 1 (clear_controller 0 dma)
