-- ===== src/Dma/Channels.antt =====
-- dma.cpp: the channels that the ports of the address and count registers read and write.
use cpu_ia32_cpp.Base.{
  ℕ, ◌<◌, ◌≡◌, refl, Bool, true, ◌||◌, not, List, [], ◌∷◌, ◌==◌, int_of, ==_iff,
}
use cpu_ia32_cpp.Base.Bits.{all_below, all_below_sound}
use cpu_ia32_cpp.Dma.Ports.{among, address_ports, count_ports, read_channel, write_channel}

-- The ports of the channels' registers.
abbrev pub is_channel_port : ℕ → Bool
is_channel_port port = among port address_ports || among port count_ports

-- The address ports of the channels 0 and 4, and the count ports of the channels 3 and 7.
abbrev pub agreeing_ports : List ℕ
agreeing_ports = 0x00 ∷ 0x07 ∷ 0xc0 ∷ 0xce ∷ []

abbrev test : ℕ → Bool
test port =
    not (is_channel_port port)
    || (int_of (read_channel port == write_channel port) == int_of (among port agreeing_ports))

channel_table : all_below 256 test ≡ true
unfolding all_below
channel_table = refl

-- Of the 16 ports of the address and count registers, exactly four read the channel that they
-- write: the address ports of the channels 0 and 4, and the count ports of the channels 3 and 7.
pub read_channel-write_channel :
    (port : ℕ)
    → port < 256
    → is_channel_port port ≡ true
    → int_of (read_channel port == write_channel port) ≡ int_of (among port agreeing_ports)
read_channel-write_channel port small is_port =
    let tested : test port ≡ true = all_below_sound 256 test port channel_table small in
    (==_iff _ _).0 (rw is_port at tested)
