-- ===== src/IoApic/State.antt =====
-- ioapic.cpp: the state of the I/O APIC, and `ioapic_update`, which sends what is asked for.
use cpu_ia32_cpp.Base.{
  ℕ, zero, suc, ◌+◌, bit_and, Bool, ◌&&◌, ◌==◌, ◌!=◌, List, ◌∷◌, if◌then◌else◌, not32, u8, ◌<<<◌,
  ◌>>>◌, Option,
}
use cpu_ia32_cpp.Pic.State.{Pic}
use cpu_ia32_cpp.Pic.Update.{pic_get_interrupt}

-- `apic_receive_bus_message(vector, type, trigger_mode)`, to the local APIC.
pub record Message : Type 0 where
  pub vector : ℕ
  pub type : ℕ
  pub trigger_mode : Bool

-- `struct ioapic_info`; entry `i` of the table is the words `2 i` and `2 i + 1` of `redtbl`. With it
-- the interrupt controllers `P`, and the messages sent, newest first.
pub record IoApic (P : Type 0) : Type 0 where
  pub base : ℕ
  pub register_selected : ℕ
  pub id : ℕ
  pub pin_state : ℕ
  pub irr : ℕ
  pub arbitration_id : ℕ
  pub redtbl : ℕ → ℕ
  pub enabled : Bool
  pub temp_data : ℕ
  pub controllers : P
  pub messages : List Message

-- What the I/O APIC calls of pic.cpp.
pub record Vectors (P : Type 0) : Type 0 where
  pub get_interrupt : P → ℕ × P

-- The interrupt controllers themselves; the argument is the local APIC's answer to them.
unfoldable pub pic_vectors : Option ℕ → Vectors Pic
unfolding pic_get_interrupt
pic_vectors local_vector = record { get_interrupt = pic_get_interrupt local_vector }

-- The bits of the low word of an entry.
abbrev pub interrupt_masked : ℕ
interrupt_masked = 1 <<< 16

abbrev pub trigger_mode_bit : ℕ
trigger_mode_bit = 1 <<< 15

abbrev pub remote_irr : ℕ
remote_irr = 1 <<< 14

abbrev pub pin_polarity : ℕ
pin_polarity = 1 <<< 13

abbrev pub is_level : ℕ → Bool
is_level low = bit_and low trigger_mode_bit != 0

abbrev pub delivery : ℕ → ℕ
delivery low = bit_and (low >>> 8) 7

-- The entry is not masked, and its line asks.
abbrev pub asks : ℕ → ℕ → ℕ → Bool
asks i low irr = bit_and low interrupt_masked == 0 && bit_and irr (1 <<< i) != 0

module _ {P : Type 0} where
  abbrev pub low_word : ℕ → IoApic P → ℕ
  low_word i s = s.redtbl (i <<< 1)

  abbrev pub send : ℕ → ℕ → Bool → IoApic P → IoApic P
  send vector type level s = record s {
    messages = (record { vector = vector; type = type; trigger_mode = level }) ∷ s.messages;
  }

  -- A request of a line that is triggered by its edge is dropped as it is sent.
  abbrev pub take_request : ℕ → ℕ → IoApic P → IoApic P
  take_request i low s = record s {
    irr = if is_level low then s.irr else bit_and s.irr (not32 (1 <<< i));
  }

module _ {P : Type 0} (pic : Vectors P) where
  -- The vector of an external interrupt comes from the interrupt controllers.
  abbrev pub send_external : Bool → IoApic P → IoApic P
  send_external level s =
      let (vector, controllers) = pic.get_interrupt s.controllers in
      send (u8 vector) 7 level (record s { controllers = controllers })

  -- The switch on the type of the delivery: 1 is the lowest priority, 7 an external interrupt.
  unfoldable pub deliver : ℕ → IoApic P → IoApic P
  deliver low s =
      let type = delivery low in
      if type == 1
      then send (u8 low) 3 (is_level low) s
      else if type == 7
      then send_external (is_level low) s
      else send (u8 low) type (is_level low) s

  unfoldable pub update_line : ℕ → IoApic P → IoApic P
  unfolding deliver
  update_line i s =
      let low = low_word i s in if asks i low s.irr then deliver low (take_request i low s) else s

  -- The loop of `ioapic_update` from line `i`, with `rounds` to go.
  unfoldable pub update_from : ℕ → ℕ → IoApic P → IoApic P
  unfolding update_line
  update_from zero i s = s
  update_from (suc rounds) i s = update_from rounds (i + 1) (update_line i s)

  unfoldable pub ioapic_update : IoApic P → IoApic P
  unfolding update_from
  ioapic_update s = update_from 24 0 s
