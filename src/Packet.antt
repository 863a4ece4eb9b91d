-- ===== src/Packet.antt =====
-- `BLE_pkt` of blueman-main/include/interceptor.h: a packed structure, modelled as its bytes,
-- since mutator_full_stack2.c writes into it through a pointer to the whole structure.
-- Also the two functions that read a packet's kind; they stand, word for word the same, in
-- mutator_full_stack2.c and mutator_random.c.
pub mod Layout
pub mod Kind
pub mod Samples
mod Tests
use blueman_artifact.Prelude.{
  ℕ, ◌+◌, ◌≡◌, bit_and, ltb, ◌==◌, if◌then◌else◌, List, length, peek, AllBytes, Bool, true, false,
}
use blueman_artifact.Machine.{Machine, Cmd, pure, ◌>>=◌, load}

abbrev pub ble_pkt_max_len : ℕ
ble_pkt_max_len = 255

-- The offsets of the fields; `sizeof(BLE_pkt)` is `pkt_at + ble_pkt_max_len`.
abbrev pub sid_at : ℕ
sid_at = 0

abbrev pub device_id_at : ℕ
device_id_at = 4

abbrev pub mutated_at : ℕ
mutated_at = 8

abbrev pub address_at : ℕ
address_at = 12

abbrev pub len_at : ℕ
len_at = 16

abbrev pub max_payload_len_at : ℕ
max_payload_len_at = 20

abbrev pub pkt_at : ℕ
pkt_at = 24

abbrev pub ble_pkt_size : ℕ
ble_pkt_size = 279

-- A machine whose block is one `BLE_pkt`.
pub record IsPacket (s : Machine) : Type 0 where
  pub size : length s.mem ≡ ble_pkt_size
  pub bytes : AllBytes s.mem

-- The fields, as values.
abbrev pub sid : Machine → ℕ
sid s = peek s.mem sid_at 4

abbrev pub device_id : Machine → ℕ
device_id s = peek s.mem device_id_at 4

abbrev pub mutated : Machine → ℕ
mutated s = peek s.mem mutated_at 4

abbrev pub address : Machine → ℕ
address s = peek s.mem address_at 4

abbrev pub len : Machine → ℕ
len s = peek s.mem len_at 4

abbrev pub max_payload_len : Machine → ℕ
max_payload_len s = peek s.mem max_payload_len_at 4

-- The FUZZ_*_LAYER constants that are returned.
pub data Layer : Type 0 where
  ll l2cap sm att : Layer

unfoldable pub get_upper_layer_type : Cmd Layer
get_upper_layer_type = do
  header ← load 1 pkt_at
  let llid = bit_and header 3
  ll_payload_len ← load 1 (pkt_at + 1)
  if llid == 3
      then pure ll
      else if ltb ll_payload_len 4
      then pure ll
      else if llid == 2
      then (load 2 (pkt_at + 2 + 2) >>= λ cid.
          pure (if cid == 0x4 then att else if cid == 0x6 then sm else l2cap))
      else pure l2cap

unfoldable pub is_data_packet : Cmd Bool
is_data_packet = load 4 address_at >>= λ access_address.
    pure (if access_address == 0x8e89bed6 then false else true)

-- `pkt->max_payload_len > BLE_PKT_MAX_LEN ? BLE_PKT_MAX_LEN : pkt->max_payload_len`
unfoldable pub load_max_payload_len : Cmd ℕ
load_max_payload_len =
    load 4 max_payload_len_at >>= λ m. pure (if ltb ble_pkt_max_len m then ble_pkt_max_len else m)
