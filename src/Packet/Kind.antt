-- ===== src/Packet/Kind.antt =====
-- Reading a packet's kind never faults, and what the layers mean in terms of the bytes.
use blueman_artifact.Prelude.{
  ℕ, ◌+◌, ◌%◌, ◌≤◌, ◌<◌, ◌≡◌, ◌↔◌, ◌⊎◌, if◌then◌else◌, ltb, ◌==◌, arith, peek, true, false, bit_and,
}
use blueman_artifact.Machine.{Machine, ok}
use blueman_artifact.Machine.Touches.{Touches, Touches-pure, Touches-bind, Touches-if, Touches-load}
use blueman_artifact.Bits.{bit_and_three}
use blueman_artifact.Packet.{
  IsPacket, Layer, ll, l2cap, sm, att, get_upper_layer_type, is_data_packet, load_max_payload_len,
  pkt_at, address_at, max_payload_len_at, max_payload_len, address,
}
use blueman_artifact.Packet.Layout.{load-ok}

-- A packet is a data packet exactly if its access address is not the advertising one.
pub is_data_packet-ok :
    (s : Machine)
    → IsPacket s
    → is_data_packet s ≡ ok (if address s == 0x8e89bed6 then false else true) s
unfolding is_data_packet
is_data_packet-ok s v = rw (load-ok 4 address_at s (omega (arith, v.size)))

module _ {lo : ℕ} where
  pub get_upper_layer_type-Touches : Touches lo 279 (λ _. Unit) get_upper_layer_type
  unfolding get_upper_layer_type
  get_upper_layer_type-Touches = Touches-bind (Touches-load 1 pkt_at (omega arith)) λ header u.
      Touches-bind (Touches-load 1 (pkt_at + 1) (omega arith)) λ n u.
        Touches-if (bit_and header 3 == 3) (λ e. Touches-pure tt)
          λ e.
            Touches-if (ltb n 4) (λ e. Touches-pure tt)
              λ e.
                Touches-if (bit_and header 3 == 2)
                  (λ e.
                    Touches-bind (Touches-load 2 (pkt_at + 2 + 2) (omega arith))
                      λ cid u. Touches-pure tt)
                  (λ e. Touches-pure tt)

  pub is_data_packet-Touches : Touches lo 279 (λ _. Unit) is_data_packet
  unfolding is_data_packet
  is_data_packet-Touches =
      Touches-bind (Touches-load 4 address_at (omega arith)) λ a u. Touches-pure tt

pub load_max_payload_len-ok :
    (s : Machine)
    → IsPacket s
    → max_payload_len s ≤ 255
    → load_max_payload_len s ≡ ok (max_payload_len s) s
unfolding load_max_payload_len
load_max_payload_len-ok s v h =
    rw (load-ok 4 max_payload_len_at s (omega (arith, v.size))) (ground arith)

-- The layer by the LLID, the length byte and the channel id.
abbrev pub layer_of : ℕ → ℕ → ℕ → Layer
layer_of header n cid =
    if header % 4 == 3
    then ll
    else if ltb n 4
    then ll
    else if header % 4 == 2
    then (if cid == 4 then att else if cid == 6 then sm else l2cap)
    else l2cap

pub layer_of-load :
    (s : Machine)
    → IsPacket s
    → get_upper_layer_type s ≡ ok (layer_of (peek s.mem 24 1) (peek s.mem 25 1) (peek s.mem 28 2)) s
unfolding get_upper_layer_type
layer_of-load s v = ground (
  arith,
  load-ok 1 24 s (omega (arith, v.size)),
  load-ok 1 25 s (omega (arith, v.size)),
  bit_and_three (peek s.mem 24 1),
  load-ok 2 28 s (omega (arith, v.size)),
)

-- On every packet `get_upper_layer_type_for_zephyr` returns, reads only, and answers ATT (SM)
-- exactly for a start of an L2CAP frame (LLID 2) whose payload can hold the L2CAP header and whose
-- channel id is 4 (6), and LL exactly for a control PDU (LLID 3) or a payload below 4 bytes.
pub get_upper_layer_type_lem :
    (s : Machine)
    → IsPacket s
    → (l : Layer) × (get_upper_layer_type s ≡ ok l s)
      × ((l ≡ att) ↔ ((peek s.mem 24 1 % 4 ≡ 2) × (4 ≤ peek s.mem 25 1) × (peek s.mem 28 2 ≡ 4)))
      × ((l ≡ sm) ↔ ((peek s.mem 24 1 % 4 ≡ 2) × (4 ≤ peek s.mem 25 1) × (peek s.mem 28 2 ≡ 6)))
      × ((l ≡ ll) ↔ ((peek s.mem 24 1 % 4 ≡ 3) ⊎ (peek s.mem 25 1 < 4)))
get_upper_layer_type_lem s v = (
  layer_of (peek s.mem 24 1) (peek s.mem 25 1) (peek s.mem 28 2),
  layer_of-load s v,
  ground arith,
  ground arith,
  ground arith,
)
