-- ===== src/Packet/Tests.antt =====
-- The layers of sample packets.
use blueman_artifact.Prelude.{◌%◌, ◌≤◌, ◌<◌, ◌≡◌, ◌↔◌, ◌⊎◌, peek}
use blueman_artifact.Machine.{Machine, ok}
use blueman_artifact.Packet.{Layer, ll, att, sm, get_upper_layer_type}
use blueman_artifact.Packet.Kind.{get_upper_layer_type_lem}
use blueman_artifact.Packet.Samples.{sample, sample-IsPacket, always}

-- A start of an L2CAP frame of 15 bytes on channel 4.
abbrev attribute : Machine
attribute = sample 0x12345678 20 37 0x0f02 4 (always 90)

get_upper_layer_type_example :
    (l : Layer) × (get_upper_layer_type attribute ≡ ok l attribute)
    × ((l ≡ att) ↔ (
        (peek attribute.mem 24 1 % 4 ≡ 2)
        × (4 ≤ peek attribute.mem 25 1)
        × (peek attribute.mem 28 2 ≡ 4)))
    × ((l ≡ sm) ↔ (
        (peek attribute.mem 24 1 % 4 ≡ 2)
        × (4 ≤ peek attribute.mem 25 1)
        × (peek attribute.mem 28 2 ≡ 6)))
    × ((l ≡ ll) ↔ ((peek attribute.mem 24 1 % 4 ≡ 3) ⊎ (peek attribute.mem 25 1 < 4)))
get_upper_layer_type_example =
    get_upper_layer_type_lem attribute (sample-IsPacket 0x12345678 20 37 0x0f02 4 (always 90))
