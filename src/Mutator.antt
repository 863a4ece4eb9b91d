-- ===== src/Mutator.antt =====
-- The interface between the fuzzer and the mutator that is linked in (include/mutator/mutator.h):
-- `mutate_pkt` on one packet, and what its callers may rely on. The packets of the fuzzer are values
-- with fields; a mutator works on their bytes.
pub mod Codec
pub mod Linked
pub mod Seeding
use blueman_artifact.Prelude.{ℕ, ◌≤◌, ◌≡◌, List, Option, none, some, peek, drop}
use blueman_artifact.Machine.{Machine, Run, ok, fault, Cmd}
use blueman_artifact.Machine.Total.{Returns}
use blueman_artifact.Packet.{
  IsPacket, sid, len, max_payload_len, sid_at, device_id_at, mutated_at, address_at, len_at,
  max_payload_len_at, pkt_at,
}
use blueman_artifact.PktRecord.{BlePkt, encode}

-- The low half of the device id, which the mutators do not write.
abbrev pub device_low : Machine → ℕ
device_low s = peek s.mem device_id_at 2

-- A mutator returns, and keeps the packet well formed, its sequence id and the low half of its device
-- id, on every packet with a payload limit of 1 to 250 and a length of at most 258.
pub record Mutator : Type 0 where
  pub mutate_pkt : ℕ → Cmd ℕ
  pub safe :
      (s : Machine) (idx : ℕ)
      → IsPacket s
      → 1 ≤ max_payload_len s
      → max_payload_len s ≤ 250
      → len s ≤ 258
      → Returns
          (λ ret t. IsPacket t × (sid t ≡ sid s) × (device_low t ≡ device_low s))
          (mutate_pkt idx s)

-- The fields of a `BLE_pkt` in memory.
unfoldable pub decode : List ℕ → BlePkt
decode mem = record {
  sid = peek mem sid_at 4;
  device_id = peek mem device_id_at 4;
  mutated = peek mem mutated_at 4;
  address = peek mem address_at 4;
  len = peek mem len_at 4;
  max_payload_len = peek mem max_payload_len_at 4;
  pkt = drop pkt_at mem;
}

abbrev pub machine_of : BlePkt → (ℕ → ℕ) → Machine
machine_of p draws = record { mem = encode p; draws = draws }

abbrev pub mutated_pkt : Run ℕ → Option (BlePkt × (ℕ → ℕ))
unfolding decode
mutated_pkt (ok ret t) = some (decode t.mem, t.draws)
mutated_pkt fault = none

-- A call of `mutate_pkt`, and the random numbers that are left; `none` is an access outside the
-- packet. The fuzzer does not use the result.
unfoldable pub call_mutator : Mutator → ℕ → BlePkt → (ℕ → ℕ) → Option (BlePkt × (ℕ → ℕ))
call_mutator m idx p draws = mutated_pkt (m.mutate_pkt idx (machine_of p draws))
