-- ===== src/Intercept/Samples.antt =====
-- Sample packets, a corpus and a session, for the tests.
use blueman_artifact.Prelude.{
  ℕ, zero, suc, ◌<◌, ◌≡◌, ◌≢◌, refl, arith, [], ◌∷◌, some, get_elem?, replicate, AllBytes,
}
use blueman_artifact.PktRecord.{BlePkt, PktRecord, blank}
use blueman_artifact.PktRecord.Buffer.{IsValid}
use blueman_artifact.Mutator.Codec.{IsPkt, CanMutate}
use blueman_artifact.Intercept.{Session}
use blueman_artifact.Intercept.Replays.{IsCorpus}

pub AllBytes-replicate : (n v : ℕ) → v < 256 → AllBytes (replicate n v)
AllBytes-replicate zero v h j = omega arith
AllBytes-replicate (suc n) v h zero = h
AllBytes-replicate (suc n) v h (suc j) = AllBytes-replicate n v h j

abbrev pub packet : BlePkt
packet = record {
  sid = 7;
  device_id = 1;
  mutated = 1;
  address = 0x12345678;
  len = 20;
  max_payload_len = 37;
  pkt = replicate 255 9;
}

pub packet-IsPkt : IsPkt packet
packet-IsPkt = record {
  sid_word = omega arith;
  device_word = omega arith;
  mutated_word = omega arith;
  address_word = omega arith;
  len_word = omega arith;
  limit_word = omega arith;
  array = refl;
  bytes = AllBytes-replicate 255 9 (omega arith);
}

pub packet-CanMutate : CanMutate packet
packet-CanMutate = record {
  packet = packet-IsPkt;
  some_payload = omega arith;
  limit = omega arith;
  short = omega arith;
}

abbrev pub from_attacker : BlePkt
from_attacker = record packet { device_id = 2; len = 9 }

pub from_attacker-IsPkt : IsPkt from_attacker
from_attacker-IsPkt = record {
  sid_word = omega arith;
  device_word = omega arith;
  mutated_word = omega arith;
  address_word = omega arith;
  len_word = omega arith;
  limit_word = omega arith;
  array = refl;
  bytes = AllBytes-replicate 255 9 (omega arith);
}

pub from_attacker-CanMutate : CanMutate from_attacker
from_attacker-CanMutate = record {
  packet = from_attacker-IsPkt;
  some_payload = omega arith;
  limit = omega arith;
  short = omega arith;
}

abbrev pub corpus : PktRecord
corpus = record { count = 1; max_count = 3; pkts_buf = packet ∷ blank ∷ blank ∷ [] }

pub corpus-IsCorpus : IsCorpus corpus
corpus-IsCorpus = record { packets = first }
  where
    first :
        (i : ℕ)
        → i < 1
        → (src : BlePkt) × (get_elem? corpus.pkts_buf i ≡ some src)
          × IsPkt src
          × (src.device_id ≢ 0)
    first zero lt = (packet, refl, packet-IsPkt, λ e. absurd (omega arith))
    first (suc i) lt = absurd (omega arith)

abbrev pub empty : PktRecord
empty = record { count = 0; max_count = 4; pkts_buf = replicate 4 blank }

abbrev pub session : Session
session = record { pkt_rec = empty; packet_count = 0; acks = []; draws = λ i. i }

pub empty-IsValid : IsValid empty
empty-IsValid = record { allocated = refl; within = omega arith; small = omega arith }
