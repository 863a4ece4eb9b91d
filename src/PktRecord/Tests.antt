-- ===== src/PktRecord/Tests.antt =====
-- A record of three packets, of which two can be used.
use blueman_artifact.Prelude.{
  ℕ, ◌-◌, ◌≡◌, refl, arith, List, [], ◌∷◌, ◌++◌, some, take, replicate, u32, false,
}
use blueman_artifact.PktRecord.{
  BlePkt, PktRecord, blank, add_pkt_to_seq_buf, get_pkt_seq_total_len, save_seq_buf_to_file1,
  copy_file_to_seq_buf1,
}
use blueman_artifact.PktRecord.Buffer.{
  IsValid, contents, add_all, sum_len, add_all-contents, get_pkt_seq_total_len-sum,
}
use blueman_artifact.PktRecord.Saved.{IsSaveable}
use blueman_artifact.PktRecord.File.{Restored, copy-save_file1}

abbrev packet : BlePkt
packet = record {
  sid = 7;
  device_id = 1;
  mutated = 0;
  address = 0x12345678;
  len = 20;
  max_payload_len = 37;
  pkt = replicate 255 9;
}

abbrev empty : PktRecord
empty = record { count = 0; max_count = 3; pkts_buf = blank ∷ blank ∷ blank ∷ [] }

abbrev one_packet : PktRecord
one_packet = record { count = 1; max_count = 3; pkts_buf = packet ∷ blank ∷ blank ∷ [] }

empty-IsValid : IsValid empty
empty-IsValid = record { allocated = refl; within = omega arith; small = omega arith }

one_packet-IsValid : IsValid one_packet
one_packet-IsValid = record { allocated = refl; within = omega arith; small = omega arith }

packet-IsSaveable : IsSaveable packet
packet-IsSaveable = record {
  device_word = omega arith;
  address_word = omega arith;
  limit_word = omega arith;
  framed = omega arith;
  fits = omega arith;
  array = refl;
}

-- The third of three packets is refused.
add_third_test : (add_pkt_to_seq_buf (add_all empty (packet ∷ packet ∷ [])) packet).0 ≡ false
unfolding add_pkt_to_seq_buf
add_third_test = refl

add_all_example :
    IsValid (add_all empty (packet ∷ packet ∷ packet ∷ []))
    × (contents (add_all empty (packet ∷ packet ∷ packet ∷ []))
        ≡ take (3 - 1) (contents empty ++ (packet ∷ packet ∷ packet ∷ [])))
add_all_example = add_all-contents (packet ∷ packet ∷ packet ∷ []) empty empty-IsValid

total_len_example : get_pkt_seq_total_len one_packet ≡ some (u32 (sum_len (contents one_packet)))
total_len_example = get_pkt_seq_total_len-sum one_packet one_packet-IsValid

copy-save_example :
    (file : List ℕ) × (r' : PktRecord) × (save_seq_buf_to_file1 one_packet ≡ some file)
    × (copy_file_to_seq_buf1 empty file ≡ some r')
    × (r'.count ≡ 1)
    × Restored (take 1 one_packet.pkts_buf) r'.pkts_buf
copy-save_example =
    copy-save_file1 one_packet empty (omega arith) (packet-IsSaveable, tt) (omega arith)
      (refl, (refl, (refl, tt)))
