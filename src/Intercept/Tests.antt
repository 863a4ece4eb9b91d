-- ===== src/Intercept/Tests.antt =====
-- A run over a corpus of one packet, with the random mutator, and a first run of two packets.
use blueman_artifact.Prelude.{◌≤◌, ◌≡◌, refl, arith, List, [], ◌∷◌, ◌++◌, some, length}
use blueman_artifact.PktRecord.{BlePkt, PktRecord, save_seq_buf_to_file2}
use blueman_artifact.PktRecord.Buffer.{add_all, contents}
use blueman_artifact.Mutator.Linked.{random_mutator}
use blueman_artifact.Ending.{done}
use blueman_artifact.Intercept.{Session, intercept_ble_packet_for_fuzz}
use blueman_artifact.Intercept.Samples.{
  packet, packet-IsPkt, packet-CanMutate, from_attacker, from_attacker-CanMutate, corpus,
  corpus-IsCorpus, empty, empty-IsValid, session,
}
use blueman_artifact.Intercept.Replays.{
  batch_end, target, other, Answered, IsCorpus, intercept_ble_packet_for_fuzz-Answered,
}
use blueman_artifact.Intercept.Collect.{
  Arrival, Collector, start_collecting, intercept_ble_packet_for_init_corpus,
}
use blueman_artifact.Intercept.Collect.Peak.{IsPeak}
use blueman_artifact.Intercept.Collect.Gathering.{targets, pkts, deltas}
use blueman_artifact.Intercept.Feedback.{saved_run-IsCorpus}
use blueman_artifact.PktRecord.Mapped.{mmap_seq_buf_file, mmap_seq_buf_file-save}
use blueman_artifact.Intercept.Collect.Collected.{intercept_ble_packet_for_init_corpus-Collected}

intercept_for_fuzz_example :
    (acks : List BlePkt) × (recorded : List BlePkt) × (t : Session) × (intercept_ble_packet_for_fuzz
        random_mutator corpus
        ((from_attacker ∷ packet ∷ []) ++ (from_attacker ∷ packet ∷ []))
        session
      ≡ done (1, [], t))
    × Answered (from_attacker ∷ packet ∷ []) acks recorded
    × (t.acks ≡ [] ++ (acks ++ (from_attacker ∷ record packet { mutated = 2 } ∷ [])))
    × (t.pkt_rec ≡ add_all empty recorded)
intercept_for_fuzz_example =
    intercept_ble_packet_for_fuzz-Answered random_mutator corpus corpus-IsCorpus from_attacker
      packet [] session (other (λ e. absurd (omega arith)) (target refl batch_end))
      (from_attacker-CanMutate, (packet-CanMutate, tt))

abbrev arrivals : List Arrival
arrivals =
    record { pkt = packet; trace_bits = 1 ∷ [] }
    ∷ record { pkt = from_attacker; trace_bits = 1 ∷ [] }
    ∷ record { pkt = packet; trace_bits = 0x010101 ∷ [] }
    ∷ record { pkt = packet; trace_bits = 0x010101 ∷ [] }
    ∷ []

intercept_for_init_corpus_example :
    (consumed : List Arrival) × (last : Arrival) × (rest : List Arrival) × (c : Collector)
    × (arrivals ≡ consumed ++ (last ∷ rest))
    × (intercept_ble_packet_for_init_corpus 2 arrivals (start_collecting empty [])
        ≡ done (length (targets consumed), save_seq_buf_to_file2 c.pkt_rec, c))
    × (1 ≤ length (targets consumed))
    × (length (targets consumed) ≤ 2)
    × (contents c.pkt_rec ≡ pkts (targets consumed))
    × (c.acks ≡ ([] ++ pkts consumed) ++ (record last.pkt { mutated = 2 } ∷ []))
    × IsPeak (deltas 0 (targets consumed)) c.max_delta c.max_delta_index
intercept_for_init_corpus_example =
    intercept_ble_packet_for_init_corpus-Collected 2 empty [] arrivals empty-IsValid refl
      (omega arith) (omega arith) (omega arith) (omega arith)

saved_run-IsCorpus_example :
    (t : Session) × (next : PktRecord) × (intercept_ble_packet_for_fuzz random_mutator corpus
        ((from_attacker ∷ packet ∷ []) ++ (from_attacker ∷ packet ∷ []))
        session
      ≡ done (1, [], t))
    × (mmap_seq_buf_file 200 (save_seq_buf_to_file2 t.pkt_rec) ≡ some next)
    × IsCorpus next
    × (next.count ≡ 1)
saved_run-IsCorpus_example =
    saved_run-IsCorpus random_mutator corpus corpus-IsCorpus 200 (omega arith) from_attacker packet
      [] session (other (λ e. absurd (omega arith)) (target refl batch_end))
      (from_attacker-CanMutate, (packet-CanMutate, tt)) empty-IsValid refl (omega arith)

mmap_seq_buf_file_example :
    mmap_seq_buf_file 100 (save_seq_buf_to_file2 corpus)
    ≡ some (record corpus { pkts_buf = contents corpus })
mmap_seq_buf_file_example =
    mmap_seq_buf_file-save corpus 100
      (record { allocated = refl; within = omega arith; small = omega arith }) (packet-IsPkt, tt)
      (omega arith)
