-- ===== src/Radio/Tests.antt =====
-- An exchange between the radio and the fuzzer: one packet for the corpus and two more.
use blueman_artifact.Prelude.{
  ℕ, ◌≤◌, ◌≡◌, ◌≢◌, ◌⊎◌, refl, arith, List, [], ◌∷◌, ◌++◌, replicate, chunk,
}
use blueman_artifact.Ending.{done, stuck, fault}
use blueman_artifact.PktRecord.{BlePkt}
use blueman_artifact.PktRecord.Buffer.{add_all}
use blueman_artifact.Mutator.Linked.{random_mutator}
use blueman_artifact.Intercept.{Session, intercept_ble_packet_for_fuzz}
use blueman_artifact.Intercept.Samples.{
  AllBytes-replicate, packet, packet-IsPkt, corpus, corpus-IsCorpus, session,
}
use blueman_artifact.Radio.{
  Reception, received, exited, Frame, record_pkt, apply_answer, send_all, receive_all,
}
use blueman_artifact.Radio.Payload.{IsFrame, Replaced, record_pkt-too_long, apply_answer-branches}
use blueman_artifact.Radio.Lockstep.{Delivered, intercept_ble_packet_for_fuzz-Delivered}

abbrev frame : Frame
frame = record {
  address = 0x12345678;
  payload_len = 20;
  buf = replicate 39 6;
  array = replicate 255 0;
}

frame-IsFrame : IsFrame 37 frame
frame-IsFrame = record {
  address_word = omega arith;
  whole = omega arith;
  room = omega arith;
  bytes = AllBytes-replicate 39 6 (omega arith);
  array = refl;
  array_bytes = AllBytes-replicate 255 0 (omega arith);
}

-- A packet of 254 bytes of payload.
abbrev long_frame : Frame
long_frame = record frame { payload_len = 254; buf = replicate 256 6 }

long_frame-IsFrame : IsFrame 37 long_frame
long_frame-IsFrame = record {
  address_word = omega arith;
  whole = omega arith;
  room = omega arith;
  bytes = AllBytes-replicate 256 6 (omega arith);
  array = refl;
  array_bytes = AllBytes-replicate 255 0 (omega arith);
}

record_pkt-too_long_example :
    ((long_frame.payload_len ≡ 254) × (record_pkt 37 long_frame ≡ fault))
    ⊎ ((255 ≤ long_frame.payload_len) × (record_pkt 37 long_frame ≡ stuck))
record_pkt-too_long_example = record_pkt-too_long 37 long_frame (omega arith) long_frame-IsFrame

apply_answer-branches_example :
    ((packet.mutated ≡ 1)
      × ((new : List ℕ) × (apply_answer 37 packet frame.buf ≡ done (received new))
          × Replaced 37 packet frame.buf new))
    ⊎ ((packet.mutated ≡ 2) × (apply_answer 37 packet frame.buf ≡ done exited))
    ⊎ ((packet.mutated ≢ 1)
        × (packet.mutated ≢ 2)
        × (apply_answer 37 packet frame.buf ≡ done (received frame.buf)))
apply_answer-branches_example =
    apply_answer-branches 37 packet (omega arith) packet-IsPkt frame frame-IsFrame

-- An answer that carries the received bytes back does not restore the packet: its header comes back
-- as payload.
shifted_test :
    apply_answer 4
      (record packet { len = 9; pkt = 1 ∷ 4 ∷ 5 ∷ 6 ∷ 7 ∷ 8 ∷ [] })
      (1 ∷ 4 ∷ 5 ∷ 6 ∷ 7 ∷ 8 ∷ [])
    ≡ done (received (4 ∷ 4 ∷ 1 ∷ 4 ∷ 5 ∷ 6 ∷ []))
unfolding apply_answer chunk
shifted_test = refl

exchange_example :
    (inbox : List BlePkt) × (answers : List BlePkt) × (last : List BlePkt) × (t : Session)
    × (rs : List Reception) × (send_all 37 ((frame ∷ []) ++ (frame ∷ frame ∷ [])) ≡ done inbox)
    × (intercept_ble_packet_for_fuzz random_mutator corpus inbox session ≡ done (1, [], t))
    × (t.acks ≡ [] ++ (answers ++ last))
    × (t.pkt_rec ≡ add_all session.pkt_rec answers)
    × (receive_all 37 ((frame ∷ []) ++ (frame ∷ frame ∷ [])) (answers ++ last) ≡ done rs)
    × Delivered 37 ((frame ∷ []) ++ (frame ∷ frame ∷ [])) rs
exchange_example =
    intercept_ble_packet_for_fuzz-Delivered random_mutator corpus 37 (frame ∷ []) frame frame
      session corpus-IsCorpus refl (omega arith) (omega arith) (omega arith, frame-IsFrame, tt)
      (omega arith, frame-IsFrame) (omega arith, frame-IsFrame)
