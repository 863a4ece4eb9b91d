-- ===== src/Intercept/Collect/Collected.antt =====
-- What the first run records, for any packets that arrive.
use blueman_artifact.Prelude.{
  ℕ, ◌-◌, ◌^◌, ◌≤◌, ◌<◌, ◌≡◌, refl, ap, ◌∙◌, arith, List, [], ◌∷◌, ◌++◌, length,
}
use mathlib.Core.List.{append-nil}
use blueman_artifact.PktRecord.{BlePkt, PktRecord, save_seq_buf_to_file2}
use blueman_artifact.PktRecord.Buffer.{IsValid, contents}
use blueman_artifact.Ending.{done}
use blueman_artifact.Intercept.Collect.{
  Arrival, Collector, send_ack, collect_loop, stop_collecting, start_collecting,
  intercept_ble_packet_for_init_corpus,
}
use blueman_artifact.Intercept.Collect.Peak.{IsPeak, all_zero}
use blueman_artifact.Intercept.Collect.Gathering.{targets, pkts, deltas, Gathered, count-seen}
use blueman_artifact.Intercept.Collect.Loop.{collect_loop-Collected}

-- More of the target's packets arrive than the loop reads.
one_more :
    (limit : ℕ) (inbox consumed rest : List Arrival)
    → inbox ≡ consumed ++ rest
    → length (targets consumed) ≤ limit
    → limit < length (targets inbox)
    → (a : Arrival) × (more : List Arrival) × (rest ≡ a ∷ more)
one_more limit inbox consumed [] split le lt =
    let same : length (targets inbox) ≡ length (targets consumed) =
      ap (λ l. length (targets l)) (split ∙ append-nil consumed) in
    absurd (omega arith)
one_more limit inbox consumed (a ∷ more) split le lt = (a, more, refl)

after_loop :
    (limit n : ℕ) (inbox rest more : List Arrival) (a : Arrival) (c d : Collector)
    → collect_loop limit inbox c ≡ done (rest, d)
    → rest ≡ a ∷ more
    → d.pkt_rec.count ≡ n
    → intercept_ble_packet_for_init_corpus limit inbox c
      ≡ done (n, save_seq_buf_to_file2 d.pkt_rec, send_ack (record a.pkt { mutated = 2 }) d)
unfolding intercept_ble_packet_for_init_corpus stop_collecting
after_loop limit n inbox rest more a c d run cons count = rw (run, cons, count) refl

-- With an empty valid record that takes at least `max_num_of_pkt` packets, for `max_num_of_pkt` of at
-- least 1, and whatever packets arrive, more than `max_num_of_pkt` of them from the target:
-- `intercept_ble_packet_for_init_corpus` returns. It has read the packets up to some `last` in
-- order, has recorded of them the target's, between 1 and `max_num_of_pkt`, in order, and returns
-- their number; it has answered each packet once, in order and unchanged, but for `last`, which is
-- marked 2; `max_delta` is the greatest growth of the coverage from one packet of the target to the
-- next, and `max_delta_index` the index of the first packet in the record that reaches it.
pub intercept_ble_packet_for_init_corpus-Collected :
    (max_num_of_pkt : ℕ) (pkt_rec : PktRecord) (acks : List BlePkt) (inbox : List Arrival)
    → IsValid pkt_rec
    → pkt_rec.count ≡ 0
    → pkt_rec.max_count ≤ 2 ^ 32
    → 1 ≤ max_num_of_pkt
    → max_num_of_pkt ≤ pkt_rec.max_count - 1
    → max_num_of_pkt < length (targets inbox)
    → (consumed : List Arrival) × (last : Arrival) × (rest : List Arrival) × (c : Collector)
      × (inbox ≡ consumed ++ (last ∷ rest))
      × (intercept_ble_packet_for_init_corpus max_num_of_pkt inbox (start_collecting pkt_rec acks)
          ≡ done (length (targets consumed), save_seq_buf_to_file2 c.pkt_rec, c))
      × (1 ≤ length (targets consumed))
      × (length (targets consumed) ≤ max_num_of_pkt)
      × (contents c.pkt_rec ≡ pkts (targets consumed))
      × (c.acks ≡ (acks ++ pkts consumed) ++ (record last.pkt { mutated = 2 } ∷ []))
      × IsPeak (deltas 0 (targets consumed)) c.max_delta c.max_delta_index
intercept_ble_packet_for_init_corpus-Collected limit r acks inbox v empty word some_num room
      enough =
    let start : Gathered limit [] (start_collecting r acks) = record {
      valid = v;
      room = room;
      word = word;
      held = rw empty refl;
      greatest = all_zero tt refl refl;
    } in
    let (consumed, rest, c, split, run, h) =
      collect_loop-Collected limit inbox [] (start_collecting r acks) start refl (omega arith)
        (omega arith) in
    let (last, more, cons) = one_more limit inbox consumed rest split h.at_most enough in
    (
      consumed,
      last,
      more,
      send_ack (record last.pkt { mutated = 2 }) c,
      split ∙ ap (λ l. consumed ++ l) cons,
      after_loop limit (length (targets consumed)) inbox rest more last (start_collecting r acks) c
          run cons (count-seen limit (targets consumed) c h.gathered),
      h.at_least,
      h.at_most,
      h.gathered.held,
      ap (λ l. l ++ (record last.pkt { mutated = 2 } ∷ [])) h.answered,
      h.gathered.greatest,
    )
