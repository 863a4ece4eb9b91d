-- ===== src/Intercept/Replays.antt =====
-- A run over a corpus: every packet is answered, in order, and the answers to the target's packets
-- are the packets that are recorded.
use blueman_artifact.Prelude.{
  ℕ, zero, suc, ◌+◌, ◌<◌, ◌≡◌, ◌≢◌, inl, inr, refl, sym, ap, ◌∙◌, arith, ◌==◌, ltb, Bool, true,
  false, List, [], ◌∷◌, ◌++◌, some, get_elem?, drop,
}
use mathlib.Core.List.{append_assoc, append-nil}
use blueman_artifact.PktRecord.{BlePkt, PktRecord, add_pkt_to_seq_buf}
use blueman_artifact.PktRecord.Buffer.{add_all}
use blueman_artifact.Fuzzer.{copy_ble_pkt}
use blueman_artifact.Fuzzer.Replay.{Replayed, copy_ble_pkt-Replayed}
use blueman_artifact.Mutator.{Mutator}
use blueman_artifact.Mutator.Codec.{
  IsPkt, CanMutate, call_mutator-IsPkt, AllBytes-take_append, AllBytes-drop,
}
use blueman_artifact.Ending.{done}
use blueman_artifact.Intercept.{
  Session, recv_ble_pkt_ack, replay_pkt, fuzz_round, fuzz_loop, pass_on, stop_target,
  intercept_ble_packet_for_fuzz,
}

-- The packets that arrive, up to the `n`-th of the target (device 1).
pub data Batch : ℕ → List BlePkt → Type 0 where
  batch_end : Batch zero []
  target :
      {n : ℕ} {p : BlePkt} {ps : List BlePkt}
      → p.device_id ≡ 1
      → Batch n ps
      → Batch (suc n) (p ∷ ps)
  other :
      {n : ℕ} {p : BlePkt} {ps : List BlePkt}
      → p.device_id ≢ 1
      → Batch (suc n) ps
      → Batch (suc n) (p ∷ ps)

-- The answers to the packets, and the packets that are recorded: an answer to the target is a well
-- formed packet that names its device, with the sequence id of the one that it answers, and is
-- recorded; any other packet is passed on as it is.
pub data Answered : List BlePkt → List BlePkt → List BlePkt → Type 0 where
  no_packets : Answered [] [] []
  answered_target :
      {p q : BlePkt} {ps acks recorded : List BlePkt}
      → p.device_id ≡ 1
      → IsPkt q
      → q.sid ≡ p.sid
      → q.device_id ≢ 0
      → Answered ps acks recorded
      → Answered (p ∷ ps) (q ∷ acks) (q ∷ recorded)
  passed_on :
      {p : BlePkt} {ps acks recorded : List BlePkt}
      → p.device_id ≢ 1
      → Answered ps acks recorded
      → Answered (p ∷ ps) (p ∷ acks) recorded

abbrev pub AllCanMutate : List BlePkt → Type 0
AllCanMutate [] = Unit
AllCanMutate (p ∷ ps) = CanMutate p × AllCanMutate ps

-- The packets of the corpus are well formed and name their device.
pub record IsCorpus (corpus : PktRecord) : Type 0 where
  pub packets :
      (i : ℕ)
      → i < corpus.count
      → (src : BlePkt) × (get_elem? corpus.pkts_buf i ≡ some src) × IsPkt src × (src.device_id ≢ 0)

-- A replayed packet can be mutated, as the target's packet could.
Replayed-CanMutate :
    (dst src p : BlePkt) → CanMutate dst → IsPkt src → Replayed dst src p → CanMutate p
Replayed-CanMutate dst src p c v h = record {
  packet = record {
    sid_word = omega (arith, h.route, c.packet);
    device_word = omega (arith, h.route, c.packet);
    mutated_word = omega (arith, h.always_marked);
    address_word = omega (arith, h.route, c.packet);
    len_word = ground arith;
    limit_word = omega (arith, h.same_limit, c);
    array = h.same_array;
    bytes = rw h.whole (
        AllBytes-take_append p.len src.pkt (drop p.len dst.pkt) v.bytes
          (AllBytes-drop p.len dst.pkt c.packet.bytes));
  };
  some_payload = omega (arith, h.same_limit, c);
  limit = omega (arith, h.same_limit, c);
  short = ground arith;
}

copy_ble_pkt-CanMutate :
    (dst src : BlePkt)
    → CanMutate dst
    → IsPkt src
    → (copied : Bool) × (q : BlePkt) × (copy_ble_pkt dst src ≡ some (copied, q))
      × CanMutate q
      × (q.sid ≡ dst.sid)
      × (q.device_id ≡ dst.device_id)
copy_ble_pkt-CanMutate dst src c v =
    elim (copy_ble_pkt-Replayed dst src c.packet.array v.array (inr c.limit)) [
      | inl (_, e) ↦ (false, dst, e, c, refl, refl)
      | inr (_, (p, e, h)) ↦ (true, p, e, Replayed-CanMutate dst src p c v h, h.route.0, h.route.1)
    ]

module _ (m : Mutator) (corpus : PktRecord) (ready : IsCorpus corpus) where
  -- What a packet of the target does to the session.
  pub replay_pkt-ok :
      (i : ℕ) (p : BlePkt) (s : Session)
      → i < corpus.count
      → p.device_id ≡ 1
      → CanMutate p
      → (q : BlePkt) × (draws : ℕ → ℕ) × (replay_pkt m corpus i p s
          ≡ done (
            q,
            record s {
              pkt_rec = (add_pkt_to_seq_buf s.pkt_rec q).1;
              packet_count = (add_pkt_to_seq_buf s.pkt_rec q).1.count;
              draws = draws;
            },
          ))
        × IsPkt q
        × (q.sid ≡ p.sid)
        × (q.device_id ≢ 0)
  unfolding replay_pkt
  replay_pkt-ok i p s lt from_target c =
      let (src, found, v, named) = ready.packets i lt in
      let (copied, r, e, can, same, device_kept) = copy_ble_pkt-CanMutate p src c v in
      let (q, draws, call, w, kept, low) = call_mutator-IsPkt m (i + 1) r s.draws can in
      let device : (src.device_id == 0) ≡ false = ground arith in
      (q, draws, rw (found, device, e, call) refl, w, kept ∙ same, omega (arith, low, device_kept))

  fuzz_loop-stop :
      (i : ℕ) (rest : List BlePkt) (s : Session)
      → i ≡ corpus.count
      → fuzz_loop m corpus rest i s ≡ done (corpus.count, rest, s)
  unfolding fuzz_loop
  fuzz_loop-stop i [] s e = ground arith
  fuzz_loop-stop i (p ∷ rest) s e =
      let over : ltb i corpus.count ≡ false = ground arith in
      rw over (ap (λ k. done (k, p ∷ rest, s)) e)

  fuzz_loop-Answered :
      {k : ℕ} {batch : List BlePkt} (i : ℕ) (rest : List BlePkt) (s : Session)
      → Batch k batch
      → AllCanMutate batch
      → i + k ≡ corpus.count
      → (acks : List BlePkt) × (recorded : List BlePkt) × (t : Session) × (fuzz_loop m corpus
            (batch ++ rest)
            i
            s
          ≡ done (corpus.count, rest, t))
        × Answered batch acks recorded
        × (t.acks ≡ s.acks ++ acks)
        × (t.pkt_rec ≡ add_all s.pkt_rec recorded)
  unfolding fuzz_loop fuzz_round
  fuzz_loop-Answered i rest s batch_end c n =
      ([], [], s, fuzz_loop-stop i rest s (omega arith), no_packets, sym (append-nil s.acks), refl)
  fuzz_loop-Answered i rest s (target {n} {p} {ps} d b) c e =
      let lt : i < corpus.count = omega arith in
      let going : ltb i corpus.count ≡ true = ground arith in
      let device : (p.device_id == 1) ≡ true = ground arith in
      let (q, draws, one, w, kept, names) = replay_pkt-ok i p s lt d c.0 in
      let s' : Session = record {
        pkt_rec = (add_pkt_to_seq_buf s.pkt_rec q).1;
        packet_count = (add_pkt_to_seq_buf s.pkt_rec q).1.count;
        acks = s.acks ++ (q ∷ []);
        draws = draws;
      } in
      let (acks, recorded, t, run, answered, sent, filed) =
        fuzz_loop-Answered (i + 1) rest s' b c.1 (omega arith) in
      (
        q ∷ acks,
        q ∷ recorded,
        t,
        rw (going, device, one) run,
        answered_target d w kept names answered,
        sent ∙ append_assoc s.acks (q ∷ []) acks,
        filed,
      )
  fuzz_loop-Answered i rest s (other {n} {p} {ps} d b) c e =
      let going : ltb i corpus.count ≡ true = ground arith in
      let device : (p.device_id == 1) ≡ false = ground arith in
      let (acks, recorded, t, run, answered, sent, filed) =
        fuzz_loop-Answered i rest (recv_ble_pkt_ack p s) b c.1 e in
      (
        p ∷ acks,
        recorded,
        t,
        rw (going, device) run,
        passed_on d answered,
        sent ∙ append_assoc s.acks (p ∷ []) acks,
        filed,
      )

  -- For a corpus of well formed packets that name their device, and packets that arrive well formed,
  -- with a payload limit of 1 to 250 and a length of at most 258, up to as many of the target's as
  -- the corpus has: with two more packets behind them, `intercept_ble_packet_for_fuzz` returns that
  -- number, with any mutator that meets the interface, whatever the random numbers are, and has read
  -- nothing more. Every packet is answered once and in order: the target's by a well formed packet
  -- with the same sequence id, which names its device and is recorded, the others as they are; of
  -- the two at the end the second one is marked 2.
  pub intercept_ble_packet_for_fuzz-Answered :
      {batch : List BlePkt} (a b : BlePkt) (rest : List BlePkt) (s : Session)
      → Batch corpus.count batch
      → AllCanMutate batch
      → (acks : List BlePkt) × (recorded : List BlePkt) × (t : Session)
        × (intercept_ble_packet_for_fuzz m corpus (batch ++ (a ∷ b ∷ rest)) s
            ≡ done (corpus.count, rest, t))
        × Answered batch acks recorded
        × (t.acks ≡ s.acks ++ (acks ++ (a ∷ record b { mutated = 2 } ∷ [])))
        × (t.pkt_rec ≡ add_all s.pkt_rec recorded)
  unfolding intercept_ble_packet_for_fuzz pass_on stop_target
  intercept_ble_packet_for_fuzz-Answered a b rest s batch c =
      let (acks, recorded, t, run, answered, sent, filed) =
        fuzz_loop-Answered 0 (a ∷ b ∷ rest) s batch c (omega arith) in
      let b' : BlePkt = record b { mutated = 2 } in
      (
        acks,
        recorded,
        record t { acks = (t.acks ++ (a ∷ [])) ++ (b' ∷ []) },
        rw run refl,
        answered,
        append_assoc t.acks (a ∷ []) (b' ∷ [])
            ∙ ap (λ l. l ++ (a ∷ b' ∷ [])) sent
            ∙ append_assoc s.acks acks (a ∷ b' ∷ []),
        filed,
      )
