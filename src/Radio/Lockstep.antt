-- ===== src/Radio/Lockstep.antt =====
-- The patched radio and the fuzzer's loop at the two ends of the message queue: what the radio sends is
-- the input of the loop, and what the loop answers comes back to the radio.
use blueman_artifact.Prelude.{
  ℕ, ◌≤◌, ◌≡◌, inl, inr, refl, ap, ◌∙◌, arith, List, [], ◌∷◌, ◌++◌, length,
}
use blueman_artifact.Ending.{done}
use blueman_artifact.PktRecord.{BlePkt, PktRecord}
use blueman_artifact.PktRecord.Buffer.{add_all}
use blueman_artifact.Mutator.{Mutator}
use blueman_artifact.Mutator.Codec.{IsPkt}
use blueman_artifact.Intercept.{Session, intercept_ble_packet_for_fuzz}
use blueman_artifact.Intercept.Replays.{
  Batch, batch_end, target, Answered, no_packets, answered_target, passed_on, AllCanMutate,
  IsCorpus, intercept_ble_packet_for_fuzz-Answered,
}
use blueman_artifact.Radio.{Reception, received, exited, Frame, apply_answer, send_all, receive_all}
use blueman_artifact.Radio.Payload.{IsFrame, Sent, Replaced, record_pkt-Sent, apply_answer-branches}

-- What the target sees of the frames: each is as it was received, or has a new payload within the
-- limit, up to one with which the target ends.
pub data Delivered (max_len : ℕ) : List Frame → List Reception → Type 0 where
  left : {f : Frame} {fs : List Frame} → Delivered max_len (f ∷ fs) (exited ∷ [])
  unchanged :
      {f : Frame} {fs : List Frame} {rs : List Reception}
      → Delivered max_len fs rs
      → Delivered max_len (f ∷ fs) (received f.buf ∷ rs)
  replaced :
      {f : Frame} {fs : List Frame} {rs : List Reception} (q : BlePkt) (new : List ℕ)
      → Replaced max_len q f.buf new
      → Delivered max_len fs rs
      → Delivered max_len (f ∷ fs) (received new ∷ rs)

-- The frames, with at most 253 bytes of payload each.
abbrev pub AllFrames : ℕ → List Frame → Type 0
AllFrames max_len [] = Unit
AllFrames max_len (f ∷ fs) = (f.payload_len ≤ 253) × IsFrame max_len f × AllFrames max_len fs

-- The packets of the frames, in order.
pub data AllSent : List Frame → List BlePkt → Type 0 where
  none_sent : AllSent [] []
  one_sent :
      {f : Frame} {fs : List Frame} {p : BlePkt} {ps : List BlePkt}
      → Sent f p
      → AllSent fs ps
      → AllSent (f ∷ fs) (p ∷ ps)

module _ (max_len : ℕ) (lo : 1 ≤ max_len) (hi : max_len ≤ 250) where
  -- The packets of the frames and of two more.
  send_all-two_more :
      (fs : List Frame) (a b : Frame)
      → AllFrames max_len fs
      → (a.payload_len ≤ 253) × IsFrame max_len a
      → (b.payload_len ≤ 253) × IsFrame max_len b
      → (ps : List BlePkt) × (p : BlePkt) × (q : BlePkt) × (send_all max_len (fs ++ (a ∷ b ∷ []))
          ≡ done (ps ++ (p ∷ q ∷ [])))
        × AllSent fs ps
        × Sent a p
        × Sent b q
  unfolding send_all
  send_all-two_more [] a b all (la, va) (lb, vb) =
      let (p, one, s) = record_pkt-Sent max_len a lo hi la va in
      let (q, two, t) = record_pkt-Sent max_len b lo hi lb vb in
      ([], p, q, rw (one, two) refl, none_sent, s, t)
  send_all-two_more (f ∷ fs) a b (le, v, all) fa fb =
      let (r, one, u) = record_pkt-Sent max_len f lo hi le v in
      let (ps, p, q, rest, us, s, t) = send_all-two_more fs a b all fa fb in
      (r ∷ ps, p, q, rw (one, rest) refl, one_sent u us, s, t)

-- All packets are the target's.
AllSent-Batch :
    {fs : List Frame} {ps : List BlePkt} → AllSent fs ps → Batch (length fs) ps × AllCanMutate ps
AllSent-Batch none_sent = (batch_end, tt)
AllSent-Batch (one_sent s t) =
    let (batch, all) = AllSent-Batch t in (target s.from_target batch, (s.mutable, all))

receive_all-step :
    (max_len : ℕ) (f : Frame) (fs : List Frame) (q : BlePkt) (acks : List BlePkt)
    → max_len ≤ 250
    → IsPkt q
    → IsFrame max_len f
    → ((rs : List Reception) × (receive_all max_len fs acks ≡ done rs) × Delivered max_len fs rs)
    → (rs : List Reception) × (receive_all max_len (f ∷ fs) (q ∷ acks) ≡ done rs)
      × Delivered max_len (f ∷ fs) rs
unfolding receive_all
receive_all-step max_len f fs q acks hi v w (rs, e, d) =
    elim (apply_answer-branches max_len q hi v f w) [
      | inl (_, (new, one, r)) ↦ (received new ∷ rs, rw (one, e) refl, replaced q new r d)
      | inr (inl (_, one)) ↦ (exited ∷ [], rw (one) refl, left)
      | inr (inr (_, _, one)) ↦ (received f.buf ∷ rs, rw (one, e) refl, unchanged d)
    ]

-- The packet with which the fuzzer ends the target.
abbrev stop : BlePkt → BlePkt
stop p = record p { mutated = 2 }

Sent-stop : {f : Frame} {p : BlePkt} → Sent f p → IsPkt (stop p)
Sent-stop s = record {
  sid_word = s.mutable.packet.sid_word;
  device_word = s.mutable.packet.device_word;
  mutated_word = omega arith;
  address_word = s.mutable.packet.address_word;
  len_word = s.mutable.packet.len_word;
  limit_word = s.mutable.packet.limit_word;
  array = s.mutable.packet.array;
  bytes = s.mutable.packet.bytes;
}

receive_all-stop :
    (max_len : ℕ) (f : Frame) (p : BlePkt)
    → (rs : List Reception) × (receive_all max_len (f ∷ []) (stop p ∷ []) ≡ done rs)
      × Delivered max_len (f ∷ []) rs
unfolding receive_all apply_answer
receive_all-stop max_len f p = (exited ∷ [], refl, left)

receive_all-Answered :
    {fs : List Frame} {ps acks recorded : List BlePkt} (max_len : ℕ) (a b : Frame) (p q : BlePkt)
    → max_len ≤ 250
    → AllSent fs ps
    → AllFrames max_len fs
    → Answered ps acks recorded
    → IsFrame max_len a
    → Sent a p
    → (rs : List Reception) × (receive_all max_len (fs ++ (a ∷ b ∷ [])) (acks ++ (p ∷ stop q ∷ []))
        ≡ done rs)
      × Delivered max_len (fs ++ (a ∷ b ∷ [])) rs
receive_all-Answered max_len a b p q hi none_sent all no_packets va s =
    receive_all-step max_len a (b ∷ []) p (stop q ∷ []) hi s.mutable.packet va
      (receive_all-stop max_len b q)
receive_all-Answered max_len a b p q hi (one_sent {f} {fs} u us) (le, v, all)
      (answered_target {q = r} {acks = acks} d w kept names more) va s =
    receive_all-step max_len f (fs ++ (a ∷ b ∷ [])) r (acks ++ (p ∷ stop q ∷ [])) hi w v
      (receive_all-Answered max_len a b p q hi us all more va s)
receive_all-Answered max_len a b p q hi (one_sent u us) all (passed_on apart more) va s =
    absurd (apart u.from_target)

-- As all packets are the target's, all the answers are recorded.
Answered-recorded :
    {fs : List Frame} {ps acks recorded : List BlePkt}
    → AllSent fs ps
    → Answered ps acks recorded
    → recorded ≡ acks
Answered-recorded none_sent no_packets = refl
Answered-recorded (one_sent u us) (answered_target {q = r} d w kept names more) =
    ap (λ l. r ∷ l) (Answered-recorded us more)
Answered-recorded (one_sent u us) (passed_on apart more) = absurd (apart u.from_target)

-- The patched radio, with a largest payload of 1 to 250, receives as many packets as the corpus has
-- and two more, of at most 253 bytes of payload each, whatever they hold. Then no matter which
-- mutator runs and which random numbers are drawn: the radio sends them all, the fuzzer's loop runs
-- to its end and answers each, the answers to all but the last two are what it records, and the
-- radio takes every answer with no access outside its buffer. The target gets each packet as it was
-- received or with a payload within the limit, up to one with which it exits: the last at the latest.
pub intercept_ble_packet_for_fuzz-Delivered :
    (m : Mutator) (corpus : PktRecord) (max_len : ℕ) (fs : List Frame) (a b : Frame) (s : Session)
    → IsCorpus corpus
    → length fs ≡ corpus.count
    → 1 ≤ max_len
    → max_len ≤ 250
    → AllFrames max_len fs
    → (a.payload_len ≤ 253) × IsFrame max_len a
    → (b.payload_len ≤ 253) × IsFrame max_len b
    → (inbox : List BlePkt) × (answers : List BlePkt) × (last : List BlePkt) × (t : Session)
      × (rs : List Reception) × (send_all max_len (fs ++ (a ∷ b ∷ [])) ≡ done inbox)
      × (intercept_ble_packet_for_fuzz m corpus inbox s ≡ done (corpus.count, [], t))
      × (t.acks ≡ s.acks ++ (answers ++ last))
      × (t.pkt_rec ≡ add_all s.pkt_rec answers)
      × (receive_all max_len (fs ++ (a ∷ b ∷ [])) (answers ++ last) ≡ done rs)
      × Delivered max_len (fs ++ (a ∷ b ∷ [])) rs
intercept_ble_packet_for_fuzz-Delivered m corpus max_len fs a b s ready n lo hi all fa fb =
    let (ps, p, q, sent, us, sp, sq) = send_all-two_more max_len lo hi fs a b all fa fb in
    let (batch, can) = AllSent-Batch us in
    let (acks, recorded, t, run, answered, out, filed) =
      intercept_ble_packet_for_fuzz-Answered m corpus ready p q [] s (rw n at batch) can in
    let (rs, taken, d) = receive_all-Answered max_len a b p q hi us all answered fa.1 sp in
    (
      ps ++ (p ∷ q ∷ []),
      acks,
      p ∷ stop q ∷ [],
      t,
      rs,
      sent,
      run,
      out,
      filed ∙ ap (add_all s.pkt_rec) (Answered-recorded us answered),
      taken,
      d,
    )
