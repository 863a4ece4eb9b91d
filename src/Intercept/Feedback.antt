-- ===== src/Intercept/Feedback.antt =====
-- The feedback of the fuzzer: what a run records is a corpus that a run accepts.
use blueman_artifact.Prelude.{
  ℕ, zero, suc, ◌-◌, ◌≤◌, ◌<◌, ◌≡◌, ◌≢◌, refl, sym, ap, ◌∙◌, arith, List, [], ◌∷◌, ◌++◌, some,
  get_elem?, take, take-all, length,
}
use blueman_artifact.Ending.{done}
use blueman_artifact.PktRecord.{BlePkt, PktRecord, save_seq_buf_to_file2}
use blueman_artifact.PktRecord.Buffer.{
  IsValid, contents, length-contents, add_all, add_all-contents,
}
use blueman_artifact.PktRecord.Mapped.{AllPkts, mmap_seq_buf_file, mmap_seq_buf_file-save}
use blueman_artifact.Mutator.{Mutator}
use blueman_artifact.Mutator.Codec.{IsPkt}
use blueman_artifact.Intercept.{Session, intercept_ble_packet_for_fuzz}
use blueman_artifact.Intercept.Replays.{
  Batch, batch_end, target, other, Answered, no_packets, answered_target, passed_on, AllCanMutate,
  IsCorpus, intercept_ble_packet_for_fuzz-Answered,
}

-- Well formed packets that name their device.
abbrev pub AllNamed : List BlePkt → Type 0
AllNamed [] = Unit
AllNamed (p ∷ ps) = IsPkt p × (p.device_id ≢ 0) × AllNamed ps

AllNamed-take : (n : ℕ) (ps : List BlePkt) → AllNamed ps → AllNamed (take n ps)
AllNamed-take zero ps h = tt
AllNamed-take (suc n) [] h = tt
AllNamed-take (suc n) (p ∷ ps) (v, named, h) = (v, named, AllNamed-take n ps h)

AllNamed-AllPkts : (ps : List BlePkt) → AllNamed ps → AllPkts ps
AllNamed-AllPkts [] h = tt
AllNamed-AllPkts (p ∷ ps) (v, named, h) = (v, AllNamed-AllPkts ps h)

AllNamed-get :
    (ps : List BlePkt) (i : ℕ)
    → AllNamed ps
    → i < length ps
    → (p : BlePkt) × (get_elem? ps i ≡ some p) × IsPkt p × (p.device_id ≢ 0)
AllNamed-get [] i h lt = absurd (omega arith)
AllNamed-get (p ∷ ps) zero (v, named, h) lt = (p, refl, v, named)
AllNamed-get (p ∷ ps) (suc i) (v, named, h) lt = AllNamed-get ps i h (omega arith)

Answered-AllNamed :
    {batch acks recorded : List BlePkt} → Answered batch acks recorded → AllNamed recorded
Answered-AllNamed no_packets = tt
Answered-AllNamed (answered_target d v kept named more) = (v, named, Answered-AllNamed more)
Answered-AllNamed (passed_on d more) = Answered-AllNamed more

-- A record of well formed packets that name their device, saved and mapped.
saved-IsCorpus :
    (r : PktRecord) (max_pkt_count : ℕ)
    → IsValid r
    → AllNamed (contents r)
    → r.count ≤ max_pkt_count
    → (corpus : PktRecord) × (mmap_seq_buf_file max_pkt_count (save_seq_buf_to_file2 r)
        ≡ some corpus)
      × IsCorpus corpus
      × (corpus.count ≡ r.count)
saved-IsCorpus r max_pkt_count v h le = (
  record r { pkts_buf = contents r },
  mmap_seq_buf_file-save r max_pkt_count v (AllNamed-AllPkts (contents r) h) le,
  record { packets = λ i lt. AllNamed-get (contents r) i h (omega (arith, length-contents r v)) },
  refl,
)

-- One packet is recorded for each of the target.
length-recorded :
    {k : ℕ} {batch acks recorded : List BlePkt}
    → Batch k batch
    → Answered batch acks recorded
    → length recorded ≡ k
length-recorded batch_end no_packets = refl
length-recorded (target d b) (answered_target e v kept named more) = ap suc (length-recorded b more)
length-recorded (target d b) (passed_on apart more) = absurd (apart d)
length-recorded (other apart b) (answered_target e v kept named more) = absurd (apart e)
length-recorded (other apart b) (passed_on d more) = length-recorded b more

recorded-contents :
    (r : PktRecord) (recorded : List BlePkt) (k : ℕ)
    → IsValid r
    → contents r ≡ []
    → length recorded ≡ k
    → k ≤ r.max_count - 1
    → (contents (add_all r recorded) ≡ recorded)
      × IsValid (add_all r recorded)
      × ((add_all r recorded).count ≡ k)
recorded-contents r recorded k v e n le =
    let (w, all) = add_all-contents recorded r v in
    let same : contents (add_all r recorded) ≡ recorded =
      all
      ∙ ap (λ l. take (r.max_count - 1) (l ++ recorded)) e
      ∙ take-all (r.max_count - 1) recorded (omega arith) in
    (same, w, sym (length-contents (add_all r recorded) w) ∙ ap length same ∙ n)

module _ (m : Mutator) (corpus : PktRecord) (ready : IsCorpus corpus) (max_pkt_count : ℕ)
    (mapped : corpus.count ≤ max_pkt_count) where
  -- A run of the loop over a corpus of at most as many packets as are mapped, with an empty record
  -- that has room for them: if as many packets of the target arrive as the corpus has, and all are
  -- packets that can be mutated, the run ends, and the file that is saved of its record maps to a
  -- corpus with the same number of packets that a run accepts in its turn, whatever the mutator has
  -- made of them.
  pub saved_run-IsCorpus :
      {batch : List BlePkt} (a b : BlePkt) (rest : List BlePkt) (s : Session)
      → Batch corpus.count batch
      → AllCanMutate batch
      → IsValid s.pkt_rec
      → contents s.pkt_rec ≡ []
      → corpus.count ≤ s.pkt_rec.max_count - 1
      → (t : Session) × (next : PktRecord) × (intercept_ble_packet_for_fuzz m corpus
            (batch ++ (a ∷ b ∷ rest))
            s
          ≡ done (corpus.count, rest, t))
        × (mmap_seq_buf_file max_pkt_count (save_seq_buf_to_file2 t.pkt_rec) ≡ some next)
        × IsCorpus next
        × (next.count ≡ corpus.count)
  saved_run-IsCorpus a b rest s batch can v empty room =
      let (acks, recorded, t, run, answered, sent, filed) =
        intercept_ble_packet_for_fuzz-Answered m corpus ready a b rest s batch can in
      let n = length-recorded batch answered in
      let (same, w, count) = recorded-contents s.pkt_rec recorded corpus.count v empty n room in
      let (next, load, accepted, total) =
        saved-IsCorpus (add_all s.pkt_rec recorded) max_pkt_count w
          (rw same (Answered-AllNamed answered)) (omega (arith, count)) in
      (t, next, run, rw filed load, accepted, total ∙ count)
