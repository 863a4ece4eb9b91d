-- ===== src/Intercept/Collect/Gathering.antt =====
-- What one packet of the target does to the record and to the greatest growth of the coverage.
use blueman_artifact.Prelude.{
  ℕ, suc, ◌+◌, ◌-◌, ◌^◌, ◌≤◌, ◌<◌, ◌≡◌, inl, inr, refl, sym, ap, ◌∙◌, arith, ◌==◌, ltb,
  if◌then◌else◌, true, Bool-cases, List, [], ◌∷◌, ◌++◌, length, u32, sub_u32,
}
use blueman_artifact.PktRecord.{BlePkt, add_pkt_to_seq_buf}
use blueman_artifact.PktRecord.Buffer.{
  IsValid, contents, length-contents, max_count-add, add_pkt_to_seq_buf-IsValid,
  add_pkt_to_seq_buf-refines,
}
use blueman_artifact.Coverage.{corpus_get_coverage}
use blueman_artifact.Intercept.Collect.{Arrival, Collector, record_pkt}
use blueman_artifact.Intercept.Collect.Peak.{IsPeak, IsPeak-snoc_gt, IsPeak-snoc_le}

-- The arrivals of the target, and the packets of arrivals.
abbrev pub targets : List Arrival → List Arrival
targets [] = []
targets (a ∷ xs) = if a.pkt.device_id == 1 then a ∷ targets xs else targets xs

abbrev pub pkts : List Arrival → List BlePkt
pkts [] = []
pkts (a ∷ xs) = a.pkt ∷ pkts xs

abbrev pub coverage_of : Arrival → ℕ
coverage_of a = corpus_get_coverage a.trace_bits

-- The growth of the coverage from each arrival to the next, as the code computes it.
abbrev pub deltas : ℕ → List Arrival → List ℕ
deltas base [] = []
deltas base (a ∷ xs) = sub_u32 (coverage_of a) base ∷ deltas (coverage_of a) xs

abbrev pub last_coverage : ℕ → List Arrival → ℕ
last_coverage base [] = base
last_coverage base (a ∷ xs) = last_coverage (coverage_of a) xs

deltas-snoc :
    (base : ℕ) (xs : List Arrival) (a : Arrival)
    → deltas base (xs ++ (a ∷ []))
      ≡ deltas base xs ++ (sub_u32 (coverage_of a) (last_coverage base xs) ∷ [])
deltas-snoc base [] a = refl
deltas-snoc base (b ∷ xs) a =
    ap (λ l. sub_u32 (coverage_of b) base ∷ l) (deltas-snoc (coverage_of b) xs a)

pub last_coverage-snoc :
    (base : ℕ) (xs : List Arrival) (a : Arrival)
    → last_coverage base (xs ++ (a ∷ [])) ≡ coverage_of a
last_coverage-snoc base [] a = refl
last_coverage-snoc base (b ∷ xs) a = last_coverage-snoc (coverage_of b) xs a

length-deltas : (base : ℕ) (xs : List Arrival) → length (deltas base xs) ≡ length xs
length-deltas base [] = refl
length-deltas base (a ∷ xs) = ap (λ n. suc n) (length-deltas (coverage_of a) xs)

pkts-snoc : (xs : List Arrival) (a : Arrival) → pkts (xs ++ (a ∷ [])) ≡ pkts xs ++ (a.pkt ∷ [])
pkts-snoc [] a = refl
pkts-snoc (b ∷ xs) a = ap (λ l. b.pkt ∷ l) (pkts-snoc xs a)

length-pkts : (xs : List Arrival) → length (pkts xs) ≡ length xs
length-pkts [] = refl
length-pkts (a ∷ xs) = ap (λ n. suc n) (length-pkts xs)

pub length-snoc : (xs : List Arrival) (a : Arrival) → length (xs ++ (a ∷ [])) ≡ length xs + 1
length-snoc [] a = refl
length-snoc (b ∷ xs) a = omega (arith, length-snoc xs a)

-- The record holds the target's packets `seen`, up to `limit` of them, and the place of the
-- greatest growth.
pub record Gathered (limit : ℕ) (seen : List Arrival) (c : Collector) : Type 0 where
  pub valid : IsValid c.pkt_rec
  pub room : limit ≤ c.pkt_rec.max_count - 1
  pub word : c.pkt_rec.max_count ≤ 2 ^ 32
  pub held : contents c.pkt_rec ≡ pkts seen
  pub greatest : IsPeak (deltas 0 seen) c.max_delta c.max_delta_index

pub count-seen :
    (limit : ℕ) (seen : List Arrival) (c : Collector)
    → Gathered limit seen c
    → c.pkt_rec.count ≡ length seen
count-seen limit seen c g =
    sym (length-contents c.pkt_rec g.valid) ∙ ap length g.held ∙ length-pkts seen

-- Room in the record: the packet is added.
held-add :
    (limit : ℕ) (seen : List Arrival) (c : Collector) (a : Arrival)
    → Gathered limit seen c
    → c.pkt_rec.count < limit
    → contents (add_pkt_to_seq_buf c.pkt_rec a.pkt).1 ≡ pkts (seen ++ (a ∷ []))
held-add limit seen c a g lt =
    let n : length (contents c.pkt_rec) ≡ c.pkt_rec.count = length-contents c.pkt_rec g.valid in
    let fits : ltb (length (contents c.pkt_rec)) (c.pkt_rec.max_count - 1) ≡ true =
      ground (arith, n, lt, g.room) in
    ap (λ p. p.1) (add_pkt_to_seq_buf-refines c.pkt_rec a.pkt g.valid)
    ∙ rw fits (ap (λ l. l ++ (a.pkt ∷ [])) g.held ∙ sym (pkts-snoc seen a))

-- The index that is stored is that of the new packet.
index-add :
    (limit : ℕ) (seen : List Arrival) (c : Collector) (a : Arrival)
    → Gathered limit seen c
    → c.pkt_rec.count < limit
    → u32 ((add_pkt_to_seq_buf c.pkt_rec a.pkt).1.count + 2 ^ 32 - 1) ≡ length (deltas 0 seen)
index-add limit seen c a g lt =
    let r' = (add_pkt_to_seq_buf c.pkt_rec a.pkt).1 in
    let w : IsValid r' = add_pkt_to_seq_buf-IsValid c.pkt_rec a.pkt g.valid in
    let same : r'.max_count ≡ c.pkt_rec.max_count = max_count-add c.pkt_rec a.pkt in
    let n : r'.count ≡ length seen + 1 =
      sym (length-contents r' w)
      ∙ ap length (held-add limit seen c a g lt)
      ∙ length-pkts (seen ++ (a ∷ []))
      ∙ length-snoc seen a in
    let m = length-deltas 0 seen in omega (arith, n, m, w.within, same, g.word)

pub record_pkt-Gathered :
    (limit : ℕ) (seen : List Arrival) (c : Collector) (a : Arrival)
    → Gathered limit seen c
    → c.coverage_count ≡ last_coverage 0 seen
    → c.pkt_rec.count < limit
    → Gathered limit (seen ++ (a ∷ [])) (record_pkt a c)
unfolding record_pkt
record_pkt-Gathered limit seen c a g base lt =
    let r' = (add_pkt_to_seq_buf c.pkt_rec a.pkt).1 in
    let w : IsValid r' = add_pkt_to_seq_buf-IsValid c.pkt_rec a.pkt g.valid in
    let same : r'.max_count ≡ c.pkt_rec.max_count = max_count-add c.pkt_rec a.pkt in
    let held = held-add limit seen c a g lt in
    let d = sub_u32 (coverage_of a) c.coverage_count in
    let e : deltas 0 (seen ++ (a ∷ [])) ≡ deltas 0 seen ++ (d ∷ []) =
      deltas-snoc 0 seen a
      ∙ ap (λ b. deltas 0 seen ++ (sub_u32 (coverage_of a) b ∷ [])) (sym base) in
    elim (Bool-cases (ltb c.max_delta d)) [
      | inl more ↦ rw more (record {
        valid = w;
        room = rw same g.room;
        word = rw same g.word;
        held = held;
        greatest =
            rw (e, index-add limit seen c a g lt)
              (IsPeak-snoc_gt (deltas 0 seen) c.max_delta c.max_delta_index d g.greatest
                (ground (arith, more)));
      })
      | inr less ↦ rw less (record {
        valid = w;
        room = rw same g.room;
        word = rw same g.word;
        held = held;
        greatest = rw e (
            IsPeak-snoc_le (deltas 0 seen) c.max_delta c.max_delta_index d g.greatest
              (ground (arith, less)));
      })
    ]
