-- ===== src/Corpus/Saving.antt =====
-- What `save_if_interesting` does to the queue, on both branches.
use blueman_artifact.Prelude.{
  ℕ, ◌+◌, ◌≡◌, ◌≢◌, ◌⊎◌, inl, inr, refl, arith, ◌==◌, Bool-cases, true, false, some, List, ◌∷◌,
  length, u32,
}
use blueman_artifact.LinkedList.{list_add}
use blueman_artifact.LinkedList.Ring.{IsRing, Avoids}
use blueman_artifact.LinkedList.Order.{list_add-IsRing}
use blueman_artifact.Coverage.{has_new_bits}
use blueman_artifact.Coverage.Count.{AllWords}
use blueman_artifact.Coverage.NewBits.{has_new_bits-has_new_bits}
use blueman_artifact.PktRecord.{PktRecord, save_seq_buf_to_file2}
use blueman_artifact.PktRecord.Buffer.{IsValid, contents, sum_len, get_pkt_seq_total_len-sum}
use blueman_artifact.Corpus.{
  Corpus, queue, add_to_queue, mark_new_coverage, save, keep, save_if_interesting, get_queue_head,
}

-- The corpus `d` after a run is kept as the entry `q`.
pub record Kept (c d : Corpus) (q : ℕ) (xs : List ℕ) (pkt_rec : PktRecord) (hnb : ℕ) : Type 0 where
  pub ring : IsRing d.links queue (q ∷ xs)
  pub head : get_queue_head d ≡ q
  pub paths : d.queued_paths ≡ u32 (c.queued_paths + 1)
  pub virgin : d.virgin_bits ≡ c.virgin_bits
  pub entry_len : (d.entries q).len ≡ u32 (sum_len (contents pkt_rec))
  pub entry_count : (d.entries q).count ≡ u32 pkt_rec.count
  pub new_cov : hnb ≡ 2 → (d.entries q).has_new_cov ≡ 1
  pub others : (x : ℕ) → x ≢ q → d.entries x ≡ c.entries x
  pub file : d.saved ≡ ((d.entries q).fname, save_seq_buf_to_file2 pkt_rec) ∷ c.saved

module _ (path_buf : ℕ → ℕ → ℕ → List ℕ) (trace_bits : List ℕ) (q now round : ℕ)
    (pkt_rec : PktRecord) (v : IsValid pkt_rec) where
  keep-Kept :
      (hnb : ℕ) (c : Corpus) (xs : List ℕ)
      → IsRing c.links queue xs
      → Avoids q (queue ∷ xs)
      → (d : Corpus) × (keep path_buf trace_bits q now pkt_rec round hnb c ≡ some (1, d))
        × Kept c d q xs pkt_rec hnb
  unfolding keep add_to_queue mark_new_coverage get_queue_head save list_add
  keep-Kept hnb c xs r fresh =
      let ring = list_add-IsRing c.links q queue xs r fresh in
      let same : (q == q) ≡ true = ground arith in
      let other : (x : ℕ) → x ≢ q → (x == q) ≡ false = λ x e. ground arith in
      rw (get_pkt_seq_total_len-sum pkt_rec v) (elim (Bool-cases (hnb == 2)) [
        | inl two ↦ rw two (
          _,
          refl,
          record {
            ring = ring;
            head = ring.linked.0;
            paths = refl;
            virgin = refl;
            entry_len = rw same refl;
            entry_count = rw same refl;
            new_cov = λ e. rw same refl;
            others = λ x e. rw (other x e) refl;
            file = rw same refl;
          },
        )
        | inr single ↦ rw single (
          _,
          refl,
          record {
            ring = ring;
            head = ring.linked.0;
            paths = refl;
            virgin = refl;
            entry_len = rw same refl;
            entry_count = rw same refl;
            new_cov = λ e. absurd (ground arith);
            others = λ x e. rw (other x e) refl;
            file = rw same refl;
          },
        )
      ])

  -- For a valid record, a queue that is a ring of entries `xs`, and the address `q` of memory that
  -- is in no entry, `save_if_interesting` returns: if `has_new_bits` answers 0, it answers 0 and
  -- changes only the virgin map; else it answers 1, and `q` is the first entry of the queue, before
  -- `xs`, and its head, with the number and the total length of the packets, marked as new coverage
  -- if `has_new_bits` answers 2; the other entries are as before, one path more is counted, one file
  -- more is saved, with the record, under the name that the entry has, and the virgin map is the one that `has_new_bits` leaves.
  pub save_if_interesting-Kept :
      (c : Corpus) (xs : List ℕ)
      → IsRing c.links queue xs
      → Avoids q (queue ∷ xs)
      → let (hnb, virgin) = has_new_bits trace_bits c.virgin_bits in
        let seen = record c { virgin_bits = virgin } in
        let result = save_if_interesting path_buf trace_bits q now pkt_rec round c in
        ((hnb ≡ 0) × (result ≡ some (0, seen)))
        ⊎ ((hnb ≢ 0) × ((d : Corpus) × (result ≡ some (1, d)) × Kept seen d q xs pkt_rec hnb))
  unfolding save_if_interesting
  save_if_interesting-Kept c xs r fresh =
      let (hnb, virgin) = has_new_bits trace_bits c.virgin_bits in
      elim (Bool-cases (hnb == 0)) [
        | inl none_seen ↦ inl (ground arith, rw none_seen refl)
        | inr kept ↦
            inr
              (ground arith, rw kept (keep-Kept hnb (record c { virgin_bits = virgin }) xs r fresh))
      ]

  no_bits :
      (q now round : ℕ) (d : Corpus)
      → has_new_bits trace_bits d.virgin_bits ≡ (0, d.virgin_bits)
      → save_if_interesting path_buf trace_bits q now pkt_rec round d ≡ some (0, d)
  unfolding save_if_interesting
  no_bits q now round d e = rw e refl

  -- Under the same conditions, for maps of 64-bit words of one length: the same run is not kept
  -- twice. `save_if_interesting` returns, and called again at once, for any address, time and round,
  -- it answers 0 and changes nothing.
  pub save_if_interesting-once :
      (c : Corpus) (xs : List ℕ) (q' now' round' : ℕ)
      → IsRing c.links queue xs
      → Avoids q (queue ∷ xs)
      → AllWords trace_bits
      → length trace_bits ≡ length c.virgin_bits
      → (ret : ℕ) × (d : Corpus) × (save_if_interesting path_buf trace_bits q now pkt_rec round c
          ≡ some (ret, d))
        × (save_if_interesting path_buf trace_bits q' now' pkt_rec round' d ≡ some (0, d))
  save_if_interesting-once c xs q' now' round' r fresh w e =
      let again = has_new_bits-has_new_bits trace_bits c.virgin_bits w e in
      elim (save_if_interesting-Kept c xs r fresh) [
        | inl (_, done) ↦ (0, _, done, no_bits q' now' round' _ again)
        | inr (_, (d, done, k)) ↦ (1, d, done, no_bits q' now' round' d (rw k.virgin again))
      ]
