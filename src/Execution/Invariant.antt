-- ===== src/Execution/Invariant.antt =====
-- An execution returns, and keeps the fuzzer's variables in order.
use blueman_artifact.Prelude.{
  ℕ, ◌+◌, ◌*◌, ◌^◌, ◌<◌, ◌≡◌, ◌≢◌, ◌⊎◌, inl, inr, refl, sym, ap, ◌∙◌, arith, ◌==◌, Bool, true,
  false, not, ◌&&◌, Bool-cases, List, ◌∷◌, some, u32,
}
use blueman_artifact.Ending.{done}
use blueman_artifact.LinkedList.Ring.{IsRing, Avoids}
use blueman_artifact.PktRecord.{PktRecord}
use blueman_artifact.PktRecord.Buffer.{IsValid, add_all, add_all-contents}
use blueman_artifact.Coverage.{has_new_bits}
use blueman_artifact.Corpus.{Corpus, queue, save_if_interesting}
use blueman_artifact.Corpus.Saving.{save_if_interesting-Kept}
use blueman_artifact.Execution.{Fault, Trial, Fuzzer, finish, fuzz_one}
use blueman_artifact.Execution.Saved.{CanLog}
use blueman_artifact.Execution.Files.{IsLedger}
use blueman_artifact.Execution.Ledger.{IsLedger-other}
use blueman_artifact.Execution.Runs.{
  fault_count, interceptor_killed, fuzz_one-Steps, Steps-SameState, Steps-IsLedger,
}

-- The variables before execution number `n`: the record is valid, the queue is a ring of the entries
-- `xs`, no two error files have one name, and the counters count them.
pub record IsFuzzer (n : ℕ) (xs : List ℕ) (f : Fuzzer) : Type 0 where
  pub valid : IsValid f.pkt_rec
  pub ring : IsRing f.corpus.links queue xs
  pub ledger : IsLedger n n (2 * n) f

-- What the system must grant: both logs can be copied, the interceptor ends, and `malloc` returns an
-- address that is in no entry.
pub record IsGranted (xs : List ℕ) (t : Trial) : Type 0 where
  pub target_log : CanLog t t.target_log
  pub attacker_log : CanLog t t.attacker_log
  pub ends : t.interceptor_ends ≡ true
  pub fresh : Avoids t.q (queue ∷ xs)

-- The queue that `save_if_interesting` leaves has its old entries; or one more, whose name is that of
-- one more saved file.
abbrev pub Grown : ℕ → Corpus → Corpus → List ℕ → List ℕ → Type 0
Grown q c d xs ys =
    ((ys ≡ xs) × (d.saved ≡ c.saved) × (d.entries ≡ c.entries))
    ⊎ ((ys ≡ q ∷ xs)
        × ((bytes : List ℕ) × (d.saved ≡ ((d.entries q).fname, bytes) ∷ c.saved))
        × ((x : ℕ) → x ≢ q → d.entries x ≡ c.entries x))

-- The virgin map is as before, or as `has_new_bits` leaves it.
abbrev pub Looked : List ℕ → List ℕ → List ℕ → Type 0
Looked trace before after = (after ≡ before) ⊎ (after ≡ (has_new_bits trace before).1)

Looked-from : (trace a b after : List ℕ) → a ≡ b → Looked trace a after → Looked trace b after
Looked-from trace a b after e looked = rw (sym e) looked

Grown-from :
    (q : ℕ) (a b d : Corpus) (xs ys : List ℕ) → a ≡ b → Grown q a d xs ys → Grown q b d xs ys
Grown-from q a b d xs ys e grown = rw (sym e) grown

true-false : {b : Bool} → b ≡ true → b ≡ false → ⊥
true-false e h = ground (arith, e, h)

no_keep : (k : ℕ) (create : Bool) → create ≡ true → ((k == 0) && not create) ≡ false
no_keep k create e = elim (Bool-cases (k == 0)) [ inl z ↦ rw (z, e) refl | inr n ↦ rw n refl ]

module _ (path_buf : ℕ → ℕ → ℕ → List ℕ) (t : Trial) where
  save-IsRing :
      (pkt_rec : PktRecord) (round : ℕ) (c : Corpus) (xs : List ℕ)
      → IsValid pkt_rec
      → IsRing c.links queue xs
      → Avoids t.q (queue ∷ xs)
      → (ret : ℕ) × (d : Corpus) × (ys : List ℕ) × (save_if_interesting path_buf t.trace_bits t.q
            t.now pkt_rec round c
          ≡ some (ret, d))
        × IsRing d.links queue ys
        × Grown t.q c d xs ys
        × Looked t.trace_bits c.virgin_bits d.virgin_bits
  save-IsRing pkt_rec round c xs v r fresh =
      elim (save_if_interesting-Kept path_buf t.trace_bits t.q t.now round pkt_rec v c xs r fresh) [
        | inl (_, e) ↦ (0, _, xs, e, r, inl (refl, refl, refl), inr refl)
        | inr (_, (d, e, k)) ↦
            (1, d, t.q ∷ xs, e, k.ring, inr (refl, (_, k.file), k.others), inr k.virgin)
      ]

  no_wait : (killed : Bool) → (not killed && not true) ≡ false
  no_wait true = refl
  no_wait false = refl

  finish-keep :
      (create : Bool) (k : ℕ) (killed : Bool) (f : Fuzzer) (ret : ℕ) (d : Corpus)
      → t.interceptor_ends ≡ true
      → ((k == 0) && not create) ≡ true
      → save_if_interesting path_buf t.trace_bits t.q t.now f.pkt_rec
          (u32 f.total_exec_times)
          f.corpus
        ≡ some (ret, d)
      → finish path_buf create t k killed f ≡ done (k, record f { corpus = d })
  unfolding finish
  finish-keep create k killed f ret d ends keep e = rw (ends, no_wait killed, keep, e) refl

  finish-skip :
      (create : Bool) (k : ℕ) (killed : Bool) (f : Fuzzer)
      → t.interceptor_ends ≡ true
      → ((k == 0) && not create) ≡ false
      → finish path_buf create t k killed f ≡ done (k, f)
  unfolding finish
  finish-skip create k killed f ends skip = rw (ends, no_wait killed, skip) refl

  -- The last part: the corpus is kept if there was no crash and this is not the first run.
  pub finish-corpus :
      (create_init_corpus : Bool) (v : Fault) (f : Fuzzer) (xs : List ℕ)
      → IsValid f.pkt_rec
      → IsRing f.corpus.links queue xs
      → t.interceptor_ends ≡ true
      → Avoids t.q (queue ∷ xs)
      → (d : Corpus) × (ys : List ℕ) × (finish path_buf create_init_corpus t
            (fault_count v)
            (interceptor_killed t v)
            f
          ≡ done (fault_count v, record f { corpus = d }))
        × IsRing d.links queue ys
        × Grown t.q f.corpus d xs ys
        × Looked t.trace_bits f.corpus.virgin_bits d.virgin_bits
        × (((fault_count v == 0) && not create_init_corpus) ≡ false → d ≡ f.corpus)
        × (((fault_count v == 0) && not create_init_corpus) ≡ true
            → (ret : ℕ) × (save_if_interesting path_buf t.trace_bits t.q t.now f.pkt_rec
                  (u32 f.total_exec_times)
                  f.corpus
                ≡ some (ret, d)))
  finish-corpus create v f xs valid r ends fresh =
      let (ret, d, ys, e, ring, grown, looked) =
        save-IsRing f.pkt_rec (u32 f.total_exec_times) f.corpus xs valid r fresh in
      elim (Bool-cases ((fault_count v == 0) && not create)) [
        | inl keep ↦ (
          d,
          ys,
          finish-keep create (fault_count v) (interceptor_killed t v) f ret d ends keep e,
          ring,
          grown,
          looked,
          λ b. absurd (true-false keep b),
          λ b. (ret, e),
        )
        | inr skip ↦ (
          f.corpus,
          xs,
          finish-skip create (fault_count v) (interceptor_killed t v) f ends skip,
          r,
          inl (refl, refl, refl),
          inl refl,
          λ b. refl,
          λ b. absurd (true-false b skip),
        )
      ]

  -- For fewer than 2 ^ 61 executions, in the `n`-th one, with a valid packet record, a queue that is a
  -- ring, no two error files of one name, and counters that count the runs in these files; where both
  -- logs can be copied, the interceptor ends, and `malloc` returns an address that is in no entry:
  -- `fuzz_one` returns, however the target and the attacker end and whatever was recorded, and all
  -- that holds again for the next execution: so no file of an earlier error is overwritten. The
  -- queue has its old entries, and perhaps one more at its head, named as the one file more that is
  -- then saved; the virgin map is as before or as
  -- `has_new_bits` leaves it, and the first run does not change the corpus.
  pub fuzz_one-IsFuzzer :
      (n : ℕ) (create_init_corpus : Bool) (f : Fuzzer) (xs : List ℕ)
      → n < 2 ^ 61
      → f.total_exec_times ≡ n
      → IsFuzzer n xs f
      → IsGranted xs t
      → (k : ℕ) × (g : Fuzzer) × (ys : List ℕ) × (fuzz_one path_buf create_init_corpus t f
          ≡ done (k, g))
        × IsFuzzer (n + 1) ys g
        × (g.total_exec_times ≡ n)
        × Grown t.q f.corpus g.corpus xs ys
        × Looked t.trace_bits f.corpus.virgin_bits g.corpus.virgin_bits
        × (create_init_corpus ≡ true → g.corpus ≡ f.corpus)
  fuzz_one-IsFuzzer n create f xs small e i granted =
      let (v, h, steps, run) =
        fuzz_one-Steps path_buf create t granted.target_log granted.attacker_log f in
      let (rec_h, corpus_h, times_h) = Steps-SameState t f h v steps in
      let l = Steps-IsLedger n t f h v small e i.ledger steps in
      let twice : 2 * (n + 1) ≡ 2 * n + 1 + 1 = omega arith in
      let valid : IsValid h.pkt_rec =
        rw rec_h
          (add_all-contents t.late (add_all f.pkt_rec t.recorded)
            (add_all-contents t.recorded f.pkt_rec i.valid).0).0 in
      let (d, ys, last, ring, grown, looked, skipped, kept) =
        finish-corpus create v h xs valid (rw corpus_h i.ring) granted.ends granted.fresh in
      (
        fault_count v,
        record h { corpus = d },
        ys,
        run ∙ last,
        record {
          valid = valid;
          ring = ring;
          ledger =
              rw twice (IsLedger-other (n + 1) (n + 1) (2 * n + 1 + 1) h h.pkt_rec d h.queues l);
        },
        times_h ∙ e,
        Grown-from t.q _ _ d xs ys corpus_h grown,
        Looked-from t.trace_bits _ _ _ (ap (λ c. c.virgin_bits) corpus_h) looked,
        λ first. skipped (no_keep (fault_count v) create first) ∙ corpus_h,
      )
