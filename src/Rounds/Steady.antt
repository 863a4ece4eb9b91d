-- ===== src/Rounds/Steady.antt =====
-- One execution, from the reset of the recorder on: the fuzzer's variables stay in order, and the
-- greatest coverage is the current one.
use blueman_artifact.Prelude.{
  ℕ, ◌+◌, ◌*◌, ◌%◌, ◌^◌, ◌≤◌, ◌<◌, ◌≡◌, ◌≢◌, inl, inr, refl, sym, ap, ◌∙◌, arith, ◌==◌, ltb,
  if◌then◌else◌, true, false, Bool-cases, ◌&&◌, List, ◌∷◌, length,
}
use blueman_artifact.Ending.{done}
use blueman_artifact.LinkedList.Ring.{Avoids}
use blueman_artifact.PktRecord.{init_pkt_seq_buf}
use blueman_artifact.PktRecord.Buffer.{init_pkt_seq_buf-IsValid}
use blueman_artifact.FieldMutator.Selection.{Floats}
use blueman_artifact.Coverage.{get_total_coverage}
use blueman_artifact.Coverage.Count.{AllWords}
use blueman_artifact.Coverage.NewBits.{get_total_coverage-has_new_bits, length-has_new_bits}
use blueman_artifact.Corpus.{Corpus, queue}
use blueman_artifact.Execution.{Trial, Fuzzer, fuzz_one}
use blueman_artifact.Execution.Saved.{CanLog}
use blueman_artifact.Execution.Ledger.{IsLedger-other}
use blueman_artifact.Execution.Invariant.{IsFuzzer, IsGranted, Grown, Looked, fuzz_one-IsFuzzer}
use blueman_artifact.Rounds.Position.{
  IsAt, Grows, Grown-Grows, Opens, Grown-Opens, open_corpus-Opens,
}
use blueman_artifact.Rounds.{open_corpus, Campaign, Setting, change_mode, after_run, execute}

-- What the system grants in every execution: the logs can be copied, the interceptor ends, the maps
-- have `words` words of 64 bits, and `malloc` returns an address only once.
pub record IsSetting (words : ℕ) (set : Setting) : Type 0 where
  pub target_log : (n : ℕ) → CanLog (set.trials n) (set.trials n).target_log
  pub attacker_log : (n : ℕ) → CanLog (set.trials n) (set.trials n).attacker_log
  pub ends : (n : ℕ) → (set.trials n).interceptor_ends ≡ true
  pub map_words : (n : ℕ) → AllWords (set.trials n).trace_bits
  pub map_length : (n : ℕ) → length (set.trials n).trace_bits ≡ words
  pub addresses : (n k : ℕ) → n < k → (set.trials k).q ≢ (set.trials n).q
  pub small : 8 * words < 2 ^ 32

module _ (fl : Floats) (set : Setting) (words : ℕ) (ok : IsSetting words set) where
  -- The variables after a number of executions, with the entries `xs` in the queue, which are at no
  -- address that `malloc` will return, and whose files open.
  pub record IsCampaign (xs : List ℕ) (c : Campaign fl) : Type 0 where
    pub fuzzer_ok : IsFuzzer (c.fuzzer.total_exec_times + 1) xs c.fuzzer
    pub unused : (k : ℕ) → c.fuzzer.total_exec_times < k → Avoids (set.trials k).q (queue ∷ xs)
    pub virgin_words : length c.fuzzer.corpus.virgin_bits ≡ words
    pub no_more : c.max_total_coverage ≤ get_total_coverage c.fuzzer.corpus.virgin_bits
    pub opens : Opens set.seeds c.fuzzer.corpus xs

  -- The coverage figures show the virgin map.
  pub record IsShown (c : Campaign fl) : Type 0 where
    pub shown : c.total_coverage ≡ get_total_coverage c.fuzzer.corpus.virgin_bits
    pub greatest : c.max_total_coverage ≡ c.total_coverage

  Looked-coverage :
      (n : ℕ) (before after : List ℕ)
      → length before ≡ words
      → Looked (set.trials n).trace_bits before after
      → (length after ≡ words) × (get_total_coverage before ≤ get_total_coverage after)
  Looked-coverage n before after e (inl same) = (rw same e, rw same (omega arith))
  Looked-coverage n before after e (inr seen) =
      let small : 8 * length before < 2 ^ 32 = omega (arith, ok.small) in
      let trace = (set.trials n).trace_bits in
      let same = ok.map_length n ∙ sym e in
      let grown = get_total_coverage-has_new_bits trace before (ok.map_words n) same small in
      (
        rw seen (length-has_new_bits trace before (ok.map_words n) same ∙ e),
        rw seen (omega (arith, grown.1)),
      )

  pub change_mode-fuzzer :
      (c : Campaign fl)
      → ((change_mode fl set c).fuzzer ≡ c.fuzzer)
        × ((change_mode fl set c).max_total_coverage ≡ c.max_total_coverage)
        × ((change_mode fl set c).round ≡ c.round)
  unfolding change_mode
  change_mode-fuzzer c =
      elim (Bool-cases (c.mixed_mode && (c.fuzzer.total_exec_times % 2000 == 0))) [
        | inl b ↦ (rw b refl, rw b refl, rw b refl)
        | inr b ↦ (rw b refl, rw b refl, rw b refl)
      ]

  unused-Grown :
      (n : ℕ) (c d : Corpus) (xs ys : List ℕ)
      → ((k : ℕ) → n ≤ k → Avoids (set.trials k).q (queue ∷ xs))
      → Grown (set.trials n).q c d xs ys
      → (k : ℕ) → n < k
      → Avoids (set.trials k).q (queue ∷ ys)
  unused-Grown n c d xs ys h (inl (same, _, _)) k lt = rw same (h k (omega arith))
  unused-Grown n c d xs ys h (inr (new, _, _)) k lt =
      let old = h k (omega arith) in rw new (old.0, (ok.addresses n k lt, old.1))

  reset-IsFuzzer :
      (n : ℕ) (xs : List ℕ) (f : Fuzzer)
      → IsFuzzer n xs f
      → IsFuzzer n xs (record f { pkt_rec = init_pkt_seq_buf f.pkt_rec })
  reset-IsFuzzer n xs f i = record {
    valid = (init_pkt_seq_buf-IsValid f.pkt_rec i.valid).0;
    ring = i.ring;
    ledger = IsLedger-other n n (2 * n) f (init_pkt_seq_buf f.pkt_rec) f.corpus f.queues i.ledger;
  }

  -- Execution number `n` leads from `c` to `d`.
  pub record Advanced (n : ℕ) (xs ys : List ℕ) (c d : Campaign fl) : Type 0 where
    pub grows : Grows xs ys
    pub campaign : IsCampaign ys d
    pub shown : IsShown d
    pub times : d.fuzzer.total_exec_times ≡ n
    pub same_round : d.round ≡ c.round
    pub more : c.max_total_coverage ≤ d.max_total_coverage

  pub at-IsFuzzer :
      (m n : ℕ) (ys : List ℕ) (g : Fuzzer) → m ≡ n → IsFuzzer (n + 1) ys g → IsFuzzer (m + 1) ys g
  at-IsFuzzer m n ys g e i = rw e i

  after_run-Advanced :
      (n : ℕ) (xs ys : List ℕ) (g : Fuzzer) (c : Campaign fl)
      → Grows xs ys
      → Opens set.seeds g.corpus ys
      → IsFuzzer (n + 1) ys g
      → g.total_exec_times ≡ n
      → ((k : ℕ) → n < k → Avoids (set.trials k).q (queue ∷ ys))
      → length g.corpus.virgin_bits ≡ words
      → c.max_total_coverage ≤ get_total_coverage g.corpus.virgin_bits
      → Advanced n xs ys c (after_run fl set (set.trials n) g c)
  unfolding after_run
  after_run-Advanced n xs ys g c grows opens i e unused same le =
      let now = get_total_coverage g.corpus.virgin_bits in
      let most : (if ltb c.max_total_coverage now then now else c.max_total_coverage) ≡ now =
        ground arith in
      record {
        grows = grows;
        campaign = record {
          opens = opens;
          fuzzer_ok = at-IsFuzzer g.total_exec_times n ys g e i;
          unused = λ k lt. unused k (omega arith);
          virgin_words = same;
          no_more = omega (arith, most);
        };
        shown = record { shown = refl; greatest = most };
        times = e;
        same_round = refl;
        more = omega (arith, most, le);
      }

  execute-run :
      (cur : ℕ) (file : List ℕ) (c : Campaign fl) (t : Trial) (k : ℕ) (g : Fuzzer)
      → open_corpus fl set cur c ≡ done file
      → set.trials c.fuzzer.total_exec_times ≡ t
      → fuzz_one set.path_buf false t
          (record c.fuzzer { pkt_rec = init_pkt_seq_buf c.fuzzer.pkt_rec })
        ≡ done (k, g)
      → execute fl set cur c ≡ done (after_run fl set t g c)
  unfolding execute
  execute-run cur file c t k g opened same run = rw (opened, same, run) refl

  pub execute-Advanced :
      (n cur tail : ℕ) (xs : List ℕ) (c : Campaign fl)
      → IsAt cur tail xs
      → Opens set.seeds c.fuzzer.corpus xs
      → n < 2 ^ 61
      → c.fuzzer.total_exec_times ≡ n
      → IsFuzzer n xs c.fuzzer
      → ((k : ℕ) → n ≤ k → Avoids (set.trials k).q (queue ∷ xs))
      → length c.fuzzer.corpus.virgin_bits ≡ words
      → c.max_total_coverage ≤ get_total_coverage c.fuzzer.corpus.virgin_bits
      → (ys : List ℕ) × (d : Campaign fl) × (execute fl set cur c ≡ done d) × Advanced n xs ys c d
  execute-Advanced n cur tail xs c place opens small e i unused same le =
      let f : Fuzzer = record c.fuzzer { pkt_rec = init_pkt_seq_buf c.fuzzer.pkt_rec } in
      let granted : IsGranted xs (set.trials n) = record {
        target_log = ok.target_log n;
        attacker_log = ok.attacker_log n;
        ends = ok.ends n;
        fresh = unused n (omega arith);
      } in
      let (k, g, ys, run, j, times, grown, looked, first) =
        fuzz_one-IsFuzzer set.path_buf (set.trials n) n false f xs small e
          (reset-IsFuzzer n xs c.fuzzer i) granted in
      let (file, opened) = open_corpus-Opens fl set cur tail xs c place i.ring opens in
      let (same', more) =
        Looked-coverage n c.fuzzer.corpus.virgin_bits g.corpus.virgin_bits same looked in
      (
        ys,
        after_run fl set (set.trials n) g c,
        execute-run cur file c (set.trials n) k g opened (ap set.trials e) run,
        after_run-Advanced n xs ys g c
            (Grown-Grows (set.trials n).q c.fuzzer.corpus g.corpus xs ys grown)
            (Grown-Opens set.seeds (set.trials n).q c.fuzzer.corpus g.corpus xs ys
              (unused n (omega arith)).1 grown opens)
            j times (unused-Grown n c.fuzzer.corpus g.corpus xs ys unused grown) same'
            (omega (arith, le, more)),
      )
