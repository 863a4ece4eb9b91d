-- ===== src/Rounds/Start.antt =====
-- `collect_init_corpus` of blueman-main/btfuzz.c: the first run, if there is no seed, and the queue
-- that the seeds make. The directory is read twice: it is input as it stands before and after the
-- first run.
use blueman_artifact.Prelude.{
  ◌∙◌, ap, ℕ, ◌≡◌, inl, inr, refl, arith, ◌==◌, if◌then◌else◌, true, Bool-cases, List, [], Option,
  some, length,
}
use blueman_artifact.Ending.{Ending, done, ◌>>=◌, or_fault}
use blueman_artifact.Corpus.{Corpus}
use blueman_artifact.Corpus.Names.{names}
use blueman_artifact.Corpus.Loading.{
  SeedFile, load_corpus_to_queue, get_num_of_init_corpus, loaded, loaded_paths, AllLoadable,
  load_corpus_to_queue-IsRing,
}
use blueman_artifact.Execution.{Trial, Fuzzer, fuzz_one}
use blueman_artifact.Execution.Ledger.{IsLedger-relax, IsLedger-other}
use blueman_artifact.Execution.Invariant.{IsFuzzer, IsGranted, fuzz_one-IsFuzzer}

module _ (path_buf : ℕ → ℕ → ℕ → List ℕ) (output_seed_path : List ℕ) where
  unfoldable pub first_run : Option (List SeedFile) → Trial → Fuzzer → Ending Fuzzer
  first_run before t f =
      if get_num_of_init_corpus before == 0
      then (do (fault_count, g) ← fuzz_one path_buf true t f; done g)
      else done f

  unfoldable pub collect_init_corpus :
      (before after : Option (List SeedFile)) → Trial → Fuzzer → Ending Fuzzer
  unfolding first_run
  collect_init_corpus before after t f = do
    g ← first_run before t f
    corpus ← or_fault (load_corpus_to_queue output_seed_path after g.corpus)
    done (record g { corpus = corpus })

  no_seed-IsFuzzer :
      (f g : Fuzzer) (ys : List ℕ)
      → IsFuzzer 0 [] f
      → IsFuzzer 1 ys g
      → g.corpus ≡ f.corpus
      → IsFuzzer 1 [] g
  no_seed-IsFuzzer f g ys i j same = record {
    valid = j.valid;
    ring = rw same i.ring;
    ledger = j.ledger;
  }

  first_run-IsFuzzer :
      (before : Option (List SeedFile)) (t : Trial) (f : Fuzzer)
      → f.total_exec_times ≡ 0
      → IsFuzzer 0 [] f
      → IsGranted [] t
      → (g : Fuzzer) × (first_run before t f ≡ done g)
        × IsFuzzer 1 [] g
        × (g.total_exec_times ≡ 0)
        × (g.corpus ≡ f.corpus)
  unfolding first_run
  first_run-IsFuzzer before t f e i granted =
      elim (Bool-cases (get_num_of_init_corpus before == 0)) [
        | inl none_there ↦
            let (k, g, ys, run, j, times, grown, looked, same) =
              fuzz_one-IsFuzzer path_buf t 0 true f [] (omega arith) e i granted in
            (
              g,
              rw (none_there, run) refl,
              no_seed-IsFuzzer f g ys i j (same refl),
              times,
              same refl,
            )
        | inr some_there ↦ (
          f,
          rw some_there refl,
          record {
            valid = i.valid;
            ring = i.ring;
            ledger =
                IsLedger-relax 0 0 0 1 1 2 f (omega arith) (omega arith) (omega arith) i.ledger;
          },
          e,
          refl,
        )
      ]

  load-IsFuzzer :
      (g : Fuzzer) (dir : List SeedFile)
      → IsFuzzer 1 [] g
      → AllLoadable dir []
      → (c : Corpus) × (load_corpus_to_queue output_seed_path (some dir) g.corpus ≡ some c)
        × IsFuzzer 1 (loaded dir []) (record g { corpus = c })
        × (length (loaded dir []) ≡ get_num_of_init_corpus (some dir))
        × (c.virgin_bits ≡ g.corpus.virgin_bits)
        × (c.saved ≡ g.corpus.saved)
        × (names c.entries (loaded dir []) ≡ loaded_paths output_seed_path dir [])
  load-IsFuzzer g dir i ok =
      let (c, run, ring, n, kept, held, paths) =
        load_corpus_to_queue-IsRing output_seed_path dir g.corpus ok i.ring in
      (
        c,
        run,
        record {
          valid = i.valid;
          ring = ring;
          ledger = IsLedger-other 1 1 2 g g.pkt_rec c g.queues i.ledger;
        },
        n,
        kept,
        held,
        paths,
      )

  -- From an empty queue, before the first execution, with the variables in order: when the system
  -- grants what an execution needs and the seeds that are there after it can be loaded,
  -- `collect_init_corpus` returns, with or without a first run, whatever becomes of it. The
  -- variables are in order for execution number 1, and the queue has exactly the seeds, as many as
  -- `get_num_of_init_corpus` counts, and their paths; the virgin map and the saved files are as before.
  pub collect_init_corpus-IsFuzzer :
      (before : Option (List SeedFile)) (dir : List SeedFile) (t : Trial) (f : Fuzzer)
      → f.total_exec_times ≡ 0
      → IsFuzzer 0 [] f
      → IsGranted [] t
      → AllLoadable dir []
      → (g : Fuzzer) × (collect_init_corpus before (some dir) t f ≡ done g)
        × IsFuzzer 1 (loaded dir []) g
        × (length (loaded dir []) ≡ get_num_of_init_corpus (some dir))
        × (g.total_exec_times ≡ 0)
        × (g.corpus.virgin_bits ≡ f.corpus.virgin_bits)
        × (g.corpus.saved ≡ f.corpus.saved)
        × (names g.corpus.entries (loaded dir []) ≡ loaded_paths output_seed_path dir [])
  unfolding collect_init_corpus
  collect_init_corpus-IsFuzzer before dir t f e i granted ok =
      let (g, run, j, times, same) = first_run-IsFuzzer before t f e i granted in
      let (c, load, k, n, kept, held, paths) = load-IsFuzzer g dir j ok in
      (
        record g { corpus = c },
        rw (run, load) refl,
        k,
        n,
        times,
        kept ∙ ap (λ x. x.virgin_bits) same,
        held ∙ ap (λ x. x.saved) same,
        paths,
      )
