-- ===== src/Rounds/Whole.antt =====
-- `init_fuzzer` and `start_fuzzer` of blueman-main/btfuzz.c together, with `setup_shm` of
-- blueman-main/coverage.c. Trial 0 is the first run. What stands in memory that is not written is
-- a parameter, and so are the selection of packets and the random numbers.
use blueman_artifact.Prelude.{
  ℕ, ◌*◌, ◌^◌, ◌≤◌, ◌<◌, ◌≡◌, refl, ap, ◌∙◌, arith, Bool, false, List, [], ◌∷◌, Option, none, some,
  length,
}
use blueman_artifact.Coverage.{map_words, setup_shm}
use blueman_artifact.Coverage.Setup.{setup_shm-coverage}
use blueman_artifact.Ending.{Ending, done, ◌>>=◌}
use blueman_artifact.LinkedList.{Links, init_list_head}
use blueman_artifact.LinkedList.Ring.{Avoids}
use blueman_artifact.LinkedList.Order.{init_list_head-IsRing}
use blueman_artifact.PktRecord.{create_pkt_seq_buf}
use blueman_artifact.PktRecord.Buffer.{create_pkt_seq_buf-IsValid}
use blueman_artifact.FieldMutator.Selection.{Floats, Config}
use blueman_artifact.Corpus.{Corpus, QueueEntry, queue, get_queue_head, get_queue_tail}
use blueman_artifact.Corpus.Loading.{
  SeedFile, get_num_of_init_corpus, loaded_paths, max_packet_count_per_iter, loaded, AllLoadable,
}
use blueman_artifact.CoverageLogger.{logger_at_start, init_coverage_logger}
use blueman_artifact.Execution.{Fuzzer}
use blueman_artifact.Execution.Invariant.{IsFuzzer, IsGranted}
use blueman_artifact.Rounds.{Campaign, Setting, fuzz_rounds}
use blueman_artifact.Corpus.Names.{AllPaths, names, names-AllNames}
use blueman_artifact.Rounds.Position.{IsThere, Opens, IsAt-some}
use blueman_artifact.Rounds.Steady.{IsSetting, IsCampaign, IsShown, at-IsFuzzer}
use blueman_artifact.Rounds.Walk.{fuzz_rounds-Walked}
use blueman_artifact.Rounds.Start.{collect_init_corpus, collect_init_corpus-IsFuzzer}

-- The variables as coverage.c declares them, after `setup_shm`.
unfoldable pub init_corpus : Links → (ℕ → QueueEntry) → Corpus
init_corpus links entries = record {
  links = init_list_head queue links;
  entries = entries;
  queue_top = none;
  queued_paths = 0;
  last_path_time = 0;
  virgin_bits = setup_shm.0;
  saved = [];
}

-- The part of `init_fuzzer` that fills variables.
unfoldable pub init_fuzzer : Links → (ℕ → QueueEntry) → Fuzzer
unfolding init_corpus
init_fuzzer links entries = record {
  pkt_rec = create_pkt_seq_buf (max_packet_count_per_iter * 2);
  corpus = init_corpus links entries;
  total_exec_times = 0;
  crash_count = 0;
  timeout_count = 0;
  attack_error_count = 0;
  queues = 1;
  error_files = [];
}

module _ (fl : Floats) (set : Setting) where
  -- The variables of the loops before the first round.
  unfoldable pub first_campaign :
      (inst_id : List ℕ) → Bool → Config fl → (ℕ → ℕ) → Fuzzer → Campaign fl
  first_campaign inst_id mixed_mode config draws f = record {
    fuzzer = f;
    round = 0;
    packet_count = 0;
    total_packet_count = 0;
    cur_coverage = 0;
    total_coverage = 0;
    max_total_coverage = 0;
    prev_round_time = 0;
    cur_time = set.start_time;
    mixed_mode = mixed_mode;
    config = config;
    draws = draws;
    logger = init_coverage_logger (some inst_id) logger_at_start;
  }

  -- A number of rounds from the start.
  unfoldable pub start_fuzzer :
      (inst_id output_seed_path : List ℕ)
      → Bool
      → Config fl
      → (ℕ → ℕ)
      → (before after : Option (List SeedFile)) → ℕ
      → Fuzzer
      → Ending (List ℕ × Bool × Campaign fl)
  unfolding first_campaign
  start_fuzzer inst_id output_seed_path mixed_mode config draws before after n f = do
    g ← collect_init_corpus set.path_buf output_seed_path before after (set.trials 0) f
    fuzz_rounds fl set n (get_queue_head g.corpus) (get_queue_tail g.corpus)
        (first_campaign inst_id mixed_mode config draws g)

init_fuzzer-IsFuzzer :
    (links : Links) (entries : ℕ → QueueEntry) → IsFuzzer 0 [] (init_fuzzer links entries)
unfolding init_fuzzer init_corpus
init_fuzzer-IsFuzzer links entries = record {
  valid = (create_pkt_seq_buf-IsValid (max_packet_count_per_iter * 2) (omega arith)).0;
  ring = init_list_head-IsRing queue links;
  ledger = record {
    below = tt;
    distinct = tt;
    counted = refl;
    crashes = omega arith;
    timeouts = omega arith;
    attacks = omega arith;
  };
}

module _ (fl : Floats) (set : Setting) (ok : IsSetting map_words set) (inst_id : List ℕ)
    (mixed_mode : Bool) (config : Config fl) (draws : ℕ → ℕ) where
  first_campaign-IsCampaign :
      (g : Fuzzer) (xs : List ℕ)
      → IsFuzzer 1 xs g
      → g.total_exec_times ≡ 0
      → length g.corpus.virgin_bits ≡ map_words
      → ((k : ℕ) → Avoids (set.trials k).q (queue ∷ xs))
      → Opens set.seeds g.corpus xs
      → IsCampaign fl set map_words ok xs (first_campaign fl set inst_id mixed_mode config draws g)
  unfolding first_campaign
  first_campaign-IsCampaign g xs i e virgin unused opens = record {
    opens = opens;
    fuzzer_ok = at-IsFuzzer fl set map_words ok g.total_exec_times 0 xs g e i;
    unused = λ k lt. unused k;
    virgin_words = virgin;
    no_more = omega arith;
  }

  -- From the variables that `init_fuzzer` fills, whatever else stands in memory, in a setting that
  -- grants what every execution needs, with maps of 2 ^ 17 bytes, at least one seed after the first
  -- run, seeds that can be loaded and whose printed paths open, and addresses from `malloc` that no
  -- seed's entry has: `start_fuzzer` gets through its first run, if
  -- there is no seed, and through any number of rounds below 2 ^ 57, unless the time is over before.
  -- Then it has made ten executions in each round, the record is valid, the queue a ring, no error
  -- file was overwritten, the counters count the runs that were saved, and the coverage figures are
  -- those of the virgin map.
  pub start_fuzzer-IsCampaign :
      (links : Links) (entries : ℕ → QueueEntry) (output_seed_path : List ℕ)
      (before : Option (List SeedFile)) (dir : List SeedFile) (n : ℕ)
      → n < 2 ^ 57
      → AllLoadable dir []
      → 1 ≤ get_num_of_init_corpus (some dir)
      → AllPaths (IsThere set.seeds) (loaded_paths output_seed_path dir [])
      → ((k : ℕ) → Avoids (set.trials k).q (queue ∷ loaded dir []))
      → (rounds : List ℕ) × (ended : Bool) × (ys : List ℕ) × (d : Campaign fl) × (start_fuzzer fl
            set inst_id output_seed_path mixed_mode config draws before
            (some dir)
            n
            (init_fuzzer links entries)
          ≡ done (rounds, ended, d))
        × IsCampaign fl set map_words ok ys d
        × (d.fuzzer.total_exec_times ≡ 10 * length rounds)
        × (d.round ≡ length rounds)
        × (1 ≤ length rounds → IsShown fl set map_words ok d)
        × (length rounds ≤ n)
        × (ended ≡ false → length rounds ≡ n)
  unfolding start_fuzzer init_fuzzer init_corpus first_campaign
  start_fuzzer-IsCampaign links entries path before dir n few loadable some_seed there unused =
      let granted : IsGranted [] (set.trials 0) = record {
        target_log = ok.target_log 0;
        attacker_log = ok.attacker_log 0;
        ends = ok.ends 0;
        fresh = ((unused 0).0, tt);
      } in
      let (g, run, i, count, times, virgin, files, paths) =
        collect_init_corpus-IsFuzzer set.path_buf path before dir (set.trials 0)
          (init_fuzzer links entries) refl (init_fuzzer-IsFuzzer links entries) granted loadable in
      let words : length g.corpus.virgin_bits ≡ map_words =
        ap length virgin ∙ setup_shm-coverage.0 in
      let listed : AllPaths (IsThere set.seeds) (names g.corpus.entries (loaded dir [])) =
        rw paths there in
      let opens : Opens set.seeds g.corpus (loaded dir []) =
        rw files (names-AllNames (IsThere set.seeds) g.corpus.entries (loaded dir []) listed) in
      let c = first_campaign fl set inst_id mixed_mode config draws g in
      let (rounds, ended, ys, d, later, w, le, all) =
        fuzz_rounds-Walked fl set map_words ok n (get_queue_head g.corpus) (get_queue_tail g.corpus)
          (loaded dir []) c (IsAt-some g.corpus (loaded dir []) (omega (arith, count)) i.ring)
          (omega (arith, times)) (omega arith)
          (first_campaign-IsCampaign g (loaded dir []) i times words unused opens) in
      (
        rounds,
        ended,
        ys,
        d,
        rw run later,
        w.campaign,
        omega (arith, w.times, times),
        omega (arith, w.counted),
        w.shown,
        le,
        all,
      )
