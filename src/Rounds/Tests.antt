-- ===== src/Rounds/Tests.antt =====
-- Two rounds of executions, and a start without seeds.
use blueman_artifact.Prelude.{zero, suc, none, replicate, length-replicate}
use blueman_artifact.Coverage.Count.{AllWords}
use blueman_artifact.Coverage.{map_words}
use blueman_artifact.Rounds.Whole.{init_fuzzer, start_fuzzer, start_fuzzer-IsCampaign}
use blueman_artifact.Rounds.Steady.{IsShown}
use blueman_artifact.Intercept.Samples.{packet, packet-IsPkt}
use blueman_artifact.Execution.Samples.{crashed}
use blueman_artifact.Prelude.{
  ℕ, ◌+◌, ◌*◌, ◌≤◌, ◌≡◌, refl, arith, Bool, true, false, List, [], ◌∷◌, some, length,
}
use blueman_artifact.Ending.{done}
use blueman_artifact.FieldMutator.Selection.{Floats, fixed_prob_50}
use blueman_artifact.CoverageLogger.{logger_at_start}
use blueman_artifact.PktRecord.{PktRecord, blank, save_seq_buf_to_file2}
use blueman_artifact.PktRecord.Buffer.{IsValid}
use blueman_artifact.Intercept.Samples.{packet, packet-IsPkt}
use blueman_artifact.Corpus.Names.{names}
use blueman_artifact.LinkedList.{list_add}
use blueman_artifact.LinkedList.Ring.{IsRing}
use blueman_artifact.LinkedList.Order.{list_add-IsRing}
use blueman_artifact.Corpus.{Corpus, queue}
use blueman_artifact.Execution.Samples.{corpus_at_start, corpus_at_start-IsRing}
use blueman_artifact.Corpus.Loading.{
  SeedFile, seed_path, IsReadable, save_seq_buf_to_file2-IsReadable, AllLoadable,
  get_num_of_init_corpus, loaded, loaded_paths,
}
use blueman_artifact.Execution.{Fuzzer}
use blueman_artifact.Execution.Saved.{dev_null}
use blueman_artifact.Execution.Invariant.{IsFuzzer}
use blueman_artifact.Execution.Samples.{
  fuzzer_at_start, fuzzer_at_start-IsFuzzer, trial_of, clean, target_log-CanLog, trial_of-IsGranted,
}
use blueman_artifact.Rounds.{Campaign, Setting, find_file, fuzz_rounds}
use blueman_artifact.Rounds.Steady.{IsSetting, IsCampaign}
use blueman_artifact.Rounds.Walk.{Walked, fuzz_rounds-Walked}
use blueman_artifact.Rounds.Start.{collect_init_corpus, collect_init_corpus-IsFuzzer}

-- What the program saves of a record with one packet.
abbrev seed_record : PktRecord
seed_record = record { count = 1; max_count = 200; pkts_buf = packet ∷ replicate 199 blank }

seed_record-IsValid : IsValid seed_record
seed_record-IsValid = record { allocated = refl; within = omega arith; small = omega arith }

abbrev seed : List ℕ
seed = save_seq_buf_to_file2 seed_record

seed-IsReadable : IsReadable seed
seed-IsReadable =
    save_seq_buf_to_file2-IsReadable seed_record seed_record-IsValid (packet-IsPkt, tt)
      (omega arith)

abbrev exact : Floats
exact = record { Prob = ℕ; percent = λ n. n; below = λ r p. true }

abbrev setting : Setting
setting = record {
  trials = λ n. trial_of clean (n + 1);
  clock = λ n. n * 1000;
  to_json = λ entries. [];
  seeds = (seed_path (47 ∷ []) (97 ∷ 98 ∷ []), seed) ∷ [];
  path_buf = λ cov_count round queued_paths. cov_count ∷ round ∷ queued_paths ∷ [];
  start_time = 0;
  max_delta_index = 0;
  timer = 30;
}

setting-IsSetting : IsSetting 1 setting
setting-IsSetting = record {
  target_log = λ n. target_log-CanLog clean (n + 1);
  attacker_log = λ n. dev_null;
  ends = λ n. refl;
  map_words = λ n. (omega arith, tt);
  map_length = λ n. refl;
  addresses = λ n k lt e. absurd (omega arith);
  small = omega arith;
}

-- After the first run: ".", and one seed.
abbrev directory : List SeedFile
directory =
    record { d_name = 46 ∷ []; file = []; q = 0; now = 0 }
    ∷ record { d_name = 97 ∷ 98 ∷ []; file = seed; q = 8; now = 1 }
    ∷ []

directory-AllLoadable : AllLoadable directory []
directory-AllLoadable = (seed-IsReadable, ((λ e. absurd (omega arith)), tt), tt)

-- The seed is the one entry of the queue, at address 1.
abbrev one_entry : Corpus
one_entry = record corpus_at_start {
  links = list_add 1 queue corpus_at_start.links;
  entries = λ x. record {
    fname = seed_path (47 ∷ []) (97 ∷ 98 ∷ []);
    count = 1;
    len = 20;
    has_new_cov = 0;
  };
}

one_entry-IsRing : IsRing one_entry.links queue (1 ∷ [])
one_entry-IsRing =
    list_add-IsRing corpus_at_start.links 1 queue [] corpus_at_start-IsRing
      ((λ e. absurd (omega arith)), tt)

abbrev fuzzer : Fuzzer
fuzzer = record fuzzer_at_start { corpus = one_entry }

fuzzer-IsFuzzer : IsFuzzer 1 (1 ∷ []) fuzzer
fuzzer-IsFuzzer =
    let i = fuzzer_at_start-IsFuzzer 1 in
    let l = i.ledger in
    record {
      valid = i.valid;
      ring = one_entry-IsRing;
      ledger = record {
        below = tt;
        distinct = tt;
        counted = refl;
        crashes = l.crashes;
        timeouts = l.timeouts;
        attacks = l.attacks;
      };
    }

abbrev campaign : Campaign exact
campaign = record {
  fuzzer = fuzzer;
  round = 0;
  packet_count = 0;
  total_packet_count = 0;
  cur_coverage = 0;
  total_coverage = 0;
  max_total_coverage = 0;
  prev_round_time = 0;
  cur_time = 0;
  mixed_mode = true;
  config = record {
    mode = fixed_prob_50;
    fixed_prob = 50;
    first_prob = 0;
    second_prob = 0;
    entry_index = 0;
  };
  draws = λ i. i;
  logger = logger_at_start;
}

campaign-IsCampaign : IsCampaign exact setting 1 setting-IsSetting (1 ∷ []) campaign
unfolding find_file
campaign-IsCampaign = record {
  opens = ((seed, refl), tt);
  fuzzer_ok = fuzzer-IsFuzzer;
  unused = λ k lt. ((λ e. absurd (omega arith)), ((λ e. absurd (omega arith)), tt));
  virgin_words = refl;
  no_more = omega arith;
}

fuzz_rounds_example :
    (entries : List ℕ) × (ended : Bool) × (ys : List ℕ) × (d : Campaign exact) × (fuzz_rounds exact
        setting 2 1 1 campaign
      ≡ done (entries, ended, d))
    × Walked exact setting 1 setting-IsSetting (length entries) ys campaign d
    × (length entries ≤ 2)
    × (ended ≡ false → length entries ≡ 2)
fuzz_rounds_example =
    fuzz_rounds-Walked exact setting 1 setting-IsSetting 2 1 1 (1 ∷ []) campaign
      ([], [], refl, refl) (omega arith) (omega arith) campaign-IsCampaign

collect_init_corpus_example :
    (g : Fuzzer) × (collect_init_corpus setting.path_buf
        (47 ∷ [])
        (some [])
        (some directory)
        (trial_of clean 6)
        fuzzer_at_start
      ≡ done g)
    × IsFuzzer 1 (loaded directory []) g
    × (length (loaded directory []) ≡ get_num_of_init_corpus (some directory))
    × (g.total_exec_times ≡ 0)
    × (g.corpus.virgin_bits ≡ fuzzer_at_start.corpus.virgin_bits)
    × (g.corpus.saved ≡ fuzzer_at_start.corpus.saved)
    × (names g.corpus.entries (loaded directory []) ≡ loaded_paths (47 ∷ []) directory [])
collect_init_corpus_example =
    collect_init_corpus-IsFuzzer setting.path_buf (47 ∷ []) (some []) directory (trial_of clean 6)
      fuzzer_at_start refl (fuzzer_at_start-IsFuzzer 0) (trial_of-IsGranted clean 6 (omega arith))
      directory-AllLoadable

-- The whole program, with maps of their size and no logs.
unfoldable lit_map : List ℕ
lit_map = replicate map_words 1

AllWords-ones : (n : ℕ) → AllWords (replicate n 1)
AllWords-ones zero = tt
AllWords-ones (suc n) = (omega arith, AllWords-ones n)

lit_map-AllWords : AllWords lit_map
unfolding lit_map
lit_map-AllWords = AllWords-ones map_words

length-lit_map : length lit_map ≡ map_words
unfolding lit_map
length-lit_map = length-replicate {A = ℕ} map_words 1

abbrev whole : Setting
whole = record setting {
  trials = λ n. record (trial_of crashed (n + 9)) { trace_bits = lit_map; target_log = none };
}

whole-IsSetting : IsSetting map_words whole
whole-IsSetting = record {
  target_log = λ n. dev_null;
  attacker_log = λ n. dev_null;
  ends = λ n. refl;
  map_words = λ n. lit_map-AllWords;
  map_length = λ n. length-lit_map;
  addresses = λ n k lt e. absurd (omega arith);
  small = omega arith;
}

start_fuzzer_example :
    (rounds : List ℕ) × (ended : Bool) × (ys : List ℕ) × (d : Campaign exact) × (start_fuzzer exact
        whole
        (97 ∷ [])
        (47 ∷ [])
        true
        campaign.config
        campaign.draws
        (some [])
        (some directory)
        2
        (init_fuzzer campaign.fuzzer.corpus.links campaign.fuzzer.corpus.entries)
      ≡ done (rounds, ended, d))
    × IsCampaign exact whole map_words whole-IsSetting ys d
    × (d.fuzzer.total_exec_times ≡ 10 * length rounds)
    × (d.round ≡ length rounds)
    × (1 ≤ length rounds → IsShown exact whole map_words whole-IsSetting d)
    × (length rounds ≤ 2)
    × (ended ≡ false → length rounds ≡ 2)
unfolding find_file get_num_of_init_corpus
start_fuzzer_example =
    start_fuzzer-IsCampaign exact whole whole-IsSetting (97 ∷ []) true campaign.config
      campaign.draws campaign.fuzzer.corpus.links campaign.fuzzer.corpus.entries (47 ∷ []) (some [])
      directory 2 (omega arith) directory-AllLoadable (omega arith) ((seed, refl), tt)
      (λ k. ((λ e. absurd (omega arith)), ((λ e. absurd (omega arith)), tt)))
