-- ===== src/Execution/Samples.antt =====
-- Sample variables and trials.
use blueman_artifact.Prelude.{ℕ, ◌≤◌, refl, arith, true, false, [], ◌∷◌, none, some, replicate}
use blueman_artifact.LinkedList.{init_list_head}
use blueman_artifact.LinkedList.Ring.{IsRing}
use blueman_artifact.LinkedList.Order.{init_list_head-IsRing}
use blueman_artifact.PktRecord.{blank}
use blueman_artifact.Copying.Pieces.{my_copy_file_range-prefixes}
use blueman_artifact.Corpus.{Corpus, queue}
use blueman_artifact.Execution.{Status, Trial, Fuzzer}
use blueman_artifact.Execution.Saved.{CanLog, dev_null, copied}
use blueman_artifact.Execution.Invariant.{IsFuzzer, IsGranted}

abbrev pub corpus_at_start : Corpus
corpus_at_start = record {
  links = init_list_head queue (record { next = λ x. 0; prev = λ x. 0 });
  entries = λ x. record { fname = []; count = 0; len = 0; has_new_cov = 0 };
  queue_top = none;
  queued_paths = 0;
  last_path_time = 0;
  virgin_bits = 18446744073709551615 ∷ [];
  saved = [];
}

pub corpus_at_start-IsRing : IsRing corpus_at_start.links queue []
corpus_at_start-IsRing = init_list_head-IsRing queue (record { next = λ x. 0; prev = λ x. 0 })

abbrev pub fuzzer_at_start : Fuzzer
fuzzer_at_start = record {
  pkt_rec = record { count = 0; max_count = 4; pkts_buf = replicate 4 blank };
  corpus = corpus_at_start;
  total_exec_times = 0;
  crash_count = 0;
  timeout_count = 0;
  attack_error_count = 0;
  queues = 1;
  error_files = [];
}

pub fuzzer_at_start-IsFuzzer : (n : ℕ) → IsFuzzer n [] fuzzer_at_start
fuzzer_at_start-IsFuzzer n = record {
  valid = record { allocated = refl; within = omega arith; small = omega arith };
  ring = corpus_at_start-IsRing;
  ledger = record {
    below = tt;
    distinct = tt;
    counted = refl;
    crashes = omega arith;
    timeouts = omega arith;
    attacks = omega arith;
  };
}

-- The target ends with a status, and the attacker is killed.
abbrev pub trial_of : Status → (q : ℕ) → Trial
trial_of target q = record {
  target = target;
  attacker = record { signaled = true; termsig = 9; exitstatus = 0 };
  recorded = blank ∷ [];
  late = [];
  interceptor_ends = true;
  trace_bits = 1 ∷ [];
  target_log = some (1 ∷ 2 ∷ 3 ∷ []);
  attacker_log = none;
  copying = λ path. record { mapped = true; writes = some 3 ∷ []; unmapped = true };
  q = q;
  now = 1000;
}

abbrev pub crashed : Status
crashed = record { signaled = true; termsig = 11; exitstatus = 0 }

abbrev pub clean : Status
clean = record { signaled = false; termsig = 0; exitstatus = 0 }

pub target_log-CanLog : (s : Status) (q : ℕ) → CanLog (trial_of s q) (some (1 ∷ 2 ∷ 3 ∷ []))
target_log-CanLog s q = copied (λ path. (
  1 ∷ 2 ∷ 3 ∷ [],
  my_copy_file_range-prefixes (1 ∷ 2 ∷ 3 ∷ []) [] 3 [] true (omega arith) (omega arith),
))

pub trial_of-IsGranted : (s : Status) (q : ℕ) → 1 ≤ q → IsGranted [] (trial_of s q)
trial_of-IsGranted s q some_q = record {
  target_log = target_log-CanLog s q;
  attacker_log = dev_null;
  ends = refl;
  fresh = ((λ e. absurd (omega arith)), tt);
}
