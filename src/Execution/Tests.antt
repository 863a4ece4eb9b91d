-- ===== src/Execution/Tests.antt =====
-- An execution that ends in a crash.
use blueman_artifact.Prelude.{
  ℕ, ◌+◌, ◌≡◌, refl, arith, ◌==◌, true, false, not, ◌&&◌, ◌||◌, List, [], ◌∷◌, some, u32,
}
use blueman_artifact.Ending.{done}
use blueman_artifact.PktRecord.Buffer.{add_all}
use blueman_artifact.Corpus.{save_if_interesting}
use blueman_artifact.Execution.{
  Fault, is_crash, is_error, is_timeout, trapped, broken, Trial, Fuzzer, fuzz_one,
}
use blueman_artifact.Execution.Verdicts.{Verdict}
use blueman_artifact.Execution.Runs.{fault_count}
use blueman_artifact.Execution.Invariant.{IsFuzzer, Grown, Looked, fuzz_one-IsFuzzer}
use blueman_artifact.Execution.Added.{Added, one_if, target_failed}
use blueman_artifact.Execution.Counts.{fuzz_one-Verdict}
use blueman_artifact.Execution.Samples.{
  fuzzer_at_start, fuzzer_at_start-IsFuzzer, trial_of, crashed, trial_of-IsGranted,
}

abbrev numbers : ℕ → ℕ → ℕ → List ℕ
numbers cov_count round queued_paths = cov_count ∷ round ∷ queued_paths ∷ []

abbrev fuzzer : Fuzzer
fuzzer = record fuzzer_at_start { total_exec_times = 1 }

fuzzer-IsFuzzer : IsFuzzer 1 [] fuzzer
fuzzer-IsFuzzer =
    let i = fuzzer_at_start-IsFuzzer 1 in
    let l = i.ledger in
    record {
      valid = i.valid;
      ring = i.ring;
      ledger = record {
        below = tt;
        distinct = tt;
        counted = refl;
        crashes = l.crashes;
        timeouts = l.timeouts;
        attacks = l.attacks;
      };
    }

abbrev crash : Trial
crash = trial_of crashed 6

fuzz_one-IsFuzzer_example :
    (k : ℕ) × (g : Fuzzer) × (ys : List ℕ) × (fuzz_one numbers false crash fuzzer ≡ done (k, g))
    × IsFuzzer 2 ys g
    × (g.total_exec_times ≡ 1)
    × Grown 6 fuzzer.corpus g.corpus [] ys
    × Looked (1 ∷ []) fuzzer.corpus.virgin_bits g.corpus.virgin_bits
    × (false ≡ true → g.corpus ≡ fuzzer.corpus)
fuzz_one-IsFuzzer_example =
    fuzz_one-IsFuzzer numbers crash 1 false fuzzer [] (omega arith) refl fuzzer-IsFuzzer
      (trial_of-IsGranted crashed 6 (omega arith))

fuzz_one-Verdict_example :
    (v : Fault) × (g : Fuzzer) × (fuzz_one numbers false crash fuzzer ≡ done (fault_count v, g))
    × Verdict crashed v
    × Added
        (one_if (is_crash v))
        (one_if (is_timeout v && not (trapped crash.attacker)))
        (one_if (target_failed crashed v) + one_if (broken crash.attacker))
        (one_if (broken crash.attacker || is_error v) + one_if (is_crash v))
        fuzzer
        g
    × (g.pkt_rec ≡ add_all (add_all fuzzer.pkt_rec crash.recorded) crash.late)
    × (((fault_count v == 0) && not false) ≡ false → g.corpus ≡ fuzzer.corpus)
    × (((fault_count v == 0) && not false) ≡ true
        → (ret : ℕ) × (save_if_interesting numbers (1 ∷ []) 6 1000 g.pkt_rec (u32 1) fuzzer.corpus
            ≡ some (ret, g.corpus)))
fuzz_one-Verdict_example =
    fuzz_one-Verdict numbers crash 1 false fuzzer [] (omega arith) refl fuzzer-IsFuzzer
      (trial_of-IsGranted crashed 6 (omega arith))
