-- ===== src/Execution/Ledger.antt =====
-- Each step of an execution keeps the ledger of the error files.
use blueman_artifact.Prelude.{ℕ, ◌+◌, ◌^◌, ◌≤◌, ◌<◌, ◌≡◌, refl, arith}
use blueman_artifact.PktRecord.{PktRecord}
use blueman_artifact.Corpus.{Corpus}
use blueman_artifact.Execution.{
  Status, Fault, output_crash, output_crash_log, output_timeout, output_timeout_log,
  output_attack_err_corpus, output_attack_err_log, Fuzzer, timeout_file, crash_file, attack_file,
}
use blueman_artifact.Execution.Verdicts.{
  Waited, quiet, crash_saved, error_saved, Attacked, fine, reset, attacker_saved, Timed, not_saved,
  timeout_saved,
}
use blueman_artifact.Execution.Files.{free_mono, AllBelow-mono, IsLedger, Written-IsLedger}

pub IsLedger-relax :
    (c t b c' t' b' : ℕ) (f : Fuzzer)
    → c ≤ c'
    → t ≤ t'
    → b ≤ b'
    → IsLedger c t b f
    → IsLedger c' t' b' f
IsLedger-relax c t b c' t' b' f x y z h = record {
  below =
      AllBelow-mono _ _ f.error_files
        (free_mono c t f.attack_error_count c' t' f.attack_error_count x y (omega arith)) h.below;
  distinct = h.distinct;
  counted = h.counted;
  crashes = omega (arith, h.crashes);
  timeouts = omega (arith, h.timeouts);
  attacks = omega (arith, h.attacks);
}

-- The other variables do not matter.
pub IsLedger-other :
    (c t b : ℕ) (f : Fuzzer) (r : PktRecord) (corpus : Corpus) (queues : ℕ)
    → IsLedger c t b f
    → IsLedger c t b (record f { pkt_rec = r; corpus = corpus; queues = queues })
IsLedger-other c t b f r corpus queues h = record {
  below = h.below;
  distinct = h.distinct;
  counted = h.counted;
  crashes = h.crashes;
  timeouts = h.timeouts;
  attacks = h.attacks;
}

pub Waited-IsLedger :
    (n b : ℕ) (s : Status) (f g : Fuzzer) (v : Fault)
    → n < 2 ^ 62
    → b < 2 ^ 63
    → f.total_exec_times ≡ n
    → IsLedger n n b f
    → Waited s f v g
    → IsLedger (n + 1) n (b + 1) g
Waited-IsLedger n b s f _ v small fits e h (quiet _ _ _) =
    IsLedger-relax n n b (n + 1) n (b + 1) f (omega arith) (omega arith) (omega arith) h
Waited-IsLedger n b s f g v small fits e h (crash_saved _ w) =
    Written-IsLedger n n b (n + 1) n (b + 1) f g (crash_file output_crash s.termsig s.exitstatus f)
      (crash_file output_crash_log s.termsig s.exitstatus f) h (omega arith) (omega arith)
      (omega arith) (omega (arith, h.crashes)) h.timeouts (omega (arith, h.attacks))
      (omega (arith, h.crashes)) refl refl e e (omega arith) (omega arith) w
Waited-IsLedger n b s f g v small fits e h (error_saved _ _ w) =
    Written-IsLedger n n b (n + 1) n (b + 1) f g
      (attack_file output_attack_err_corpus 1 s.termsig s.exitstatus f)
      (attack_file output_attack_err_log 1 s.termsig s.exitstatus f) h (omega arith) (omega arith)
      (omega (arith, h.attacks)) (omega (arith, h.crashes)) h.timeouts (omega (arith, h.attacks))
      (omega (arith, h.attacks)) refl refl refl refl (omega (arith, h.attacks))
      (omega (arith, h.attacks)) w

pub Attacked-IsLedger :
    (c t b : ℕ) (s : Status) (f g : Fuzzer) (v : Fault)
    → b < 2 ^ 63
    → IsLedger c t b f
    → Attacked s v f g
    → IsLedger c t (b + 1) g
Attacked-IsLedger c t b s f _ v fits h (fine _ _) =
    IsLedger-relax c t b c t (b + 1) f (omega arith) (omega arith) (omega arith) h
Attacked-IsLedger c t b s f _ v fits h (reset _ _) =
    IsLedger-other c t (b + 1) f f.pkt_rec f.corpus (f.queues + 1)
      (IsLedger-relax c t b c t (b + 1) f (omega arith) (omega arith) (omega arith) h)
Attacked-IsLedger c t b s f g v fits h (attacker_saved _ w) =
    Written-IsLedger c t b c t (b + 1) f g
      (attack_file output_attack_err_corpus 0 s.termsig s.exitstatus f)
      (attack_file output_attack_err_log 0 s.termsig s.exitstatus f) h (omega arith) (omega arith)
      (omega (arith, h.attacks)) h.crashes h.timeouts (omega (arith, h.attacks))
      (omega (arith, h.attacks)) refl refl refl refl (omega (arith, h.attacks))
      (omega (arith, h.attacks)) w

pub Timed-IsLedger :
    (c n b : ℕ) (s : Status) (f g : Fuzzer) (v : Fault)
    → n < 2 ^ 62
    → f.total_exec_times ≡ n
    → IsLedger c n b f
    → Timed s v f g
    → IsLedger c (n + 1) b g
Timed-IsLedger c n b s f _ v small e h (not_saved _) =
    IsLedger-relax c n b c (n + 1) b f (omega arith) (omega arith) (omega arith) h
Timed-IsLedger c n b s f g v small e h (timeout_saved _ w) =
    Written-IsLedger c n b c (n + 1) b f g (timeout_file output_timeout f)
      (timeout_file output_timeout_log f) h (omega arith) (omega arith) (omega arith) h.crashes
      (omega (arith, h.timeouts)) h.attacks (omega (arith, h.timeouts)) refl refl e e (omega arith)
      (omega arith) w
