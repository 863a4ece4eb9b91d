-- ===== src/Execution/Counts.antt =====
-- What an execution counts, by the way its processes end.
use blueman_artifact.Prelude.{
  ℕ, ◌+◌, ◌^◌, ◌<◌, ◌≡◌, sym, ap₂, ◌∙◌, arith, ◌==◌, Bool, true, false, not, ◌&&◌, ◌||◌, List, some,
  u32,
}
use blueman_artifact.Ending.{done}
use blueman_artifact.PktRecord.Buffer.{IsValid, add_all, add_all-contents}
use blueman_artifact.Corpus.{Corpus, save_if_interesting}
use blueman_artifact.Execution.{
  Fault, is_crash, is_error, is_timeout, trapped, broken, Trial, Fuzzer, fuzz_one,
}
use blueman_artifact.Execution.Verdicts.{Verdict}
use blueman_artifact.Execution.Runs.{fault_count, fuzz_one-Steps, Steps-SameState}
use blueman_artifact.Execution.Invariant.{IsFuzzer, IsGranted, finish-corpus}
use blueman_artifact.Execution.Added.{one_if, Added, target_failed, IsSmall, Steps-Added}

offered :
    (path_buf : ℕ → ℕ → ℕ → List ℕ) (t : Trial) (n : ℕ) (h f : Fuzzer) (d : Corpus)
    → h.total_exec_times ≡ n
    → h.corpus ≡ f.corpus
    → (ret : ℕ) × (save_if_interesting path_buf t.trace_bits t.q t.now h.pkt_rec
          (u32 h.total_exec_times)
          h.corpus
        ≡ some (ret, d))
    → (ret : ℕ) × (save_if_interesting path_buf t.trace_bits t.q t.now h.pkt_rec (u32 n) f.corpus
        ≡ some (ret, d))
offered path_buf t n h f d e c (ret, saved) = (
  ret,
  ap₂ (λ m x. save_if_interesting path_buf t.trace_bits t.q t.now h.pkt_rec (u32 m) x) (sym e)
        (sym c)
      ∙ saved,
)

-- Under the conditions of `fuzz_one-IsFuzzer`, `fuzz_one` returns, with 1 if the target has crashed
-- and 0 otherwise. By the end of the target (`Verdict`) and of the attacker: one crash is counted
-- exactly if the target has crashed; one timeout exactly if it was killed with SIGKILL and the
-- attacker not trapped; one attack error if the target has exited with a status other than 0 and 1,
-- and one if the attacker has exited with one other than 0 or was trapped; and the message queue is
-- made anew for an error of either and again for a crash. The corpus is offered the run, with all
-- that was recorded, exactly if there was no crash and this is not the first run, so also after a
-- timeout or an error.
pub fuzz_one-Verdict :
    (path_buf : ℕ → ℕ → ℕ → List ℕ) (t : Trial) (n : ℕ) (create_init_corpus : Bool) (f : Fuzzer)
    (xs : List ℕ)
    → n < 2 ^ 61
    → f.total_exec_times ≡ n
    → IsFuzzer n xs f
    → IsGranted xs t
    → (v : Fault) × (g : Fuzzer) × (fuzz_one path_buf create_init_corpus t f
        ≡ done (fault_count v, g))
      × Verdict t.target v
      × Added
          (one_if (is_crash v))
          (one_if (is_timeout v && not (trapped t.attacker)))
          (one_if (target_failed t.target v) + one_if (broken t.attacker))
          (one_if (broken t.attacker || is_error v) + one_if (is_crash v))
          f
          g
      × (g.pkt_rec ≡ add_all (add_all f.pkt_rec t.recorded) t.late)
      × (((fault_count v == 0) && not create_init_corpus) ≡ false → g.corpus ≡ f.corpus)
      × (((fault_count v == 0) && not create_init_corpus) ≡ true
          → (ret : ℕ) × (save_if_interesting path_buf t.trace_bits t.q t.now g.pkt_rec
                (u32 n)
                f.corpus
              ≡ some (ret, g.corpus)))
fuzz_one-Verdict path_buf t n create f xs few e i granted =
    let small : IsSmall f = record {
      few_crashes = omega (arith, i.ledger.crashes);
      few_timeouts = omega (arith, i.ledger.timeouts);
      few_attacks = omega (arith, i.ledger.attacks);
    } in
    let (v, h, steps, run) =
      fuzz_one-Steps path_buf create t granted.target_log granted.attacker_log f in
    let (rec_h, corpus_h, times_h) = Steps-SameState t f h v steps in
    let (a, verdict) = Steps-Added t f h v small steps in
    let valid : IsValid h.pkt_rec =
      rw rec_h
        (add_all-contents t.late (add_all f.pkt_rec t.recorded)
          (add_all-contents t.recorded f.pkt_rec i.valid).0).0 in
    let (d, ys, last, ring, grown, looked, skipped, kept) =
      finish-corpus path_buf t create v h xs valid (rw corpus_h i.ring) granted.ends
        granted.fresh in
    (
      v,
      record h { corpus = d },
      run ∙ last,
      verdict,
      record { crashes = a.crashes; timeouts = a.timeouts; attacks = a.attacks; made = a.made },
      rec_h,
      (λ b. skipped b ∙ corpus_h),
      λ b. offered path_buf t n h f d (times_h ∙ e) corpus_h (kept b),
    )
