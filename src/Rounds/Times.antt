-- ===== src/Rounds/Times.antt =====
-- The ten executions of a round, and a round.
use blueman_artifact.Prelude.{
  ℕ, zero, suc, ◌+◌, ◌*◌, ◌^◌, ◌≤◌, ◌<◌, ◌≡◌, refl, ap, ◌∙◌, arith, ltb, Bool, List, [], length,
  u64,
}
use blueman_artifact.Ending.{done}
use blueman_artifact.FieldMutator.Selection.{Floats}
use blueman_artifact.Coverage.{get_total_coverage}
use blueman_artifact.CoverageLogger.{Logger, add_coverage_entry}
use blueman_artifact.Execution.{Fuzzer}
use blueman_artifact.Execution.Invariant.{IsFuzzer}
use blueman_artifact.Rounds.{
  Campaign, Setting, change_mode, next_execution, run_once, run_times, total_elapse, fuzz_round,
}
use blueman_artifact.Rounds.Position.{IsAt, IsAt-Grows, Grows, Grows-trans}
use blueman_artifact.Rounds.Steady.{
  IsSetting, IsCampaign, IsShown, Advanced, change_mode-fuzzer, execute-Advanced,
}

counted-IsFuzzer :
    (n m : ℕ) (xs : List ℕ) (f g : Fuzzer)
    → g ≡ record f { total_exec_times = m }
    → IsFuzzer n xs f
    → IsFuzzer n xs g
counted-IsFuzzer n m xs f g e i =
    let l = i.ledger in
    let h : IsFuzzer n xs (record f { total_exec_times = m }) = record {
      valid = i.valid;
      ring = i.ring;
      ledger = record {
        below = l.below;
        distinct = l.distinct;
        counted = l.counted;
        crashes = l.crashes;
        timeouts = l.timeouts;
        attacks = l.attacks;
      };
    } in
    rw e h

module _ (fl : Floats) (set : Setting) (words : ℕ) (ok : IsSetting words set) where
  run_once-Advanced :
      (cur tail : ℕ) (xs : List ℕ) (c : Campaign fl)
      → IsAt cur tail xs
      → c.fuzzer.total_exec_times + 1 < 2 ^ 61
      → IsCampaign fl set words ok xs c
      → (ys : List ℕ) × (d : Campaign fl) × (run_once fl set cur c ≡ done d)
        × Advanced fl set words ok (c.fuzzer.total_exec_times + 1) xs ys c d
  unfolding run_once
  run_once-Advanced cur tail xs c place small i =
      let n = c.fuzzer.total_exec_times + 1 in
      let c₁ = change_mode fl set (next_execution fl set c) in
      let (same, max, round) = change_mode-fuzzer fl set words ok (next_execution fl set c) in
      let virgin : c₁.fuzzer.corpus.virgin_bits ≡ c.fuzzer.corpus.virgin_bits =
        ap (λ f. f.corpus.virgin_bits) same in
      let (ys, d, run, a) =
        execute-Advanced fl set words ok n cur tail xs c₁ place
          (rw (ap (λ f. f.corpus) same) i.opens) small
          (ap (λ f. f.total_exec_times) same ∙ omega arith)
          (counted-IsFuzzer n (u64 n) xs c.fuzzer c₁.fuzzer same i.fuzzer_ok)
          (λ k le. i.unused k (omega arith)) (ap length virgin ∙ i.virgin_words)
          (omega (arith, max, ap get_total_coverage virgin, i.no_more)) in
      (
        ys,
        d,
        run,
        record {
          grows = a.grows;
          campaign = a.campaign;
          shown = a.shown;
          times = a.times;
          same_round = a.same_round ∙ round;
          more = omega (arith, max, a.more);
        },
      )

  -- From `c`, `n` executions lead to `d`.
  pub record Went (n : ℕ) (xs ys : List ℕ) (c d : Campaign fl) : Type 0 where
    pub grows : Grows xs ys
    pub campaign : IsCampaign fl set words ok ys d
    pub times : d.fuzzer.total_exec_times ≡ c.fuzzer.total_exec_times + n
    pub more : c.max_total_coverage ≤ d.max_total_coverage
    pub keeps : IsShown fl set words ok c → IsShown fl set words ok d
    pub shown : 1 ≤ n → IsShown fl set words ok d

  run_times-Went :
      (n cur tail : ℕ) (xs : List ℕ) (c : Campaign fl)
      → IsAt cur tail xs
      → c.fuzzer.total_exec_times + n < 2 ^ 61
      → IsCampaign fl set words ok xs c
      → (ys : List ℕ) × (d : Campaign fl) × (run_times fl set n cur c ≡ done d)
        × Went n xs ys c d
        × (d.round ≡ c.round)
  unfolding run_times
  run_times-Went zero cur tail xs c place small i = (
    xs,
    c,
    refl,
    record {
      grows = ([], refl);
      campaign = i;
      times = omega arith;
      more = omega arith;
      keeps = λ h. h;
      shown = λ le. absurd (omega arith);
    },
    refl,
  )
  run_times-Went (suc n) cur tail xs c place small i =
      let (ys, d, run, a) = run_once-Advanced cur tail xs c place (omega arith) i in
      let (zs, e, later, w, round) =
        run_times-Went n cur tail ys d (IsAt-Grows cur tail xs ys a.grows place)
          (omega (arith, a.times)) a.campaign in
      (
        zs,
        e,
        rw run later,
        record {
          grows = Grows-trans xs ys zs a.grows w.grows;
          campaign = w.campaign;
          times = omega (arith, w.times, a.times);
          more = omega (arith, w.more, a.more);
          keeps = λ h. w.keeps a.shown;
          shown = λ le. w.keeps a.shown;
        },
        round ∙ a.same_round,
      )

  -- The other variables do not matter.
  IsCampaign-other :
      (xs : List ℕ) (c : Campaign fl) (round time : ℕ) (logger : Logger)
      → IsCampaign fl set words ok xs c
      → IsCampaign fl set words ok xs
          (record c { round = round; prev_round_time = time; logger = logger })
  IsCampaign-other xs c round time logger i = record {
    fuzzer_ok = i.fuzzer_ok;
    unused = i.unused;
    virgin_words = i.virgin_words;
    no_more = i.no_more;
    opens = i.opens;
  }

  pub fuzz_round-Went :
      (cur tail : ℕ) (xs : List ℕ) (c : Campaign fl)
      → IsAt cur tail xs
      → c.fuzzer.total_exec_times + 10 < 2 ^ 61
      → c.round < 2 ^ 63
      → IsCampaign fl set words ok xs c
      → (exits : Bool) × (ys : List ℕ) × (d : Campaign fl) × (fuzz_round fl set cur c
          ≡ done (exits, d))
        × Went 10 xs ys c d
        × (d.round ≡ c.round + 1)
  unfolding fuzz_round
  fuzz_round-Went cur tail xs c place small few i =
      let start : Campaign fl = record c {
        round = u64 (c.round + 1);
        prev_round_time = c.cur_time;
      } in
      let (ys, d, run, w, round) =
        run_times-Went 10 cur tail xs start place small
          (IsCampaign-other xs c (u64 (c.round + 1)) c.cur_time c.logger i) in
      let logger =
        add_coverage_entry set.to_json (total_elapse fl set d) d.max_total_coverage d.logger in
      let shown = w.shown (omega arith) in
      let shown' : IsShown fl set words ok (record d { logger = logger }) = record {
        shown = shown.shown;
        greatest = shown.greatest;
      } in
      (
        ltb (u64 (set.timer * 1000000)) (total_elapse fl set d),
        ys,
        record d { logger = logger },
        rw run refl,
        record {
          grows = w.grows;
          campaign = IsCampaign-other ys d d.round d.prev_round_time logger w.campaign;
          times = w.times;
          more = w.more;
          keeps = λ h. shown';
          shown = λ le. shown';
        },
        round ∙ omega arith,
      )
