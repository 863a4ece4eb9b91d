-- ===== src/Rounds/Walk.antt =====
-- Any number of rounds.
use blueman_artifact.Prelude.{
  ℕ, zero, suc, ◌+◌, ◌*◌, ◌^◌, ◌≤◌, ◌<◌, ◌≡◌, inl, inr, refl, ap, arith, Bool, true, false,
  Bool-cases, List, [], ◌∷◌, length,
}
use blueman_artifact.Ending.{done}
use blueman_artifact.FieldMutator.Selection.{Floats}
use blueman_artifact.Rounds.{Campaign, Setting, next_entry, fuzz_rounds}
use blueman_artifact.Rounds.Position.{IsAt, IsAt-Grows, next_entry-IsAt}
use blueman_artifact.Rounds.Steady.{IsSetting, IsCampaign, IsShown}
use blueman_artifact.Rounds.Times.{Went, fuzz_round-Went}

module _ (fl : Floats) (set : Setting) (words : ℕ) (ok : IsSetting words set) where
  -- What `fuzz_rounds` returns after `rounds` rounds that lead from `c` to `d`.
  pub record Walked (rounds : ℕ) (ys : List ℕ) (c d : Campaign fl) : Type 0 where
    pub campaign : IsCampaign fl set words ok ys d
    pub times : d.fuzzer.total_exec_times ≡ c.fuzzer.total_exec_times + 10 * rounds
    pub counted : d.round ≡ c.round + rounds
    pub more : c.max_total_coverage ≤ d.max_total_coverage
    pub keeps : IsShown fl set words ok c → IsShown fl set words ok d
    pub shown : 1 ≤ rounds → IsShown fl set words ok d

  Walked-suc :
      (k : ℕ) (xs ys zs : List ℕ) (c d e : Campaign fl)
      → Went fl set words ok 10 xs ys c d
      → d.round ≡ c.round + 1
      → Walked k zs d e
      → Walked (suc k) zs c e
  Walked-suc k xs ys zs c d e w round h =
      let shown : IsShown fl set words ok e = h.keeps (w.shown (omega arith)) in
      record {
        campaign = h.campaign;
        times = omega (arith, w.times, h.times);
        counted = omega (arith, round, h.counted);
        more = omega (arith, w.more, h.more);
        keeps = λ s. shown;
        shown = λ le. shown;
      }

  Walked-one :
      (xs ys : List ℕ) (c d : Campaign fl)
      → Went fl set words ok 10 xs ys c d
      → d.round ≡ c.round + 1
      → Walked 1 ys c d
  Walked-one xs ys c d w round = record {
    campaign = w.campaign;
    times = w.times;
    counted = round;
    more = w.more;
    keeps = w.keeps;
    shown = λ le. w.shown (omega arith);
  }

  -- In a setting that grants what every execution needs, for fewer than 2 ^ 61 executions and 2 ^ 63
  -- rounds, from variables in order, with a queue whose files all open, at one of its entries, and
  -- with its last entry as `queue_tail`: `fuzz_rounds` returns after the number of rounds asked for,
  -- or earlier if the time is over, so that no execution takes the list head for an entry or misses
  -- a file, also after entries were added on the way; it has made ten executions in each round,
  -- whatever they led to, and counted them; the variables are in order again, with a queue whose
  -- files all open; and after a round `max_total_coverage` is `total_coverage`, the coverage of the
  -- virgin map, which never falls.
  pub fuzz_rounds-Walked :
      (n queue_cur queue_tail : ℕ) (xs : List ℕ) (c : Campaign fl)
      → IsAt queue_cur queue_tail xs
      → c.fuzzer.total_exec_times + 10 * n < 2 ^ 61
      → c.round + n < 2 ^ 63
      → IsCampaign fl set words ok xs c
      → (entries : List ℕ) × (ended : Bool) × (ys : List ℕ) × (d : Campaign fl) × (fuzz_rounds fl
            set n queue_cur queue_tail c
          ≡ done (entries, ended, d))
        × Walked (length entries) ys c d
        × (length entries ≤ n)
        × (ended ≡ false → length entries ≡ n)
  unfolding fuzz_rounds
  fuzz_rounds-Walked zero queue_cur queue_tail xs c place small few i = (
    [],
    false,
    xs,
    c,
    refl,
    record {
      campaign = i;
      times = omega arith;
      counted = omega arith;
      more = omega arith;
      keeps = λ s. s;
      shown = λ le. absurd (omega arith);
    },
    omega arith,
    λ e. refl,
  )
  fuzz_rounds-Walked (suc n) queue_cur queue_tail xs c place small few i =
      let (exits, ys, d, run, w, round) =
        fuzz_round-Went fl set words ok queue_cur queue_tail xs c place (omega arith) (omega arith)
          i in
      let next = next_entry fl set queue_cur queue_tail d in
      let (entries, ended, zs, e, later, h, le, all) =
        fuzz_rounds-Walked n next.0 next.1 ys d
          (next_entry-IsAt fl set queue_cur queue_tail ys d
            (IsAt-Grows queue_cur queue_tail xs ys w.grows place) w.campaign.fuzzer_ok.ring)
          (omega (arith, w.times)) (omega (arith, round)) w.campaign in
      elim (Bool-cases exits) [
        | inl over ↦ (
          queue_cur ∷ [],
          true,
          ys,
          d,
          rw (run, over) refl,
          Walked-one xs ys c d w round,
          omega arith,
          λ b. absurd (ground (arith, b)),
        )
        | inr on ↦ (
          queue_cur ∷ entries,
          ended,
          zs,
          e,
          rw (run, on, later) refl,
          Walked-suc (length entries) xs ys zs c d e w round h,
          omega arith,
          λ b. ap (λ k. suc k) (all b),
        )
      ]
