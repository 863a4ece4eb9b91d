-- ===== src/Execution/Added.antt =====
-- What the steps of an execution add to the counters.
use blueman_artifact.Prelude.{
  ℕ, ◌+◌, ◌^◌, ◌≤◌, ◌<◌, ◌≡◌, inl, inr, refl, arith, Bool, true, false, not, ◌&&◌, ◌||◌, Bool-cases,
  if◌then◌else◌,
}
use blueman_artifact.Execution.{
  Status, Fault, is_crash, is_error, is_timeout, trapped, broken, Trial, Fuzzer,
}
use blueman_artifact.Execution.Verdicts.{
  Verdict, Waited, quiet, crash_saved, error_saved, Attacked, fine, reset, attacker_saved, Timed,
  not_saved, timeout_saved,
}
use blueman_artifact.Execution.Runs.{Steps, recording, recording_late, reset_after_crash}

abbrev pub one_if : Bool → ℕ
one_if b = if b then 1 else 0

one_if-le : (b : Bool) → one_if b ≤ 1
one_if-le true = omega arith
one_if-le false = omega arith

-- The counters and the queues that are made go up by these numbers.
pub record Added (crash timeout attack queues : ℕ) (f g : Fuzzer) : Type 0 where
  pub crashes : g.crash_count ≡ f.crash_count + crash
  pub timeouts : g.timeout_count ≡ f.timeout_count + timeout
  pub attacks : g.attack_error_count ≡ f.attack_error_count + attack
  pub made : g.queues ≡ f.queues + queues

-- The target has ended by itself with an error that is not one of the sanitizer's.
abbrev pub target_failed : Status → Fault → Bool
target_failed s v = is_error v && not s.signaled

pub record IsSmall (f : Fuzzer) : Type 0 where
  pub few_crashes : f.crash_count < 2 ^ 63
  pub few_timeouts : f.timeout_count < 2 ^ 63
  pub few_attacks : f.attack_error_count < 2 ^ 63

Waited-Added :
    (s : Status) (f g : Fuzzer) (v : Fault)
    → IsSmall f
    → Waited s f v g
    → Added (one_if (is_crash v)) 0 (one_if (target_failed s v)) 0 f g × Verdict s v
Waited-Added s f _ v small (quiet verdict no_crash sig) =
    let none_failed : target_failed s v ≡ false = elim (Bool-cases (is_error v)) [
      | inl error ↦ rw (error, sig error) refl
      | inr other ↦ rw other refl
    ] in
    (
      rw (no_crash, none_failed)
          (record {
            crashes = omega arith;
            timeouts = omega arith;
            attacks = omega arith;
            made = omega arith;
          }),
      verdict,
    )
Waited-Added s f g v small (crash_saved verdict w) = (
  record {
    crashes = omega (arith, small.few_crashes);
    timeouts = omega arith;
    attacks = omega arith;
    made = omega arith;
  },
  verdict,
)
Waited-Added s f g v small (error_saved verdict exited w) = (
  rw exited (record {
    crashes = omega arith;
    timeouts = omega arith;
    attacks = omega (arith, small.few_attacks);
    made = omega arith;
  }),
  verdict,
)

Attacked-Added :
    (s : Status) (f g : Fuzzer) (v : Fault)
    → f.attack_error_count < 2 ^ 63 + 1
    → Attacked s v f g
    → Added 0 0 (one_if (broken s)) (one_if (broken s || is_error v)) f g
Attacked-Added s f _ v small (fine whole other) =
    rw (whole, other)
      (record {
        crashes = omega arith;
        timeouts = omega arith;
        attacks = omega arith;
        made = omega arith;
      })
Attacked-Added s f _ v small (reset whole error) =
    rw (whole, error)
      (record { crashes = omega arith; timeouts = omega arith; attacks = omega arith; made = refl })
Attacked-Added s f g v small (attacker_saved b w) =
    rw b
      (record { crashes = omega arith; timeouts = omega arith; attacks = omega arith; made = refl })

Timed-Added :
    (s : Status) (f g : Fuzzer) (v : Fault)
    → f.timeout_count < 2 ^ 63
    → Timed s v f g
    → Added 0 (one_if (is_timeout v && not (trapped s))) 0 0 f g
Timed-Added s f _ v small (not_saved other) = rw other (record {
  crashes = omega arith;
  timeouts = omega arith;
  attacks = omega arith;
  made = omega arith;
})
Timed-Added s f g v small (timeout_saved late w) = rw late (record {
  crashes = omega arith;
  timeouts = omega arith;
  attacks = omega arith;
  made = omega arith;
})

reset_after_crash-Added :
    (f : Fuzzer) (v : Fault) → Added 0 0 0 (one_if (is_crash v)) f (reset_after_crash v f)
reset_after_crash-Added f v = elim (Bool-cases (is_crash v)) [
  | inl crash ↦
      rw crash (record {
        crashes = omega arith;
        timeouts = omega arith;
        attacks = omega arith;
        made = refl;
      })
  | inr other ↦ rw other (record {
    crashes = omega arith;
    timeouts = omega arith;
    attacks = omega arith;
    made = omega arith;
  })
]

pub Steps-Added :
    (t : Trial) (f h : Fuzzer) (v : Fault)
    → IsSmall f
    → Steps t f v h
    → Added
        (one_if (is_crash v))
        (one_if (is_timeout v && not (trapped t.attacker)))
        (one_if (target_failed t.target v) + one_if (broken t.attacker))
        (one_if (broken t.attacker || is_error v) + one_if (is_crash v))
        f
        h
      × Verdict t.target v
Steps-Added t f h v small s =
    let small' : IsSmall (recording t f) = record {
      few_crashes = small.few_crashes;
      few_timeouts = small.few_timeouts;
      few_attacks = small.few_attacks;
    } in
    let (a, verdict) = Waited-Added t.target (recording t f) s.f₁ v small' s.waited in
    let b =
      Attacked-Added t.attacker (recording_late t s.f₁) s.f₂ v
        (omega (arith, a.attacks, one_if-le (target_failed t.target v), small.few_attacks))
        s.attacked in
    let c = reset_after_crash-Added s.f₂ v in
    let d =
      Timed-Added t.attacker (reset_after_crash v s.f₂) h v
        (omega (arith, a.timeouts, b.timeouts, c.timeouts, small.few_timeouts)) s.timed in
    (
      record {
        crashes = omega (arith, a.crashes, b.crashes, c.crashes, d.crashes);
        timeouts = omega (arith, a.timeouts, b.timeouts, c.timeouts, d.timeouts);
        attacks = omega (arith, a.attacks, b.attacks, c.attacks, d.attacks);
        made = omega (arith, a.made, b.made, c.made, d.made);
      },
      verdict,
    )
