-- ===== src/Execution/Verdicts.antt =====
-- The steps of an execution as relations, and that the functions take them.
use blueman_artifact.Prelude.{
  ◌+◌, ◌≡◌, ◌≢◌, inl, inr, refl, arith, ◌==◌, true, false, ◌&&◌, not, Bool-cases, u64,
}
use blueman_artifact.Ending.{done}
use blueman_artifact.Execution.{
  Status, Fault, fault_none, fault_error, fault_timeout, fault_crash, output_crash,
  output_crash_log, output_timeout, output_timeout_log, output_attack_err_corpus,
  output_attack_err_log, Trial, Fuzzer, timeout_file, crash_file, attack_file, wait_for_target,
  is_error, is_timeout, is_crash, trapped, broken, create_queue, check_attacker, check_timeout,
}
use blueman_artifact.Execution.Saved.{
  CanLog, Files, Written, save_timeout_error_info-Written, save_signal_error_info-Written,
  save_attack_error_info-Written,
}

-- How the end of the target is judged.
pub data Verdict (s : Status) : Fault → Type 0 where
  ended : s.signaled ≡ false → s.exitstatus ≡ 0 → Verdict s fault_none
  sanitized : s.signaled ≡ false → s.exitstatus ≡ 1 → Verdict s fault_crash
  signalled : s.signaled ≡ true → s.termsig ≢ 5 → s.termsig ≢ 9 → Verdict s fault_crash
  killed : s.signaled ≡ true → s.termsig ≡ 9 → Verdict s fault_timeout
  trap : s.signaled ≡ true → s.termsig ≡ 5 → Verdict s fault_error
  failed : s.signaled ≡ false → s.exitstatus ≢ 0 → s.exitstatus ≢ 1 → Verdict s fault_error

-- The variables after `wait_for_target`.
pub data Waited (s : Status) (f : Fuzzer) : Fault → Fuzzer → Type 0 where
  quiet :
      {v : Fault}
      → Verdict s v
      → is_crash v ≡ false
      → (is_error v ≡ true → s.signaled ≡ true)
      → Waited s f v f
  crash_saved :
      {files : Files}
      → Verdict s fault_crash
      → Written
          (crash_file output_crash s.termsig s.exitstatus f)
          (crash_file output_crash_log s.termsig s.exitstatus f)
          f.error_files
          files
      → Waited s f fault_crash
          (record f { error_files = files; crash_count = u64 (f.crash_count + 1) })
  error_saved :
      {files : Files}
      → Verdict s fault_error
      → s.signaled ≡ false
      → Written
          (attack_file output_attack_err_corpus 1 s.termsig s.exitstatus f)
          (attack_file output_attack_err_log 1 s.termsig s.exitstatus f)
          f.error_files
          files
      → Waited s f fault_error
          (record f { error_files = files; attack_error_count = u64 (f.attack_error_count + 1) })

module _ (t : Trial) where
  pub wait_for_target-Waited :
      (f : Fuzzer)
      → CanLog t t.target_log
      → (v : Fault) × (g : Fuzzer) × (wait_for_target t f ≡ done (v, g)) × Waited t.target f v g
  unfolding wait_for_target
  wait_for_target-Waited f can =
      let s = t.target in
      let (crash_files, crash, cw) =
        save_signal_error_info-Written t t.target_log s.termsig s.exitstatus f can in
      let (error_files, error, ew) =
        save_attack_error_info-Written t t.target_log 1 s.termsig s.exitstatus f can in
      elim (Bool-cases s.signaled) [
        | inl sig ↦ elim (Bool-cases (s.termsig == 5)) [
          | inl five ↦
              (fault_error, f, rw (sig, five) refl, quiet (trap sig (ground arith)) refl (λ e. sig))
          | inr other ↦ elim (Bool-cases (s.termsig == 9)) [
            | inl nine ↦ (
              fault_timeout,
              f,
              rw (sig, other, nine) refl,
              quiet (killed sig (ground arith)) refl (λ e. sig),
            )
            | inr more ↦ (
              fault_crash,
              _,
              rw (crash, sig, other, more) refl,
              crash_saved (signalled sig (ground arith) (ground arith)) cw,
            )
          ]
        ]
        | inr exited ↦ elim (Bool-cases (s.exitstatus == 0)) [
          | inl fine ↦ (
            fault_none,
            f,
            rw (exited, fine) refl,
            quiet (ended exited (ground arith)) refl (λ e. absurd (ground arith)),
          )
          | inr bad ↦ elim (Bool-cases (s.exitstatus == 1)) [
            | inl one ↦ (
              fault_crash,
              _,
              rw (crash, exited, bad, one) refl,
              crash_saved (sanitized exited (ground arith)) cw,
            )
            | inr more ↦ (
              fault_error,
              _,
              rw (error, exited, bad, more) refl,
              error_saved (failed exited (ground arith) (ground arith)) exited ew,
            )
          ]
        ]
      ]

-- The variables after the attacker has been looked at.
pub data Attacked (s : Status) (v : Fault) (f : Fuzzer) : Fuzzer → Type 0 where
  fine : broken s ≡ false → is_error v ≡ false → Attacked s v f f
  reset : broken s ≡ false → is_error v ≡ true → Attacked s v f (create_queue f)
  attacker_saved :
      {files : Files}
      → broken s ≡ true
      → Written
          (attack_file output_attack_err_corpus 0 s.termsig s.exitstatus f)
          (attack_file output_attack_err_log 0 s.termsig s.exitstatus f)
          f.error_files
          files
      → Attacked s v f (record f {
        queues = f.queues + 1;
        error_files = files;
        attack_error_count = u64 (f.attack_error_count + 1);
      })

-- The variables after a timeout has been saved.
pub data Timed (s : Status) (v : Fault) (f : Fuzzer) : Fuzzer → Type 0 where
  not_saved : (is_timeout v && not (trapped s)) ≡ false → Timed s v f f
  timeout_saved :
      {files : Files}
      → (is_timeout v && not (trapped s)) ≡ true
      → Written
          (timeout_file output_timeout f)
          (timeout_file output_timeout_log f)
          f.error_files
          files
      → Timed s v f (record f { error_files = files; timeout_count = u64 (f.timeout_count + 1) })

module _ (t : Trial) (v : Fault) where
  pub check_attacker-Attacked :
      (f : Fuzzer)
      → CanLog t t.attacker_log
      → (g : Fuzzer) × (check_attacker t v f ≡ done g) × Attacked t.attacker v f g
  unfolding check_attacker
  check_attacker-Attacked f can =
      let s = t.attacker in
      let (files, saved, w) =
        save_attack_error_info-Written t t.attacker_log 0 s.termsig s.exitstatus (create_queue f)
          can in
      elim (Bool-cases (broken s)) [
        | inl b ↦ (_, rw (saved, b) refl, attacker_saved b w)
        | inr whole ↦ elim (Bool-cases (is_error v)) [
          | inl error ↦ (create_queue f, rw (whole, error) refl, reset whole error)
          | inr other ↦ (f, rw (whole, other) refl, fine whole other)
        ]
      ]

  pub check_timeout-Timed :
      (f : Fuzzer)
      → CanLog t t.target_log
      → (g : Fuzzer) × (check_timeout t v f ≡ done g) × Timed t.attacker v f g
  unfolding check_timeout
  check_timeout-Timed f can =
      let (files, saved, w) = save_timeout_error_info-Written t t.target_log f can in
      elim (Bool-cases (is_timeout v && not (trapped t.attacker))) [
        | inl late ↦ (_, rw (saved, late) refl, timeout_saved late w)
        | inr other ↦ (f, rw other refl, not_saved other)
      ]
