-- ===== src/Execution/Runs.antt =====
-- A whole execution, by its steps.
use blueman_artifact.Prelude.{
  ℕ, ◌+◌, ◌*◌, ◌^◌, ◌<◌, ◌≡◌, inl, inr, refl, ap, ◌∙◌, arith, Bool, ◌||◌, Bool-cases, List,
  if◌then◌else◌,
}
use blueman_artifact.PktRecord.Buffer.{add_all}
use blueman_artifact.Execution.{
  Status, Fault, is_crash, is_error, broken, Trial, Fuzzer, create_queue, finish, fuzz_one,
}
use blueman_artifact.Execution.Saved.{CanLog}
use blueman_artifact.Execution.Verdicts.{
  Waited, quiet, crash_saved, error_saved, Attacked, fine, reset, attacker_saved, Timed, not_saved,
  timeout_saved, wait_for_target-Waited, check_attacker-Attacked, check_timeout-Timed,
}
use blueman_artifact.Execution.Files.{IsLedger}
use blueman_artifact.Execution.Ledger.{
  IsLedger-other, Waited-IsLedger, Attacked-IsLedger, Timed-IsLedger,
}

abbrev pub recording : Trial → Fuzzer → Fuzzer
recording t f = record f { pkt_rec = add_all f.pkt_rec t.recorded }

abbrev pub recording_late : Trial → Fuzzer → Fuzzer
recording_late t f = record f { pkt_rec = add_all f.pkt_rec t.late }

abbrev pub reset_after_crash : Fault → Fuzzer → Fuzzer
reset_after_crash v f = if is_crash v then create_queue f else f

abbrev pub fault_count : Fault → ℕ
fault_count v = if is_crash v then 1 else 0

abbrev pub interceptor_killed : Trial → Fault → Bool
interceptor_killed t v = broken t.attacker || is_error v || is_crash v

-- The steps up to `finish`.
pub record Steps (t : Trial) (f : Fuzzer) (v : Fault) (h : Fuzzer) : Type 0 where
  pub f₁ : Fuzzer
  pub f₂ : Fuzzer
  pub waited : Waited t.target (recording t f) v f₁
  pub attacked : Attacked t.attacker v (recording_late t f₁) f₂
  pub timed : Timed t.attacker v (reset_after_crash v f₂) h

module _ (path_buf : ℕ → ℕ → ℕ → List ℕ) (create_init_corpus : Bool) (t : Trial)
    (target_log : CanLog t t.target_log) (attacker_log : CanLog t t.attacker_log) where
  pub fuzz_one-Steps :
      (f : Fuzzer)
      → (v : Fault) × (h : Fuzzer) × Steps t f v h
        × (fuzz_one path_buf create_init_corpus t f
            ≡ finish path_buf create_init_corpus t (fault_count v) (interceptor_killed t v) h)
  unfolding fuzz_one
  fuzz_one-Steps f =
      let (v, f₁, run, waited) = wait_for_target-Waited t (recording t f) target_log in
      let (f₂, run₂, attacked) = check_attacker-Attacked t v (recording_late t f₁) attacker_log in
      let (h, run₃, timed) = check_timeout-Timed t v (reset_after_crash v f₂) target_log in
      (
        v,
        h,
        record { f₁ = f₁; f₂ = f₂; waited = waited; attacked = attacked; timed = timed },
        rw (run, run₂, run₃) refl,
      )

-- What no step before `finish` changes.
pub record SameState (f g : Fuzzer) : Type 0 where
  pub same_rec : g.pkt_rec ≡ f.pkt_rec
  pub same_corpus : g.corpus ≡ f.corpus
  pub same_times : g.total_exec_times ≡ f.total_exec_times

Waited-SameState : (s : Status) (f g : Fuzzer) (v : Fault) → Waited s f v g → SameState f g
Waited-SameState s f _ v (quiet _ _ _) = record {
  same_rec = refl;
  same_corpus = refl;
  same_times = refl;
}
Waited-SameState s f g v (crash_saved _ _) = record {
  same_rec = refl;
  same_corpus = refl;
  same_times = refl;
}
Waited-SameState s f g v (error_saved _ _ _) = record {
  same_rec = refl;
  same_corpus = refl;
  same_times = refl;
}

Attacked-SameState : (s : Status) (f g : Fuzzer) (v : Fault) → Attacked s v f g → SameState f g
Attacked-SameState s f _ v (fine _ _) = record {
  same_rec = refl;
  same_corpus = refl;
  same_times = refl;
}
Attacked-SameState s f _ v (reset _ _) = record {
  same_rec = refl;
  same_corpus = refl;
  same_times = refl;
}
Attacked-SameState s f g v (attacker_saved _ _) = record {
  same_rec = refl;
  same_corpus = refl;
  same_times = refl;
}

Timed-SameState : (s : Status) (f g : Fuzzer) (v : Fault) → Timed s v f g → SameState f g
Timed-SameState s f _ v (not_saved _) = record {
  same_rec = refl;
  same_corpus = refl;
  same_times = refl;
}
Timed-SameState s f g v (timeout_saved _ _) = record {
  same_rec = refl;
  same_corpus = refl;
  same_times = refl;
}

reset_after_crash-SameState : (f : Fuzzer) (v : Fault) → SameState f (reset_after_crash v f)
reset_after_crash-SameState f v = elim (Bool-cases (is_crash v)) [
  | inl crash ↦ record {
    same_rec = rw crash refl;
    same_corpus = rw crash refl;
    same_times = rw crash refl;
  }
  | inr other ↦ record {
    same_rec = rw other refl;
    same_corpus = rw other refl;
    same_times = rw other refl;
  }
]

-- The record holds what was recorded, until the target ended and after it.
pub Steps-SameState :
    (t : Trial) (f h : Fuzzer) (v : Fault)
    → Steps t f v h
    → (h.pkt_rec ≡ add_all (add_all f.pkt_rec t.recorded) t.late)
      × (h.corpus ≡ f.corpus)
      × (h.total_exec_times ≡ f.total_exec_times)
Steps-SameState t f h v s =
    let a = Waited-SameState t.target (recording t f) s.f₁ v s.waited in
    let b = Attacked-SameState t.attacker (recording_late t s.f₁) s.f₂ v s.attacked in
    let c = reset_after_crash-SameState s.f₂ v in
    let d = Timed-SameState t.attacker (reset_after_crash v s.f₂) h v s.timed in
    (
      d.same_rec ∙ c.same_rec ∙ b.same_rec ∙ ap (λ r. add_all r t.late) a.same_rec,
      d.same_corpus ∙ c.same_corpus ∙ b.same_corpus ∙ a.same_corpus,
      d.same_times ∙ c.same_times ∙ b.same_times ∙ a.same_times,
    )

reset_after_crash-IsLedger :
    (c t b : ℕ) (f : Fuzzer) (v : Fault) → IsLedger c t b f → IsLedger c t b (reset_after_crash v f)
reset_after_crash-IsLedger c t b f v h = elim (Bool-cases (is_crash v)) [
  | inl crash ↦ rw crash (IsLedger-other c t b f f.pkt_rec f.corpus (f.queues + 1) h)
  | inr other ↦ rw other h
]

pub Steps-IsLedger :
    (n : ℕ) (t : Trial) (f h : Fuzzer) (v : Fault)
    → n < 2 ^ 61
    → f.total_exec_times ≡ n
    → IsLedger n n (2 * n) f
    → Steps t f v h
    → IsLedger (n + 1) (n + 1) (2 * n + 1 + 1) h
Steps-IsLedger n t f h v small e ledger s =
    let a = Waited-SameState t.target (recording t f) s.f₁ v s.waited in
    let b = Attacked-SameState t.attacker (recording_late t s.f₁) s.f₂ v s.attacked in
    let c = reset_after_crash-SameState s.f₂ v in
    let l₀ = IsLedger-other n n (2 * n) f (add_all f.pkt_rec t.recorded) f.corpus f.queues ledger in
    let l₁ =
      Waited-IsLedger n (2 * n) t.target (recording t f) s.f₁ v (omega arith) (omega arith) e l₀
        s.waited in
    let l₂ =
      IsLedger-other (n + 1) n (2 * n + 1) s.f₁ (add_all s.f₁.pkt_rec t.late) s.f₁.corpus
        s.f₁.queues l₁ in
    let l₃ =
      Attacked-IsLedger (n + 1) n (2 * n + 1) t.attacker (recording_late t s.f₁) s.f₂ v
        (omega arith) l₂ s.attacked in
    let l₄ = reset_after_crash-IsLedger (n + 1) n (2 * n + 1 + 1) s.f₂ v l₃ in
    Timed-IsLedger (n + 1) n (2 * n + 1 + 1) t.attacker (reset_after_crash v s.f₂) h v (omega arith)
      (c.same_times ∙ b.same_times ∙ a.same_times ∙ e) l₄ s.timed
