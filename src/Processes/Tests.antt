-- ===== src/Processes/Tests.antt =====
-- A table of processes in which every child ends in time.
use blueman_artifact.Prelude.{
  ℕ, zero, suc, ◌≤◌, ◌≡◌, ◌≢◌, ◌⊎◌, inl, inr, refl, ap, sym, ◌∙◌, arith, ◌==◌, if◌then◌else◌, Bool,
  true, false, some, Option, [], ◌∷◌, Bool-cases,
}
use blueman_artifact.Ending.{done}
use blueman_artifact.Mutator.Linked.{random_mutator}
use blueman_artifact.Intercept.{Session}
use blueman_artifact.Intercept.Samples.{
  corpus, corpus-IsCorpus, session, from_attacker, from_attacker-CanMutate,
}
use blueman_artifact.Intercept.Alarm.{
  returned, timed_out, intercept_with_alarm, intercept_with_alarm-ends,
}
use blueman_artifact.Processes.{
  Life, absent, alive, ended, System, Pids, start_processes, end_processes, cleanup_fuzzer_env,
  run_ble_target, exits,
}
use blueman_artifact.Processes.Reaped.{end_processes-reaped, cleanup_fuzzer_env-leaves_target}

record Table : Type 0 where
  life : ℕ → Life
  next : ℕ
  fresh : (u : ℕ) → next ≤ u → life u ≡ absent

abbrev with_life : ℕ → Life → (ℕ → Life) → ℕ → Life
with_life p l life u = if u == p then l else life u

abbrev is_absent : Life → Bool
is_absent absent = true
is_absent _ = false

is_absent-absent : (l : Life) → is_absent l ≡ true → l ≡ absent
is_absent-absent absent e = refl
is_absent-absent alive e = absurd (cc)
is_absent-absent ended e = absurd (cc)

is_absent-there : (l : Life) → l ≢ absent → is_absent l ≡ false
is_absent-there absent h = absurd (h refl)
is_absent-there alive h = refl
is_absent-there ended h = refl

-- The change of a child that is there, and the removal of any.
changed-fresh :
    (p : ℕ) (l : Life) (t : Table)
    → (l ≡ absent) ⊎ (is_absent (t.life p) ≡ false)
    → (u : ℕ) → t.next ≤ u
    → with_life p l t.life u ≡ absent
changed-fresh p l t h u le = elim (Bool-cases (u == p)) [
  | inr other ↦ rw other (t.fresh u le)
  | inl same ↦ rw same (elim h [
    | inl e ↦ e
    | inr there ↦
        let e : u ≡ p = ground arith in
        let gone : t.life p ≡ absent = ap t.life (sym e) ∙ t.fresh u le in absurd (cc)
  ])
]

abbrev fork_table : Table → ℕ × Table
fork_table t = (
  t.next,
  record {
    life = with_life t.next alive t.life;
    next = suc t.next;
    fresh = λ u le.
        let other : (u == t.next) ≡ false = ground arith in rw other (t.fresh u (omega arith));
  },
)

abbrev change :
    (p : ℕ) (l : Life) (t : Table) → (l ≡ absent) ⊎ (is_absent (t.life p) ≡ false) → Table
change p l t h = record {
  life = with_life p l t.life;
  next = t.next;
  fresh = changed-fresh p l t h;
}

abbrev kill_table : (p : ℕ) (t : Table) (b : Bool) → is_absent (t.life p) ≡ b → Bool × Table
kill_table p t true e = (false, t)
kill_table p t false e = (true, change p ended t (inr e))

kill_table-there :
    (p : ℕ) (t : Table) (b : Bool) (e : is_absent (t.life p) ≡ b)
    → t.life p ≢ absent
    → ((kill_table p t b e).0 ≡ true)
      × ((u : ℕ) → (kill_table p t b e).1.life u ≡ (if u == p then ended else t.life u))
kill_table-there p t true e h = absurd (h (is_absent-absent (t.life p) e))
kill_table-there p t false e h = (refl, λ u. refl)

kill_table-gone :
    (p : ℕ) (t : Table) (b : Bool) (e : is_absent (t.life p) ≡ b)
    → t.life p ≡ absent
    → kill_table p t b e ≡ (false, t)
kill_table-gone p t true e h = refl
kill_table-gone p t false e h = absurd (cc)

abbrev unwrapped : ℕ × Table → Option (ℕ × Table) → ℕ × Table
unwrapped x (some y) = y
unwrapped x _ = x

abbrev table_of : Table → Option Table → Table
table_of t (some u) = u
table_of t _ = t

abbrev table_system : System
table_system = record {
  S = Table;
  life = λ u t. t.life u;
  ends = λ u. true;
  fork = λ t. some (fork_table t);
  kill = λ p t. kill_table p t (is_absent (t.life p)) refl;
  waitpid = λ p t. some (change p absent t (inl refl));
  forked = λ t t' p e.
      let same : fork_table t ≡ (p, t') = ap (unwrapped (p, t')) e in
      (
        ap t.life (sym (ap (λ x. x.0) same)) ∙ t.fresh t.next (omega arith),
        λ u.
            sym (ap (λ x. x.1.life u) same)
            ∙ ap (λ (q : ℕ). if u == q then alive else t.life u) (ap (λ x. x.0) same),
      );
  killed = λ t p h. kill_table-there p t (is_absent (t.life p)) refl h;
  not_killed = λ t p h. kill_table-gone p t (is_absent (t.life p)) refl h;
  waits = λ t p h. (change p absent t (inl refl), refl);
  waits_for = λ t p h. (change p absent t (inl refl), refl);
  waited = λ t t' p e u. sym (ap (λ x. (table_of t' x).life u) e);
}

abbrev empty_table : Table
empty_table = record { life = λ u. absent; next = 0; fresh = λ u le. refl }

abbrev forked_times : ℕ → Table
forked_times zero = empty_table
forked_times (suc n) = (fork_table (forked_times n)).1

abbrev pids : Pids
pids = record { bsim_pid = 0; target_pid = 1; attacker_pid = 2; interceptor_pid = 3 }

-- The target has crashed.
end_processes-reaped_example :
    (start_processes table_system empty_table ≡ some (pids, forked_times 4))
    × ((t : Table) × (end_processes table_system false true pids (forked_times 4) ≡ done t)
        × ((u : ℕ) → t.life u ≡ empty_table.life u))
end_processes-reaped_example =
    end_processes-reaped table_system empty_table (forked_times 1) (forked_times 2) (forked_times 3)
      (forked_times 4) pids refl refl refl refl false true refl (inr (inl refl))

cleanup_fuzzer_env_example :
    (t : Table) × (cleanup_fuzzer_env table_system
        (record { bsim = some 0; attacker = some 2; interceptor = some 3 })
        (forked_times 4)
      ≡ done t)
    × (t.life 1 ≡ alive)
    × ((u : ℕ) → u ≢ 1 → t.life u ≡ empty_table.life u)
cleanup_fuzzer_env_example =
    cleanup_fuzzer_env-leaves_target table_system empty_table (forked_times 1) (forked_times 2)
      (forked_times 3) (forked_times 4) pids refl refl refl refl

-- The target sends nothing that the loop waits for.
intercept_with_alarm-ends_example :
    ((t : Session) × (intercept_with_alarm table_system random_mutator corpus
          (from_attacker ∷ from_attacker ∷ [])
          session
          1
          (forked_times 4)
        ≡ done (returned 1 t))
      × (1 ≤ 0))
    ⊎ ((st : Table) × (intercept_with_alarm table_system random_mutator corpus
            (from_attacker ∷ from_attacker ∷ [])
            session
            1
            (forked_times 4)
          ≡ done (timed_out st))
        × (st.life 1 ≢ alive))
intercept_with_alarm-ends_example =
    intercept_with_alarm-ends random_mutator corpus corpus-IsCorpus table_system
      (from_attacker ∷ from_attacker ∷ []) session 1 (forked_times 4)
      (from_attacker-CanMutate, (from_attacker-CanMutate, tt))

-- A target that cannot be started ends with status 255.
run_ble_target_test :
    run_ble_target
      (46 ∷ [])
      (55 ∷ [])
      5
      (record { dup_ok = true; stderr_ok = true; stdout_ok = true; exec_ok = false })
    ≡ exits 255
unfolding run_ble_target
run_ble_target_test = refl
