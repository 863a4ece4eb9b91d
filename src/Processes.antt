-- ===== src/Processes.antt =====
-- The processes of an execution: `run_bsim_phy`, `run_ble_target`, `run_ble_attacker` and
-- `run_ble_interceptor` of blueman-main/btfuzz.c, the calls of `kill` and `waitpid` of `fuzz_one`, and
-- `cleanup_fuzzer_env`, which the signal handlers and the timer call. The system is an interface,
-- with what its manual says of these calls; a process that the fuzzer does not kill may end by
-- itself or never.
pub mod Started
pub mod Reaped
mod Tests
use blueman_artifact.Prelude.{
  ℕ, ◌≡◌, ◌≢◌, ◌==◌, if◌then◌else◌, Bool, true, false, Option, none, some, List,
}
use blueman_artifact.Ending.{Ending, done, stuck, ◌>>=◌}

-- A child of the fuzzer runs, or has ended and has not been waited for.
pub data Life : Type 0 where
  absent : Life
  alive : Life
  ended : Life

-- `fork` is also the `clone` of the interceptor; `none` is its failure. `kill` is with SIGKILL, and
-- answers whether there is such a child. A `waitpid` for a child that never ends is `none`.
pub record System : Type 1 where
  pub S : Type 0
  pub life : ℕ → S → Life
  pub ends : ℕ → Bool
  pub fork : S → Option (ℕ × S)
  pub kill : ℕ → S → Bool × S
  pub waitpid : ℕ → S → Option S
  pub forked :
      (s s' : S) (p : ℕ)
      → fork s ≡ some (p, s')
      → (life p s ≡ absent) × ((u : ℕ) → life u s' ≡ (if u == p then alive else life u s))
  pub killed :
      (s : S) (p : ℕ)
      → life p s ≢ absent
      → ((kill p s).0 ≡ true)
        × ((u : ℕ) → life u (kill p s).1 ≡ (if u == p then ended else life u s))
  pub not_killed : (s : S) (p : ℕ) → life p s ≡ absent → kill p s ≡ (false, s)
  pub waits : (s : S) (p : ℕ) → life p s ≢ alive → (s' : S) × (waitpid p s ≡ some s')
  pub waits_for : (s : S) (p : ℕ) → ends p ≡ true → (s' : S) × (waitpid p s ≡ some s')
  pub waited :
      (s s' : S) (p : ℕ)
      → waitpid p s ≡ some s'
      → (u : ℕ) → life u s' ≡ (if u == p then absent else life u s)

-- What a child runs: a program with its output in a file, and the name of the shared memory in its
-- environment if it is given one.
pub record Image : Type 0 where
  pub path : List ℕ
  pub stdout_fd : ℕ
  pub stderr_fd : ℕ
  pub shm_str : Option (List ℕ)

pub data Child : Type 0 where
  execs : Image → Child
  exits : ℕ → Child

-- The answers of `dup`, of the two `dup2` and of `execv` in the child.
pub record Calls : Type 0 where
  pub dup_ok : Bool
  pub stderr_ok : Bool
  pub stdout_ok : Bool
  pub exec_ok : Bool

-- The child's branch of the three functions; -1 is the exit status 255.
unfoldable pub start_program : Calls → Image → Child
start_program calls image =
    if calls.dup_ok
    then (if calls.stderr_ok
        then (if calls.stdout_ok
            then (if calls.exec_ok then execs image else exits 255)
            else exits 255)
        else exits 255)
    else exits 255

unfoldable pub run_ble_target : (target_path shm_str : List ℕ) → (target_log_fd : ℕ) → Calls → Child
unfolding start_program
run_ble_target target_path shm_str target_log_fd calls = start_program calls (record {
  path = target_path;
  stdout_fd = target_log_fd;
  stderr_fd = target_log_fd;
  shm_str = some shm_str;
})

unfoldable pub run_ble_attacker : (attacker_path : List ℕ) → (attacker_log_fd : ℕ) → Calls → Child
unfolding start_program
run_ble_attacker attacker_path attacker_log_fd calls = start_program calls (record {
  path = attacker_path;
  stdout_fd = attacker_log_fd;
  stderr_fd = attacker_log_fd;
  shm_str = none;
})

unfoldable pub run_bsim_phy : (bsim_path : List ℕ) → (bsim_log_fd : ℕ) → Calls → Child
unfolding start_program
run_bsim_phy bsim_path bsim_log_fd calls =
    start_program calls (record {
      path = bsim_path;
      stdout_fd = bsim_log_fd;
      stderr_fd = bsim_log_fd;
      shm_str = none;
    })

-- The loop of Intercept that the interceptor's process runs before it exits; it gets the number of
-- packets in both cases.
pub data Loop : Type 0 where
  intercepts_for_init_corpus : ℕ → Loop
  intercepts_for_fuzz : ℕ → Loop

unfoldable pub run_ble_interceptor : (max_num_of_pkt : ℕ) → (create_init_corpus : Bool) → Loop
run_ble_interceptor max_num_of_pkt create_init_corpus =
    if create_init_corpus
    then intercepts_for_init_corpus max_num_of_pkt
    else intercepts_for_fuzz max_num_of_pkt

-- The four variables after all have been started.
pub record Pids : Type 0 where
  pub bsim_pid : ℕ
  pub target_pid : ℕ
  pub attacker_pid : ℕ
  pub interceptor_pid : ℕ

-- The variables as they stand at any time; `none` is -1.
pub record PidVars : Type 0 where
  pub bsim : Option ℕ
  pub attacker : Option ℕ
  pub interceptor : Option ℕ

module _ (sys : System) where
  infixl 5 ◌>>>=◌
  abbrev ◌>>>=◌ : {A B : Type 0} → Option A → (A → Option B) → Option B
  none >>>= k = none
  some a >>>= k = k a

  -- The four calls of `fuzz_one`; if one fails the fuzzer exits (`none`).
  unfoldable pub start_processes : sys.S → Option (Pids × sys.S)
  start_processes s = sys.fork s >>>= λ (b, s₁). sys.fork s₁ >>>= λ (t, s₂).
      sys.fork s₂ >>>= λ (a, s₃). sys.fork s₃ >>>= λ (i, s₄).
      some (record { bsim_pid = b; target_pid = t; attacker_pid = a; interceptor_pid = i }, s₄)

  abbrev pub wait_for : ℕ → sys.S → Ending sys.S
  wait_for p s = elim (sys.waitpid p s) [ none ↦ stuck | some s' ↦ done s' ]

  abbrev pub kill_if : Bool → ℕ → sys.S → sys.S
  kill_if b p s = if b then (sys.kill p s).1 else s

  -- The calls of `fuzz_one` from `wait_for_target` on; the interceptor is killed where the attacker
  -- has broken or an error is found, and again for a crash.
  unfoldable pub end_processes : (attack_error crash : Bool) → Pids → sys.S → Ending sys.S
  end_processes attack_error crash p s = wait_for p.target_pid s >>= λ s₁.
      wait_for p.bsim_pid (sys.kill p.bsim_pid s₁).1 >>= λ s₂.
      wait_for p.attacker_pid (sys.kill p.attacker_pid s₂).1 >>= λ s₃.
      wait_for p.interceptor_pid
        (kill_if crash p.interceptor_pid (kill_if attack_error p.interceptor_pid s₃))

  -- One of the three parts of the clean-up that are alike.
  abbrev pub kill_and_wait : Option ℕ → sys.S → Ending sys.S
  kill_and_wait none s = done s
  kill_and_wait (some p) s =
      let waited = wait_for p (sys.kill p s).1 in
      if (sys.kill p s).0 then waited else done (sys.kill p s).1

  unfoldable pub cleanup_fuzzer_env : PidVars → sys.S → Ending sys.S
  cleanup_fuzzer_env v s = kill_and_wait v.bsim s >>= λ s₁.
      kill_and_wait v.attacker s₁ >>= λ s₂. kill_and_wait v.interceptor s₂
