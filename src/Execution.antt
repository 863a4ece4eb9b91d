-- ===== src/Execution.antt =====
-- One execution of the target: `fuzz_one` of blueman-main/btfuzz.c, with `wait_for_target` and the
-- three functions that save what led to an error.
-- What the processes and the system do is input: how the target and the attacker end, the packets
-- that the interceptor records until the target ends and after that, whether the interceptor ends
-- by itself, and the logs. Opening a file and `kill` are taken to succeed; an error file is known
-- by its directory and the numbers that are printed into its name.
pub mod Verdicts
pub mod Saved
pub mod Files
pub mod Ledger
pub mod Runs
pub mod Invariant
pub mod Added
pub mod Counts
pub mod Samples
mod Tests
use blueman_artifact.Prelude.{
  ℕ, ◌+◌, ◌==◌, if◌then◌else◌, Bool, true, false, ◌&&◌, ◌||◌, not, List, [], ◌∷◌, Option, none,
  some, length, u32, u64,
}
use blueman_artifact.Ending.{Ending, done, stuck, ◌>>=◌, or_fault}
use blueman_artifact.PktRecord.{BlePkt, PktRecord, save_seq_buf_to_file2}
use blueman_artifact.PktRecord.Buffer.{add_all}
use blueman_artifact.Copying.{Copying, my_copy_file_range}
use blueman_artifact.Corpus.{Corpus, save_if_interesting}

-- What WIFSIGNALED, WTERMSIG and WEXITSTATUS say of the status of a process that has ended.
pub record Status : Type 0 where
  pub signaled : Bool
  pub termsig : ℕ
  pub exitstatus : ℕ

pub data Fault : Type 0 where
  fault_none : Fault
  fault_error : Fault
  fault_timeout : Fault
  fault_crash : Fault

-- The directories, by the variables that hold their paths.
pub data Dir : Type 0 where
  output_crash : Dir
  output_crash_log : Dir
  output_timeout : Dir
  output_timeout_log : Dir
  output_attack_err_corpus : Dir
  output_attack_err_log : Dir

pub record ErrorFile : Type 0 where
  pub dir : Dir
  pub number : ℕ
  pub args : List ℕ

-- What happens outside in one execution. A log is `none` if it is "/dev/null".
pub record Trial : Type 0 where
  pub target : Status
  pub attacker : Status
  pub recorded : List BlePkt
  pub late : List BlePkt
  pub interceptor_ends : Bool
  pub trace_bits : List ℕ
  pub target_log : Option (List ℕ)
  pub attacker_log : Option (List ℕ)
  pub copying : ErrorFile → Copying
  pub q : ℕ
  pub now : ℕ

-- The variables of the fuzzer; the newest error file stands first, and `queues` counts the calls of
-- `create_msg_queue`.
pub record Fuzzer : Type 0 where
  pub pkt_rec : PktRecord
  pub corpus : Corpus
  pub total_exec_times : ℕ
  pub crash_count : ℕ
  pub timeout_count : ℕ
  pub attack_error_count : ℕ
  pub queues : ℕ
  pub error_files : List (ErrorFile × List ℕ)

abbrev pub write_error_file : ErrorFile → List ℕ → Fuzzer → Fuzzer
write_error_file path bytes f = record f { error_files = (path, bytes) ∷ f.error_files }

-- The part of the three functions that copies the log; `hangs` if a failure ends in `while(1)`.
unfoldable pub save_log :
    Trial → (hangs : Bool) → Option (List ℕ) → ErrorFile → Fuzzer → Ending Fuzzer
save_log t hangs none path f = done f
save_log t hangs (some log) path f = do
  (copied, out) ← my_copy_file_range (t.copying path) log (length log)
  if not copied && hangs then stuck else done (write_error_file path out f)

abbrev pub timeout_file : Dir → Fuzzer → ErrorFile
timeout_file dir f = record { dir = dir; number = f.total_exec_times; args = [] }

unfoldable pub save_timeout_error_info : Trial → Option (List ℕ) → Fuzzer → Ending Fuzzer
unfolding save_log
save_timeout_error_info t log f = do
  let saved = write_error_file (timeout_file output_timeout f) (save_seq_buf_to_file2 f.pkt_rec) f
  logged ← save_log t false log (timeout_file output_timeout_log f) saved
  done (record logged { timeout_count = u64 (logged.timeout_count + 1) })

abbrev pub crash_file : Dir → (sig ret : ℕ) → Fuzzer → ErrorFile
crash_file dir sig ret f = record { dir = dir; number = f.total_exec_times; args = sig ∷ ret ∷ [] }

unfoldable pub save_signal_error_info :
    Trial → Option (List ℕ) → (sig ret : ℕ) → Fuzzer → Ending Fuzzer
unfolding save_log
save_signal_error_info t log sig ret f = do
  let saved =
      write_error_file (crash_file output_crash sig ret f) (save_seq_buf_to_file2 f.pkt_rec) f
  logged ← save_log t false log (crash_file output_crash_log sig ret f) saved
  done (record logged { crash_count = u64 (logged.crash_count + 1) })

abbrev pub attack_file : Dir → (who sig ret : ℕ) → Fuzzer → ErrorFile
attack_file dir who sig ret f = record {
  dir = dir;
  number = f.attack_error_count;
  args = who ∷ sig ∷ ret ∷ [];
}

unfoldable pub save_attack_error_info :
    Trial → Option (List ℕ) → (who sig ret : ℕ) → Fuzzer → Ending Fuzzer
unfolding save_log
save_attack_error_info t log who sig ret f = do
  let saved =
      write_error_file (attack_file output_attack_err_corpus who sig ret f)
        (save_seq_buf_to_file2 f.pkt_rec) f
  logged ← save_log t true log (attack_file output_attack_err_log who sig ret f) saved
  done (record logged { attack_error_count = u64 (logged.attack_error_count + 1) })

-- SIGTRAP is 5 and SIGKILL is 9.
unfoldable pub wait_for_target : Trial → Fuzzer → Ending (Fault × Fuzzer)
wait_for_target t f =
    let s = t.target in
    let crashed = save_signal_error_info t t.target_log s.termsig s.exitstatus f >>= λ g.
    done (fault_crash, g) in
    let erred = save_attack_error_info t t.target_log 1 s.termsig s.exitstatus f >>= λ g.
    done (fault_error, g) in
    if s.signaled
    then (if s.termsig == 5
        then done (fault_error, f)
        else if s.termsig == 9
        then done (fault_timeout, f)
        else crashed)
    else if not (s.exitstatus == 0)
    then (if s.exitstatus == 1 then crashed else erred)
    else done (fault_none, f)

abbrev pub is_error : Fault → Bool
is_error fault_error = true
is_error _ = false

abbrev pub is_timeout : Fault → Bool
is_timeout fault_timeout = true
is_timeout _ = false

abbrev pub is_crash : Fault → Bool
is_crash fault_crash = true
is_crash _ = false

abbrev pub trapped : Status → Bool
trapped s = s.signaled && s.termsig == 5

abbrev pub broken : Status → Bool
broken s = not (s.exitstatus == 0) || trapped s

abbrev pub create_queue : Fuzzer → Fuzzer
create_queue f = record f { queues = f.queues + 1 }

-- The part after the attacker has ended, up to `fault == FAULT_CRASH`.
unfoldable pub check_attacker : Trial → Fault → Fuzzer → Ending Fuzzer
check_attacker t fault f =
    let s = t.attacker in
    let saved = save_attack_error_info t t.attacker_log 0 s.termsig s.exitstatus (create_queue f) in
    if broken s || is_error fault
    then (if broken s then saved else done (create_queue f))
    else done f

unfoldable pub check_timeout : Trial → Fault → Fuzzer → Ending Fuzzer
check_timeout t fault f =
    let saved = save_timeout_error_info t t.target_log f in
    if is_timeout fault && not (trapped t.attacker) then saved else done f

-- The last part, with the `waitpid` for the interceptor, which may have been killed.
unfoldable pub finish :
    (ℕ → ℕ → ℕ → List ℕ)
    → Bool
    → Trial
    → (fault_count : ℕ) → (killed : Bool) → Fuzzer
    → Ending (ℕ × Fuzzer)
finish path_buf create_init_corpus t fault_count killed f =
    let keep =
      or_fault (
        save_if_interesting path_buf t.trace_bits t.q t.now f.pkt_rec (u32 f.total_exec_times)
          f.corpus)
      >>= λ (keeping, corpus). done (fault_count, record f { corpus = corpus }) in
    if not killed && not t.interceptor_ends
    then stuck
    else if fault_count == 0 && not create_init_corpus
    then keep
    else done (fault_count, f)

unfoldable pub fuzz_one : (ℕ → ℕ → ℕ → List ℕ) → Bool → Trial → Fuzzer → Ending (ℕ × Fuzzer)
unfolding wait_for_target check_attacker check_timeout finish
fuzz_one path_buf create_init_corpus t f = do
  (fault, f₁) ← wait_for_target t (record f { pkt_rec = add_all f.pkt_rec t.recorded })
  f₂ ← check_attacker t fault (record f₁ { pkt_rec = add_all f₁.pkt_rec t.late })
  let fault_count = if is_crash fault then 1 else 0
  let f₃ = if is_crash fault then create_queue f₂ else f₂
  f₄ ← check_timeout t fault f₃
  finish path_buf create_init_corpus t fault_count
      (broken t.attacker || is_error fault || is_crash fault) f₄
