-- ===== src/Execution/Saved.antt =====
-- What the three functions that save an error write, when the system lets them end.
use blueman_artifact.Prelude.{
  ℕ, ◌+◌, ◌≡◌, refl, Bool, true, false, List, ◌∷◌, Option, none, some, length, u64,
}
use blueman_artifact.Ending.{done}
use blueman_artifact.Copying.{my_copy_file_range}
use blueman_artifact.Execution.{
  output_crash, output_crash_log, output_timeout, output_timeout_log, output_attack_err_corpus,
  output_attack_err_log, ErrorFile, Trial, Fuzzer, write_error_file, save_log, timeout_file,
  crash_file, attack_file, save_timeout_error_info, save_signal_error_info, save_attack_error_info,
}
use blueman_artifact.PktRecord.{save_seq_buf_to_file2}

-- There is no log, or the system copies it to any file.
pub data CanLog (t : Trial) : Option (List ℕ) → Type 0 where
  dev_null : CanLog t none
  copied :
      {log : List ℕ}
      → ((path : ErrorFile)
          → (out : List ℕ) × (my_copy_file_range (t.copying path) log (length log)
              ≡ done (true, out)))
      → CanLog t (some log)

abbrev pub Files : Type 0
Files = List (ErrorFile × List ℕ)

-- The corpus file, and after it perhaps the log.
pub data Written (corpus_file log_file : ErrorFile) (files : Files) : Files → Type 0 where
  no_log : (bytes : List ℕ) → Written corpus_file log_file files ((corpus_file, bytes) ∷ files)
  with_log :
      (bytes out : List ℕ)
      → Written corpus_file log_file files ((log_file, out) ∷ (corpus_file, bytes) ∷ files)

module _ (t : Trial) where
  save_log-Written :
      (hangs : Bool) (log : Option (List ℕ)) (corpus_file log_file : ErrorFile) (bytes : List ℕ)
      (f : Fuzzer)
      → CanLog t log
      → (files : Files) × (save_log t hangs log log_file (write_error_file corpus_file bytes f)
          ≡ done (record f { error_files = files }))
        × Written corpus_file log_file f.error_files files
  unfolding save_log
  save_log-Written hangs none c l bytes f dev_null = (_, refl, no_log bytes)
  save_log-Written hangs (some log) c l bytes f (copied h) =
      let (out, e) = h l in (_, rw e refl, with_log bytes out)

  pub save_timeout_error_info-Written :
      (log : Option (List ℕ)) (f : Fuzzer)
      → CanLog t log
      → (files : Files) × (save_timeout_error_info t log f
          ≡ done (record f { error_files = files; timeout_count = u64 (f.timeout_count + 1) }))
        × Written
            (timeout_file output_timeout f)
            (timeout_file output_timeout_log f)
            f.error_files
            files
  unfolding save_timeout_error_info
  save_timeout_error_info-Written log f can =
      let (files, e, w) =
        save_log-Written false log (timeout_file output_timeout f)
          (timeout_file output_timeout_log f) (save_seq_buf_to_file2 f.pkt_rec) f can in
      (files, rw e refl, w)

  pub save_signal_error_info-Written :
      (log : Option (List ℕ)) (sig ret : ℕ) (f : Fuzzer)
      → CanLog t log
      → (files : Files) × (save_signal_error_info t log sig ret f
          ≡ done (record f { error_files = files; crash_count = u64 (f.crash_count + 1) }))
        × Written
            (crash_file output_crash sig ret f)
            (crash_file output_crash_log sig ret f)
            f.error_files
            files
  unfolding save_signal_error_info
  save_signal_error_info-Written log sig ret f can =
      let (files, e, w) =
        save_log-Written false log (crash_file output_crash sig ret f)
          (crash_file output_crash_log sig ret f) (save_seq_buf_to_file2 f.pkt_rec) f can in
      (files, rw e refl, w)

  pub save_attack_error_info-Written :
      (log : Option (List ℕ)) (who sig ret : ℕ) (f : Fuzzer)
      → CanLog t log
      → (files : Files) × (save_attack_error_info t log who sig ret f
          ≡ done (record f {
            error_files = files;
            attack_error_count = u64 (f.attack_error_count + 1);
          }))
        × Written
            (attack_file output_attack_err_corpus who sig ret f)
            (attack_file output_attack_err_log who sig ret f)
            f.error_files
            files
  unfolding save_attack_error_info
  save_attack_error_info-Written log who sig ret f can =
      let (files, e, w) =
        save_log-Written true log (attack_file output_attack_err_corpus who sig ret f)
          (attack_file output_attack_err_log who sig ret f) (save_seq_buf_to_file2 f.pkt_rec) f
          can in
      (files, rw e refl, w)
