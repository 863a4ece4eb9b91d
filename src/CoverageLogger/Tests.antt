-- ===== src/CoverageLogger/Tests.antt =====
-- Two entries, and a printer that lists their numbers.
use blueman_artifact.Prelude.{ℕ, ◌≤◌, ◌≡◌, List, [], ◌∷◌, ◌++◌, some, take, length}
use blueman_artifact.CoverageLogger.{
  Entry, max_entries, logger_at_start, init_coverage_logger, save_coverage_to_file,
}
use blueman_artifact.CoverageLogger.Series.{Holds, log_all, logger-Holds}

abbrev numbers : List Entry → List ℕ
numbers [] = []
numbers (e ∷ es) = e.time ∷ e.coverage ∷ numbers es

abbrev two_entries : List Entry
two_entries = record { time = 10; coverage = 3 } ∷ record { time = 20; coverage = 5 } ∷ []

logger_example :
    let logged =
      log_all numbers two_entries (init_coverage_logger (some (97 ∷ [])) logger_at_start) in
    let entries = take max_entries two_entries in
    Holds numbers entries logged
    × (1 ≤ length entries
        → (null_text : List ℕ)
        → save_coverage_to_file null_text logged
          ≡ some (logged.output_file_path, numbers entries ++ (10 ∷ [])))
logger_example = logger-Holds numbers (some (97 ∷ [])) logger_at_start two_entries
