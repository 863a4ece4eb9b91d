-- ===== src/CoverageLogger.antt =====
-- blueman-main/coverage_logger/coverage_logger.c: the time series of the coverage. The JSON array is
-- the list of its entries, and json-c's printer is a parameter.
pub mod Series
mod Tests
use blueman_artifact.Prelude.{
  ℕ, ◌+◌, ltb, leb, if◌then◌else◌, List, [], ◌∷◌, ◌++◌, Option, none, some, length,
}

-- One object, `time` and `coverage`.
pub record Entry : Type 0 where
  pub time : ℕ
  pub coverage : ℕ

-- The variables of the file; a null pointer is `none`, and the path is its bytes.
pub record Logger : Type 0 where
  pub coverage_array : Option (List Entry)
  pub output_file_path : List ℕ
  pub entry_count : ℕ
  pub json_str : Option (List ℕ)

abbrev pub max_entries : ℕ
max_entries = 2000000

-- "coverage_output.json"
abbrev pub default_path : List ℕ
default_path =
    99 ∷ 111 ∷ 118 ∷ 101 ∷ 114 ∷ 97 ∷ 103 ∷ 101 ∷ 95 ∷ 111 ∷ 117 ∷ 116 ∷ 112 ∷ 117 ∷ 116 ∷ 46 ∷ 106
    ∷ 115 ∷ 111 ∷ 110 ∷ []

abbrev pub logger_at_start : Logger
logger_at_start = record {
  coverage_array = none;
  output_file_path = default_path;
  entry_count = 0;
  json_str = none;
}

-- The new array is taken to be allocated; without it the process ends.
unfoldable pub init_coverage_logger : Option (List ℕ) → Logger → Logger
init_coverage_logger none l = record l {
  coverage_array = some [];
  entry_count = 0;
  output_file_path = default_path;
}
init_coverage_logger (some filename) l = record l {
  coverage_array = some [];
  entry_count = 0;
  output_file_path = if ltb (length filename) 256 then filename else default_path;
}

module _ (to_json : List Entry → List ℕ) where
  unfoldable pub append_entry : Entry → List Entry → Logger → Logger
  append_entry entry entries l =
      let array = entries ++ (entry ∷ []) in
      record l {
        coverage_array = some array;
        json_str = some (to_json array);
        entry_count = l.entry_count + 1;
      }

  unfoldable pub add_coverage_entry : (time coverage : ℕ) → Logger → Logger
  unfolding append_entry
  add_coverage_entry time coverage l = elim l.coverage_array [
    | none ↦ l
    | some entries ↦
        if leb max_entries l.entry_count
        then l
        else append_entry (record { time = time; coverage = coverage }) entries l
  ]

-- The file and what is written to it; the format prints a null pointer, before the first entry.
unfoldable pub save_coverage_to_file : List ℕ → Logger → Option (List ℕ × List ℕ)
save_coverage_to_file null_text l = elim l.coverage_array [
  | none ↦ none
  | some entries ↦ elim l.json_str [
    | none ↦ some (l.output_file_path, null_text ++ (10 ∷ []))
    | some json_str ↦ some (l.output_file_path, json_str ++ (10 ∷ []))
  ]
]
