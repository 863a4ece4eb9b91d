-- ===== src/CoverageLogger/Series.antt =====
-- The logger against a list of at most 2000000 entries.
use blueman_artifact.Prelude.{
  ℕ, ◌+◌, ◌≤◌, ◌<◌, ◌≡◌, refl, sym, arith, ltb, leb, true, false, Bool-cases, List, [], ◌∷◌, ◌++◌,
  Option, none, some, take, length, length-append, take-append_le, take-all, inl, inr,
}
use mathlib.Core.List.{append_assoc, append-nil}
use blueman_artifact.CoverageLogger.{
  Entry, Logger, max_entries, init_coverage_logger, append_entry, add_coverage_entry,
  save_coverage_to_file,
}

module _ (to_json : List Entry → List ℕ) where
  -- The logger holds these entries, and the text that it will write is theirs.
  pub record Holds (entries : List Entry) (l : Logger) : Type 0 where
    pub array : l.coverage_array ≡ some entries
    pub count : l.entry_count ≡ length entries
    pub bounded : l.entry_count ≤ max_entries
    pub printed : 1 ≤ length entries → l.json_str ≡ some (to_json entries)

  abbrev pub log_all : List Entry → Logger → Logger
  log_all [] l = l
  log_all (e ∷ es) l = log_all es (add_coverage_entry to_json e.time e.coverage l)

  add_coverage_entry-room :
      (entries : List Entry) (e : Entry) (l : Logger)
      → Holds entries l
      → length entries < max_entries
      → Holds (entries ++ (e ∷ [])) (add_coverage_entry to_json e.time e.coverage l)
  unfolding add_coverage_entry append_entry
  add_coverage_entry-room entries e l h lt =
      let room : leb max_entries l.entry_count ≡ false = ground (arith, h.count) in
      let more : length (entries ++ (e ∷ [])) ≡ length entries + 1 =
        length-append entries (e ∷ []) in
      rw (h.array, room)
        (record {
          array = refl;
          count = omega (arith, h.count, more);
          bounded = omega (arith, h.count);
          printed = λ some_entries. refl;
        })

  add_coverage_entry-full :
      (entries : List Entry) (e : Entry) (l : Logger)
      → Holds entries l
      → max_entries ≤ length entries
      → add_coverage_entry to_json e.time e.coverage l ≡ l
  unfolding add_coverage_entry
  add_coverage_entry-full entries e l h le =
      let full : leb max_entries l.entry_count ≡ true = ground (arith, h.count) in
      rw (h.array, full) refl

  init_coverage_logger-Holds :
      (filename : Option (List ℕ)) (l : Logger) → Holds [] (init_coverage_logger filename l)
  unfolding init_coverage_logger
  init_coverage_logger-Holds none l = record {
    array = refl;
    count = refl;
    bounded = omega arith;
    printed = λ h. absurd (omega arith);
  }
  init_coverage_logger-Holds (some filename) l = record {
    array = refl;
    count = refl;
    bounded = omega arith;
    printed = λ h. absurd (omega arith);
  }

  log_all-Holds :
      (es entries : List Entry) (l : Logger)
      → Holds entries l
      → length entries ≤ max_entries
      → Holds (take max_entries (entries ++ es)) (log_all es l)
  log_all-Holds [] entries l h le = rw (append-nil entries, take-all max_entries entries le) h
  log_all-Holds (e ∷ es) entries l h le = elim (Bool-cases (ltb (length entries) max_entries)) [
    | inl room ↦
        let lt : length entries < max_entries = ground arith in
        let le' : length (entries ++ (e ∷ [])) ≤ max_entries =
          omega (arith, length-append entries (e ∷ [])) in
        rw (sym (append_assoc entries (e ∷ []) es)) (
          log_all-Holds es (entries ++ (e ∷ [])) (add_coverage_entry to_json e.time e.coverage l)
            (add_coverage_entry-room entries e l h lt) le')
    | inr full ↦
        let ge : max_entries ≤ length entries = ground arith in
        rw
          (
            add_coverage_entry-full entries e l h ge,
            take-append_le max_entries entries (e ∷ es) ge,
            sym (take-append_le max_entries entries es ge),
          )
          (log_all-Holds es entries l h le)
  ]

  save_coverage_to_file-text :
      (null_text text : List ℕ) (entries : List Entry) (l : Logger)
      → l.coverage_array ≡ some entries
      → l.json_str ≡ some text
      → save_coverage_to_file null_text l ≡ some (l.output_file_path, text ++ (10 ∷ []))
  unfolding save_coverage_to_file
  save_coverage_to_file-text null_text text entries l a e = rw (a, e) refl

  -- After `init_coverage_logger`, with any file name, and any calls of `add_coverage_entry`: the
  -- array holds the first 2000000 of their entries in order, `entry_count` is their number, and
  -- if there is one, the text that `save_coverage_to_file` writes is that of this array.
  pub logger-Holds :
      (filename : Option (List ℕ)) (l : Logger) (es : List Entry)
      → let logged = log_all es (init_coverage_logger filename l) in
        let entries = take max_entries es in
        Holds entries logged
        × (1 ≤ length entries
            → (null_text : List ℕ)
            → save_coverage_to_file null_text logged
              ≡ some (logged.output_file_path, to_json entries ++ (10 ∷ [])))
  logger-Holds filename l es =
      let h =
        log_all-Holds es [] (init_coverage_logger filename l)
          (init_coverage_logger-Holds filename l) (omega arith) in
      (
        h,
        λ one null_text.
            save_coverage_to_file-text null_text (to_json (take max_entries es))
              (take max_entries es) _ h.array (h.printed one),
      )
