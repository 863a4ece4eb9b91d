-- ===== src/Rounds.antt =====
-- The loops of `start_fuzzer` of blueman-main/btfuzz.c, in the build with PKTSEL, BLUEMAN_STAT and
-- TIMER. What happens in execution number `n` is the trial `n`, with the coverage map that the run
-- leaves in the memory that `clean_trace_bits` has cleared; the file of the queue entry is opened, and
-- its packets act through the trial. `clock n` is the time after it.
pub mod Position
pub mod Steady
pub mod Times
pub mod Walk
pub mod Start
pub mod Whole
mod Tests
use blueman_artifact.Prelude.{
  ℕ, zero, suc, ◌+◌, ◌-◌, ◌*◌, ◌%◌, ◌^◌, ◌==◌, ltb, if◌then◌else◌, Bool, true, false, ◌&&◌, List,
  [], ◌∷◌, ◌++◌, u32, u64, Option, none, some, get_elem?,
}
use blueman_artifact.Ending.{Ending, done, fault, ◌>>=◌, or_exit}
use blueman_artifact.PktRecord.{BlePkt, PktRecord, init_pkt_seq_buf}
use blueman_artifact.FieldMutator.Selection.{
  Floats, Mode, fixed_prob_10, fixed_prob_25, fixed_prob_50, fixed_prob_75, fixed_prob_100,
  selective_25_75, selective_75_25, random_prob, mixed_prob, invalid, Config,
  selection_strategy_setup,
}
use blueman_artifact.Coverage.{corpus_get_coverage, get_total_coverage}
use blueman_artifact.Corpus.{Corpus, queue, get_queue_head, get_queue_tail, get_queue_next}
use blueman_artifact.CoverageLogger.{Entry, Logger, add_coverage_entry}
use blueman_artifact.Execution.{Trial, Fuzzer, fuzz_one}

abbrev pub times_per_round : ℕ
times_per_round = 10

-- `PktselMode`, and the cast to it.
abbrev pub modes : List Mode
modes =
    fixed_prob_10 ∷ fixed_prob_25 ∷ fixed_prob_50 ∷ fixed_prob_75 ∷ fixed_prob_100 ∷ selective_25_75
    ∷ selective_75_25 ∷ random_prob ∷ mixed_prob ∷ []

unfoldable pub mode_of : ℕ → Mode
mode_of n = elim (get_elem? modes n) [ none ↦ invalid n | some mode ↦ mode ]

-- The variables of the loops; `draws` are the next random numbers.
pub record Campaign (fl : Floats) : Type 0 where
  pub fuzzer : Fuzzer
  pub round : ℕ
  pub packet_count : ℕ
  pub total_packet_count : ℕ
  pub cur_coverage : ℕ
  pub total_coverage : ℕ
  pub max_total_coverage : ℕ
  pub prev_round_time : ℕ
  pub cur_time : ℕ
  pub mixed_mode : Bool
  pub config : Config fl
  pub draws : ℕ → ℕ
  pub logger : Logger

-- What the code takes from elsewhere: what happens, the clock, the printer of json-c, the printed
-- paths, the files that are there beside those that the program saves, with their paths; and the variables that the loops only read.
pub record Setting : Type 0 where
  pub trials : ℕ → Trial
  pub clock : ℕ → ℕ
  pub to_json : List Entry → List ℕ
  pub path_buf : ℕ → ℕ → ℕ → List ℕ
  pub seeds : List (List ℕ × List ℕ)
  pub start_time : ℕ
  pub max_delta_index : ℕ
  pub timer : ℕ

abbrev pub same_path : List ℕ → List ℕ → Bool
same_path [] [] = true
same_path [] (y ∷ ys) = false
same_path (x ∷ xs) [] = false
same_path (x ∷ xs) (y ∷ ys) = (x == y) && same_path xs ys

-- What `open` finds at a path, the newest file first.
unfoldable pub find_file : List ℕ → List (List ℕ × List ℕ) → Option (List ℕ)
find_file path [] = none
find_file path ((name, file) ∷ files) =
    let older = find_file path files in if same_path path name then some file else older

module _ (fl : Floats) (set : Setting) where
  unfoldable pub change_mode : Campaign fl → Campaign fl
  unfolding mode_of
  change_mode c =
      if c.mixed_mode && (c.fuzzer.total_exec_times % 2000 == 0)
      then record c {
        config = selection_strategy_setup fl (mode_of (c.draws 0 % 8)) set.max_delta_index c.config;
        draws = λ i. c.draws (i + 1);
      }
      else c

  -- The interceptor sets `packet_count` at each packet of the target.
  abbrev pub counted_packets : List BlePkt → ℕ → ℕ → ℕ
  counted_packets [] count before = before
  counted_packets (p ∷ ps) count before = u32 count

  unfoldable pub after_run : Trial → Fuzzer → Campaign fl → Campaign fl
  after_run t g c =
      let packet_count = counted_packets (t.recorded ++ t.late) g.pkt_rec.count c.packet_count in
      let total_coverage = get_total_coverage g.corpus.virgin_bits in
      record c {
        fuzzer = g;
        packet_count = packet_count;
        total_packet_count = u64 (c.total_packet_count + packet_count);
        cur_coverage = corpus_get_coverage t.trace_bits;
        total_coverage = total_coverage;
        max_total_coverage =
            if ltb c.max_total_coverage total_coverage
            then total_coverage
            else c.max_total_coverage;
        cur_time = set.clock g.total_exec_times;
      }

  abbrev pub next_execution : Campaign fl → Campaign fl
  next_execution c = record c {
    fuzzer = record c.fuzzer { total_exec_times = u64 (c.fuzzer.total_exec_times + 1) };
  }

  abbrev pub files_of : Campaign fl → List (List ℕ × List ℕ)
  files_of c = c.fuzzer.corpus.saved ++ set.seeds

  -- `mmap_seq_buf_file(queue_cur->fname, ...)`, which ends the process if the file does not open. The
  -- head of the list is in no entry, and has no `fname`.
  unfoldable pub open_corpus : (queue_cur : ℕ) → Campaign fl → Ending (List ℕ)
  unfolding find_file
  open_corpus queue_cur c =
      let opened = or_exit (find_file (c.fuzzer.corpus.entries queue_cur).fname (files_of c)) in
      if queue_cur == queue then fault else opened

  -- The body of the `for`: from the reset of the recorder on, and all of it.
  unfoldable pub execute : (queue_cur : ℕ) → Campaign fl → Ending (Campaign fl)
  unfolding after_run open_corpus
  execute queue_cur c = do
    file ← open_corpus queue_cur c
    let t = set.trials c.fuzzer.total_exec_times
    (fault_count, g) ←
        fuzz_one set.path_buf false t
          (record c.fuzzer { pkt_rec = init_pkt_seq_buf c.fuzzer.pkt_rec })
    done (after_run t g c)

  unfoldable pub run_once : (queue_cur : ℕ) → Campaign fl → Ending (Campaign fl)
  unfolding change_mode execute
  run_once queue_cur c = execute queue_cur (change_mode (next_execution c))

  unfoldable pub run_times : ℕ → (queue_cur : ℕ) → Campaign fl → Ending (Campaign fl)
  unfolding run_once
  run_times zero queue_cur c = done c
  run_times (suc n) queue_cur c = run_once queue_cur c >>= λ c'. run_times n queue_cur c'

  abbrev pub total_elapse : Campaign fl → ℕ
  total_elapse c = u64 (c.cur_time + 2 ^ 64 - set.start_time)

  -- One round; `true` is the `exit` when the time is over.
  unfoldable pub fuzz_round : (queue_cur : ℕ) → Campaign fl → Ending (Bool × Campaign fl)
  unfolding run_times
  fuzz_round queue_cur c = do
    c₁ ←
        run_times times_per_round queue_cur
          (record c { round = u64 (c.round + 1); prev_round_time = c.cur_time })
    let logger = add_coverage_entry set.to_json (total_elapse c₁) c₁.max_total_coverage c₁.logger
    done (ltb (u64 (set.timer * 1000000)) (total_elapse c₁), record c₁ { logger = logger })

  -- The entry of the next round: after the tail that the queue had, the walk starts again.
  unfoldable pub next_entry : (queue_cur queue_tail : ℕ) → Campaign fl → ℕ × ℕ
  next_entry queue_cur queue_tail c =
      let k = c.fuzzer.corpus in
      if queue_cur == queue_tail
      then (get_queue_head k, get_queue_tail k)
      else (get_queue_next queue_cur k, queue_tail)

  -- The two `while(1)`, for a number of rounds: the rounds' entries, whether the process has ended,
  -- and the variables.
  unfoldable pub fuzz_rounds :
      ℕ → (queue_cur queue_tail : ℕ) → Campaign fl → Ending (List ℕ × Bool × Campaign fl)
  unfolding fuzz_round
  fuzz_rounds zero queue_cur queue_tail c = done ([], false, c)
  fuzz_rounds (suc n) queue_cur queue_tail c = do
    (exits, c₁) ← fuzz_round queue_cur c
    let next = next_entry queue_cur queue_tail c₁
    let rest = fuzz_rounds n next.0 next.1 c₁
    if exits
        then done (queue_cur ∷ [], true, c₁)
        else (rest >>= λ (entries, ended, c₂). done (queue_cur ∷ entries, ended, c₂))
