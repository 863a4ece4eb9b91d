-- ===== src/Corpus.antt =====
-- The corpus queue of blueman-main/coverage.c, and `save_if_interesting`, which feeds it.
-- An entry and its `list` member have one address. `snprintf` of the path, the clock and `malloc`
-- are outside the code: the path is a function of the three numbers that are printed, the address
-- and the time are arguments.
pub mod Loading
pub mod Saving
pub mod Names
pub mod Cycle
mod Tests
use blueman_artifact.Prelude.{ℕ, ◌+◌, ◌==◌, if◌then◌else◌, Option, none, some, List, [], ◌∷◌, u32}
use blueman_artifact.LinkedList.{Links, list_add, list_length}
use blueman_artifact.Coverage.{has_new_bits, corpus_get_coverage}
use blueman_artifact.PktRecord.{PktRecord, ◌>>=◌, get_pkt_seq_total_len, save_seq_buf_to_file2}

-- `queue_entry`, less the members that no code reads or writes and the links, which are in `Links`.
pub record QueueEntry : Type 0 where
  pub fname : List ℕ
  pub count : ℕ
  pub len : ℕ
  pub has_new_cov : ℕ

-- The variables of coverage.c. The newest saved file stands first in `saved`.
pub record Corpus : Type 0 where
  pub links : Links
  pub entries : ℕ → QueueEntry
  pub queue_top : Option ℕ
  pub queued_paths : ℕ
  pub last_path_time : ℕ
  pub virgin_bits : List ℕ
  pub saved : List (List ℕ × List ℕ)

-- `&queue`
abbrev pub queue : ℕ
queue = 0

abbrev pub put_entry : ℕ → QueueEntry → Corpus → Corpus
put_entry q entry c = record c { entries = λ x. if x == q then entry else c.entries x }

-- `q` is what `malloc` returns; the members that are not written keep what stands there.
unfoldable pub add_to_queue : (q now : ℕ) → List ℕ → PktRecord → Corpus → Option Corpus
add_to_queue q now fname pkt_rec c = do
  len ← get_pkt_seq_total_len pkt_rec
  some
      (record (put_entry q
        (record (c.entries q) { fname = fname; count = u32 pkt_rec.count; len = len }) c) {
          links = list_add q queue c.links;
          queue_top = some q;
          queued_paths = u32 (c.queued_paths + 1);
          last_path_time = now;
        })

-- `if(hnb == 2) queue_top->has_new_cov = 1`
unfoldable pub mark_new_coverage : ℕ → Corpus → Option Corpus
mark_new_coverage hnb c =
    if hnb == 2
    then elim c.queue_top [
      | none ↦ none
      | some q ↦ some (put_entry q (record (c.entries q) { has_new_cov = 1 }) c)
    ]
    else some c

unfoldable pub save : List ℕ → PktRecord → Corpus → Corpus
save path pkt_rec c = record c { saved = (path, save_seq_buf_to_file2 pkt_rec) ∷ c.saved }

module _ (path_buf : ℕ → ℕ → ℕ → List ℕ) (trace_bits : List ℕ) where
  -- The part after the first test.
  unfoldable pub keep : (q now : ℕ) → PktRecord → (round hnb : ℕ) → Corpus → Option (ℕ × Corpus)
  unfolding add_to_queue mark_new_coverage save
  keep q now pkt_rec round hnb c = do
    let path = path_buf (corpus_get_coverage trace_bits) round c.queued_paths
    added ← add_to_queue q now path pkt_rec c
    marked ← mark_new_coverage hnb added
    some (1, save path pkt_rec marked)

  unfoldable pub save_if_interesting :
      (q now : ℕ) → PktRecord → (round : ℕ) → Corpus → Option (ℕ × Corpus)
  unfolding keep
  save_if_interesting q now pkt_rec round c =
      let (hnb, virgin) = has_new_bits trace_bits c.virgin_bits in
      let seen : Corpus = record c { virgin_bits = virgin } in
      if hnb == 0 then some (0, seen) else keep q now pkt_rec round hnb seen

unfoldable pub get_queue_head : Corpus → ℕ
get_queue_head c = c.links.next queue

unfoldable pub get_queue_tail : Corpus → ℕ
get_queue_tail c = c.links.prev queue

unfoldable pub get_queue_next : ℕ → Corpus → ℕ
get_queue_next q c = c.links.next q

unfoldable pub get_queue_length : ℕ → Corpus → Option ℕ
unfolding list_length
get_queue_length fuel c = list_length fuel queue c.links
