-- ===== src/Corpus/Cycle.antt =====
-- The walk of `start_fuzzer` (blueman-main/btfuzz.c) over the queue: one round for each entry from
-- the head to the tail that the queue had at the start, while the rounds add entries at the front.
-- The runs of a round are input: a round is the list of the addresses that `save_if_interesting`
-- has put in the queue.
pub mod Order
use blueman_artifact.Prelude.{ℕ, ◌==◌, if◌then◌else◌, List, [], ◌∷◌, Option, none, some}
use blueman_artifact.LinkedList.{Links, list_add}
use blueman_artifact.Corpus.{queue}
use blueman_artifact.PktRecord.{◌>>=◌}

abbrev pub add_entries : List ℕ → Links → Links
add_entries [] h = h
add_entries (q ∷ qs) h = add_entries qs (list_add q queue h)

-- The inner `while(1)`: the entries that are fuzzed, and the queue at the end; `none` if the rounds
-- of the input run out before the tail is reached.
unfoldable pub cycle_from : List (List ℕ) → ℕ → ℕ → Links → Option (List ℕ × Links)
cycle_from [] queue_cur queue_tail h = none
cycle_from (kept ∷ rounds) queue_cur queue_tail h =
    let h' = add_entries kept h in
    let later = cycle_from rounds (h'.next queue_cur) queue_tail h' in
    if queue_cur == queue_tail
    then some (queue_cur ∷ [], h')
    else (later >>= λ (fuzzed, last). some (queue_cur ∷ fuzzed, last))

unfoldable pub cycle : List (List ℕ) → Links → Option (List ℕ × Links)
unfolding cycle_from
cycle rounds h = cycle_from rounds (h.next queue) (h.prev queue) h
