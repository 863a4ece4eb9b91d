-- ===== src/Corpus/Tests.antt =====
-- A corpus that keeps a run of one packet.
use blueman_artifact.Prelude.{ℕ, ◌≡◌, ◌≢◌, ◌⊎◌, refl, arith, List, [], ◌∷◌, none, some}
use blueman_artifact.LinkedList.{Links, init_list_head, list_add}
use blueman_artifact.LinkedList.Ring.{IsRing, Avoids}
use blueman_artifact.LinkedList.Order.{init_list_head-IsRing, list_add-IsRing}
use blueman_artifact.Coverage.{has_new_bits}
use blueman_artifact.PktRecord.{PktRecord, blank}
use blueman_artifact.PktRecord.Buffer.{IsValid}
use blueman_artifact.Corpus.{Corpus, queue, save_if_interesting}
use blueman_artifact.Corpus.Cycle.{cycle}
use blueman_artifact.Corpus.Cycle.Order.{added_all, cycle-order}
use blueman_artifact.Corpus.Saving.{Kept, save_if_interesting-Kept, save_if_interesting-once}

abbrev one_packet : PktRecord
one_packet = record { count = 1; max_count = 3; pkts_buf = blank ∷ blank ∷ blank ∷ [] }

one_packet-IsValid : IsValid one_packet
one_packet-IsValid = record { allocated = refl; within = omega arith; small = omega arith }

-- The numbers themselves, in place of the printed path.
abbrev numbers : ℕ → ℕ → ℕ → List ℕ
numbers cov_count round queued_paths = cov_count ∷ round ∷ queued_paths ∷ []

abbrev run : List ℕ
run = 1 ∷ []

abbrev start : Corpus
start = record {
  links = init_list_head queue (record { next = λ x. 0; prev = λ x. 0 });
  entries = λ x. record { fname = []; count = 0; len = 0; has_new_cov = 0 };
  queue_top = none;
  queued_paths = 0;
  last_path_time = 0;
  virgin_bits = 18446744073709551615 ∷ [];
  saved = [];
}

start-IsRing : IsRing start.links queue []
start-IsRing = init_list_head-IsRing queue (record { next = λ x. 0; prev = λ x. 0 })

entry-Avoids : Avoids 6 (queue ∷ [])
entry-Avoids = ((λ e. absurd (omega arith)), tt)

save_example :
    let (hnb, virgin) = has_new_bits run start.virgin_bits in
    let seen = record start { virgin_bits = virgin } in
    let result = save_if_interesting numbers run 6 1000 one_packet 4 start in
    ((hnb ≡ 0) × (result ≡ some (0, seen)))
    ⊎ ((hnb ≢ 0) × ((d : Corpus) × (result ≡ some (1, d)) × Kept seen d 6 [] one_packet hnb))
save_example =
    save_if_interesting-Kept numbers run 6 1000 4 one_packet one_packet-IsValid start []
      start-IsRing entry-Avoids

save_once_example :
    (ret : ℕ) × (d : Corpus) × (save_if_interesting numbers run 6 1000 one_packet 4 start
      ≡ some (ret, d))
    × (save_if_interesting numbers run 7 1001 one_packet 5 d ≡ some (0, d))
save_once_example =
    save_if_interesting-once numbers run 6 1000 4 one_packet one_packet-IsValid start [] 7 1001 5
      start-IsRing entry-Avoids (omega arith, tt) refl

-- A queue of the entries 4 and 6. Its first round keeps one run, its second two.
abbrev two_entries : Links
two_entries = list_add 4 queue (list_add 6 queue start.links)

two_entries-IsRing : IsRing two_entries queue (4 ∷ 6 ∷ [])
two_entries-IsRing =
    list_add-IsRing (list_add 6 queue start.links) 4 queue (6 ∷ [])
      (list_add-IsRing start.links 6 queue [] start-IsRing entry-Avoids)
      ((λ e. absurd (omega arith)), ((λ e. absurd (omega arith)), tt))

cycle_example :
    (k : Links) × (cycle ((1 ∷ []) ∷ (2 ∷ 3 ∷ []) ∷ []) two_entries ≡ some (4 ∷ 6 ∷ [], k))
    × IsRing k queue (added_all ((1 ∷ []) ∷ (2 ∷ 3 ∷ []) ∷ []) (4 ∷ 6 ∷ []))
cycle_example =
    cycle-order ((1 ∷ []) ∷ (2 ∷ 3 ∷ []) ∷ []) 4 (6 ∷ []) two_entries refl two_entries-IsRing (
      (
        (
          (λ e. absurd (omega arith)),
          ((λ e. absurd (omega arith)), ((λ e. absurd (omega arith)), tt)),
        ),
        tt,
      ),
      (
        (
          (
            (λ e. absurd (omega arith)),
            (
              (λ e. absurd (omega arith)),
              ((λ e. absurd (omega arith)), ((λ e. absurd (omega arith)), tt)),
            ),
          ),
          (
            (
              (λ e. absurd (omega arith)),
              (
                (λ e. absurd (omega arith)),
                (
                  (λ e. absurd (omega arith)),
                  ((λ e. absurd (omega arith)), ((λ e. absurd (omega arith)), tt)),
                ),
              ),
            ),
            tt,
          ),
        ),
        tt,
      ),
    )
