-- ===== src/Corpus/Cycle/Order.antt =====
-- A cycle fuzzes the entries that the queue had at its start, in their order.
use blueman_artifact.Prelude.{
  ℕ, suc, ◌≡◌, ◌≢◌, refl, sym, ap, ◌∙◌, arith, ◌==◌, true, false, List, [], ◌∷◌, ◌++◌, some, length,
}
use mathlib.Core.List.{append_assoc}
use blueman_artifact.LinkedList.{Links, list_add}
use blueman_artifact.LinkedList.Ring.{
  Linked, Avoids, Distinct, IsRing, last, Linked-last, Avoids-last, Linked-split, Avoids-split,
  Distinct-split,
}
use blueman_artifact.LinkedList.Order.{list_add-IsRing}
use blueman_artifact.Corpus.{queue}
use blueman_artifact.Corpus.Cycle.{add_entries, cycle_from, cycle}

-- The queue after a round, by its entries.
abbrev pub added : List ℕ → List ℕ → List ℕ
added [] xs = xs
added (q ∷ qs) xs = added qs (q ∷ xs)

-- Each entry that is added has an address that is not in use.
abbrev pub Fresh : List ℕ → List ℕ → Type 0
Fresh [] xs = Unit
Fresh (q ∷ qs) xs = Avoids q (queue ∷ xs) × Fresh qs (q ∷ xs)

abbrev pub FreshRounds : List (List ℕ) → List ℕ → Type 0
FreshRounds [] xs = Unit
FreshRounds (kept ∷ rounds) xs = Fresh kept xs × FreshRounds rounds (added kept xs)

abbrev pub added_all : List (List ℕ) → List ℕ → List ℕ
added_all [] xs = xs
added_all (kept ∷ rounds) xs = added_all rounds (added kept xs)

add_entries-IsRing :
    (qs xs : List ℕ) (h : Links)
    → IsRing h queue xs
    → Fresh qs xs
    → IsRing (add_entries qs h) queue (added qs xs)
add_entries-IsRing [] xs h r f = r
add_entries-IsRing (q ∷ qs) xs h r (v, f) =
    add_entries-IsRing qs (q ∷ xs) (list_add q queue h) (list_add-IsRing h q queue xs r v) f

added-append : (qs xs ys : List ℕ) → added qs (xs ++ ys) ≡ added qs xs ++ ys
added-append [] xs ys = refl
added-append (q ∷ qs) xs ys = added-append qs (q ∷ xs) ys

-- Where the walk stands, and where it goes on.
module _ (h : Links) (xs front : List ℕ) (cur y : ℕ) (ys : List ℕ)
    (e : xs ≡ front ++ (cur ∷ y ∷ ys)) (r : IsRing h queue xs) where
  pub next_entry : h.next cur ≡ y
  next_entry =
      let linked : Linked h queue (front ++ (cur ∷ y ∷ ys)) queue = rw (← e) r.linked in
      (Linked-split h queue queue cur front (y ∷ ys) linked).1.0

  pub not_tail : (cur == last y ys) ≡ false
  not_tail =
      let distinct : Distinct (front ++ (cur ∷ y ∷ ys)) = rw (← e) r.distinct.1 in
      let avoids = (Distinct-split cur front (y ∷ ys) distinct).1 in
      let off : cur ≢ last y ys = Avoids-last cur y ys (Avoids-split cur front (y ∷ ys) avoids).1 in
      ground arith

cycle_from-order :
    (rounds : List (List ℕ)) (xs front : List ℕ) (cur : ℕ) (rest : List ℕ) (h : Links)
    → xs ≡ front ++ (cur ∷ rest)
    → length rounds ≡ suc (length rest)
    → IsRing h queue xs
    → FreshRounds rounds xs
    → (k : Links) × (cycle_from rounds cur (last cur rest) h ≡ some (cur ∷ rest, k))
      × IsRing k queue (added_all rounds xs)
unfolding cycle_from
cycle_from-order [] xs front cur rest h e n r f = absurd (omega arith)
cycle_from-order (kept ∷ []) xs front cur [] h e n r (f, fs) =
    let here : (cur == cur) ≡ true = ground arith in
    (_, rw here refl, add_entries-IsRing kept xs h r f)
cycle_from-order (kept ∷ (more ∷ rounds)) xs front cur [] h e n r f = absurd (omega arith)
cycle_from-order (kept ∷ rounds) xs front cur (y ∷ ys) h e n r (f, fs) =
    let ring = add_entries-IsRing kept xs h r f in
    let front' = added kept front in
    let e' : added kept xs ≡ front' ++ (cur ∷ y ∷ ys) =
      ap (added kept) e ∙ added-append kept front (cur ∷ y ∷ ys) in
    let e'' : added kept xs ≡ (front' ++ (cur ∷ [])) ++ (y ∷ ys) =
      e' ∙ sym (append_assoc front' (cur ∷ []) (y ∷ ys)) in
    let (k, done, last_ring) =
      cycle_from-order rounds (added kept xs) (front' ++ (cur ∷ [])) y ys (add_entries kept h) e''
        (omega arith) ring fs in
    (
      k,
      rw
          (
            not_tail h xs front cur y ys e r,
            next_entry (add_entries kept h) (added kept xs) front' cur y ys e' ring,
            done,
          )
          refl,
      last_ring,
    )

-- From a queue that is a ring of entries, at least one, and for any entries with addresses not in
-- use that the rounds add, one round for each entry: the cycle of `start_fuzzer` ends, has fuzzed
-- the entries that were in the queue at its start, each once and in the queue's order, and no entry
-- that was added on the way; and the queue is a ring with the added entries before the old ones.
pub cycle-order :
    (rounds : List (List ℕ)) (cur : ℕ) (rest : List ℕ) (h : Links)
    → length rounds ≡ suc (length rest)
    → IsRing h queue (cur ∷ rest)
    → FreshRounds rounds (cur ∷ rest)
    → (k : Links) × (cycle rounds h ≡ some (cur ∷ rest, k))
      × IsRing k queue (added_all rounds (cur ∷ rest))
unfolding cycle
cycle-order rounds cur rest h n r f =
    rw (r.linked.0, Linked-last h queue queue (cur ∷ rest) r.linked)
      (cycle_from-order rounds (cur ∷ rest) [] cur rest h refl n r f)
