-- ===== src/Rounds/Position.antt =====
-- Where the walk over the queue stands, and the file that it opens there.
use blueman_artifact.Prelude.{
  ℕ, ◌≤◌, ◌≡◌, inl, inr, refl, sym, ap, ◌∙◌, arith, ◌==◌, true, false, Bool-cases, List, [], ◌∷◌,
  ◌++◌, some, length,
}
use mathlib.Core.List.{append_assoc}
use mathlib.Core.Path.{subst}
use blueman_artifact.Ending.{done}
use blueman_artifact.LinkedList.Ring.{IsRing, Avoids, Avoids-split, last, Linked-last}
use blueman_artifact.FieldMutator.Selection.{Floats}
use blueman_artifact.Corpus.{Corpus, queue, get_queue_head, get_queue_tail, get_queue_next}
use blueman_artifact.Corpus.Names.{AllNames, AllNames-other, AllNames-at, AllNames-mono}
use blueman_artifact.Corpus.Cycle.Order as Order
use blueman_artifact.Execution.Invariant.{Grown}
use blueman_artifact.Rounds.{
  Campaign, Setting, same_path, find_file, files_of, open_corpus, next_entry,
}

-- `queue_cur` is one of the entries `xs`, and `queue_tail` the last of them.
abbrev pub IsAt : (queue_cur queue_tail : ℕ) → List ℕ → Type 0
IsAt cur tail xs =
    (front : List ℕ) × (rest : List ℕ) × (xs ≡ front ++ (cur ∷ rest)) × (tail ≡ last cur rest)

-- Entries were added at the front.
abbrev pub Grows : List ℕ → List ℕ → Type 0
Grows xs ys = (new : List ℕ) × (ys ≡ new ++ xs)

pub Grows-trans : (xs ys zs : List ℕ) → Grows xs ys → Grows ys zs → Grows xs zs
Grows-trans xs ys zs (a, e) (b, h) = (b ++ a, h ∙ ap (λ l. b ++ l) e ∙ sym (append_assoc b a xs))

pub IsAt-Grows : (cur tail : ℕ) (xs ys : List ℕ) → Grows xs ys → IsAt cur tail xs → IsAt cur tail ys
IsAt-Grows cur tail xs ys (new, e) (front, rest, at, end) =
    (new ++ front, rest, e ∙ ap (λ l. new ++ l) at ∙ sym (append_assoc new front (cur ∷ rest)), end)

pub Grown-Grows : (q : ℕ) (c d : Corpus) (xs ys : List ℕ) → Grown q c d xs ys → Grows xs ys
Grown-Grows q c d xs ys (inl (e, _, _)) = ([], e)
Grown-Grows q c d xs ys (inr (e, _, _)) = (q ∷ [], e)

-- A path that opens.
abbrev pub IsThere : List (List ℕ × List ℕ) → List ℕ → Type 0
IsThere files path = (file : List ℕ) × (find_file path files ≡ some file)

same_path_refl : (path : List ℕ) → same_path path path ≡ true
same_path_refl [] = refl
same_path_refl (x ∷ xs) = let here : (x == x) ≡ true = ground arith in rw here (same_path_refl xs)

IsThere-saved :
    (path file : List ℕ) (files : List (List ℕ × List ℕ)) → IsThere ((path, file) ∷ files) path
unfolding find_file
IsThere-saved path file files = (file, rw (same_path_refl path) refl)

IsThere-older :
    (name file : List ℕ) (files : List (List ℕ × List ℕ)) (path : List ℕ)
    → IsThere files path
    → IsThere ((name, file) ∷ files) path
unfolding find_file
IsThere-older name file files path (old, e) = elim (Bool-cases (same_path path name)) [
  | inl same ↦ (file, rw same refl)
  | inr other ↦ (old, rw other e)
]

-- The file of every entry opens.
abbrev pub Opens : List (List ℕ × List ℕ) → Corpus → List ℕ → Type 0
Opens seeds c xs = AllNames (IsThere (c.saved ++ seeds)) c.entries xs

pub Grown-Opens :
    (seeds : List (List ℕ × List ℕ)) (q : ℕ) (c d : Corpus) (xs ys : List ℕ)
    → Avoids q xs
    → Grown q c d xs ys
    → Opens seeds c xs
    → Opens seeds d ys
Grown-Opens seeds q c d xs ys v (inl (e, saved, entries)) all = rw (e, saved, entries) all
Grown-Opens seeds q c d xs ys v (inr (e, (bytes, saved), others)) all =
    let kept = AllNames-other (IsThere (c.saved ++ seeds)) c.entries d.entries q xs others v all in
    let name = (d.entries q).fname in
    let files = (name, bytes) ∷ (c.saved ++ seeds) in
    let now : AllNames (IsThere files) d.entries (q ∷ xs) = (
      IsThere-saved name bytes (c.saved ++ seeds),
      AllNames-mono (IsThere (c.saved ++ seeds)) (IsThere files) d.entries xs
          (IsThere-older name bytes (c.saved ++ seeds)) kept,
    ) in
    let same : d.saved ++ seeds ≡ files = ap (λ l. l ++ seeds) saved in
    rw e (subst (λ l. AllNames (IsThere l) d.entries (q ∷ xs)) (sym same) now)

IsAt-start :
    (c : Corpus) (x : ℕ) (xs : List ℕ)
    → IsRing c.links queue (x ∷ xs)
    → IsAt (get_queue_head c) (get_queue_tail c) (x ∷ xs)
unfolding get_queue_head get_queue_tail
IsAt-start c x xs r =
    rw (r.linked.0, Linked-last c.links queue queue (x ∷ xs) r.linked) ([], xs, refl, refl)

IsAt-head :
    (c : Corpus) (xs front : List ℕ) (cur : ℕ) (rest : List ℕ)
    → xs ≡ front ++ (cur ∷ rest)
    → IsRing c.links queue xs
    → IsAt (get_queue_head c) (get_queue_tail c) xs
IsAt-head c [] [] cur rest e r = absurd (omega (arith, ap length e))
IsAt-head c [] (x ∷ front) cur rest e r = absurd (omega (arith, ap length e))
IsAt-head c (x ∷ xs) front cur rest e r = IsAt-start c x xs r

pub IsAt-some :
    (c : Corpus) (xs : List ℕ)
    → 1 ≤ length xs
    → IsRing c.links queue xs
    → IsAt (get_queue_head c) (get_queue_tail c) xs
IsAt-some c [] some_entry r = absurd (omega arith)
IsAt-some c (x ∷ xs) some_entry r = IsAt-start c x xs r

module _ (fl : Floats) (set : Setting) where
  pub open_corpus-Opens :
      (cur tail : ℕ) (xs : List ℕ) (c : Campaign fl)
      → IsAt cur tail xs
      → IsRing c.fuzzer.corpus.links queue xs
      → Opens set.seeds c.fuzzer.corpus xs
      → (file : List ℕ) × (open_corpus fl set cur c ≡ done file)
  unfolding open_corpus
  open_corpus-Opens cur tail xs c (front, rest, at, end) r all =
      let off : Avoids queue (front ++ (cur ∷ rest)) = rw at at r.distinct.0 in
      let entry : (cur == queue) ≡ false =
        let away = (Avoids-split queue front (cur ∷ rest) off).1.0 in ground arith in
      let named : AllNames (IsThere (files_of fl set c)) c.fuzzer.corpus.entries
          (front ++ (cur ∷ rest)) =
        rw at at all in
      let (file, e) =
        AllNames-at (IsThere (files_of fl set c)) c.fuzzer.corpus.entries front cur rest named in
      (file, rw (entry, e) refl)

  -- The walk goes on to the entry behind, and from the tail to the head.
  pub next_entry-IsAt :
      (cur tail : ℕ) (xs : List ℕ) (c : Campaign fl)
      → IsAt cur tail xs
      → IsRing c.fuzzer.corpus.links queue xs
      → let next = next_entry fl set cur tail c in IsAt next.0 next.1 xs
  unfolding next_entry get_queue_next
  next_entry-IsAt cur tail xs c (front, [], at, end) r =
      let over : (cur == tail) ≡ true = ground (arith, end) in
      rw over (IsAt-head c.fuzzer.corpus xs front cur [] at r)
  next_entry-IsAt cur tail xs c (front, y ∷ ys, at, end) r =
      let h = c.fuzzer.corpus.links in
      let on : (cur == tail) ≡ false =
        ap (λ t. cur == t) end ∙ Order.not_tail h xs front cur y ys at r in
      let step : h.next cur ≡ y = Order.next_entry h xs front cur y ys at r in
      rw (on, step)
        (front ++ (cur ∷ []), ys, at ∙ sym (append_assoc front (cur ∷ []) (y ∷ ys)), end)
