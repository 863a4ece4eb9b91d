-- ===== src/Corpus/Names.antt =====
-- The file names of the entries of the queue.
use blueman_artifact.Prelude.{ℕ, ◌≡◌, ◌≢◌, refl, sym, ap, ap₂, List, [], ◌∷◌, ◌++◌}
use blueman_artifact.LinkedList.Ring.{Avoids}
use blueman_artifact.Corpus.{QueueEntry}

module _ (P : List ℕ → Type 0) where
  abbrev pub AllNames : (ℕ → QueueEntry) → List ℕ → Type 0
  AllNames entries [] = Unit
  AllNames entries (x ∷ xs) = P (entries x).fname × AllNames entries xs

  -- An entry at an address that is in no entry of the queue changes none of its names.
  pub AllNames-other :
      (entries entries' : ℕ → QueueEntry) (q : ℕ) (xs : List ℕ)
      → ((x : ℕ) → x ≢ q → entries' x ≡ entries x)
      → Avoids q xs
      → AllNames entries xs
      → AllNames entries' xs
  AllNames-other e e' q [] same v h = tt
  AllNames-other e e' q (x ∷ xs) same (off, v) (here, h) =
      (rw (same x (λ z. off (sym z))) here, AllNames-other e e' q xs same v h)

  pub AllNames-at :
      (entries : ℕ → QueueEntry) (front : List ℕ) (cur : ℕ) (rest : List ℕ)
      → AllNames entries (front ++ (cur ∷ rest))
      → P (entries cur).fname
  AllNames-at e [] cur rest h = h.0
  AllNames-at e (x ∷ front) cur rest h = AllNames-at e front cur rest h.1

pub AllNames-mono :
    (P Q : List ℕ → Type 0) (entries : ℕ → QueueEntry) (xs : List ℕ)
    → ((path : List ℕ) → P path → Q path)
    → AllNames P entries xs
    → AllNames Q entries xs
AllNames-mono P Q e [] f h = tt
AllNames-mono P Q e (x ∷ xs) f (here, h) = (f (e x).fname here, AllNames-mono P Q e xs f h)

-- The names of the entries, in order.
abbrev pub names : (ℕ → QueueEntry) → List ℕ → List (List ℕ)
names entries [] = []
names entries (x ∷ xs) = (entries x).fname ∷ names entries xs

pub names-other :
    (entries entries' : ℕ → QueueEntry) (q : ℕ) (xs : List ℕ)
    → ((x : ℕ) → x ≢ q → entries' x ≡ entries x)
    → Avoids q xs
    → names entries' xs ≡ names entries xs
names-other e e' q [] same v = refl
names-other e e' q (x ∷ xs) same (off, v) =
    ap₂ (λ y ys. y ∷ ys) (ap (λ k. k.fname) (same x (λ z. off (sym z))))
      (names-other e e' q xs same v)

abbrev pub AllPaths : (List ℕ → Type 0) → List (List ℕ) → Type 0
AllPaths P [] = Unit
AllPaths P (p ∷ ps) = P p × AllPaths P ps

pub names-AllNames :
    (P : List ℕ → Type 0) (entries : ℕ → QueueEntry) (xs : List ℕ)
    → AllPaths P (names entries xs)
    → AllNames P entries xs
names-AllNames P e [] h = tt
names-AllNames P e (x ∷ xs) (here, h) = (here, names-AllNames P e xs h)
