-- ===== src/Corpus/Loading.antt =====
-- `load_corpus_to_queue` of blueman-main/coverage.c and `get_num_of_init_corpus` of
-- blueman-main/btfuzz.c: both read the seed directory. What `readdir` returns is a list, and each
-- entry comes with the bytes of the file that its path opens, and the address and the time at which
-- `add_to_queue` puts it; a directory that does not open is `none`.
use blueman_artifact.Prelude.{
  ℕ, ◌+◌, ◌≤◌, ◌≢◌, ap₂, false, u32, ◌≡◌, refl, ap, ◌∙◌, arith, ◌==◌, ◌&&◌, not, Bool, true,
  Bool-cases, inl, inr, if◌then◌else◌, Option, none, some, List, [], ◌∷◌, ◌++◌, take, length,
}
use blueman_artifact.LinkedList.Ring.{IsRing, Avoids}
use blueman_artifact.LinkedList.Order.{list_add-IsRing}
use blueman_artifact.PktRecord.{PktRecord, ◌>>=◌, save_seq_buf_to_file2}
use blueman_artifact.PktRecord.Mapped.{AllPkts, mmap_seq_buf_file, mmap_seq_buf_file-save}
use blueman_artifact.PktRecord.Buffer.{
  IsValid, contents, length-contents, sum_len, get_pkt_seq_total_len-within,
}
use blueman_artifact.Corpus.{Corpus, queue, put_entry, add_to_queue}
use blueman_artifact.Corpus.Names.{names, names-other}

pub record SeedFile : Type 0 where
  pub d_name : List ℕ
  pub file : List ℕ
  pub q : ℕ
  pub now : ℕ

-- `MAX_PACKET_COUNT_PER_ITER`
abbrev pub max_packet_count_per_iter : ℕ
max_packet_count_per_iter = 100

-- `strcmp(d->d_name, ".") && strcmp(d->d_name, "..")`
abbrev pub is_seed : List ℕ → Bool
is_seed [] = true
is_seed (c ∷ []) = not (c == 46)
is_seed (c ∷ d ∷ []) = not ((c == 46) && (d == 46))
is_seed (c ∷ d ∷ e ∷ cs) = true

-- `snprintf(path, sizeof(path), "%s/%s", ...)`
abbrev pub seed_path : List ℕ → List ℕ → List ℕ
seed_path corpus_path d_name = take 999 (corpus_path ++ (47 ∷ d_name))

-- One round of the loop, for a name that is neither "." nor "..".
unfoldable pub load_seed : List ℕ → SeedFile → Corpus → Option Corpus
unfolding add_to_queue
load_seed corpus_path d c = do
  rec ← mmap_seq_buf_file max_packet_count_per_iter d.file
  add_to_queue d.q d.now (seed_path corpus_path d.d_name) rec c

unfoldable pub load_seeds : List ℕ → List SeedFile → Corpus → Option Corpus
unfolding load_seed
load_seeds corpus_path [] c = some c
load_seeds corpus_path (d ∷ ds) c =
    let skipped = load_seeds corpus_path ds c in
    let loaded = (load_seed corpus_path d c >>= λ c'. load_seeds corpus_path ds c') in
    if is_seed d.d_name then loaded else skipped

unfoldable pub load_corpus_to_queue : List ℕ → Option (List SeedFile) → Corpus → Option Corpus
unfolding load_seeds
load_corpus_to_queue corpus_path none c = some c
load_corpus_to_queue corpus_path (some dir) c = load_seeds corpus_path dir c

abbrev pub count_seeds : List SeedFile → ℕ → ℕ
count_seeds [] count = count
count_seeds (d ∷ ds) count = count_seeds ds (if is_seed d.d_name then count + 1 else count)

unfoldable pub get_num_of_init_corpus : Option (List SeedFile) → ℕ
get_num_of_init_corpus none = 0
get_num_of_init_corpus (some dir) = count_seeds dir 0

-- The addresses of the seeds, the last one first.
abbrev pub loaded : List SeedFile → List ℕ → List ℕ
loaded [] xs = xs
loaded (d ∷ ds) xs = loaded ds (if is_seed d.d_name then d.q ∷ xs else xs)

-- And the paths of the seeds, as `snprintf` prints them.
abbrev pub loaded_paths : List ℕ → List SeedFile → List (List ℕ) → List (List ℕ)
loaded_paths corpus_path [] ps = ps
loaded_paths corpus_path (d ∷ ds) ps =
    loaded_paths corpus_path ds
      (if is_seed d.d_name then seed_path corpus_path d.d_name ∷ ps else ps)

-- A file is mapped to a record whose packets are all in the part of the file that is mapped.
abbrev pub IsReadable : List ℕ → Type 0
IsReadable file =
    (rec : PktRecord) × (mmap_seq_buf_file max_packet_count_per_iter file ≡ some rec)
    × (rec.count ≤ length rec.pkts_buf)

-- So is what the program saves of a record of at most 100 well formed packets.
pub save_seq_buf_to_file2-IsReadable :
    (r : PktRecord)
    → IsValid r
    → AllPkts (contents r)
    → r.count ≤ max_packet_count_per_iter
    → IsReadable (save_seq_buf_to_file2 r)
save_seq_buf_to_file2-IsReadable r v h le = (
  record r { pkts_buf = contents r },
  mmap_seq_buf_file-save r max_packet_count_per_iter v h le,
  omega (arith, length-contents r v),
)

-- The seeds are readable, and each is put at an address that is in no entry.
abbrev pub AllLoadable : List SeedFile → List ℕ → Type 0
AllLoadable [] xs = Unit
AllLoadable (d ∷ ds) xs =
    if is_seed d.d_name
    then IsReadable d.file × Avoids d.q (queue ∷ xs) × AllLoadable ds (d.q ∷ xs)
    else AllLoadable ds xs

load_seed-IsRing :
    (corpus_path : List ℕ) (s : SeedFile) (c : Corpus) (xs : List ℕ)
    → IsReadable s.file
    → IsRing c.links queue xs
    → Avoids s.q (queue ∷ xs)
    → (d : Corpus) × (load_seed corpus_path s c ≡ some d)
      × IsRing d.links queue (s.q ∷ xs)
      × (d.virgin_bits ≡ c.virgin_bits)
      × (d.saved ≡ c.saved)
      × (names d.entries (s.q ∷ xs) ≡ seed_path corpus_path s.d_name ∷ names c.entries xs)
unfolding load_seed add_to_queue
load_seed-IsRing path s c xs (rec, mapped, le) r fresh =
    let ring = list_add-IsRing c.links s.q queue xs r fresh in
    let here : (s.q == s.q) ≡ true = ground arith in
    let name = seed_path path s.d_name in
    let d =
      put_entry s.q
        (record (c.entries s.q) {
          fname = name;
          count = u32 rec.count;
          len = u32 (sum_len (contents rec));
        })
        c in
    let others : (x : ℕ) → x ≢ s.q → d.entries x ≡ c.entries x =
      λ x off. let other : (x == s.q) ≡ false = ground arith in rw other refl in
    let first : (d.entries s.q).fname ≡ name = rw here refl in
    rw (mapped, get_pkt_seq_total_len-within rec le)
      (
        _,
        refl,
        ring,
        refl,
        refl,
        ap₂ (λ y ys. y ∷ ys) first (names-other c.entries d.entries s.q xs others fresh.1),
      )

load_seeds-IsRing :
    (corpus_path : List ℕ) (ds : List SeedFile) (c : Corpus) (xs : List ℕ) (ps : List (List ℕ))
    → names c.entries xs ≡ ps
    → AllLoadable ds xs
    → IsRing c.links queue xs
    → (d : Corpus) × (load_seeds corpus_path ds c ≡ some d)
      × IsRing d.links queue (loaded ds xs)
      × (d.virgin_bits ≡ c.virgin_bits)
      × (d.saved ≡ c.saved)
      × (names d.entries (loaded ds xs) ≡ loaded_paths corpus_path ds ps)
unfolding load_seeds
load_seeds-IsRing path [] c xs ps called ok r = (c, refl, r, refl, refl, called)
load_seeds-IsRing path (d ∷ ds) c xs ps called ok r = elim (Bool-cases (is_seed d.d_name)) [
  | inl seed ↦
      let (v, fresh, rest') : IsReadable d.file
          × Avoids d.q (queue ∷ xs)
          × AllLoadable ds (d.q ∷ xs) =
        rw seed at ok in
      let (c', added, r', same, files, first) = load_seed-IsRing path d c xs v r fresh in
      let name = seed_path path d.d_name in
      let (e, run, ring, kept, held, paths) =
        load_seeds-IsRing path ds c' (d.q ∷ xs) (name ∷ ps) (first ∙ ap (λ l. name ∷ l) called)
          rest' r' in
      (e, rw (seed, added) run, rw seed ring, kept ∙ same, held ∙ files, rw seed paths)
  | inr other ↦
      let rest' : AllLoadable ds xs = rw other at ok in
      let (e, run, ring, kept, held, paths) = load_seeds-IsRing path ds c xs ps called rest' r in
      (e, rw other run, rw other ring, kept, held, rw other paths)
]

length-loaded :
    (ds : List SeedFile) (xs : List ℕ) → length (loaded ds xs) ≡ count_seeds ds (length xs)
length-loaded [] xs = refl
length-loaded (d ∷ ds) xs = elim (Bool-cases (is_seed d.d_name)) [
  | inl seed ↦ rw seed (length-loaded ds (d.q ∷ xs) ∙ ap (λ n. count_seeds ds n) (omega arith))
  | inr other ↦ rw other (length-loaded ds xs)
]

-- For a directory that opens, whose seeds are mapped to records with all their packets in the part of
-- the file that is mapped (at most 100 packets), and are put at addresses that are in no entry, and
-- an empty queue: `load_corpus_to_queue` returns, and the queue is a ring of the
-- seeds, the last one that was read first, without "." and ".."; they are as many as
-- `get_num_of_init_corpus` counts, and the entries have the seeds' paths. The virgin map and the saved files are as before.
pub load_corpus_to_queue-IsRing :
    (corpus_path : List ℕ) (dir : List SeedFile) (c : Corpus)
    → AllLoadable dir []
    → IsRing c.links queue []
    → (d : Corpus) × (load_corpus_to_queue corpus_path (some dir) c ≡ some d)
      × IsRing d.links queue (loaded dir [])
      × (length (loaded dir []) ≡ get_num_of_init_corpus (some dir))
      × (d.virgin_bits ≡ c.virgin_bits)
      × (d.saved ≡ c.saved)
      × (names d.entries (loaded dir []) ≡ loaded_paths corpus_path dir [])
unfolding load_corpus_to_queue get_num_of_init_corpus
load_corpus_to_queue-IsRing path dir c ok r =
    let (d, run, ring, kept, held, paths) = load_seeds-IsRing path dir c [] [] refl ok r in
    (d, run, ring, length-loaded dir [], kept, held, paths)
