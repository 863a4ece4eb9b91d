-- ===== src/PktRecord/File.antt =====
-- `copy_file_to_seq_buf1` reads back what `save_seq_buf_to_file1` has written.
use blueman_artifact.Prelude.{
  ℕ, zero, suc, ◌+◌, ◌-◌, ◌≤◌, ◌<◌, ◌≡◌, refl, ap, ◌∙◌, arith, List, [], ◌∷◌, ◌++◌, some, take, set,
  get_elem?, length, length-append, length-take, length-le_bytes, le_bytes,
}
use mathlib.Core.List.{append_assoc}
use blueman_artifact.PktRecord.{
  BlePkt, PktRecord, save_pkts, save_seq_buf_to_file1, load_pkt, load_pkts, copy_file_to_seq_buf1,
  ◌>>=◌,
}
use blueman_artifact.PktRecord.Saved.{
  IsSaveable, SameSaved, saved, loaded, save_pkt-saved, load_pkt-saved, SameSaved-loaded,
}

abbrev pub AllSaveable : List BlePkt → Type 0
AllSaveable [] = Unit
AllSaveable (p ∷ ps) = IsSaveable p × AllSaveable ps

-- Every packet of a buffer has its whole array.
abbrev pub AllArrays : List BlePkt → Type 0
AllArrays [] = Unit
AllArrays (p ∷ ps) = (length p.pkt ≡ 255) × AllArrays ps

-- The second list begins with the saved parts of the first.
abbrev pub Restored : List BlePkt → List BlePkt → Type 0
Restored [] qs = Unit
Restored (p ∷ ps) [] = ⊥
Restored (p ∷ ps) (q ∷ qs) = SameSaved p q × Restored ps qs

abbrev saved_all : List BlePkt → List ℕ
saved_all [] = []
saved_all (p ∷ ps) = saved p ++ saved_all ps

abbrev merged : List BlePkt → List BlePkt → List BlePkt
merged [] olds = olds
merged (p ∷ ps) [] = []
merged (p ∷ ps) (old ∷ olds) = loaded old p ∷ merged ps olds

save_pkts-saved : (ps : List BlePkt) → AllSaveable ps → save_pkts ps ≡ some (saved_all ps)
unfolding save_pkts
save_pkts-saved [] v = refl
save_pkts-saved (p ∷ ps) (v, vs) = rw (save_pkt-saved p v, save_pkts, save_pkts-saved ps vs)

length-saved_all : (ps : List BlePkt) → length ps ≤ length (saved_all ps)
length-saved_all [] = omega arith
length-saved_all (p ∷ ps) =
    let tail : List ℕ =
      le_bytes 8 p.max_payload_len
      ++ (le_bytes 8 (p.len - 5) ++ (take p.len p.pkt ++ le_bytes 4 p.device_id)) in
    omega (
      arith,
      length-append (saved p) (saved_all ps),
      length-append (le_bytes 4 p.address) tail,
      length-le_bytes 4 p.address,
      length-saved_all ps,
    )

load_pkts-step :
    (fuel : ℕ) (mem : List ℕ) (count : ℕ) (buf : List BlePkt)
    → 0 < length mem
    → load_pkts (suc fuel) mem count buf ≡ (
        get_elem? buf count >>= λ old.
        load_pkt old mem >>= λ (p, rest). load_pkts fuel rest (count + 1) (set buf count p))
unfolding load_pkts
load_pkts-step fuel [] count buf h = absurd (omega arith)
load_pkts-step fuel (b ∷ mem) count buf h = refl

get_elem?-front :
    (front : List BlePkt) (old : BlePkt) (olds : List BlePkt)
    → get_elem? (front ++ (old ∷ olds)) (length front) ≡ some old
get_elem?-front [] old olds = refl
get_elem?-front (x ∷ front) old olds = get_elem?-front front old olds

set-front :
    (front : List BlePkt) (old new : BlePkt) (olds : List BlePkt)
    → set (front ++ (old ∷ olds)) (length front) new ≡ (front ++ (new ∷ [])) ++ olds
set-front [] old new olds = refl
set-front (x ∷ front) old new olds = ap (λ l. x ∷ l) (set-front front old new olds)

load_pkts-saved :
    (fuel : ℕ) (ps front olds : List BlePkt)
    → AllSaveable ps
    → AllArrays olds
    → length ps ≤ length olds
    → length ps ≤ fuel
    → load_pkts fuel (saved_all ps) (length front) (front ++ olds)
      ≡ some (length front + length ps, front ++ merged ps olds)
unfolding load_pkts
load_pkts-saved fuel [] front olds v w room enough =
    ap (λ (n : ℕ). some (n, front ++ olds)) (omega arith)
load_pkts-saved zero (p ∷ ps) front olds v w room enough = absurd (omega arith)
load_pkts-saved (suc fuel) (p ∷ ps) front [] v w room enough = absurd (omega arith)
load_pkts-saved (suc fuel) (p ∷ ps) front (old ∷ olds) (v, vs) (w, ws) room enough =
    let new : BlePkt = loaded old p in
    let front' : List BlePkt = front ++ (new ∷ []) in
    let next : length front' ≡ length front + 1 = length-append front (new ∷ []) in
    let rest = load_pkts-saved fuel ps front' olds vs ws (omega arith) (omega arith) in
    let total : length front' + length ps ≡ length front + suc (length ps) = omega arith in
    load_pkts-step fuel (saved p ++ saved_all ps) (length front) (front ++ (old ∷ olds))
      (omega (arith, length-saved_all (p ∷ ps)))
    ∙ rw (
      get_elem?-front front old olds,
      load_pkt-saved old p (saved_all ps) v w,
      set-front front old new olds,
      ← next,
      rest,
      total,
      append_assoc front (new ∷ []) (merged ps olds),
    )

Restored-merged :
    (ps olds : List BlePkt)
    → AllSaveable ps
    → AllArrays olds
    → length ps ≤ length olds
    → Restored ps (merged ps olds)
Restored-merged [] olds v w h = tt
Restored-merged (p ∷ ps) [] v w h = absurd (omega arith)
Restored-merged (p ∷ ps) (old ∷ olds) (v, vs) (w, ws) h =
    (SameSaved-loaded old p v w, Restored-merged ps olds vs ws (omega arith))

-- A record whose packets have a length of 5 to 255 and words in range can be saved, and reading the
-- file into any record with room for the packets gives the same count and, in the same order,
-- packets with the same device, address, limit, length and bytes.
pub copy-save_file1 :
    (r into : PktRecord)
    → r.count ≤ length r.pkts_buf
    → AllSaveable (take r.count r.pkts_buf)
    → r.count ≤ length into.pkts_buf
    → AllArrays into.pkts_buf
    → (file : List ℕ) × (r' : PktRecord) × (save_seq_buf_to_file1 r ≡ some file)
      × (copy_file_to_seq_buf1 into file ≡ some r')
      × (r'.count ≡ r.count)
      × Restored (take r.count r.pkts_buf) r'.pkts_buf
unfolding save_seq_buf_to_file1 copy_file_to_seq_buf1
copy-save_file1 r into within v room arrays =
    let ps : List BlePkt = take r.count r.pkts_buf in
    let n : length ps ≡ r.count = omega (arith, length-take r.count r.pkts_buf) in
    let file : List ℕ = saved_all ps in
    (
      file,
      record into { count = length ps; pkts_buf = merged ps into.pkts_buf },
      save_pkts-saved ps v,
      rw
          (load_pkts-saved (length file) ps [] into.pkts_buf v arrays (omega arith)
            (length-saved_all ps))
          (ap (λ (k : ℕ). some (record into { count = k; pkts_buf = merged ps into.pkts_buf }))
            (omega arith)),
      n,
      Restored-merged ps into.pkts_buf v arrays (omega arith),
    )
