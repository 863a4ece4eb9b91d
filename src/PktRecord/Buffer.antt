-- ===== src/PktRecord/Buffer.antt =====
-- The packet record in memory against a bounded sequence of packets.
use blueman_artifact.Prelude.{
  take-all, take-append_le, ℕ, zero, suc, ◌+◌, ◌-◌, ◌^◌, ◌≤◌, ◌<◌, ◌≡◌, refl, sym, inl, inr, ap,
  ◌∙◌, arith, ltb, if◌then◌else◌, List, [], ◌∷◌, ◌++◌, some, take, drop, set, get_elem?, length,
  length-set, length-take, length-replicate, u32, u64, Bool, true, false, Bool-cases,
}
use mathlib.Core.List.{append_assoc, append-nil}
use blueman_artifact.PktRecord.{
  BlePkt, PktRecord, blank, create_pkt_seq_buf, init_pkt_seq_buf, add_pkt_to_seq_buf, total_from,
  get_pkt_seq_total_len,
}

pub record IsValid (r : PktRecord) : Type 0 where
  pub allocated : length r.pkts_buf ≡ r.max_count
  pub within : r.count ≤ r.max_count - 1
  pub small : r.max_count < 2 ^ 64

-- The packets recorded, oldest first.
abbrev pub contents : PktRecord → List BlePkt
contents r = take r.count r.pkts_buf

-- A sequence that takes packets until it holds `cap`.
abbrev pub add_bounded : ℕ → List BlePkt → BlePkt → Bool × List BlePkt
add_bounded cap ps p = if ltb (length ps) cap then (true, ps ++ (p ∷ [])) else (false, ps)

take-set :
    (xs : List BlePkt) (i : ℕ) (v : BlePkt)
    → i < length xs
    → take (suc i) (set xs i v) ≡ take i xs ++ (v ∷ [])
take-set [] i v h = absurd (omega arith)
take-set (x ∷ xs) zero v h = refl
take-set (x ∷ xs) (suc i) v h = ap (λ l. x ∷ l) (take-set xs i v (omega arith))

pub length-contents : (r : PktRecord) → IsValid r → length (contents r) ≡ r.count
length-contents r v = omega (arith, length-take r.count r.pkts_buf, v.within, v.allocated)

-- A new record of `n` packets is valid and empty, and so is a valid record that is reset.
pub create_pkt_seq_buf-IsValid :
    (n : ℕ) → n < 2 ^ 64 → IsValid (create_pkt_seq_buf n) × (contents (create_pkt_seq_buf n) ≡ [])
unfolding create_pkt_seq_buf
create_pkt_seq_buf-IsValid n h =
    (record { allocated = length-replicate n blank; within = omega arith; small = h }, refl)

pub init_pkt_seq_buf-IsValid :
    (r : PktRecord)
    → IsValid r
    → IsValid (init_pkt_seq_buf r) × (contents (init_pkt_seq_buf r) ≡ [])
unfolding init_pkt_seq_buf
init_pkt_seq_buf-IsValid r v =
    (record { allocated = v.allocated; within = omega arith; small = v.small }, refl)

pub add_pkt_to_seq_buf-IsValid :
    (r : PktRecord) (p : BlePkt) → IsValid r → IsValid (add_pkt_to_seq_buf r p).1
unfolding add_pkt_to_seq_buf
add_pkt_to_seq_buf-IsValid r p v = ground (arith, length-set r.pkts_buf r.count p)

-- On a valid record `add_pkt_to_seq_buf` answers, and changes the recorded packets, as a sequence
-- does that is bounded by one packet less than the record was created for.
pub add_pkt_to_seq_buf-refines :
    (r : PktRecord) (p : BlePkt)
    → IsValid r
    → let (done, r') = add_pkt_to_seq_buf r p in
      (done, contents r') ≡ add_bounded (r.max_count - 1) (contents r) p
unfolding add_pkt_to_seq_buf
add_pkt_to_seq_buf-refines r p v =
    ground (arith, length-contents r v, take-set r.pkts_buf r.count p, next_count)
  where
    next_count : u64 (r.count + 1) ≡ suc r.count
    next_count = omega (arith, v.within, v.small)

pub max_count-add :
    (r : PktRecord) (p : BlePkt) → (add_pkt_to_seq_buf r p).1.max_count ≡ r.max_count
unfolding add_pkt_to_seq_buf
max_count-add r p = ground arith

-- A run that records each packet of a list.
abbrev pub add_all : PktRecord → List BlePkt → PktRecord
add_all r [] = r
add_all r (p ∷ ps) = add_all (add_pkt_to_seq_buf r p).1 ps

-- `add_pkt_to_seq_buf` by its two branches, on the recorded packets.
contents-add :
    (r : PktRecord) (p : BlePkt) (ps : List BlePkt)
    → IsValid r
    → take (r.max_count - 1) (contents (add_pkt_to_seq_buf r p).1 ++ ps)
      ≡ take (r.max_count - 1) (contents r ++ (p ∷ ps))
contents-add r p ps v = elim (Bool-cases (ltb (length (contents r)) (r.max_count - 1))) [
  | inl room ↦
      let e : contents (add_pkt_to_seq_buf r p).1 ≡ contents r ++ (p ∷ []) =
        ground (arith, add_pkt_to_seq_buf-refines r p v) in
      rw (e, append_assoc)
  | inr full ↦
      let e : contents (add_pkt_to_seq_buf r p).1 ≡ contents r =
        ground (arith, add_pkt_to_seq_buf-refines r p v) in
      let le : r.max_count - 1 ≤ length (contents r) = ground arith in
      rw (
        e,
        take-append_le (r.max_count - 1) (contents r) ps le,
        take-append_le (r.max_count - 1) (contents r) (p ∷ ps) le,
      )
]

-- Recording any list of packets into a valid record keeps it valid, and keeps the packets that
-- were there and the new ones in order, up to one less than the record was created for.
pub add_all-contents :
    (ps : List BlePkt) (r : PktRecord)
    → IsValid r
    → IsValid (add_all r ps) × (contents (add_all r ps) ≡ take (r.max_count - 1) (contents r ++ ps))
add_all-contents [] r v = (
  v,
  rw append-nil (
      sym (take-all (r.max_count - 1) (contents r) (omega (arith, length-contents r v, v.within)))),
)
add_all-contents (p ∷ ps) r v =
    let r' = (add_pkt_to_seq_buf r p).1 in
    let rest = add_all-contents ps r' (add_pkt_to_seq_buf-IsValid r p v) in
    let same = max_count-add r p in
    (rest.0, rest.1 ∙ ap (λ (m : ℕ). take (m - 1) (contents r' ++ ps)) same ∙ contents-add r p ps v)

-- The sum of the lengths, with no wrap.
abbrev pub sum_len : List BlePkt → ℕ
sum_len [] = 0
sum_len (p ∷ ps) = p.len + sum_len ps

-- The packet at an index heads what is left from there.
drop-suc :
    (buf : List BlePkt) (i : ℕ)
    → i < length buf
    → (p : BlePkt) × (get_elem? buf i ≡ some p) × (drop i buf ≡ p ∷ drop (suc i) buf)
drop-suc [] i h = absurd (omega arith)
drop-suc (p ∷ buf) zero h = (p, refl, refl)
drop-suc (q ∷ buf) (suc i) h = drop-suc buf i (omega arith)

total_from-sum :
    (buf : List BlePkt) (left i acc : ℕ)
    → i + left ≤ length buf
    → acc < 2 ^ 32
    → total_from buf left i acc ≡ some (u32 (acc + sum_len (take left (drop i buf))))
unfolding total_from
total_from-sum buf zero i acc h small = ap some (omega arith)
total_from-sum buf (suc left) i acc h small =
    let (p, found, split) = drop-suc buf i (omega arith) in
    let next : i + 1 ≡ suc i = omega arith in
    rw (found, total_from, split, next)
      (total_from-sum buf left (suc i) (u32 (acc + p.len)) (omega arith) (omega arith)
        ∙ ap some (omega arith))

-- `get_pkt_seq_total_len` of a record whose packets are all in its array.
pub get_pkt_seq_total_len-within :
    (r : PktRecord)
    → r.count ≤ length r.pkts_buf
    → get_pkt_seq_total_len r ≡ some (u32 (sum_len (contents r)))
unfolding get_pkt_seq_total_len
get_pkt_seq_total_len-within r h =
    total_from-sum r.pkts_buf r.count 0 0 (omega (arith, h)) (omega arith) ∙ ap some (omega arith)

-- On a valid record `get_pkt_seq_total_len` returns the sum of the lengths of the recorded packets,
-- modulo 2 ^ 32, and reads nothing outside the record.
pub get_pkt_seq_total_len-sum :
    (r : PktRecord) → IsValid r → get_pkt_seq_total_len r ≡ some (u32 (sum_len (contents r)))
get_pkt_seq_total_len-sum r v =
    get_pkt_seq_total_len-within r (omega (arith, v.within, v.allocated))
