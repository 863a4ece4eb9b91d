-- ===== src/Radio/Payload.antt =====
-- What the patched radio sends, and what it takes from an answer.
use blueman_artifact.Prelude.{
  ℕ, zero, suc, ◌+◌, ◌^◌, ◌≤◌, ◌<◌, ◌≡◌, ◌≢◌, ◌⊎◌, inl, inr, refl, ap, sym, ◌∙◌, arith, ◌==◌, ltb,
  true, false, List, [], ◌∷◌, ◌++◌, some, none, length, take, drop, u32, leb, Bool-cases, chunk,
  chunk-ok, set, take-append, AllBytes, length-drop, length-append,
}
use blueman_artifact.Ending.{done, stuck, fault}
use blueman_artifact.PktRecord.{BlePkt, overwrite}
use blueman_artifact.PktRecord.Saved.{length-take_le, overwrite-ok}
use blueman_artifact.Mutator.Codec.{IsPkt, CanMutate, AllBytes-take_append, AllBytes-drop}
use blueman_artifact.Radio.{
  received, exited, Frame, record_pkt, payload_length, write_payload, apply_answer,
}

-- A packet that the radio has received whole, in a buffer with room for the largest payload.
pub record IsFrame (max_len : ℕ) (f : Frame) : Type 0 where
  pub address_word : f.address < 2 ^ 32
  pub whole : 2 + f.payload_len ≤ length f.buf
  pub room : 2 + max_len ≤ length f.buf
  pub bytes : AllBytes f.buf
  pub array : length f.array ≡ 255
  pub array_bytes : AllBytes f.array

-- What is sent: a packet that carries the received bytes, header first.
pub record Sent (f : Frame) (p : BlePkt) : Type 0 where
  pub mutable : CanMutate p
  pub from_target : p.device_id ≡ 1
  pub first : p.sid ≡ 0
  pub unmarked : p.mutated ≡ 0
  pub framed : p.len ≡ f.payload_len + 5
  pub carried : take (2 + f.payload_len) p.pkt ≡ take (2 + f.payload_len) f.buf

abbrev sent_pkt : ℕ → Frame → BlePkt
sent_pkt max_len f = record {
  sid = 0;
  device_id = 1;
  mutated = 0;
  address = f.address;
  len = u32 (f.payload_len + 2 + 3);
  max_payload_len = max_len;
  pkt = take (2 + f.payload_len) f.buf ++ drop (2 + f.payload_len) f.array;
}

record_pkt-ok :
    (max_len : ℕ) (f : Frame)
    → f.payload_len ≤ 253
    → IsFrame max_len f
    → record_pkt max_len f ≡ done (sent_pkt max_len f)
unfolding record_pkt
record_pkt-ok max_len f le v =
    let bytes : List ℕ = take (2 + f.payload_len) f.buf in
    let short : ltb f.payload_len 255 ≡ true = ground arith in
    let size : length bytes ≡ 2 + f.payload_len =
      length-take_le (2 + f.payload_len) f.buf v.whole in
    let over = overwrite-ok bytes f.array (omega (arith, size, v)) in
    let over' : overwrite bytes f.array ≡ some (bytes ++ drop (2 + f.payload_len) f.array) =
      over ∙ ap (λ n. some (bytes ++ drop n f.array)) size in
    rw (short, chunk-ok (2 + f.payload_len) f.buf v.whole, over') refl

sent_pkt-Sent :
    (max_len : ℕ) (f : Frame)
    → 1 ≤ max_len
    → max_len ≤ 250
    → f.payload_len ≤ 253
    → IsFrame max_len f
    → Sent f (sent_pkt max_len f)
sent_pkt-Sent max_len f lo hi le v =
    let n : ℕ = 2 + f.payload_len in
    let size : length (take n f.buf) ≡ n = length-take_le n f.buf v.whole in
    record {
      mutable = record {
        packet = record {
          sid_word = omega arith;
          device_word = omega arith;
          mutated_word = omega arith;
          address_word = v.address_word;
          len_word = omega arith;
          limit_word = omega arith;
          array = omega (
            arith,
            length-append (take n f.buf) (drop n f.array),
            size,
            length-drop n f.array,
            v.array,
          );
          bytes =
              AllBytes-take_append n f.buf (drop n f.array) v.bytes
                (AllBytes-drop n f.array v.array_bytes);
        };
        some_payload = lo;
        limit = hi;
        short = omega arith;
      };
      from_target = refl;
      first = refl;
      unmarked = refl;
      framed = omega arith;
      carried =
          ap (λ k. take k (take n f.buf ++ drop n f.array)) (sym size)
          ∙ take-append (take n f.buf) (drop n f.array);
    }

-- For a received packet with at most 253 bytes of payload, in a radio whose largest payload is 1 to
-- 250: the radio sends one packet, which carries the received bytes with the header first, in the
-- name of device 1 and with the sequence id 0, and is one that the mutators are safe on.
pub record_pkt-Sent :
    (max_len : ℕ) (f : Frame)
    → 1 ≤ max_len
    → max_len ≤ 250
    → f.payload_len ≤ 253
    → IsFrame max_len f
    → (p : BlePkt) × (record_pkt max_len f ≡ done p) × Sent f p
record_pkt-Sent max_len f lo hi le v =
    (sent_pkt max_len f, record_pkt-ok max_len f le v, sent_pkt-Sent max_len f lo hi le v)

overwrite-none : (bytes pkt : List ℕ) → length pkt < length bytes → overwrite bytes pkt ≡ none
unfolding overwrite chunk
overwrite-none bytes pkt lt =
    let past : leb (length bytes) (length pkt) ≡ false = ground arith in rw past refl

-- A received packet with more than 253 bytes of payload is not sent: with 254 bytes the copy leaves
-- the array of 255 bytes, and with more the radio hangs.
pub record_pkt-too_long :
    (max_len : ℕ) (f : Frame)
    → 254 ≤ f.payload_len
    → IsFrame max_len f
    → ((f.payload_len ≡ 254) × (record_pkt max_len f ≡ fault))
      ⊎ ((255 ≤ f.payload_len) × (record_pkt max_len f ≡ stuck))
unfolding record_pkt
record_pkt-too_long max_len f more v = elim (Bool-cases (ltb f.payload_len 255)) [
  | inl tested ↦
      let bytes : List ℕ = take (2 + f.payload_len) f.buf in
      let size : length bytes ≡ 2 + f.payload_len =
        length-take_le (2 + f.payload_len) f.buf v.whole in
      inl (
        ground arith,
        rw
            (
              tested,
              chunk-ok (2 + f.payload_len) f.buf v.whole,
              overwrite-none bytes f.array (omega (arith, size, v)),
            )
            refl,
      )
  | inr hangs ↦ inr (ground arith, rw hangs refl)
]

AllBytes-cons : (n : ℕ) (xs : List ℕ) → n < 256 → AllBytes xs → AllBytes (n ∷ xs)
AllBytes-cons n xs lt h zero = lt
AllBytes-cons n xs lt h (suc j) = h j

-- What an answer with the mark 1 leaves in the buffer: `n` over the first byte of the header, and
-- `n` bytes of the answer over the payload.
pub record Replaced (max_len : ℕ) (q : BlePkt) (old new : List ℕ) : Type 0 where
  pub n : ℕ
  pub limited : n ≤ max_len
  pub exact : 5 ≤ q.len → q.len ≤ max_len + 5 → n + 5 ≡ q.len
  pub header : take 2 new ≡ take 2 (set old 0 n)
  pub payload : drop 2 new ≡ take n q.pkt ++ drop n (drop 2 old)
  pub same_length : length new ≡ length old
  pub bytes : AllBytes new

module _ (max_len : ℕ) (q : BlePkt) (limit : max_len ≤ 250) (v : IsPkt q) where
  payload_length-exact : 5 ≤ q.len → q.len ≤ max_len + 5 → payload_length max_len q.len + 5 ≡ q.len
  payload_length-exact long short = ground (arith, v.len_word)

  payload_length-le : payload_length max_len q.len ≤ max_len
  payload_length-le = ground arith

  write_payload-Replaced :
      (h l : ℕ) (room : List ℕ)
      → AllBytes (h ∷ l ∷ room)
      → max_len ≤ length room
      → (new : List ℕ) × (write_payload (payload_length max_len q.len) q.pkt (h ∷ l ∷ room)
          ≡ done new)
        × Replaced max_len q (h ∷ l ∷ room) new
  unfolding write_payload
  write_payload-Replaced h l room all le =
      let n : ℕ = payload_length max_len q.len in
      let bytes : List ℕ = take n q.pkt in
      let lim : n ≤ max_len = payload_length-le in
      let size : length bytes ≡ n = length-take_le n q.pkt (omega (arith, v.array)) in
      let over = overwrite-ok bytes room (omega (arith, size)) in
      let over' : overwrite bytes room ≡ some (bytes ++ drop n room) =
        over ∙ ap (λ k. some (bytes ++ drop k room)) size in
      let body : List ℕ = bytes ++ drop n room in
      (
        n ∷ l ∷ body,
        rw
            (
              chunk-ok n q.pkt (omega (arith, v.array)),
              chunk-ok 2 (n ∷ l ∷ room) (omega arith),
              over',
            )
            refl,
        record {
          n = n;
          limited = lim;
          exact = payload_length-exact;
          header = refl;
          payload = refl;
          same_length = omega (arith, length-append bytes (drop n room), size, length-drop n room);
          bytes = AllBytes-cons n (l ∷ body) (omega arith) (
              AllBytes-cons l body (all 1) (
                AllBytes-take_append n q.pkt (drop n room) v.bytes
                  (AllBytes-drop n room (λ j. all (suc (suc j))))));
        },
      )

  replace :
      (buf : List ℕ)
      → AllBytes buf
      → 2 + max_len ≤ length buf
      → (new : List ℕ) × (write_payload (payload_length max_len q.len) q.pkt buf ≡ done new)
        × Replaced max_len q buf new
  replace [] all room = absurd (omega arith)
  replace (h ∷ []) all room = absurd (omega arith)
  replace (h ∷ l ∷ rest) all room = write_payload-Replaced h l rest all (omega arith)

  -- For a radio whose largest payload is at most 250, a receive buffer with room for that and a well
  -- formed answer: an answer with the mark 1 replaces the payload in the buffer and no other byte
  -- than that of the header's first, with no access outside the buffer or the answer, and with at
  -- most the largest payload; a length of 5 up to the largest payload plus 5 gives a payload 5
  -- shorter. An answer with the mark 2 ends the target, and any other leaves the buffer as it is.
  pub apply_answer-branches :
      (f : Frame)
      → IsFrame max_len f
      → ((q.mutated ≡ 1)
          × ((new : List ℕ) × (apply_answer max_len q f.buf ≡ done (received new))
              × Replaced max_len q f.buf new))
        ⊎ ((q.mutated ≡ 2) × (apply_answer max_len q f.buf ≡ done exited))
        ⊎ ((q.mutated ≢ 1)
            × (q.mutated ≢ 2)
            × (apply_answer max_len q f.buf ≡ done (received f.buf)))
  unfolding apply_answer
  apply_answer-branches f w = elim (Bool-cases (q.mutated == 1)) [
    | inl one ↦
        let (new, e, r) = replace f.buf w.bytes w.room in
        inl (ground arith, (new, rw (one, e) refl, r))
    | inr not_one ↦ elim (Bool-cases (q.mutated == 2)) [
      | inl two ↦ inr (inl (ground arith, rw (not_one, two) refl))
      | inr not_two ↦ inr (inr (ground arith, ground arith, rw (not_one, not_two) refl))
    ]
  ]
