-- ===== src/Mutator/Codec.antt =====
-- The bytes of a packet hold its fields, and a call of a mutator seen from the fuzzer.
use blueman_artifact.Prelude.{
  ℕ, zero, suc, ◌/◌, ◌%◌, ◌^◌, ◌≤◌, ◌<◌, ◌≡◌, refl, ◌∙◌, arith, List, [], ◌∷◌, ◌++◌, some, length,
  drop, peek, peek-lt, AllBytes, le_bytes, length-drop, take,
}
use blueman_artifact.Machine.{Machine, Run, ok, fault}
use blueman_artifact.Machine.Total.{Returns, returns, Returns-mono}
use blueman_artifact.Packet.{IsPacket, sid}
use blueman_artifact.PktRecord.{BlePkt, encode}
use blueman_artifact.PktRecord.Image.{length-encode}
use blueman_artifact.Mutator.{Mutator, decode, machine_of, mutated_pkt, call_mutator, device_low}

-- The fields are in the range of their types.
pub record IsPkt (p : BlePkt) : Type 0 where
  pub sid_word : p.sid < 2 ^ 32
  pub device_word : p.device_id < 2 ^ 32
  pub mutated_word : p.mutated < 2 ^ 32
  pub address_word : p.address < 2 ^ 32
  pub len_word : p.len < 2 ^ 32
  pub limit_word : p.max_payload_len < 2 ^ 32
  pub array : length p.pkt ≡ 255
  pub bytes : AllBytes p.pkt

AllBytes-le_bytes : (k v : ℕ) (ys : List ℕ) → AllBytes ys → AllBytes (le_bytes k v ++ ys)
unfolding le_bytes
AllBytes-le_bytes zero v ys h j = h j
AllBytes-le_bytes (suc k) v ys h zero = omega arith
AllBytes-le_bytes (suc k) v ys h (suc j) = AllBytes-le_bytes k (v / 256) ys h j

pub AllBytes-drop : (n : ℕ) (xs : List ℕ) → AllBytes xs → AllBytes (drop n xs)
AllBytes-drop zero xs h = h
AllBytes-drop (suc n) [] h = h
AllBytes-drop (suc n) (x ∷ xs) h = AllBytes-drop n xs (λ j. h (suc j))

pub AllBytes-take_append :
    (n : ℕ) (xs ys : List ℕ) → AllBytes xs → AllBytes ys → AllBytes (take n xs ++ ys)
AllBytes-take_append zero xs ys h k j = k j
AllBytes-take_append (suc n) [] ys h k j = k j
AllBytes-take_append (suc n) (x ∷ xs) ys h k zero = h zero
AllBytes-take_append (suc n) (x ∷ xs) ys h k (suc j) =
    AllBytes-take_append n xs ys (λ i. h (suc i)) k j

-- In memory, the packet is 279 bytes.
pub encode-IsPacket : (p : BlePkt) (draws : ℕ → ℕ) → IsPkt p → IsPacket (machine_of p draws)
unfolding encode
encode-IsPacket p draws v = record {
  size = length-encode p v.array;
  bytes = AllBytes-le_bytes 4 p.sid _ (
      AllBytes-le_bytes 4 p.device_id _ (
        AllBytes-le_bytes 4 p.mutated _ (
          AllBytes-le_bytes 4 p.address _
            (AllBytes-le_bytes 4 p.len _ (AllBytes-le_bytes 4 p.max_payload_len p.pkt v.bytes)))));
}

pub peek-encode :
    (p : BlePkt)
    → IsPkt p
    → (peek (encode p) 0 4 ≡ p.sid)
      × (peek (encode p) 16 4 ≡ p.len)
      × (peek (encode p) 20 4 ≡ p.max_payload_len)
unfolding encode le_bytes
peek-encode p v = omega (arith, v)

peek_low : (p : BlePkt) → IsPkt p → peek (encode p) 4 2 ≡ p.device_id % 65536
unfolding encode le_bytes
peek_low p v = omega (arith, v)

same_fields :
    (p q : BlePkt)
    → q.sid ≡ p.sid
    → q.device_id ≡ p.device_id
    → q.mutated ≡ p.mutated
    → q.address ≡ p.address
    → q.len ≡ p.len
    → q.max_payload_len ≡ p.max_payload_len
    → q.pkt ≡ p.pkt
    → q ≡ p
same_fields p q a b c d e f g = λ i. record {
  sid = a i;
  device_id = b i;
  mutated = c i;
  address = d i;
  len = e i;
  max_payload_len = f i;
  pkt = g i;
}

-- For a packet whose fields are in the range of their types, the bytes that `encode` lays out in
-- memory are read back by `decode` as the same packet.
pub decode-encode : (p : BlePkt) → IsPkt p → decode (encode p) ≡ p
unfolding decode encode le_bytes
decode-encode p v =
    same_fields p (decode (encode p)) (omega (arith, v)) (omega (arith, v)) (omega (arith, v))
      (omega (arith, v)) (omega (arith, v)) (omega (arith, v)) refl

pub decode-IsPkt : (t : Machine) → IsPacket t → IsPkt (decode t.mem)
unfolding decode
decode-IsPkt t v = record {
  sid_word = peek-lt 4 t.mem 0 v.bytes;
  device_word = peek-lt 4 t.mem 4 v.bytes;
  mutated_word = peek-lt 4 t.mem 8 v.bytes;
  address_word = peek-lt 4 t.mem 12 v.bytes;
  len_word = peek-lt 4 t.mem 16 v.bytes;
  limit_word = peek-lt 4 t.mem 20 v.bytes;
  array = omega (arith, length-drop 24 t.mem, v.size);
  bytes = AllBytes-drop 24 t.mem v.bytes;
}

-- What the fuzzer may rely on at a call.
pub record CanMutate (p : BlePkt) : Type 0 where
  pub packet : IsPkt p
  pub some_payload : 1 ≤ p.max_payload_len
  pub limit : p.max_payload_len ≤ 250
  pub short : p.len ≤ 258

mutated_pkt-IsPkt :
    (p : BlePkt) (r : Run ℕ)
    → Returns (λ ret t. IsPacket t × (sid t ≡ p.sid) × (device_low t ≡ p.device_id % 65536)) r
    → (q : BlePkt) × (rest : ℕ → ℕ) × (mutated_pkt r ≡ some (q, rest))
      × IsPkt q
      × (q.sid ≡ p.sid)
      × (q.device_id % 65536 ≡ p.device_id % 65536)
unfolding mutated_pkt decode
mutated_pkt-IsPkt p (ok ret t) (returns h) = (
  decode t.mem,
  t.draws,
  refl,
  decode-IsPkt t h.0,
  unfold decode in h.1,
  omega (arith, h.2, h.0.bytes 4, h.0.bytes 5),
)
mutated_pkt-IsPkt p fault h = elim h [ ]

-- On every packet that a mutator is safe on, the fuzzer gets a packet back, well formed and with the
-- same sequence id and low half of the device id.
pub call_mutator-IsPkt :
    (m : Mutator) (idx : ℕ) (p : BlePkt) (draws : ℕ → ℕ)
    → CanMutate p
    → (q : BlePkt) × (rest : ℕ → ℕ) × (call_mutator m idx p draws ≡ some (q, rest))
      × IsPkt q
      × (q.sid ≡ p.sid)
      × (q.device_id % 65536 ≡ p.device_id % 65536)
unfolding call_mutator
call_mutator-IsPkt m idx p draws c =
    let fields = peek-encode p c.packet in
    let run =
      m.safe (machine_of p draws) idx (encode-IsPacket p draws c.packet) (omega (arith, c, fields))
        (omega (arith, c, fields)) (omega (arith, c, fields)) in
    mutated_pkt-IsPkt p (m.mutate_pkt idx (machine_of p draws))
      (Returns-mono run λ ret t h. (h.0, h.1 ∙ fields.0, h.2 ∙ peek_low p c.packet))
