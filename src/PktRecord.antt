-- ===== src/PktRecord.antt =====
-- blueman-main/pkt_record.c: the bounded record of the packets of a run, and its two file formats.
-- A packet is here a value with the fields of `BLE_pkt`; `encode` gives its bytes in memory.
pub mod Buffer
pub mod Saved
pub mod File
pub mod Image
pub mod Mapped
mod Tests
use blueman_artifact.Prelude.{
  ℕ, zero, suc, ◌+◌, ◌-◌, ◌*◌, ◌≡◌, leb, ltb, if◌then◌else◌, Bool, true, false, List, [], ◌∷◌, ◌++◌,
  Option, none, some, take, drop, set, replicate, get_elem?, length, u32, u64, sub_u32, le_bytes,
  of_le, chunk,
}

pub record BlePkt : Type 0 where
  pub sid : ℕ
  pub device_id : ℕ
  pub mutated : ℕ
  pub address : ℕ
  pub len : ℕ
  pub max_payload_len : ℕ
  pub pkt : List ℕ

-- The packed structure as bytes.
unfoldable pub encode : BlePkt → List ℕ
encode p =
    le_bytes 4 p.sid
    ++ (le_bytes 4 p.device_id
        ++ (le_bytes 4 p.mutated
            ++ (le_bytes 4 p.address
                ++ (le_bytes 4 p.len ++ (le_bytes 4 p.max_payload_len ++ p.pkt)))))

-- A packet of fresh `mmap` memory.
abbrev pub blank : BlePkt
blank = record {
  sid = 0;
  device_id = 0;
  mutated = 0;
  address = 0;
  len = 0;
  max_payload_len = 0;
  pkt = replicate 255 0;
}

-- `pkt_record`; the list holds every packet of the allocation.
pub record PktRecord : Type 0 where
  pub count : ℕ
  pub max_count : ℕ
  pub pkts_buf : List BlePkt

unfoldable pub create_pkt_seq_buf : ℕ → PktRecord
create_pkt_seq_buf n = record { count = 0; max_count = n; pkts_buf = replicate n blank }

unfoldable pub init_pkt_seq_buf : PktRecord → PktRecord
init_pkt_seq_buf r = record r { count = 0 }

-- `false` is the result -1.
unfoldable pub add_pkt_to_seq_buf : PktRecord → BlePkt → Bool × PktRecord
add_pkt_to_seq_buf r p =
    if ltb (u64 (r.count + 1)) r.max_count
    then (true, record r { count = u64 (r.count + 1); pkts_buf = set r.pkts_buf r.count p })
    else (false, r)

-- The loop of `get_pkt_seq_total_len`, with `left` packets to go from index `i`; a read outside the
-- allocation is `none`.
unfoldable pub total_from : List BlePkt → ℕ → ℕ → ℕ → Option ℕ
total_from buf zero i acc = some acc
total_from buf (suc left) i acc = elim (get_elem? buf i) [
  | none ↦ none
  | some p ↦ total_from buf left (i + 1) (u32 (acc + p.len))
]

unfoldable pub get_pkt_seq_total_len : PktRecord → Option ℕ
unfolding total_from
get_pkt_seq_total_len r = total_from r.pkts_buf r.count 0 0

-- One packet of `save_seq_buf_to_file1`. A length above 255 reads past `pkt`.
unfoldable pub save_pkt : BlePkt → Option (List ℕ)
save_pkt p = elim (chunk p.len p.pkt) [
  | none ↦ none
  | some (bytes, rest) ↦ some (
      le_bytes 4 p.address
      ++ (le_bytes 8 p.max_payload_len
          ++ (le_bytes 8 (sub_u32 (sub_u32 p.len 2) 3) ++ (bytes ++ le_bytes 4 p.device_id))))
]

unfoldable pub save_pkts : List BlePkt → Option (List ℕ)
save_pkts [] = some []
save_pkts (p ∷ ps) = elim (save_pkt p) [
  | none ↦ none
  | some bytes ↦ elim (save_pkts ps) [ none ↦ none | some rest ↦ some (bytes ++ rest) ]
]

-- The contents of the file.
unfoldable pub save_seq_buf_to_file1 : PktRecord → Option (List ℕ)
unfolding save_pkts save_pkt
save_seq_buf_to_file1 r = save_pkts (take r.count r.pkts_buf)

infixl 5 ◌>>=◌
abbrev pub ◌>>=◌ : {A B : Type 0} → Option A → (A → Option B) → Option B
none >>= k = none
some a >>= k = k a

-- `memcpy` of `n` bytes over the start of `pkt`.
unfoldable pub overwrite : List ℕ → List ℕ → Option (List ℕ)
overwrite bytes pkt = chunk (length bytes) pkt >>= λ (old, rest). some (bytes ++ rest)

-- One round of `copy_file_to_seq_buf1`, on what is left of the file: the packet, over what the buffer
-- held, and the rest. A read past the file, or a length that does not fit `pkt`, is `none`.
unfoldable pub load_pkt : BlePkt → List ℕ → Option (BlePkt × List ℕ)
unfolding overwrite
load_pkt old mem = do
  (address, mem₁) ← chunk 4 mem
  (limit, mem₂) ← chunk 8 mem₁
  (payload_len, mem₃) ← chunk 8 mem₂
  let len = u32 (of_le payload_len + 2 + 3)
  (bytes, mem₄) ← chunk len mem₃
  pkt ← overwrite bytes old.pkt
  (device, mem₅) ← chunk 4 mem₄
  some (
    record old {
      device_id = of_le device;
      address = of_le address;
      len = len;
      max_payload_len = u32 (of_le limit);
      pkt = pkt;
    },
    mem₅,
  )

-- The `while` loop, with fuel: packets are stored from index `count` on.
unfoldable pub load_pkts : ℕ → List ℕ → ℕ → List BlePkt → Option (ℕ × List BlePkt)
unfolding load_pkt
load_pkts fuel [] count buf = some (count, buf)
load_pkts zero (b ∷ mem) count buf = none
load_pkts (suc fuel) (b ∷ mem) count buf = do
  old ← get_elem? buf count
  (p, rest) ← load_pkt old (b ∷ mem)
  load_pkts fuel rest (count + 1) (set buf count p)

unfoldable pub copy_file_to_seq_buf1 : PktRecord → List ℕ → Option PktRecord
unfolding load_pkts
copy_file_to_seq_buf1 r mem = do
  (count, buf) ← load_pkts (length mem) mem 0 r.pkts_buf
  some (record r { count = count; pkts_buf = buf })

unfoldable pub encode_all : List BlePkt → List ℕ
unfolding encode
encode_all [] = []
encode_all (p ∷ ps) = encode p ++ encode_all ps

-- `save_seq_buf_to_file2`: the head of the structure and `count` packets, as they lie in memory.
unfoldable pub save_seq_buf_to_file2 : PktRecord → List ℕ
unfolding encode_all
save_seq_buf_to_file2 r =
    le_bytes 8 r.count ++ (le_bytes 8 r.max_count ++ encode_all (take r.count r.pkts_buf))

-- What a reader of `mmap_seq_buf_file` finds: the count, and the bytes of packet `i`.
unfoldable pub mapped_count : List ℕ → Option ℕ
mapped_count file = chunk 8 file >>= λ (word, rest). some (of_le word)

unfoldable pub mapped_pkt : List ℕ → ℕ → Option (List ℕ)
mapped_pkt file i = chunk 279 (drop (16 + 279 * i) file) >>= λ (bytes, rest). some bytes
