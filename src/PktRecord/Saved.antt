-- ===== src/PktRecord/Saved.antt =====
-- One packet in the file of `save_seq_buf_to_file1`: its bytes, and what they read back as.
use blueman_artifact.Prelude.{
  ℕ, ◌+◌, ◌-◌, ◌^◌, ◌≤◌, ◌<◌, ◌≡◌, refl, sym, ap, ◌∙◌, arith, List, ◌++◌, some, take, drop, length,
  length-append, length-take, length-drop, length-le_bytes, le_bytes, of_le-le_bytes, u32, sub_u32,
  chunk-ok, chunk-append, take-append,
}
use mathlib.Core.List.{append_assoc}
use blueman_artifact.PktRecord.{BlePkt, save_pkt, overwrite, load_pkt}

-- The words fit their types, and the length is that of a packet that fits its array.
pub record IsSaveable (p : BlePkt) : Type 0 where
  pub device_word : p.device_id < 2 ^ 32
  pub address_word : p.address < 2 ^ 32
  pub limit_word : p.max_payload_len < 2 ^ 32
  pub framed : 5 ≤ p.len
  pub fits : p.len ≤ length p.pkt
  pub array : length p.pkt ≡ 255

-- What the file keeps of a packet: all but the sequence id, the mark, and the bytes past `len`.
pub record SameSaved (p q : BlePkt) : Type 0 where
  pub device_id : q.device_id ≡ p.device_id
  pub address : q.address ≡ p.address
  pub len : q.len ≡ p.len
  pub max_payload_len : q.max_payload_len ≡ p.max_payload_len
  pub bytes : take q.len q.pkt ≡ take p.len p.pkt
  pub array : length q.pkt ≡ 255

-- The bytes of one packet, as they are written.
abbrev pub saved : BlePkt → List ℕ
saved p =
    le_bytes 4 p.address
    ++ (le_bytes 8 p.max_payload_len
        ++ (le_bytes 8 (p.len - 5) ++ (take p.len p.pkt ++ le_bytes 4 p.device_id)))

pub save_pkt-saved : (p : BlePkt) → IsSaveable p → save_pkt p ≡ some (saved p)
unfolding save_pkt
save_pkt-saved p v =
    let n : sub_u32 (sub_u32 p.len 2) 3 ≡ p.len - 5 = omega (arith, v) in
    rw (chunk-ok p.len p.pkt v.fits, save_pkt, n)

-- What one round reads back.
abbrev pub loaded : BlePkt → BlePkt → BlePkt
loaded old p = record old {
  device_id = p.device_id;
  address = p.address;
  len = p.len;
  max_payload_len = p.max_payload_len;
  pkt = take p.len p.pkt ++ drop p.len old.pkt;
}

pub length-take_le : (n : ℕ) (xs : List ℕ) → n ≤ length xs → length (take n xs) ≡ n
length-take_le n xs h = omega (arith, length-take n xs)

pub overwrite-ok :
    (bytes pkt : List ℕ)
    → length bytes ≤ length pkt
    → overwrite bytes pkt ≡ some (bytes ++ drop (length bytes) pkt)
unfolding overwrite
overwrite-ok bytes pkt h = rw (chunk-ok (length bytes) pkt h)

pub load_pkt-saved :
    (old p : BlePkt) (rest : List ℕ)
    → IsSaveable p
    → length old.pkt ≡ 255
    → load_pkt old (saved p ++ rest) ≡ some (loaded old p, rest)
unfolding load_pkt
load_pkt-saved old p rest v size =
    let bytes : List ℕ = take p.len p.pkt in
    let device : List ℕ = le_bytes 4 p.device_id in
    let n : length bytes ≡ p.len = length-take_le p.len p.pkt v.fits in
    let low : u32 p.max_payload_len ≡ p.max_payload_len = omega (arith, v.limit_word) in
    let word : u32 (p.len - 5 + 2 + 3) ≡ p.len = omega (arith, v) in
    rw (
      append_assoc (le_bytes 4 p.address),
      append_assoc (le_bytes 8 p.max_payload_len),
      append_assoc (le_bytes 8 (p.len - 5)),
      append_assoc bytes,
      chunk-append 4 (le_bytes 4 p.address) _ (length-le_bytes 4 p.address),
      chunk-append 8 (le_bytes 8 p.max_payload_len) _ (length-le_bytes 8 p.max_payload_len),
      chunk-append 8 (le_bytes 8 (p.len - 5)) _ (length-le_bytes 8 (p.len - 5)),
      of_le-le_bytes 8 (p.len - 5) (omega (arith, v)),
      word,
      chunk-append p.len bytes (device ++ rest) n,
      overwrite-ok bytes old.pkt (omega (arith, n, size, v)),
      chunk-append 4 device rest (length-le_bytes 4 p.device_id),
      of_le-le_bytes 4 p.device_id (omega (arith, v)),
      of_le-le_bytes 4 p.address (omega (arith, v)),
      of_le-le_bytes 8 p.max_payload_len (omega (arith, v)),
      low,
      n,
    )

pub SameSaved-loaded :
    (old p : BlePkt) → IsSaveable p → length old.pkt ≡ 255 → SameSaved p (loaded old p)
SameSaved-loaded old p v size =
    let bytes : List ℕ = take p.len p.pkt in
    let n : length bytes ≡ p.len = length-take_le p.len p.pkt v.fits in
    record {
      device_id = refl;
      address = refl;
      len = refl;
      max_payload_len = refl;
      bytes =
          ap (λ k. take k (bytes ++ drop p.len old.pkt)) (sym n)
          ∙ take-append bytes (drop p.len old.pkt);
      array = omega (
        arith,
        length-append bytes (drop p.len old.pkt),
        n,
        length-drop p.len old.pkt,
        size,
        v.fits,
        v.array,
      );
    }
