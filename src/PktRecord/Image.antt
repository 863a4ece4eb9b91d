-- ===== src/PktRecord/Image.antt =====
-- A corpus file is the record's memory image: what a reader maps is what was recorded.
use blueman_artifact.Prelude.{
  ℕ, zero, suc, ◌+◌, ◌*◌, ◌^◌, ◌<◌, ◌≡◌, ap, arith, List, [], ◌∷◌, ◌++◌, some, take, drop,
  get_elem?, length, length-append, length-le_bytes, le_bytes, of_le-le_bytes, chunk, chunk-append,
}
use blueman_artifact.PktRecord.{
  BlePkt, PktRecord, encode, encode_all, save_seq_buf_to_file2, mapped_count, mapped_pkt,
}
use blueman_artifact.PktRecord.File.{AllArrays}

pub length-encode : (p : BlePkt) → length p.pkt ≡ 255 → length (encode p) ≡ 279
unfolding encode
length-encode p h =
    let b₆ = le_bytes 4 p.max_payload_len ++ p.pkt in
    let b₅ = le_bytes 4 p.len ++ b₆ in
    let b₄ = le_bytes 4 p.address ++ b₅ in
    let b₃ = le_bytes 4 p.mutated ++ b₄ in
    let b₂ = le_bytes 4 p.device_id ++ b₃ in
    omega (
      arith,
      h,
      length-append (le_bytes 4 p.sid) b₂,
      length-append (le_bytes 4 p.device_id) b₃,
      length-append (le_bytes 4 p.mutated) b₄,
      length-append (le_bytes 4 p.address) b₅,
      length-append (le_bytes 4 p.len) b₆,
      length-append (le_bytes 4 p.max_payload_len) p.pkt,
      length-le_bytes 4 p.sid,
      length-le_bytes 4 p.device_id,
      length-le_bytes 4 p.mutated,
      length-le_bytes 4 p.address,
      length-le_bytes 4 p.len,
      length-le_bytes 4 p.max_payload_len,
    )

drop-past : (xs ys : List ℕ) (n : ℕ) → drop (length xs + n) (xs ++ ys) ≡ drop n ys
drop-past [] ys n = ap (λ (k : ℕ). drop k ys) (omega arith)
drop-past (x ∷ xs) ys n =
    let e : suc (length xs) + n ≡ suc (length xs + n) = omega arith in rw e (drop-past xs ys n)

-- Packet `i` starts 279 bytes after packet `i - 1`.
chunk-encode_all :
    (ps : List BlePkt) (i : ℕ) (p : BlePkt)
    → AllArrays ps
    → get_elem? ps i ≡ some p
    → (rest : List ℕ) × (chunk 279 (drop (279 * i) (encode_all ps)) ≡ some (encode p, rest))
unfolding encode_all
chunk-encode_all [] i p w h = absurd (cc)
chunk-encode_all (q ∷ ps) zero p (w, ws) h = (
  encode_all ps,
  rw (chunk-append 279 (encode q) (encode_all ps) (length-encode q w)) (ground arith),
)
chunk-encode_all (q ∷ ps) (suc i) p (w, ws) h =
    let (rest, e) = chunk-encode_all ps i p ws h in
    let shift : 279 * suc i ≡ length (encode q) + 279 * i = omega (arith, length-encode q w) in
    (rest, rw (shift, drop-past (encode q) (encode_all ps) (279 * i)) e)

-- What `mmap_seq_buf_file` maps of a file that `save_seq_buf_to_file2` wrote holds the count, and at
-- each index below it the bytes of the packet recorded there.
pub mapped-save_file2 :
    (r : PktRecord) (i : ℕ) (p : BlePkt)
    → r.count < 2 ^ 64
    → AllArrays (take r.count r.pkts_buf)
    → get_elem? (take r.count r.pkts_buf) i ≡ some p
    → (mapped_count (save_seq_buf_to_file2 r) ≡ some r.count)
      × (mapped_pkt (save_seq_buf_to_file2 r) i ≡ some (encode p))
unfolding save_seq_buf_to_file2 mapped_count mapped_pkt
mapped-save_file2 r i p small w h =
    let ps : List BlePkt = take r.count r.pkts_buf in
    let head : List ℕ = le_bytes 8 r.count in
    let head' : List ℕ = le_bytes 8 r.max_count in
    let (rest, e) = chunk-encode_all ps i p w h in
    let shift : 16 + 279 * i ≡ length head + (length head' + 279 * i) =
      omega (arith, length-le_bytes 8 r.count, length-le_bytes 8 r.max_count) in
    (
      rw (
        chunk-append 8 head (head' ++ encode_all ps) (length-le_bytes 8 r.count),
        of_le-le_bytes 8 r.count small,
      ),
      rw (
        shift,
        drop-past head (head' ++ encode_all ps) (length head' + 279 * i),
        drop-past head' (encode_all ps) (279 * i),
        e,
      ),
    )
