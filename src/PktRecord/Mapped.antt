-- ===== src/PktRecord/Mapped.antt =====
-- `mmap_seq_buf_file` of blueman-main/pkt_record.c: a corpus file as the record that it is mapped to.
use blueman_artifact.Prelude.{
  ℕ, zero, suc, ◌*◌, ◌/◌, ◌≤◌, ◌≡◌, refl, sym, ap, ap₂, ◌∙◌, arith, min, List, [], ◌∷◌, ◌++◌,
  Option, some, length, take, drop, le_bytes, of_le, of_le-le_bytes, length-le_bytes, length-append,
  take-append, drop-append, chunk, chunk-append,
}
use blueman_artifact.PktRecord.{BlePkt, PktRecord, encode, encode_all, save_seq_buf_to_file2, ◌>>=◌}
use blueman_artifact.PktRecord.Buffer.{IsValid, contents, length-contents}
use blueman_artifact.PktRecord.Image.{length-encode}
use blueman_artifact.Mutator.{decode}
use blueman_artifact.Mutator.Codec.{IsPkt, decode-encode}

-- The packets that lie one after the other.
unfoldable pub decode_all : ℕ → List ℕ → List BlePkt
decode_all zero mem = []
decode_all (suc n) mem = decode (take 279 mem) ∷ decode_all n (drop 279 mem)

-- The part of the file that is mapped, up to `max_pkt_count` packets, read as a `pkt_record`.
unfoldable pub mmap_seq_buf_file : ℕ → List ℕ → Option PktRecord
unfolding decode_all
mmap_seq_buf_file max_pkt_count file = do
  (count, mem₁) ← chunk 8 file
  (max_count, mem₂) ← chunk 8 mem₁
  some (record {
    count = of_le count;
    max_count = of_le max_count;
    pkts_buf = decode_all (min max_pkt_count (length mem₂ / 279)) mem₂;
  })

abbrev pub AllPkts : List BlePkt → Type 0
AllPkts [] = Unit
AllPkts (p ∷ ps) = IsPkt p × AllPkts ps

pub AllPkts-take : (n : ℕ) (ps : List BlePkt) → AllPkts ps → AllPkts (take n ps)
AllPkts-take zero ps h = tt
AllPkts-take (suc n) [] h = tt
AllPkts-take (suc n) (p ∷ ps) (v, h) = (v, AllPkts-take n ps h)

length-encode_all : (ps : List BlePkt) → AllPkts ps → length (encode_all ps) ≡ 279 * length ps
unfolding encode_all
length-encode_all [] h = refl
length-encode_all (p ∷ ps) (v, h) = omega (
  arith,
  length-append (encode p) (encode_all ps),
  length-encode p v.array,
  length-encode_all ps h,
)

take-encode :
    (p : BlePkt) (rest : List ℕ)
    → IsPkt p
    → (take 279 (encode p ++ rest) ≡ encode p) × (drop 279 (encode p ++ rest) ≡ rest)
take-encode p rest v =
    let e = sym (length-encode p v.array) in
    (
      ap (λ n. take n (encode p ++ rest)) e ∙ take-append (encode p) rest,
      ap (λ n. drop n (encode p ++ rest)) e ∙ drop-append (encode p) rest,
    )

decode_all-encode_all :
    (ps : List BlePkt) → AllPkts ps → decode_all (length ps) (encode_all ps) ≡ ps
unfolding decode_all encode_all
decode_all-encode_all [] h = refl
decode_all-encode_all (p ∷ ps) (v, h) =
    let (front, back) = take-encode p (encode_all ps) v in
    rw (front, back) (ap₂ (λ q qs. q ∷ qs) (decode-encode p v) (decode_all-encode_all ps h))

-- A valid record of well formed packets, at most as many as are mapped, is mapped from the file that
-- `save_seq_buf_to_file2` writes of it as the record that it was: the same counts, and the packets
-- that were recorded, every field of them.
pub mmap_seq_buf_file-save :
    (r : PktRecord) (max_pkt_count : ℕ)
    → IsValid r
    → AllPkts (contents r)
    → r.count ≤ max_pkt_count
    → mmap_seq_buf_file max_pkt_count (save_seq_buf_to_file2 r)
      ≡ some (record r { pkts_buf = contents r })
unfolding mmap_seq_buf_file save_seq_buf_to_file2
mmap_seq_buf_file-save r max_pkt_count v h le =
    let ps : List BlePkt = contents r in
    let body : List ℕ = encode_all ps in
    let number : min max_pkt_count (length body / 279) ≡ length ps =
      omega (arith, length-encode_all ps h, length-contents r v) in
    rw
      (
        chunk-append 8 (le_bytes 8 r.count) (le_bytes 8 r.max_count ++ body)
            (length-le_bytes 8 r.count),
        chunk-append 8 (le_bytes 8 r.max_count) body (length-le_bytes 8 r.max_count),
        of_le-le_bytes 8 r.count (omega (arith, v)),
        of_le-le_bytes 8 r.max_count (omega (arith, v)),
        number,
        decode_all-encode_all ps h,
      )
      refl
