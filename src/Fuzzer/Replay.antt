-- ===== src/Fuzzer/Replay.antt =====
-- Replaying a packet, on both branches, and where it leaves the arrays.
use blueman_artifact.Prelude.{
  take-append, length-append, length-drop, sym, leb, ◌^◌, ◌-◌, ℕ, ◌++◌, ◌≤◌, ◌<◌, ◌≡◌, ◌≢◌, ◌⊎◌,
  inl, inr, refl, ap, ◌∙◌, arith, ◌==◌, true, false, Bool-cases, none, some, List, length, take,
  drop, chunk, chunk-ok,
}
use blueman_artifact.PktRecord.{BlePkt}
use blueman_artifact.PktRecord.Saved.{length-take_le, overwrite-ok}
use blueman_artifact.Fuzzer.{replay_len, copy_ble_pkt}

-- What a replay leaves: the bytes of `src`, cut to the limit of `dst`, over those of `dst`.
pub record Replayed (dst src p : BlePkt) : Type 0 where
  pub length_cut : p.len ≡ replay_len dst src
  pub bytes : take p.len p.pkt ≡ take p.len src.pkt
  pub whole : p.pkt ≡ take p.len src.pkt ++ drop p.len dst.pkt
  pub same_array : length p.pkt ≡ 255
  pub always_marked : p.mutated ≡ 1
  pub route : (p.sid ≡ dst.sid) × (p.device_id ≡ dst.device_id) × (p.address ≡ dst.address)
  pub same_limit : p.max_payload_len ≡ dst.max_payload_len

module _ (dst src : BlePkt) (dst_array : length dst.pkt ≡ 255)
    (src_array : length src.pkt ≡ 255) where
  replay-Replayed :
      (n : ℕ)
      → n ≡ replay_len dst src
      → n ≤ 255
      → Replayed dst src (record dst {
        len = n;
        mutated = 1;
        pkt = take n src.pkt ++ drop (length (take n src.pkt)) dst.pkt;
      })
  replay-Replayed n e le =
      let bytes : List ℕ = take n src.pkt in
      let rest : List ℕ = drop (length bytes) dst.pkt in
      let size : length bytes ≡ n = length-take_le n src.pkt (omega arith) in
      record {
        length_cut = e;
        bytes = ap (λ k. take k (bytes ++ rest)) (sym size) ∙ take-append bytes rest;
        whole = ap (λ k. bytes ++ drop k dst.pkt) size;
        same_array = omega (arith, length-append bytes rest, length-drop (length bytes) dst.pkt);
        always_marked = refl;
        route = (refl, refl, refl);
        same_limit = refl;
      }

  -- For packets with whole arrays, if the corpus packet has at most 255 bytes or the target's packet
  -- a payload limit of at most 250: a corpus packet that is not marked leaves the target's packet as
  -- it is, and a marked one is replayed, with no access outside the arrays. The length is that of
  -- the corpus packet, or the limit plus 5 if that is less; up to it the bytes are those of the
  -- corpus packet, and behind it those of the target's, whose routing fields are kept.
  pub copy_ble_pkt-Replayed :
      (src.len ≤ 255) ⊎ (dst.max_payload_len ≤ 250)
      → ((src.mutated ≢ 1) × (copy_ble_pkt dst src ≡ some (false, dst)))
        ⊎ ((src.mutated ≡ 1)
            × ((p : BlePkt) × (copy_ble_pkt dst src ≡ some (true, p)) × Replayed dst src p))
  unfolding copy_ble_pkt
  copy_ble_pkt-Replayed fits = elim (Bool-cases (src.mutated == 1)) [
    | inl marked ↦
        let n : ℕ = replay_len dst src in
        let le : n ≤ 255 = ground arith in
        let size : length (take n src.pkt) ≡ n = length-take_le n src.pkt (omega arith) in
        inr (
          ground arith,
          (
            _,
            rw
                (
                  marked,
                  chunk-ok n src.pkt (omega arith),
                  overwrite-ok (take n src.pkt) dst.pkt (omega arith),
                )
                refl,
            replay-Replayed n refl le,
          ),
        )
    | inr unmarked ↦ inl (ground arith, rw unmarked refl)
  ]

  -- For packets with whole arrays: replaying a marked corpus packet of more than 255 bytes over a
  -- packet with a payload limit above 250, and below 2 ^ 32 - 5, accesses bytes outside the arrays.
  pub copy_ble_pkt-overflow :
      src.mutated ≡ 1
      → 255 < src.len
      → 250 < dst.max_payload_len
      → dst.max_payload_len < 2 ^ 32 - 5
      → copy_ble_pkt dst src ≡ none
  unfolding copy_ble_pkt chunk
  copy_ble_pkt-overflow mark long wide word =
      let over : leb (replay_len dst src) 255 ≡ false = ground arith in
      rw (mark, src_array, over) refl
