-- ===== src/Fuzzer.antt =====
-- `copy_ble_pkt` of blueman-main/btfuzz.c: a packet of the corpus is replayed over the packet that
-- the target has just sent.
pub mod Replay
use blueman_artifact.Prelude.{
  ℕ, ◌+◌, ◌==◌, ltb, if◌then◌else◌, Bool, true, false, Option, some, u32, chunk,
}
use blueman_artifact.PktRecord.{BlePkt, ◌>>=◌, overwrite}

abbrev pub replay_len : BlePkt → BlePkt → ℕ
replay_len dst src =
    if ltb (u32 (dst.max_payload_len + 5)) src.len then u32 (dst.max_payload_len + 5) else src.len

-- The answer and `dst`; a `memcpy` that leaves an array is `none`.
unfoldable pub copy_ble_pkt : BlePkt → BlePkt → Option (Bool × BlePkt)
unfolding overwrite
copy_ble_pkt dst src =
    if src.mutated == 1
    then (do
      let len = replay_len dst src
      (bytes, rest) ← chunk len src.pkt
      pkt ← overwrite bytes dst.pkt
      some (true, record dst { len = len; mutated = 1; pkt = pkt }))
    else some (false, dst)
