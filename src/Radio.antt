-- ===== src/Radio.antt =====
-- src/patch/bsim.patch and src/patch/btfuzz.h: the patched radio of the target. On each packet that
-- the target receives, `hijack_packet_recorder` sends a copy of it to the fuzzer, waits for the
-- answer, and puts the answer in place of the packet.
-- The simulator is not in the repository: the largest payload (`nhwra_get_MAXLEN`), the address of
-- the receiver and the receive buffer are arguments, and so is what stands in the array of the
-- packet, which is not initialised. `count` is a local variable, so each call starts it at 0. A
-- `msgsnd` or `msgrcv` that fails is repeated.
pub mod Payload
pub mod Lockstep
pub mod Queue
mod Tests
use blueman_artifact.Prelude.{
  ℕ, ◌+◌, ◌==◌, ltb, if◌then◌else◌, Bool, true, false, List, [], ◌∷◌, ◌++◌, Option, some, u8, u32,
  sub_u32, chunk, set,
}
use blueman_artifact.Ending.{Ending, done, stuck, ◌>>=◌, or_fault}
use blueman_artifact.PktRecord.{BlePkt, overwrite}

-- What the target's processor gets to see: the buffer, or nothing more at all.
pub data Reception : Type 0 where
  received : List ℕ → Reception
  exited : Reception

-- A call for a packet with a payload of `payload_len` bytes that stands, header first, in `buf`.
pub record Frame : Type 0 where
  pub address : ℕ
  pub payload_len : ℕ
  pub buf : List ℕ
  pub array : List ℕ

-- The packet that is sent. The two bytes of the header are copied as well; the test does not count
-- them, so 254 is a fault.
unfoldable pub record_pkt : ℕ → Frame → Ending BlePkt
unfolding overwrite
record_pkt max_len f =
    if ltb f.payload_len 255
    then (do
      (bytes, rest) ← or_fault (chunk (2 + f.payload_len) f.buf)
      pkt ← or_fault (overwrite bytes f.array)
      done (record {
        sid = 0;
        device_id = 1;
        mutated = 0;
        address = f.address;
        len = u32 (f.payload_len + 2 + 3);
        max_payload_len = max_len;
        pkt = pkt;
      }))
    else stuck

abbrev pub payload_length : ℕ → ℕ → ℕ
payload_length max_len len =
    if ltb (u8 (sub_u32 len 5)) max_len then u8 (sub_u32 len 5) else u8 max_len

-- `memcpy(buf + 2, ...)` after `buf[0] = payload_length`; a buffer that is too short is a fault.
unfoldable pub write_payload : ℕ → List ℕ → List ℕ → Ending (List ℕ)
unfolding overwrite
write_payload n pkt buf = do
  (bytes, rest) ← or_fault (chunk n pkt)
  (header, room) ← or_fault (chunk 2 (set buf 0 n))
  body ← or_fault (overwrite bytes room)
  done (header ++ body)

-- What the answer makes of the buffer.
unfoldable pub apply_answer : ℕ → BlePkt → List ℕ → Ending Reception
unfolding write_payload
apply_answer max_len q buf =
    if q.mutated == 1
    then (do buf' ← write_payload (payload_length max_len q.len) q.pkt buf; done (received buf'))
    else if q.mutated == 2
    then done exited
    else done (received buf)

-- The calls send one packet each, and take the answers in order. A call without an answer waits for
-- ever, and one that exits is the last.
unfoldable pub send_all : ℕ → List Frame → Ending (List BlePkt)
unfolding record_pkt
send_all max_len [] = done []
send_all max_len (f ∷ fs) = do p ← record_pkt max_len f; ps ← send_all max_len fs; done (p ∷ ps)

abbrev and_then_received : Reception → Ending (List Reception) → Ending (List Reception)
and_then_received exited rest = done (exited ∷ [])
and_then_received (received buf) rest = do rs ← rest; done (received buf ∷ rs)

unfoldable pub receive_all : ℕ → List Frame → List BlePkt → Ending (List Reception)
unfolding apply_answer
receive_all max_len [] acks = done []
receive_all max_len (f ∷ fs) [] = stuck
receive_all max_len (f ∷ fs) (q ∷ acks) =
    let rest = receive_all max_len fs acks in
    apply_answer max_len q f.buf >>= λ r. and_then_received r rest
