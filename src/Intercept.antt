-- ===== src/Intercept.antt =====
-- The two loops of blueman-main/btfuzz.c that stand between the radio and its devices, and the
-- acknowledgement of blueman-main/interceptor.c.
-- The message queue is the system's: the packets that `msgrcv` will return are a list, and the
-- acknowledgements that are sent are another. An acknowledgement that fails is sent again, so each
-- is sent once in the end. A `msgrcv` with no packet left waits for ever, and one that fails ends in
-- `while(1)`: both are `stuck`. The two seconds of
-- `alarm`, after which the process ends, are in Intercept/Alarm.
pub mod Replays
pub mod Collect
pub mod Feedback
pub mod Alarm
pub mod Samples
mod Tests
use blueman_artifact.Prelude.{
  ℕ, zero, suc, ◌+◌, ◌-◌, ◌==◌, ltb, leb, if◌then◌else◌, Bool, true, false, ◌&&◌, ◌||◌, List, [],
  ◌∷◌, ◌++◌, Option, none, some, get_elem?, u32, sub_u32,
}
use blueman_artifact.Ending.{Ending, done, stuck, fault, ◌>>=◌, or_fault}
use blueman_artifact.PktRecord.{BlePkt, PktRecord, add_pkt_to_seq_buf}
use blueman_artifact.Fuzzer.{copy_ble_pkt}
use blueman_artifact.Mutator.{Mutator, call_mutator}
use blueman_artifact.Coverage.{corpus_get_coverage}

-- What the loop of `intercept_ble_packet_for_fuzz` changes.
pub record Session : Type 0 where
  pub pkt_rec : PktRecord
  pub packet_count : ℕ
  pub acks : List BlePkt
  pub draws : ℕ → ℕ

abbrev pub recv_ble_pkt_ack : BlePkt → Session → Session
recv_ble_pkt_ack p s = record s { acks = s.acks ++ (p ∷ []) }

module _ (m : Mutator) (corpus : PktRecord) where
  -- A packet of the target, with the corpus packet `i`; `mutate_pkt` gets the index after `i++`.
  unfoldable pub replay_pkt : ℕ → BlePkt → Session → Ending (BlePkt × Session)
  replay_pkt i p s = do
    src ← or_fault (get_elem? corpus.pkts_buf i)
    if src.device_id == 0 then stuck else do
      (copied, q) ← or_fault (copy_ble_pkt p src)
      (sent, draws) ← or_fault (call_mutator m (i + 1) q s.draws)
      let pkt_rec = (add_pkt_to_seq_buf s.pkt_rec sent).1
      done (sent, record s { pkt_rec = pkt_rec; packet_count = pkt_rec.count; draws = draws })

  unfoldable pub fuzz_round : ℕ → BlePkt → Session → Ending (ℕ × Session)
  unfolding replay_pkt
  fuzz_round i p s =
      if p.device_id == 1
      then (do (sent, s') ← replay_pkt i p s; done (i + 1, recv_ble_pkt_ack sent s'))
      else done (i, recv_ble_pkt_ack p s)

  unfoldable pub fuzz_loop : List BlePkt → ℕ → Session → Ending (ℕ × List BlePkt × Session)
  unfolding fuzz_round
  fuzz_loop [] i s = if ltb i corpus.count then stuck else done (i, [], s)
  fuzz_loop (p ∷ inbox) i s =
      let next = (fuzz_round i p s >>= λ (i', s'). fuzz_loop inbox i' s') in
      if ltb i corpus.count then next else done (i, p ∷ inbox, s)

-- A packet that is passed on as it is, and one that tells its receiver to stop.
unfoldable pub pass_on : List BlePkt → Session → Ending (List BlePkt × Session)
pass_on [] s = stuck
pass_on (p ∷ inbox) s = done (inbox, recv_ble_pkt_ack p s)

unfoldable pub stop_target : List BlePkt → Session → Ending (List BlePkt × Session)
stop_target [] s = stuck
stop_target (p ∷ inbox) s = done (inbox, recv_ble_pkt_ack (record p { mutated = 2 }) s)

unfoldable pub intercept_ble_packet_for_fuzz :
    Mutator → PktRecord → List BlePkt → Session → Ending (ℕ × List BlePkt × Session)
unfolding fuzz_loop pass_on stop_target
intercept_ble_packet_for_fuzz m corpus inbox s = do
  (i, inbox₁, s₁) ← fuzz_loop m corpus inbox 0 s
  (inbox₂, s₂) ← pass_on inbox₁ s₁
  (inbox₃, s₃) ← stop_target inbox₂ s₂
  done (i, inbox₃, s₃)
