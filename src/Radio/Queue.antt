-- ===== src/Radio/Queue.antt =====
-- The message queue between the patched radio (src/patch/bsim.patch) and the fuzzer's loop, with
-- `recv_ble_pkt` and `recv_ble_pkt_ack` of blueman-main/interceptor.c, as two processes that take
-- steps in any order. The queue is the system's: an interface, with the order that its manual
-- promises for the messages of one type. A `msgsnd` that fails is repeated by its callers, so a step
-- that sends is one that succeeds. The loop's answer may depend on all that it has answered before.
pub mod Order
pub mod Progress
mod Tests
use blueman_artifact.Prelude.{
  ℕ, suc, ◌≡◌, ◌≢◌, Bool, true, false, List, [], ◌∷◌, ◌++◌, Option, none, some,
}
use blueman_artifact.PktRecord.{BlePkt}

abbrev pub msg_fuzz_recv_pkt : ℕ
msg_fuzz_recv_pkt = 1

abbrev pub msg_fuzz_recv_pkt_ack : ℕ
msg_fuzz_recv_pkt_ack = 2

-- `messages t q` are the messages of type `t` in the queue, oldest first. `msgsnd` puts one behind
-- them, `msgrcv` takes the first, or waits (`none`) if there is none.
pub record MsgQueue : Type 1 where
  pub Q : Type 0
  pub msgsnd : ℕ → BlePkt → Q → Q
  pub msgrcv : ℕ → Q → Option (BlePkt × Q)
  pub messages : ℕ → Q → List BlePkt
  pub sent_last :
      (t : ℕ) (p : BlePkt) (q : Q) → messages t (msgsnd t p q) ≡ messages t q ++ (p ∷ [])
  pub sent_other : (t u : ℕ) (p : BlePkt) (q : Q) → t ≢ u → messages u (msgsnd t p q) ≡ messages u q
  pub taken_first :
      (t : ℕ) (q q' : Q) (p : BlePkt) → msgrcv t q ≡ some (p, q') → messages t q ≡ p ∷ messages t q'
  pub taken_other :
      (t u : ℕ) (q q' : Q) (p : BlePkt)
      → msgrcv t q ≡ some (p, q')
      → t ≢ u
      → messages u q' ≡ messages u q
  pub waits : (t : ℕ) (q : Q) → msgrcv t q ≡ none → messages t q ≡ []

module _ (sys : MsgQueue) where
  unfoldable pub recv_ble_pkt : BlePkt → sys.Q → sys.Q
  recv_ble_pkt p q = sys.msgsnd msg_fuzz_recv_pkt p q

  unfoldable pub recv_ble_pkt_ack : BlePkt → sys.Q → sys.Q
  recv_ble_pkt_ack p q = sys.msgsnd msg_fuzz_recv_pkt_ack p q

  -- The radio has `remaining` packets to send, has sent `sent` and got `got`, and may be waiting for
  -- an answer. The loop has answered `handled`, and holds the packet that it has received last until
  -- it has answered that too.
  pub record Exchange : Type 0 where
    pub remaining : List BlePkt
    pub sent : List BlePkt
    pub got : List BlePkt
    pub waiting : Bool
    pub queue : sys.Q
    pub handled : List BlePkt
    pub holds : List BlePkt

  -- One step of the radio or of the loop. Where they stop is not in the steps: the loop after the
  -- packets of its corpus and two more, or at its alarm, the radio at an answer that is marked 2. A
  -- schedule can stop anywhere, so the schedules of the program are among these.
  pub data Step (answer : List BlePkt → BlePkt → BlePkt) : Exchange → Exchange → Type 0 where
    radio_sends :
        {sent got handled holds ps : List BlePkt} {queue : sys.Q} (p : BlePkt)
        → Step answer
            (record {
              remaining = p ∷ ps;
              sent = sent;
              got = got;
              waiting = false;
              queue = queue;
              handled = handled;
              holds = holds;
            })
            (record {
              remaining = ps;
              sent = sent ++ (p ∷ []);
              got = got;
              waiting = true;
              queue = recv_ble_pkt p queue;
              handled = handled;
              holds = holds;
            })
    radio_receives :
        {sent got handled holds ps : List BlePkt} {queue queue' : sys.Q} (a : BlePkt)
        → sys.msgrcv msg_fuzz_recv_pkt_ack queue ≡ some (a, queue')
        → Step answer
            (record {
              remaining = ps;
              sent = sent;
              got = got;
              waiting = true;
              queue = queue;
              handled = handled;
              holds = holds;
            })
            (record {
              remaining = ps;
              sent = sent;
              got = got ++ (a ∷ []);
              waiting = false;
              queue = queue';
              handled = handled;
              holds = holds;
            })
    loop_receives :
        {sent got handled ps : List BlePkt} {waiting : Bool} {queue queue' : sys.Q} (p : BlePkt)
        → sys.msgrcv msg_fuzz_recv_pkt queue ≡ some (p, queue')
        → Step answer
            (record {
              remaining = ps;
              sent = sent;
              got = got;
              waiting = waiting;
              queue = queue;
              handled = handled;
              holds = [];
            })
            (record {
              remaining = ps;
              sent = sent;
              got = got;
              waiting = waiting;
              queue = queue';
              handled = handled;
              holds = p ∷ [];
            })
    loop_answers :
        {sent got handled ps : List BlePkt} {waiting : Bool} {queue : sys.Q} (p : BlePkt)
        → Step answer
            (record {
              remaining = ps;
              sent = sent;
              got = got;
              waiting = waiting;
              queue = queue;
              handled = handled;
              holds = p ∷ [];
            })
            (record {
              remaining = ps;
              sent = sent;
              got = got;
              waiting = waiting;
              queue = recv_ble_pkt_ack (answer handled p) queue;
              handled = handled ++ (p ∷ []);
              holds = [];
            })

  pub data Steps (answer : List BlePkt → BlePkt → BlePkt) : Exchange → Exchange → Type 0 where
    here : {x : Exchange} → Steps answer x x
    then_step : {x y z : Exchange} → Steps answer x y → Step answer y z → Steps answer x z

  -- The radio has `packets` to send, and the queue holds whatever an earlier run has left in it.
  abbrev pub start : List BlePkt → sys.Q → Exchange
  start packets queue = record {
    remaining = packets;
    sent = [];
    got = [];
    waiting = false;
    queue = queue;
    handled = [];
    holds = [];
  }
