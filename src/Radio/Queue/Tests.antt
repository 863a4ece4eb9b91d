-- ===== src/Radio/Queue/Tests.antt =====
-- A queue of lists, one for each type, and an exchange that starts with a request that was left in it.
use blueman_artifact.Prelude.{
  ℕ, ◌+◌, ◌*◌, ◌≤◌, ◌≡◌, ◌≢◌, refl, sym, ap, ◌∙◌, arith, ◌==◌, if◌then◌else◌, List, [], ◌∷◌, ◌++◌,
  Option, none, some, length, take,
}
use blueman_artifact.PktRecord.{BlePkt, blank}
use blueman_artifact.Radio.Queue.{
  MsgQueue, recv_ble_pkt, recv_ble_pkt_ack, Exchange, radio_sends, radio_receives, loop_receives,
  loop_answers, Steps, here, then_step, start,
}
use blueman_artifact.Radio.Queue.Order.{replies, pending, got-in_order}
use blueman_artifact.Radio.Queue.Progress.{Steps-end, stages_left, number_of}

abbrev Lists : Type 0
Lists = ℕ → List BlePkt

abbrev put : ℕ → List BlePkt → Lists → Lists
put t ps q u = if t == u then ps else q u

abbrev take_one : ℕ → List BlePkt → Lists → Option (BlePkt × Lists)
take_one t [] q = none
take_one t (p ∷ ps) q = some (p, put t ps q)

put-same : (t : ℕ) (ps : List BlePkt) (q : Lists) → put t ps q t ≡ ps
put-same t ps q = ground arith

put-other : (t u : ℕ) (ps : List BlePkt) (q : Lists) → t ≢ u → put t ps q u ≡ q u
put-other t u ps q h = ground arith

abbrev found : BlePkt × Lists → Option (BlePkt × Lists) → BlePkt × Lists
found x none = x
found x (some y) = y

first_of :
    (t : ℕ) (l : List BlePkt) (q q' : Lists) (p : BlePkt)
    → take_one t l q ≡ some (p, q')
    → (l ≡ p ∷ q' t) × ((u : ℕ) → t ≢ u → q' u ≡ q u)
first_of t [] q q' p e = absurd (cc)
first_of t (r ∷ rs) q q' p e =
    let same : (r, put t rs q) ≡ (p, q') = ap (found (p, q')) e in
    (
      ap (λ l. r ∷ l) (sym (put-same t rs q)) ∙ ap (λ x. x.0 ∷ x.1 t) same,
      λ u h. sym (ap (λ x. x.1 u) same) ∙ put-other t u rs q h,
    )

empty_of : (t : ℕ) (l : List BlePkt) (q : Lists) → take_one t l q ≡ none → l ≡ []
empty_of t [] q e = refl
empty_of t (p ∷ ps) q e = absurd (cc)

abbrev list_queue : MsgQueue
list_queue = record {
  Q = Lists;
  msgsnd = λ t p q. put t (q t ++ (p ∷ [])) q;
  msgrcv = λ t q. take_one t (q t) q;
  messages = λ t q. q t;
  sent_last = λ t p q. put-same t (q t ++ (p ∷ [])) q;
  sent_other = λ t u p q h. put-other t u (q t ++ (p ∷ [])) q h;
  taken_first = λ t q q' p e. (first_of t (q t) q q' p e).0;
  taken_other = λ t u q q' p e h. (first_of t (q t) q q' p e).1 u h;
  waits = λ t q e. empty_of t (q t) q e;
}

-- A request of an earlier run; the loop answers a packet with the same packet.
abbrev old : BlePkt
old = record blank { sid = 9 }

abbrev left_over : Lists
left_over = put 1 (old ∷ []) (λ t. [])

abbrev echo : List BlePkt → BlePkt → BlePkt
echo handled p = p

abbrev request : BlePkt
request = blank

-- The radio sends, the loop takes the old request and answers it, and the radio takes that answer.
exchange :
    (x : Exchange list_queue) × Steps list_queue echo (start list_queue (request ∷ []) left_over) x
    × (x.got ≡ old ∷ [])
unfolding recv_ble_pkt recv_ble_pkt_ack
exchange = (
  _,
  then_step
      (then_step (then_step (then_step here (radio_sends request)) (loop_receives old refl))
        (loop_answers old))
      (radio_receives old refl),
  refl,
)

got-in_order_example :
    (exchange.0.got ≡ take (length exchange.0.got) (replies echo [] ((old ∷ []) ++ (request ∷ []))))
    × (length exchange.0.got + pending echo list_queue exchange.0.waiting ≡ length exchange.0.sent)
got-in_order_example = got-in_order echo list_queue (request ∷ []) left_over refl exchange.1

Steps-end_example :
    (number_of echo list_queue exchange.1 + stages_left echo list_queue exchange.0
      ≡ stages_left echo list_queue (start list_queue (request ∷ []) left_over))
    × (number_of echo list_queue exchange.1 ≤ 4 * 1 + 3 * 1)
Steps-end_example = Steps-end echo list_queue (request ∷ []) left_over refl exchange.1
