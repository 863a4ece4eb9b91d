-- ===== src/Radio/Queue/Progress.antt =====
-- The exchange over the queue does not go on for ever.
use blueman_artifact.Prelude.{
  ℕ, suc, ◌+◌, ◌*◌, ◌≤◌, ◌≡◌, ap, arith, List, [], ◌∷◌, length, length-append,
}
use blueman_artifact.PktRecord.{BlePkt}
use blueman_artifact.Radio.Queue.{
  MsgQueue, recv_ble_pkt, recv_ble_pkt_ack, Exchange, Step, radio_sends, radio_receives,
  loop_receives, loop_answers, Steps, here, then_step, start,
}

module _ (answer : List BlePkt → BlePkt → BlePkt) (sys : MsgQueue) where
  -- Each step takes a message one stage further.
  abbrev pub stages_left : Exchange sys → ℕ
  stages_left x =
      4 * length x.remaining
      + 3 * length (sys.messages 1 x.queue)
      + 2 * length x.holds
      + length (sys.messages 2 x.queue)

  abbrev pub number_of : {x y : Exchange sys} → Steps sys answer x y → ℕ
  number_of here = 0
  number_of (then_step steps step) = suc (number_of steps)

  Step-stages_left :
      {x y : Exchange sys} → Step sys answer x y → suc (stages_left y) ≡ stages_left x
  unfolding recv_ble_pkt recv_ble_pkt_ack
  Step-stages_left (radio_sends {queue = queue} p) = omega (
    arith,
    ap length (sys.sent_last 1 p queue),
    length-append (sys.messages 1 queue) (p ∷ []),
    ap length (sys.sent_other 1 2 p queue (omega arith)),
  )
  Step-stages_left (radio_receives {queue = queue} {queue'} a e) = omega (
    arith,
    ap length (sys.taken_first 2 queue queue' a e),
    ap length (sys.taken_other 2 1 queue queue' a e (omega arith)),
  )
  Step-stages_left (loop_receives {queue = queue} {queue'} p e) = omega (
    arith,
    ap length (sys.taken_first 1 queue queue' p e),
    ap length (sys.taken_other 1 2 queue queue' p e (omega arith)),
  )
  Step-stages_left (loop_answers {handled = handled} {queue = queue} p) = omega (
    arith,
    ap length (sys.sent_last 2 (answer handled p) queue),
    length-append (sys.messages 2 queue) (answer handled p ∷ []),
    ap length (sys.sent_other 2 1 (answer handled p) queue (omega arith)),
  )

  Steps-stages_left :
      {x y : Exchange sys} (steps : Steps sys answer x y)
      → number_of steps + stages_left y ≡ stages_left x
  Steps-stages_left here = omega arith
  Steps-stages_left (then_step steps step) =
      omega (arith, Steps-stages_left steps, Step-stages_left step)

  -- If a queue holds no answers at first, then every schedule of the two sides, however it goes on and
  -- wherever it stops, has at most 4 steps for each packet that the radio has to send and 3 for each
  -- request that was left in the queue: a step takes one message one stage further, and the schedule
  -- has as many steps as there are fewer stages left. So no schedule goes on for ever.
  pub Steps-end :
      (packets : List BlePkt) (queue : sys.Q)
      → sys.messages 2 queue ≡ []
      → {x : Exchange sys} (steps : Steps sys answer (start sys packets queue) x)
      → (number_of steps + stages_left x ≡ stages_left (start sys packets queue))
        × (number_of steps ≤ 4 * length packets + 3 * length (sys.messages 1 queue))
  Steps-end packets queue e steps =
      (Steps-stages_left steps, omega (arith, Steps-stages_left steps, ap length e))
