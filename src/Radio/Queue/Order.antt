-- ===== src/Radio/Queue/Order.antt =====
-- Which answer the radio takes for which packet.
use blueman_artifact.Prelude.{
  ℕ, suc, ◌+◌, ◌≡◌, ◌⊎◌, inl, inr, refl, sym, ap, ◌∙◌, arith, Bool, true, false, List, [], ◌∷◌,
  ◌++◌, length, length-append, take, take-append,
}
use mathlib.Core.List.{append_assoc, append-nil}
use blueman_artifact.PktRecord.{BlePkt}
use blueman_artifact.Radio.Queue.{
  MsgQueue, recv_ble_pkt, recv_ble_pkt_ack, Exchange, Step, radio_sends, radio_receives,
  loop_receives, loop_answers, Steps, here, then_step, start,
}

module _ (answer : List BlePkt → BlePkt → BlePkt) where
  -- The answers to a sequence of packets, after those of `before`.
  abbrev pub replies : List BlePkt → List BlePkt → List BlePkt
  replies before [] = []
  replies before (p ∷ ps) = answer before p ∷ replies (before ++ (p ∷ [])) ps

  replies-append :
      (before ps : List BlePkt) (p : BlePkt)
      → replies before (ps ++ (p ∷ [])) ≡ replies before ps ++ (answer (before ++ ps) p ∷ [])
  replies-append before [] p = rw append-nil refl
  replies-append before (q ∷ ps) p =
      ap (λ l. answer before q ∷ l)
        (replies-append (before ++ (q ∷ [])) ps p
          ∙ ap (λ h. replies (before ++ (q ∷ [])) ps ++ (answer h p ∷ []))
              (append_assoc before (q ∷ []) ps))

  replies-both :
      (before ps qs : List BlePkt)
      → replies before (ps ++ qs) ≡ replies before ps ++ replies (before ++ ps) qs
  replies-both before [] qs = ap (λ b. replies b qs) (sym (append-nil before))
  replies-both before (p ∷ ps) qs =
      ap (λ l. answer before p ∷ l)
        (replies-both (before ++ (p ∷ [])) ps qs
          ∙ ap (λ b. replies (before ++ (p ∷ [])) ps ++ replies b qs)
              (append_assoc before (p ∷ []) ps))

  length-replies : (before ps : List BlePkt) → length (replies before ps) ≡ length ps
  length-replies before [] = refl
  length-replies before (p ∷ ps) = ap suc (length-replies (before ++ (p ∷ [])) ps)

  module _ (sys : MsgQueue) where
    abbrev pub pending : Bool → ℕ
    pending true = 1
    pending false = 0

    -- Requests are handled in the order in which they were sent, after those that were left, and the
    -- answers come back in that order; the radio has at most one packet without an answer.
    pub record IsExchange (stale packets : List BlePkt) (x : Exchange sys) : Type 0 where
      pub requests : x.handled ++ (x.holds ++ sys.messages 1 x.queue) ≡ stale ++ x.sent
      pub answers : x.got ++ sys.messages 2 x.queue ≡ replies [] x.handled
      pub turns : length x.got + pending x.waiting ≡ length x.sent
      pub all : x.sent ++ x.remaining ≡ packets
      pub one : (x.holds ≡ []) ⊎ ((p : BlePkt) × (x.holds ≡ p ∷ []))

    start-IsExchange :
        (packets : List BlePkt) (queue : sys.Q)
        → sys.messages 2 queue ≡ []
        → IsExchange (sys.messages 1 queue) packets (start sys packets queue)
    start-IsExchange packets queue e = record {
      requests = sym (append-nil (sys.messages 1 queue));
      answers = e;
      turns = refl;
      all = refl;
      one = inl refl;
    }

    module _ (stale packets : List BlePkt) where
      Step-IsExchange :
          {x y : Exchange sys}
          → Step sys answer x y
          → IsExchange stale packets x
          → IsExchange stale packets y
      unfolding recv_ble_pkt recv_ble_pkt_ack
      Step-IsExchange (radio_sends {sent} {got} {handled} {holds} {ps} {queue} p) v = record {
        requests =
            ap (λ l. handled ++ (holds ++ l)) (sys.sent_last 1 p queue)
            ∙ ap (λ l. handled ++ l) (sym (append_assoc holds (sys.messages 1 queue) (p ∷ [])))
            ∙ sym (append_assoc handled (holds ++ sys.messages 1 queue) (p ∷ []))
            ∙ ap (λ l. l ++ (p ∷ [])) v.requests
            ∙ append_assoc stale sent (p ∷ []);
        answers = ap (λ l. got ++ l) (sys.sent_other 1 2 p queue (omega arith)) ∙ v.answers;
        turns = omega (arith, v.turns, length-append sent (p ∷ []));
        all = append_assoc sent (p ∷ []) ps ∙ v.all;
        one = v.one;
      }
      Step-IsExchange (radio_receives {sent} {got} {handled} {holds} {ps} {queue} {queue'} a e) v =
          record {
            requests =
                ap (λ l. handled ++ (holds ++ l))
                  (sys.taken_other 2 1 queue queue' a e (omega arith))
                ∙ v.requests;
            answers =
                append_assoc got (a ∷ []) (sys.messages 2 queue')
                ∙ ap (λ l. got ++ l) (sym (sys.taken_first 2 queue queue' a e))
                ∙ v.answers;
            turns = omega (arith, v.turns, length-append got (a ∷ []));
            all = v.all;
            one = v.one;
          }
      Step-IsExchange (loop_receives {sent} {got} {handled} {ps} {waiting} {queue} {queue'} p e) v =
          record {
            requests =
                ap (λ l. handled ++ l) (sym (sys.taken_first 1 queue queue' p e)) ∙ v.requests;
            answers =
                ap (λ l. got ++ l) (sys.taken_other 1 2 queue queue' p e (omega arith)) ∙ v.answers;
            turns = v.turns;
            all = v.all;
            one = inr (p, refl);
          }
      Step-IsExchange (loop_answers {sent} {got} {handled} {ps} {waiting} {queue} p) v =
          let a : BlePkt = answer handled p in
          record {
            requests =
                ap (λ l. (handled ++ (p ∷ [])) ++ l) (sys.sent_other 2 1 a queue (omega arith))
                ∙ append_assoc handled (p ∷ []) (sys.messages 1 queue)
                ∙ v.requests;
            answers =
                ap (λ l. got ++ l) (sys.sent_last 2 a queue)
                ∙ sym (append_assoc got (sys.messages 2 queue) (a ∷ []))
                ∙ ap (λ l. l ++ (a ∷ [])) v.answers
                ∙ sym (replies-append [] handled p);
            turns = v.turns;
            all = v.all;
            one = inl refl;
          }

      Steps-IsExchange :
          {x y : Exchange sys}
          → Steps sys answer x y
          → IsExchange stale packets x
          → IsExchange stale packets y
      Steps-IsExchange here v = v
      Steps-IsExchange (then_step steps step) v = Step-IsExchange step (Steps-IsExchange steps v)

  -- What is got is the first part of the answers to what was left and what is to be sent.
  got-prefix :
      (stale sent remaining packets handled held got back : List BlePkt)
      → handled ++ held ≡ stale ++ sent
      → got ++ back ≡ replies [] handled
      → sent ++ remaining ≡ packets
      → (rest : List BlePkt) × (replies [] (stale ++ packets) ≡ got ++ rest)
  got-prefix stale sent remaining packets handled held got back requests answers all =
      let later : List BlePkt = replies handled (held ++ remaining) in
      (
        back ++ later,
        ap (λ l. replies [] (stale ++ l)) (sym all)
            ∙ ap (replies []) (sym (append_assoc stale sent remaining))
            ∙ ap (λ l. replies [] (l ++ remaining)) (sym requests)
            ∙ ap (replies []) (append_assoc handled held remaining)
            ∙ replies-both [] handled (held ++ remaining)
            ∙ ap (λ l. l ++ later) (sym answers)
            ∙ append_assoc got back later,
      )

  module _ (sys : MsgQueue) (packets : List BlePkt) (queue : sys.Q)
      (no_answers : sys.messages 2 queue ≡ []) {x : Exchange sys}
      (steps : Steps sys answer (start sys packets queue) x) where
    invariant : IsExchange sys (sys.messages 1 queue) packets x
    invariant =
        Steps-IsExchange sys (sys.messages 1 queue) packets steps
          (start-IsExchange sys packets queue no_answers)

    -- If a queue holds no answers at first, then after any steps of the two sides, in any order, what
    -- the radio has got are the loop's answers, in their order, to the requests that were left in the
    -- queue and after these to the radio's own packets. It has got as many as it has sent packets, or
    -- one less while it waits. So where requests are left, each packet gets the answer to an earlier
    -- one, and where none are, its own.
    pub got-in_order :
        (x.got ≡ take (length x.got) (replies [] (sys.messages 1 queue ++ packets)))
        × (length x.got + pending sys x.waiting ≡ length x.sent)
    got-in_order =
        let v = invariant in
        let (rest, e) =
          got-prefix (sys.messages 1 queue) x.sent x.remaining packets x.handled
            (x.holds ++ sys.messages 1 x.queue) x.got (sys.messages 2 x.queue) v.requests v.answers
            v.all in
        (sym (ap (take (length x.got)) e ∙ take-append x.got rest), v.turns)
