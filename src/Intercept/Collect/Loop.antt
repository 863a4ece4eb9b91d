-- ===== src/Intercept/Collect/Loop.antt =====
-- The loop of the first run: what it records and answers.
use blueman_artifact.Prelude.{
  ℕ, suc, ◌+◌, ◌≤◌, ◌<◌, ◌≡◌, ◌⊎◌, inl, inr, refl, sym, ap, ◌∙◌, arith, ◌==◌, ltb, leb, Bool,
  if◌then◌else◌, true, false, Bool-cases, List, [], ◌∷◌, ◌++◌, length, sub_u32,
}
use mathlib.Core.List.{append_assoc}
use blueman_artifact.PktRecord.{BlePkt}
use blueman_artifact.Ending.{done}
use blueman_artifact.Intercept.Collect.{
  Arrival, Collector, record_pkt, send_ack, stop_or_go, collect_step, collect_loop,
}
use blueman_artifact.Intercept.Collect.Gathering.{
  targets, pkts, coverage_of, last_coverage, last_coverage-snoc, length-snoc, Gathered, count-seen,
  record_pkt-Gathered,
}

-- `d` after the tests of the loop has what `c` recorded and sent.
record SameRecord (c d : Collector) : Type 0 where
  same_rec : d.pkt_rec ≡ c.pkt_rec
  same_acks : d.acks ≡ c.acks
  same_delta : d.max_delta ≡ c.max_delta
  same_index : d.max_delta_index ≡ c.max_delta_index

SameRecord-tests :
    (c : Collector) (cnt coverage_count : ℕ)
    → SameRecord c (record c { cnt = cnt; coverage_count = coverage_count })
SameRecord-tests c cnt coverage_count = record {
  same_rec = refl;
  same_acks = refl;
  same_delta = refl;
  same_index = refl;
}

-- After a packet of the target the loop stops, or the record has room and the count is noted.
stop_or_go-target :
    (limit : ℕ) (a : Arrival) (c : Collector)
    → (a.pkt.device_id == 1) ≡ true
    → (stop : Bool) × (d : Collector) × (stop_or_go limit a c ≡ (stop, d))
      × SameRecord c d
      × ((stop ≡ true)
          ⊎ ((stop ≡ false) × (c.pkt_rec.count < limit) × (d.coverage_count ≡ coverage_of a)))
unfolding stop_or_go
stop_or_go-target limit a c e =
    let same = SameRecord-tests c in
    elim (Bool-cases (leb limit c.pkt_rec.count)) [
      | inl full ↦ (true, c, rw (e, full) refl, same c.cnt c.coverage_count, inl refl)
      | inr room ↦
          let below : c.pkt_rec.count < limit = ground (arith, room) in
          elim (Bool-cases (leb (coverage_of a) c.coverage_count)) [
            | inl flat ↦ elim (Bool-cases (ltb 80 (c.cnt + 1))) [
              | inl enough ↦ (
                true,
                record c { cnt = c.cnt + 1 },
                rw (e, room, flat, enough) refl,
                same (c.cnt + 1) c.coverage_count,
                inl refl,
              )
              | inr more ↦ (
                false,
                record c { cnt = c.cnt + 1; coverage_count = coverage_of a },
                rw (e, room, flat, more) refl,
                same (c.cnt + 1) (coverage_of a),
                inr (refl, below, refl),
              )
            ]
            | inr grown ↦ (
              false,
              record c { coverage_count = coverage_of a },
              rw (e, room, grown) refl,
              same c.cnt (coverage_of a),
              inr (refl, below, refl),
            )
          ]
    ]

-- Any other packet goes on, if there is room.
collect_step-other :
    (limit : ℕ) (a : Arrival) (c : Collector)
    → (a.pkt.device_id == 1) ≡ false
    → c.pkt_rec.count < limit
    → collect_step limit a c ≡ (false, send_ack a.pkt c)
unfolding collect_step stop_or_go
collect_step-other limit a c e lt =
    let room : leb limit c.pkt_rec.count ≡ false = ground arith in rw (e, room) refl

SameRecord-Gathered :
    (limit : ℕ) (seen : List Arrival) (c d : Collector)
    → Gathered limit seen c
    → SameRecord c d
    → Gathered limit seen d
SameRecord-Gathered limit seen c d g same = record {
  valid = rw same.same_rec g.valid;
  room = rw same.same_rec g.room;
  word = rw same.same_rec g.word;
  held = rw same.same_rec g.held;
  greatest = rw (same.same_delta, same.same_index) g.greatest;
}

-- From `c` to `d` the arrivals `consumed` were recorded and answered.
pub record Collected (limit : ℕ) (seen consumed : List Arrival) (c d : Collector) : Type 0 where
  pub gathered : Gathered limit (seen ++ targets consumed) d
  pub at_least : 1 ≤ length (seen ++ targets consumed)
  pub at_most : length (seen ++ targets consumed) ≤ limit
  pub answered : d.acks ≡ c.acks ++ pkts consumed

Gathered-send_ack :
    (limit : ℕ) (seen : List Arrival) (p : BlePkt) (c : Collector)
    → Gathered limit seen c
    → Gathered limit seen (send_ack p c)
Gathered-send_ack limit seen p c g = record {
  valid = g.valid;
  room = g.room;
  word = g.word;
  held = g.held;
  greatest = g.greatest;
}

acks-record_pkt : (a : Arrival) (c : Collector) → (record_pkt a c).acks ≡ c.acks
unfolding record_pkt
acks-record_pkt a c =
    elim (Bool-cases (ltb c.max_delta (sub_u32 (coverage_of a) c.coverage_count))) [
      | inl more ↦ rw more refl
      | inr less ↦ rw less refl
    ]

collect_step-target :
    (limit : ℕ) (seen : List Arrival) (a : Arrival) (c : Collector)
    → Gathered limit seen c
    → c.coverage_count ≡ last_coverage 0 seen
    → c.pkt_rec.count < limit
    → (a.pkt.device_id == 1) ≡ true
    → (stop : Bool) × (d : Collector) × (collect_step limit a c ≡ (stop, d))
      × Gathered limit (seen ++ (a ∷ [])) d
      × (d.acks ≡ c.acks ++ (a.pkt ∷ []))
      × ((stop ≡ true)
          ⊎ ((stop ≡ false) × (d.pkt_rec.count < limit) × (d.coverage_count ≡ coverage_of a)))
unfolding collect_step
collect_step-target limit seen a c g base lt e =
    let c' = send_ack a.pkt (record_pkt a c) in
    let (stop, d, run, same, more) = stop_or_go-target limit a c' e in
    let g' =
      Gathered-send_ack limit (seen ++ (a ∷ [])) a.pkt (record_pkt a c)
        (record_pkt-Gathered limit seen c a g base lt) in
    (
      stop,
      d,
      ap (λ b. stop_or_go limit a (send_ack a.pkt (if b then record_pkt a c else c))) e ∙ run,
      SameRecord-Gathered limit (seen ++ (a ∷ [])) c' d g' same,
      same.same_acks ∙ ap (λ l. l ++ (a.pkt ∷ [])) (acks-record_pkt a c),
      elim more [ inl y ↦ inl y | inr (n, below, new) ↦ inr (n, rw same.same_rec below, new) ],
    )

Collected-target :
    (limit : ℕ) (seen consumed : List Arrival) (a : Arrival) (c d e : Collector)
    → (a.pkt.device_id == 1) ≡ true
    → d.acks ≡ c.acks ++ (a.pkt ∷ [])
    → Collected limit (seen ++ (a ∷ [])) consumed d e
    → Collected limit seen (a ∷ consumed) c e
Collected-target limit seen consumed a c d e t acks h =
    let same : seen ++ targets (a ∷ consumed) ≡ (seen ++ (a ∷ [])) ++ targets consumed =
      rw t (sym (append_assoc seen (a ∷ []) (targets consumed))) in
    record {
      gathered = rw same h.gathered;
      at_least = rw same h.at_least;
      at_most = rw same h.at_most;
      answered =
          h.answered
          ∙ ap (λ l. l ++ pkts consumed) acks
          ∙ append_assoc c.acks (a.pkt ∷ []) (pkts consumed);
    }

-- The loop from any point on.
pub collect_loop-Collected :
    (limit : ℕ) (inbox seen : List Arrival) (c : Collector)
    → Gathered limit seen c
    → c.coverage_count ≡ last_coverage 0 seen
    → c.pkt_rec.count < limit
    → limit ≤ length seen + length (targets inbox)
    → (consumed : List Arrival) × (rest : List Arrival) × (d : Collector) × (inbox
        ≡ consumed ++ rest)
      × (collect_loop limit inbox c ≡ done (rest, d))
      × Collected limit seen consumed c d
unfolding collect_loop
collect_loop-Collected limit [] seen c g base lt enough =
    absurd (omega (arith, count-seen limit seen c g))
collect_loop-Collected limit (a ∷ inbox) seen c g base lt enough =
    elim (Bool-cases (a.pkt.device_id == 1)) [
      | inr e ↦
          let enough' : limit ≤ length seen + length (targets inbox) = simp e at enough in
          let (consumed, rest, d, split, run, h) =
            collect_loop-Collected limit inbox seen (send_ack a.pkt c)
              (Gathered-send_ack limit seen a.pkt c g) base lt enough' in
          (
            a ∷ consumed,
            rest,
            d,
            ap (λ l. a ∷ l) split,
            rw (collect_step-other limit a c e lt) run,
            record {
              gathered = rw e h.gathered;
              at_least = rw e h.at_least;
              at_most = rw e h.at_most;
              answered = h.answered ∙ append_assoc c.acks (a.pkt ∷ []) (pkts consumed);
            },
          )
      | inl e ↦
          let (stop, d, run, g', acks, more) = collect_step-target limit seen a c g base lt e in
          elim more [
            | inl y ↦ (
              a ∷ [],
              inbox,
              d,
              refl,
              rw (run, y) refl,
              record {
                gathered = rw e g';
                at_least = rw e (omega (arith, length-snoc seen a));
                at_most = rw e (omega (arith, length-snoc seen a, count-seen limit seen c g));
                answered = acks;
              },
            )
            | inr (n, below, new) ↦
                let enough' : limit ≤ length (seen ++ (a ∷ [])) + length (targets inbox) =
                  rw (length-snoc seen a) (
                    let h : limit ≤ length seen + suc (length (targets inbox)) = simp e at enough in
                    omega arith) in
                let (consumed, rest, d', split, later, h) =
                  collect_loop-Collected limit inbox (seen ++ (a ∷ [])) d g'
                    (new ∙ sym (last_coverage-snoc 0 seen a)) below enough' in
                (
                  a ∷ consumed,
                  rest,
                  d',
                  ap (λ l. a ∷ l) split,
                  rw (run, n) later,
                  Collected-target limit seen consumed a c d d' e acks h,
                )
          ]
    ]
