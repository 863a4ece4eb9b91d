-- ===== src/Intercept/Alarm.antt =====
-- The two seconds of `alarm` in `intercept_ble_packet_for_fuzz` of blueman-main/btfuzz.c, and
-- `timeouthandler`: a run that waits for a packet that does not come, or that has got into `while(1)`,
-- is interrupted by the signal, whose handler kills the target and exits. A run that returns is taken
-- to return in time.
use blueman_artifact.Prelude.{
  ℕ, ◌+◌, ◌<◌, ◌≤◌, ◌≡◌, ◌≢◌, ◌⊎◌, inl, inr, refl, ap, ◌∙◌, arith, ◌==◌, ltb, if◌then◌else◌, true,
  false, Bool-cases, List, [], ◌∷◌, ◌++◌,
}
use blueman_artifact.PktRecord.{BlePkt, PktRecord, add_pkt_to_seq_buf}
use blueman_artifact.Mutator.{Mutator}
use blueman_artifact.Ending.{Ending, done, stuck, fault, exited}
use blueman_artifact.Processes.{Life, absent, alive, ended, System}
use blueman_artifact.Intercept.{
  Session, recv_ble_pkt_ack, fuzz_round, fuzz_loop, pass_on, stop_target,
  intercept_ble_packet_for_fuzz,
}
use blueman_artifact.Intercept.Replays.{AllCanMutate, IsCorpus, replay_pkt-ok}

-- The packets of the target (device 1) among those that arrive.
abbrev pub from_target : List BlePkt → ℕ
from_target [] = 0
from_target (p ∷ ps) = if p.device_id == 1 then from_target ps + 1 else from_target ps

module _ (sys : System) where
  -- How the process of the interceptor comes to its `exit(0)`.
  pub data Interception : Type 0 where
    returned : ℕ → Session → Interception
    timed_out : sys.S → Interception

  unfoldable pub timeouthandler : (target_pid : ℕ) → sys.S → Interception
  timeouthandler target_pid st = timed_out (sys.kill target_pid st).1

  -- What the signal makes of the ways in which a run can end.
  abbrev pub alarm :
      (target_pid : ℕ) → sys.S → Ending (ℕ × List BlePkt × Session) → Ending Interception
  alarm target_pid st (done (i, rest, t)) = done (returned i t)
  alarm target_pid st stuck = done (timeouthandler target_pid st)
  alarm target_pid st fault = fault
  alarm target_pid st exited = exited

  unfoldable pub intercept_with_alarm :
      Mutator → PktRecord → List BlePkt → Session → (target_pid : ℕ) → sys.S → Ending Interception
  unfolding timeouthandler
  intercept_with_alarm m corpus inbox s target_pid st =
      alarm target_pid st (intercept_ble_packet_for_fuzz m corpus inbox s)

module _ (m : Mutator) (corpus : PktRecord) (ready : IsCorpus corpus) where
  -- How the loop ends, with at most so many packets of the target.
  abbrev Looped : ℕ → Ending (ℕ × List BlePkt × Session) → Type 0
  Looped most x =
      (x ≡ stuck)
      ⊎ ((rest : List BlePkt) × (t : Session) × (x ≡ done (corpus.count, rest, t))
          × (corpus.count ≤ most))

  Looped-mono : (a b : ℕ) (x : Ending (ℕ × List BlePkt × Session)) → a ≤ b → Looped a x → Looped b x
  Looped-mono a b x le (inl e) = inl e
  Looped-mono a b x le (inr (rest, t, e, enough)) = inr (rest, t, e, omega arith)

  fuzz_loop-stops :
      (inbox : List BlePkt) (i : ℕ) (s : Session)
      → i ≡ corpus.count
      → fuzz_loop m corpus inbox i s ≡ done (corpus.count, inbox, s)
  unfolding fuzz_loop
  fuzz_loop-stops [] i s e =
      let over : ltb i corpus.count ≡ false = ground arith in rw over (ap (λ k. done (k, [], s)) e)
  fuzz_loop-stops (p ∷ ps) i s e =
      let over : ltb i corpus.count ≡ false = ground arith in
      rw over (ap (λ k. done (k, p ∷ ps, s)) e)

  fuzz_loop-Looped :
      (inbox : List BlePkt) (i : ℕ) (s : Session)
      → AllCanMutate inbox
      → i ≤ corpus.count
      → Looped (i + from_target inbox) (fuzz_loop m corpus inbox i s)
  unfolding fuzz_loop fuzz_round
  fuzz_loop-Looped [] i s c le = elim (Bool-cases (ltb i corpus.count)) [
    | inr over ↦ inr ([], s, fuzz_loop-stops [] i s (ground arith), ground arith)
    | inl going ↦ inl (rw going refl)
  ]
  fuzz_loop-Looped (p ∷ ps) i s c le = elim (Bool-cases (ltb i corpus.count)) [
    | inr over ↦ inr (p ∷ ps, s, fuzz_loop-stops (p ∷ ps) i s (ground arith), ground arith)
    | inl going ↦ elim (Bool-cases (p.device_id == 1)) [
      | inr d ↦ rw (going, d) (fuzz_loop-Looped ps i (recv_ble_pkt_ack p s) c.1 le)
      | inl d ↦
          let lt : i < corpus.count = ground arith in
          let (q, draws, one, w, kept, names) =
            replay_pkt-ok m corpus ready i p s lt (ground arith) c.0 in
          let s' : Session = record {
            pkt_rec = (add_pkt_to_seq_buf s.pkt_rec q).1;
            packet_count = (add_pkt_to_seq_buf s.pkt_rec q).1.count;
            acks = s.acks ++ (q ∷ []);
            draws = draws;
          } in
          let later = fuzz_loop-Looped ps (i + 1) s' c.1 (omega arith) in
          rw (going, d, one)
            (Looped-mono (i + 1 + from_target ps) (i + (from_target ps + 1))
              (fuzz_loop m corpus ps (i + 1) s') (omega arith) later)
    ]
  ]

  -- How all of it ends.
  intercept-Looped :
      (inbox : List BlePkt) (s : Session)
      → AllCanMutate inbox
      → Looped (from_target inbox) (intercept_ble_packet_for_fuzz m corpus inbox s)
  unfolding intercept_ble_packet_for_fuzz pass_on stop_target
  intercept-Looped inbox s c = elim (fuzz_loop-Looped inbox 0 s c (omega arith)) [
    | inl e ↦ inl (rw e refl)
    | inr ([], t, e, enough) ↦ inl (rw e refl)
    | inr (a ∷ [], t, e, enough) ↦ inl (rw e refl)
    | inr (a ∷ (b ∷ rest), t, e, enough) ↦ inr (
      rest,
      record t { acks = (t.acks ++ (a ∷ [])) ++ (record b { mutated = 2 } ∷ []) },
      rw e refl,
      omega arith,
    )
  ]

  module _ (sys : System) where
    after-kill :
        (st : sys.S) (p : ℕ) → sys.life p st ≢ absent → sys.life p (sys.kill p st).1 ≢ alive
    after-kill st p there h =
        let here : (p == p) ≡ true = ground arith in
        let now : sys.life p (sys.kill p st).1 ≡ ended =
          (sys.killed st p there).1 p ∙ rw here refl in
        absurd (cc)

    killed-ends : (st : sys.S) (p : ℕ) → sys.life p (sys.kill p st).1 ≢ alive
    killed-ends st p = by_life (sys.life p st) refl
      where
        by_life : (l : Life) → sys.life p st ≡ l → sys.life p (sys.kill p st).1 ≢ alive
        by_life absent e h =
            let same : sys.life p (sys.kill p st).1 ≡ absent =
              ap (λ x. sys.life p x.1) (sys.not_killed st p e) ∙ e in
            absurd (cc)
        by_life alive e h = after-kill st p (λ gone. absurd (cc)) h
        by_life ended e h = after-kill st p (λ gone. absurd (cc)) h

    -- For a corpus of well formed packets that name their device, any mutator that meets the
    -- interface, and any packets that arrive well formed, with a payload limit of 1 to 250 and a length
    -- of at most 258, however many they are and whatever the random numbers, where the alarm ends the
    -- runs that would not return and no others: the process of the interceptor comes to its `exit(0)`
    -- without an access outside an array. Either the loop has returned the number of packets of the
    -- corpus, and as many packets of the target have come; or the alarm has ended it, and the target
    -- does not run.
    pub intercept_with_alarm-ends :
        (inbox : List BlePkt) (s : Session) (target_pid : ℕ) (st : sys.S)
        → AllCanMutate inbox
        → ((t : Session) × (intercept_with_alarm sys m corpus inbox s target_pid st
              ≡ done (returned corpus.count t))
            × (corpus.count ≤ from_target inbox))
          ⊎ ((st' : sys.S) × (intercept_with_alarm sys m corpus inbox s target_pid st
                ≡ done (timed_out st'))
              × (sys.life target_pid st' ≢ alive))
    unfolding intercept_with_alarm timeouthandler
    intercept_with_alarm-ends inbox s target_pid st c = elim (intercept-Looped inbox s c) [
      | inl e ↦ inr (_, ap (alarm sys target_pid st) e, killed-ends st target_pid)
      | inr (rest, t, e, enough) ↦ inl (t, ap (alarm sys target_pid st) e, enough)
    ]
