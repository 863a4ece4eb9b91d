-- ===== src/Mutator/Linked.antt =====
-- The three mutators, one of which is linked in, meet the interface.
use blueman_artifact.Prelude.{
  ℕ, ◌≤◌, ◌≡◌, refl, ap, ◌∙◌, arith, length, peek, ◌==◌, if◌then◌else◌, Bool, true, false,
  Bool-cases, inl, inr,
}
use blueman_artifact.Machine.{Machine, pure, rand}
use blueman_artifact.Machine.Total.{Returns, returns, Returns-and_then, Returns-mono}
use blueman_artifact.Machine.Touches.{rand_mod-ok}
use blueman_artifact.Packet.{IsPacket, sid, device_id, len, max_payload_len, len_at}
use blueman_artifact.Packet.Layout.{load-ok, peek-Frame, Frame-IsPacket}
use blueman_artifact.RandomMutator.Safety.{mutate_pkt-Result}
use blueman_artifact.AflMutator.Safety.{mutate_pkt-Truncated}
use blueman_artifact.FieldMutator.{mutate_strategy}
use blueman_artifact.FieldMutator.Safety.{mutate_strategy-Frame}
use blueman_artifact.FieldMutator.Selection.{
  Floats, Mode, Config, packet_prob, should_mutate_packet, random_prob, selective_25_75,
  selective_75_25, mixed_prob, invalid, fixed_prob_10,
}
use blueman_artifact.FieldMutator.Selection
use blueman_artifact.RandomMutator
use blueman_artifact.AflMutator
use blueman_artifact.Mutator.{Mutator, device_low}

-- A packet that keeps its device id keeps the low half of it.
pub same_device_low :
    {s t : Machine}
    → IsPacket s
    → IsPacket t
    → device_id t ≡ device_id s
    → device_low t ≡ device_low s
same_device_low {s} {t} v w e = omega (arith, e, v.bytes 4, v.bytes 5, w.bytes 4, w.bytes 5)

abbrev pub random_mutator : Mutator
random_mutator = record {
  mutate_pkt = RandomMutator.mutate_pkt;
  safe = λ s idx v lo hi short.
      Returns-mono (mutate_pkt-Result s idx v lo (omega arith) short)
        λ ret t r. (r.packet, r.route.same_sid, same_device_low v r.packet r.route.same_device);
}

abbrev pub afl_mutator : Mutator
afl_mutator = record {
  mutate_pkt = AflMutator.mutate_pkt;
  safe = λ s idx v lo hi short.
      Returns-mono (mutate_pkt-Truncated s v hi idx)
        λ ret t r. (r.packet, r.route.same_sid, same_device_low v r.packet r.route.same_device);
}

same_mem-IsPacket : (s t : Machine) → IsPacket s → t.mem ≡ s.mem → IsPacket t
same_mem-IsPacket s t v e = record { size = ap length e ∙ v.size; bytes = rw e v.bytes }

module _ (fl : Floats) where
  packet_prob-Returns :
      (mode : Mode) (c : Config fl) (idx : ℕ) (s : Machine)
      → Returns (λ p t. t.mem ≡ s.mem) (packet_prob fl mode c idx s)
  unfolding packet_prob
  packet_prob-Returns random_prob c idx s = rw (rand_mod-ok 91 s (omega arith)) (returns refl)
  packet_prob-Returns selective_25_75 c idx s = returns refl
  packet_prob-Returns selective_75_25 c idx s = returns refl
  packet_prob-Returns mixed_prob c idx s = returns refl
  packet_prob-Returns (invalid n) c idx s = returns refl
  packet_prob-Returns fixed_prob_10 c idx s = returns refl
  packet_prob-Returns _ c idx s = returns refl

  should_mutate_packet-Returns :
      (c : Config fl) (idx : ℕ) (s : Machine)
      → Returns (λ b t. t.mem ≡ s.mem) (should_mutate_packet fl c idx s)
  unfolding should_mutate_packet rand
  should_mutate_packet-Returns c idx s =
      Returns-and_then (packet_prob-Returns c.mode c idx s) λ p t e. returns e

  strategy-safe :
      (s t : Machine) (b : Bool)
      → IsPacket s
      → max_payload_len s ≤ 250
      → len s ≤ 258
      → t.mem ≡ s.mem
      → Returns
          (λ ret u. IsPacket u × (sid u ≡ sid s) × (device_low u ≡ device_low s))
          ((if b then mutate_strategy else pure 0) t)
  strategy-safe s t false v hi short e =
      returns (same_mem-IsPacket s t v e, ap (λ m. peek m 0 4) e, ap (λ m. peek m 4 2) e)
  strategy-safe s t true v hi short e =
      let w = same_mem-IsPacket s t v e in
      let same_limit : max_payload_len t ≡ max_payload_len s = ap (λ m. peek m 20 4) e in
      let same_len : len t ≡ len s = ap (λ m. peek m 16 4) e in
      Returns-mono (mutate_strategy-Frame t w (omega arith) (omega arith)) λ ret u p. (
        Frame-IsPacket p.1 w,
        peek-Frame 0 4 p.1 (omega arith) ∙ ap (λ m. peek m 0 4) e,
        peek-Frame 4 2 p.1 (omega arith) ∙ ap (λ m. peek m 4 2) e,
      )

  pub field_mutate_pkt-safe :
      (c : Config fl) (s : Machine) (idx : ℕ)
      → IsPacket s
      → max_payload_len s ≤ 250
      → len s ≤ 258
      → Returns
          (λ ret t. IsPacket t × (sid t ≡ sid s) × (device_low t ≡ device_low s))
          (Selection.mutate_pkt fl c idx s)
  unfolding Selection.mutate_pkt
  field_mutate_pkt-safe c s idx v hi short =
      rw (load-ok 4 len_at s (omega (arith, v.size))) (elim (Bool-cases (len s == 5)) [
        | inl empty ↦ rw empty (returns (v, refl, refl))
        | inr more ↦ rw more (
            Returns-and_then (should_mutate_packet-Returns c idx s)
              λ b t e. strategy-safe s t b v hi short e)
      ])

  abbrev pub field_mutator : Config fl → Mutator
  field_mutator c = record {
    mutate_pkt = Selection.mutate_pkt fl c;
    safe = λ s idx v lo hi short. field_mutate_pkt-safe c s idx v hi short;
  }
