-- ===== src/RandomMutator/Safety.antt =====
-- The random mutator keeps a packet well formed, whatever the random numbers are.
use blueman_artifact.Prelude.{
  if◌then◌else◌, ℕ, ◌+◌, ◌%◌, ◌≤◌, ◌≡◌, refl, ap, ◌∙◌, ◌⊎◌, inl, inr, leb, ◌==◌, arith, u32,
  sub_u32, peek, length, Bool, true, false, Bool-cases, peek-poke_self,
}
use blueman_artifact.Machine.{drawn, Machine, ◌>>=◌}
use blueman_artifact.Machine.Total.{Returns, returns, Returns-and_then, Returns-mono}
use blueman_artifact.Machine.Touches.{rand_mod-ok, Touches-rand_mod}
use blueman_artifact.Packet.{
  IsPacket, len, max_payload_len, mutated, len_at, Layer, get_upper_layer_type,
}
use blueman_artifact.Packet.Layout.{
  SameRoute, SameRoute-drawn, SameRoute-trans, Frame-SameRoute, Frame-IsPacket, peek-Frame, load-ok,
  store-ok, poke-Frame,
}
use blueman_artifact.Packet.Kind.{
  load_max_payload_len-ok, layer_of, layer_of-load, is_data_packet-ok,
}
use blueman_artifact.RandomMutator.{advertising_mutator, data_mutator, mark_mutated, mutate_pkt}
use blueman_artifact.RandomMutator.Rewrite.{Fits, choose_len-Touches, Sent, rewrite-Sent}

-- Either nothing is written, or the packet is rewritten whole.
abbrev pub Outcome : Machine → Machine → ℕ → Type 0
Outcome s t ret = ((ret ≡ 0) × (t.mem ≡ s.mem)) ⊎ Sent s t ret

module _ (s : Machine) (v : IsPacket s) (limit : Fits (max_payload_len s)) where
  data_mutator-Outcome : (l : Layer) → Returns (λ ret t. Outcome s t ret) (data_mutator l s)
  unfolding data_mutator
  data_mutator-Outcome l =
      rw (load-ok 4 len_at s (omega (arith, v.size))) (elim (Bool-cases (leb (len s) 5)) [
        | inl small ↦ rw small (returns (inl (refl, refl)))
        | inr more ↦
            rw (more, load_max_payload_len-ok s v (omega arith))
              (Returns-and_then
                ((Touches-rand_mod {lo = 24} {hi = 279} {n = max_payload_len s} (omega arith)).run s
                  (omega (arith, v.size)))
                λ r t p.
                  Returns-mono
                    (rewrite-Sent s t (u32 (r + 1)) (Frame-IsPacket p.1 v)
                      (Frame-SameRoute p.1 (omega arith)) (omega arith))
                    λ ret u q. inr q)
      ])

  advertising_mutator-Outcome :
      len s ≤ 258 → Returns (λ ret t. Outcome s t ret) (advertising_mutator s)
  unfolding advertising_mutator
  advertising_mutator-Outcome short =
      rw (load-ok 4 len_at s (omega (arith, v.size))) (elim (Bool-cases (leb (len s) 5)) [
        | inl small ↦ rw small (returns (inl (refl, refl)))
        | inr more ↦
            rw (more, load_max_payload_len-ok s v (omega arith))
              (Returns-and_then
                ((choose_len-Touches (sub_u32 (sub_u32 (len s) 2) 3) (max_payload_len s)
                    (ground arith) limit).run
                  s (omega (arith, v.size)))
                λ n t p.
                  Returns-mono
                    (rewrite-Sent s t n (Frame-IsPacket p.1 v) (Frame-SameRoute p.1 (omega arith))
                      p.0)
                    λ ret u q. inr q)
      ])

  chosen-Outcome :
      len s ≤ 258
      → (data_pkt : Bool)
      → Returns
          (λ ret t. Outcome s t ret)
          ((if data_pkt then get_upper_layer_type >>= data_mutator else advertising_mutator) s)
  chosen-Outcome short true =
      rw (layer_of-load s v)
        (data_mutator-Outcome (layer_of (peek s.mem 24 1) (peek s.mem 25 1) (peek s.mem 28 2)))
  chosen-Outcome short false = advertising_mutator-Outcome short

-- What a caller of the mutator may rely on: nothing is written and 0 is returned, or the result is
-- the new payload length, both length fields agree with it, and the packet is marked.
pub record Result (s t : Machine) (ret : ℕ) : Type 0 where
  pub packet : IsPacket t
  pub route : SameRoute s t
  pub effect :
      ((ret ≡ 0) × (t.mem ≡ s.mem))
      ⊎ ((1 ≤ ret) × (ret ≤ 253) × (len t ≡ ret + 5) × (peek t.mem 25 1 ≡ ret) × (mutated t ≡ 1))

same_mem-Result : (s t : Machine) (ret : ℕ) → IsPacket s → ret ≡ 0 → t.mem ≡ s.mem → Result s t ret
same_mem-Result s t ret v z e = record {
  packet = record { size = ap length e ∙ v.size; bytes = rw e v.bytes };
  route = record {
    same_sid = ap (λ m. peek m 0 4) e;
    same_device = ap (λ m. peek m 4 4) e;
    same_address = ap (λ m. peek m 12 4) e;
    same_limit = ap (λ m. peek m 20 4) e;
  };
  effect = inl (z, e);
}

mark_mutated-Result :
    (s t : Machine) (ret : ℕ)
    → IsPacket s
    → Outcome s t ret
    → Returns (λ r u. Result s u r) (mark_mutated ret t)
unfolding mark_mutated
mark_mutated-Result s t ret v (inl (z, e)) = rw z (returns (same_mem-Result s t 0 v refl e))
mark_mutated-Result s t ret v (inr sent) =
    let room : 8 + 4 ≤ length t.mem = omega (arith, sent.packet) in
    let mark = poke-Frame 4 8 1 t in
    let nonzero : (ret == 0) ≡ false = ground (arith, sent.ret_range) in
    rw (nonzero, store-ok 4 8 1 t room)
      (returns (record {
        packet = Frame-IsPacket mark sent.packet;
        route = SameRoute-trans sent.route (Frame-SameRoute mark (omega arith));
        effect = inr (
          sent.ret_range.0,
          sent.ret_range.1,
          peek-Frame 16 4 mark (omega arith) ∙ sent.length_field,
          peek-Frame 25 1 mark (omega arith) ∙ sent.length_byte,
          peek-poke_self 4 t.mem 8 1 room (omega arith),
        );
      }))

-- From every packet with a payload limit of 1 to 253 bytes and a length of at most 258, and for every
-- run of the random numbers, `mutate_pkt` of the random mutator returns, with no access outside the
-- packet. It keeps the sequence id, the device, the address and the limit. Either it returns 0
-- and writes nothing, or it returns the new payload length, which is 1 to 253, the `len` field is
-- that plus 5, the length byte of the header is that, and `mutated` is 1.
pub mutate_pkt-Result :
    (s : Machine) (idx : ℕ)
    → IsPacket s
    → 1 ≤ max_payload_len s
    → max_payload_len s ≤ 253
    → len s ≤ 258
    → Returns (λ ret t. Result s t ret) (mutate_pkt idx s)
unfolding mutate_pkt
mutate_pkt-Result s idx v lo hi short =
    rw (rand_mod-ok 100 s (omega arith)) (elim (Bool-cases (leb 98 (s.draws 0 % 100))) [
      | inl skip ↦ rw skip (returns (same_mem-Result s (drawn s) 0 v refl refl))
      | inr go ↦
          let t : Machine = drawn s in
          let w : IsPacket t = record { size = v.size; bytes = v.bytes } in
          rw (go, is_data_packet-ok t w)
            (Returns-mono
              (Returns-and_then (chosen-Outcome t w (lo, hi) short _)
                λ ret u p. mark_mutated-Result t u ret w p)
              λ ret u q. record {
                packet = q.packet;
                route = SameRoute-trans (SameRoute-drawn s) q.route;
                effect = q.effect;
              })
    ])
