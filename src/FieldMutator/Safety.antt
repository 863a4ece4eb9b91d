-- ===== src/FieldMutator/Safety.antt =====
-- `mutate_strategy` of the field mutator: no access outside the packet, and what a caller gets.
use blueman_artifact.Prelude.{
  ℕ, ◌-◌, ◌≤◌, ◌<◌, ◌≡◌, ◌≢◌, ◌⊎◌, inl, inr, refl, sym, ap, ◌∙◌, ◌==◌, arith, u8, Bool, true, false,
  Bool-cases, if◌then◌else◌, peek, poke, peek-poke_self, not, ◌||◌,
}
use blueman_artifact.Machine.{Machine, ok}
use blueman_artifact.Machine.Total.{Returns, returns, Returns-and_then, Returns-mono}
use blueman_artifact.Machine.Touches.{Frame, Frame-refl, Frame-trans, Frame-widen}
use blueman_artifact.Packet.{
  IsPacket, len, max_payload_len, mutated, address, len_at, mutated_at, att, sm,
}
use blueman_artifact.Packet.Layout.{
  SameRoute, SameRoute-trans, Frame-SameRoute, Frame-IsPacket, peek-Frame, load-ok, store-ok,
  poke-Frame,
}
use blueman_artifact.Packet.Kind.{layer_of, is_data_packet-ok}
use blueman_artifact.FieldMutator.{mutate_data, mutate_advertising, mark, mutate_strategy}
use blueman_artifact.FieldMutator.Region.{Flag}
use blueman_artifact.FieldMutator.Body.{
  Resized, Rewritten, mutate_len-Resized, mutate_advertising-Rewritten, mutate_data-Rewritten,
  mutate_advertising-Frame, mutate_data-Frame,
}

-- What `mark` does, by whether the mutators reported a change and what they were told the length was.
mark-ok :
    (t : Machine) (old ret : ℕ)
    → IsPacket t
    → mark old ret t
      ≡ ok ret
          (if not (ret == 0) || not (old == len t) then record t { mem = poke t.mem 8 4 1 } else t)
unfolding mark
mark-ok t old ret v = ground (
  arith,
  load-ok 4 len_at t (omega (arith, v.size)),
  store-ok 4 mutated_at 1 t (omega (arith, v.size)),
)

-- What a caller of `mutate_strategy` gets for an LL, L2CAP or advertising packet.
pub record Result (s t : Machine) (ret : ℕ) : Type 0 where
  pub packet : IsPacket t
  pub route : SameRoute s t
  pub long : 5 ≤ len t
  pub short : len t ≤ 258
  pub length_byte : peek t.mem 25 1 ≡ len t - 5
  pub marked : ret ≢ 0 → mutated t ≡ 1
  pub unmarked : ret ≡ 0 → len t < 256 → mutated t ≡ mutated s

mark-Result :
    (s r t : Machine) (ret : ℕ)
    → Resized s r
    → 5 ≤ len s
    → Rewritten r t ret
    → Returns (λ f u. Result s u f) (mark (u8 (len r)) ret t)
mark-Result s r t ret resized long p =
    let same : len t ≡ len r = peek-Frame 16 4 p.frame (omega arith) in
    let set_mark = poke-Frame 4 8 1 t in
    let route : SameRoute s t =
      SameRoute-trans (Frame-SameRoute resized.frame (omega arith))
        (Frame-SameRoute p.frame (omega arith)) in
    rw (mark-ok t (u8 (len r)) ret p.packet)
      (elim (Bool-cases (not (ret == 0) || not (u8 (len r) == len t))) [
        | inl c ↦ rw c (
            returns (record {
              packet = Frame-IsPacket set_mark p.packet;
              route = SameRoute-trans route (Frame-SameRoute set_mark (omega arith));
              long = omega (arith, same, resized.long long, peek-Frame 16 4 set_mark (omega arith));
              short = omega (arith, same, resized.short, peek-Frame 16 4 set_mark (omega arith));
              length_byte =
                  peek-Frame 25 1 set_mark (omega arith)
                  ∙ p.length_byte
                  ∙ ap (λ n. n - 5) (sym (peek-Frame 16 4 set_mark (omega arith)));
              marked = λ h. peek-poke_self 4 t.mem 8 1 (omega (arith, p.packet)) (omega arith);
              unmarked = λ h small.
                  let small' : len t < 256 =
                    omega (arith, peek-Frame 16 4 set_mark (omega arith)) in
                  absurd (ground arith);
            }))
        | inr c ↦ rw c (
            returns (record {
              packet = p.packet;
              route = route;
              long = omega (arith, same, resized.long long);
              short = omega (arith, same, resized.short);
              length_byte = p.length_byte;
              marked = λ h. absurd (ground arith);
              unmarked = λ h small.
                  peek-Frame 8 4 p.frame (omega arith) ∙ peek-Frame 8 4 resized.frame (omega arith);
            }))
      ])

-- An advertising packet, or a data packet of the LL or the L2CAP layer.
abbrev pub IsPlain : Machine → Type 0
IsPlain s =
    (address s ≡ 0x8e89bed6)
    ⊎ ((layer_of (peek s.mem 24 1) (peek s.mem 25 1) (peek s.mem 28 2) ≢ att)
        × (layer_of (peek s.mem 24 1) (peek s.mem 25 1) (peek s.mem 28 2) ≢ sm))

-- A new length does not change the kind.
IsPlain-Resized : (s r : Machine) → Resized s r → IsPlain s → IsPlain r
IsPlain-Resized s r z (inl e) = inl (peek-Frame 12 4 z.frame (omega arith) ∙ e)
IsPlain-Resized s r z (inr (a, b)) =
    let e₁ : peek r.mem 24 1 ≡ peek s.mem 24 1 = peek-Frame 24 1 z.frame (omega arith) in
    let e₂ : peek r.mem 25 1 ≡ peek s.mem 25 1 = peek-Frame 25 1 z.frame (omega arith) in
    let e₃ : peek r.mem 28 2 ≡ peek s.mem 28 2 = peek-Frame 28 2 z.frame (omega arith) in
    inr (rw (e₁, e₂, e₃) a, rw (e₁, e₂, e₃) b)

body-Rewritten :
    (s r : Machine)
    → Resized s r
    → 5 ≤ len s
    → IsPlain s
    → Returns
        (λ ret t. Rewritten r t ret)
        ((if (if address r == 0x8e89bed6 then false else true)
            then mutate_data
            else mutate_advertising)
          r)
body-Rewritten s r z long kind = elim (Bool-cases (address r == 0x8e89bed6)) [
  | inl e ↦ rw e (mutate_advertising-Rewritten r z.packet z.short (z.long long))
  | inr e ↦ rw e (split e (IsPlain-Resized s r z kind))
]
  where
    split :
        (address r == 0x8e89bed6) ≡ false
        → IsPlain r
        → Returns (λ ret t. Rewritten r t ret) (mutate_data r)
    split e (inl a) = absurd (ground arith)
    split e (inr (a, b)) = mutate_data-Rewritten r z.packet z.short (z.long long) a b

-- Whichever layer, `mark` writes its four bytes at most.
mark-Frame :
    (t : Machine) (old ret : ℕ)
    → IsPacket t
    → Returns (λ f u. (f ≡ ret) × Frame 6 279 t u) (mark old ret t)
mark-Frame t old ret v =
    rw (mark-ok t old ret v) (returns (refl, written (not (ret == 0) || not (old == len t))))
  where
    written : (b : Bool) → Frame 6 279 t (if b then record t { mem = poke t.mem 8 4 1 } else t)
    written true = Frame-widen (omega arith) (omega arith) (poke-Frame 4 8 1 t)
    written false = Frame-refl 6 279 t

module _ (s : Machine) (v : IsPacket s) (limit : max_payload_len s ≤ 253)
    (short : len s ≤ 258) where
  -- For every packet whose payload limit is at most 253 and whose length is at most 258, ATT and SM
  -- packets included, and for every run of the random numbers, `mutate_strategy` of the field
  -- mutator returns 0 or 1 with no access outside the `BLE_pkt`, and does not write its first 6
  -- bytes.
  pub mutate_strategy-Frame : Returns (λ ret t. (ret ≤ 1) × Frame 6 279 s t) (mutate_strategy s)
  unfolding mutate_strategy
  mutate_strategy-Frame = Returns-and_then (mutate_len-Resized s v limit short) λ a r z.
      rw (load-ok 4 len_at r (omega (arith, z.packet)), is_data_packet-ok r z.packet)
        (Returns-and_then
          (body r z.packet z.short (if address r == 0x8e89bed6 then false else true))
          λ ret t p.
            Returns-mono (mark-Frame t (u8 (len r)) ret (Frame-IsPacket p.1 z.packet)) λ f u q. (
              omega (arith, q.0, p.0),
              Frame-trans (Frame-widen (omega arith) (omega arith) z.frame) (Frame-trans p.1 q.1),
            ))
    where
      body :
          (r : Machine)
          → IsPacket r
          → len r ≤ 258
          → (b : Bool)
          → Returns
              (λ ret t. Flag ret × Frame 6 279 r t)
              ((if b then mutate_data else mutate_advertising) r)
      body r w le true = mutate_data-Frame r w le
      body r w le false = mutate_advertising-Frame r w le

  -- For an advertising packet, or a data packet of the LL or L2CAP layer, under the same bounds and
  -- with a length of at least 5, `mutate_strategy` returns, keeps the sequence id, the device, the
  -- address and the limit, leaves a length of 5 to 258 with the header's length byte 5 below it,
  -- and sets `mutated` to 1 if it returns other than 0. If it returns 0 and the new length is below
  -- 256, it leaves `mutated` alone, also where the length has changed.
  pub mutate_strategy-Result :
      5 ≤ len s → IsPlain s → Returns (λ ret t. Result s t ret) (mutate_strategy s)
  unfolding mutate_strategy
  mutate_strategy-Result long kind = Returns-and_then (mutate_len-Resized s v limit short) λ a r z.
      rw (load-ok 4 len_at r (omega (arith, z.packet)), is_data_packet-ok r z.packet)
        (Returns-and_then (body-Rewritten s r z long kind)
          λ ret t p. mark-Result s r t ret z long p)
