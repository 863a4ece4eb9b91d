-- ===== src/AflMutator/Safety.antt =====
-- The AFL-style mutator stays inside the packet if the payload limit is at most 250.
use blueman_artifact.Prelude.{
  ℕ, ◌+◌, ◌^◌, ◌≤◌, ◌<◌, ◌≡◌, refl, ◌∙◌, ◌⊎◌, arith, ltb, ltb→ge, inl, inr, Bool-cases, peek,
  peek-poke_self, u32,
}
use blueman_artifact.Machine.{Machine, store}
use blueman_artifact.Machine.Total.{Returns, returns, Returns-and_then, Returns-mono}
use blueman_artifact.Machine.Touches.{Frame, Touches-rand_mod}
use blueman_artifact.Packet.{IsPacket, len, max_payload_len, mutated, len_at, max_payload_len_at}
use blueman_artifact.Packet.Layout.{
  SameRoute, SameRoute-trans, Frame-SameRoute, Frame-IsPacket, peek-Frame, load-ok, store-ok,
  poke-Frame,
}
use blueman_artifact.Packet.Kind.{load_max_payload_len-ok}
use blueman_artifact.AflMutator.{mutate_strategy, should_mutate_packet, truncate, mutate_pkt}
use blueman_artifact.AflMutator.Region.{afl_mutate_havoc-Touches}

-- A write of the field `mutated` or `len`.
store-field :
    (i v : ℕ) (s : Machine)
    → IsPacket s
    → (i ≡ 8) ⊎ (i ≡ 16)
    → v < 2 ^ 32
    → Returns
        (λ _ t. IsPacket t × SameRoute s t × Frame i (i + 4) s t × (peek t.mem i 4 ≡ v))
        (store 4 i v s)
store-field i v s w which small =
    let f = poke-Frame 4 i v s in
    rw (store-ok 4 i v s (omega (arith, w.size))) (
      returns (
        Frame-IsPacket f w,
        Frame-SameRoute f (omega arith),
        f,
        peek-poke_self 4 s.mem i v (omega (arith, w.size)) (omega arith),
      ))

-- What `mutate_pkt` of the AFL-style mutator leaves behind.
pub record Truncated (s t : Machine) (ret : ℕ) : Type 0 where
  pub packet : IsPacket t
  pub route : SameRoute s t
  pub always_marked : mutated t ≡ 1
  pub short : len t ≤ max_payload_len s
  pub mutation_happened : ret ≡ 1

module _ (s : Machine) (v : IsPacket s) (limit : max_payload_len s ≤ 250) where
  mutate_strategy-Marked :
      Returns
        (λ ret t. IsPacket t × SameRoute s t × (mutated t ≡ 1) × (ret ≡ 1))
        (mutate_strategy s)
  unfolding mutate_strategy
  mutate_strategy-Marked = rw (load_max_payload_len-ok s v (omega arith)) (
      Returns-and_then
        ((Touches-rand_mod {lo = 24} {hi = 279} {n = u32 (max_payload_len s + 1)} (omega arith)).run
          s (omega (arith, v.size)))
        λ r t₁ p₁.
          let v₁ = Frame-IsPacket p₁.1 v in
          Returns-and_then (store-field 16 (u32 (r + 2 + 3)) t₁ v₁ (omega arith) (omega arith))
            λ a t₂ p₂. rw (load-ok 4 len_at t₂ (omega (arith, p₂.0.size))) (
              Returns-and_then
                ((afl_mutate_havoc-Touches 24 (len t₂) (omega (arith, p₂)) 255).run t₂
                  (omega (arith, p₂.0.size, p₂)))
                λ n t₃ p₃.
                  let v₃ = Frame-IsPacket p₃.1 p₂.0 in
                  Returns-and_then (store-field 16 n t₃ v₃ (omega arith) (omega (arith, p₂, p₃.0)))
                    λ b t₄ p₄.
                      Returns-and_then (store-field 8 1 t₄ p₄.0 (omega arith) (omega arith))
                        λ c t₅ p₅. returns (
                          p₅.0,
                          SameRoute-trans (Frame-SameRoute p₁.1 (omega arith)) (
                              SameRoute-trans p₂.1 (
                                SameRoute-trans (Frame-SameRoute p₃.1 (omega arith))
                                  (SameRoute-trans p₄.1 p₅.1))),
                          p₅.3,
                          refl,
                        )))

  truncate-Truncated :
      (t : Machine) (ret : ℕ)
      → IsPacket t × SameRoute s t × (mutated t ≡ 1) × (ret ≡ 1)
      → Returns (λ _ u. Truncated s u ret) (truncate t)
  unfolding truncate
  truncate-Truncated t ret (w, route, mark, one) =
      rw
        (
          load-ok 4 len_at t (omega (arith, w.size)),
          load-ok 4 max_payload_len_at t (omega (arith, w.size)),
        )
        (elim (Bool-cases (ltb (max_payload_len t) (len t))) [
          | inl long ↦ rw long (
              Returns-mono
                (store-field 16 (max_payload_len t) t w (omega arith)
                  (omega (arith, route.same_limit)))
                λ a u p. record {
                  packet = p.0;
                  route = SameRoute-trans route p.1;
                  always_marked = peek-Frame 8 4 p.2 (omega arith) ∙ mark;
                  short = omega (arith, p.3, route.same_limit);
                  mutation_happened = one;
                })
          | inr fits ↦ rw fits (
              returns (record {
                packet = w;
                route = route;
                always_marked = mark;
                short = omega (arith, route.same_limit, ltb→ge (max_payload_len t) (len t) fits);
                mutation_happened = one;
              }))
        ])

  -- From every packet with a payload limit of at most 250 bytes, whatever its length field holds,
  -- and for every run of the random numbers, `mutate_pkt` of the AFL-style mutator returns 1 with
  -- no access outside the packet: it keeps the sequence id, the device, the address and the limit,
  -- marks the packet, and leaves a length of at most the payload limit.
  pub mutate_pkt-Truncated : (idx : ℕ) → Returns (λ ret t. Truncated s t ret) (mutate_pkt idx s)
  unfolding mutate_pkt should_mutate_packet
  mutate_pkt-Truncated idx = rw (load-ok 4 len_at s (omega (arith, v.size))) (
      Returns-and_then mutate_strategy-Marked
        λ ret t p. Returns-and_then (truncate-Truncated t ret p) λ a u q. returns q)
