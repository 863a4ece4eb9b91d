-- ===== src/RandomMutator/Rewrite.antt =====
-- The part that the two mutators of mutator_random.c share leaves a consistent packet.
use blueman_artifact.Prelude.{
  ℕ, ◌+◌, ◌/◌, ◌≤◌, ◌≡◌, ◌∙◌, leb, ◌==◌, arith, u32, peek, length, peek-poke_self,
  peek-poke_disjoint, poke,
}
use blueman_artifact.Machine.{Machine}
use blueman_artifact.Machine.Total.{Returns, returns, Returns-and_then}
use blueman_artifact.Machine.Touches.{
  Touches, Touches-pure, Touches-bind, Touches-widen, Touches-if, Touches-rand_mod, Touches-times,
}
use blueman_artifact.Packet.{IsPacket, len}
use blueman_artifact.Packet.Layout.{
  SameRoute, SameRoute-trans, Frame-SameRoute, Frame-IsPacket, store-ok, poke-Frame,
}
use blueman_artifact.Strategy.Region.{mutate_random_byte-Touches}
use blueman_artifact.RandomMutator.{rewrite, mutate_payload, finish, choose_len}

-- The payload lengths at which `pkt` holds the header and the payload.
abbrev pub Fits : ℕ → Type 0
Fits n = (1 ≤ n) × (n ≤ 253)

mutate_payload-Touches : (n : ℕ) → n ≤ 253 → Touches 24 279 (λ _. Unit) (mutate_payload n)
unfolding mutate_payload
mutate_payload-Touches n le =
    Touches-if (n == 0) (λ e. Touches-pure tt)
      λ e. Touches-bind (Touches-rand_mod (ground arith)) λ r u.
        Touches-times (u32 (r + 3) / 3) (
          Touches-widen (omega arith) (omega arith)
            (mutate_random_byte-Touches 26 n (ground arith)))

pub choose_len-Touches : (n m : ℕ) → Fits n → Fits m → Touches 24 279 Fits (choose_len n m)
unfolding choose_len
choose_len-Touches n m hn hm = Touches-bind (Touches-rand_mod (omega arith)) λ coin u.
    Touches-if (leb 50 coin)
      (λ e.
        Touches-bind (Touches-rand_mod {n = m} (omega arith))
          λ r below. let fits : Fits (u32 (r + 1)) = omega arith in Touches-pure fits)
      (λ e. Touches-pure hn)

-- A packet whose length fields and mark agree with the payload length `ret`.
pub record Sent (s t : Machine) (ret : ℕ) : Type 0 where
  pub packet : IsPacket t
  pub route : SameRoute s t
  pub ret_range : (1 ≤ ret) × (ret ≤ 253)
  pub length_field : len t ≡ ret + 5
  pub length_byte : peek t.mem 25 1 ≡ ret

finish-Sent :
    (s t : Machine) (n : ℕ)
    → IsPacket t
    → SameRoute s t
    → Fits n
    → Returns (λ ret u. Sent s u ret) (finish n t)
unfolding finish
finish-Sent s t n v r fits =
    let low : length t.mem ≡ 279 = v.size in
    let byte = poke-Frame 1 25 n t in
    let mid : Machine = record t { mem = poke t.mem 25 1 n } in
    let word = poke-Frame 4 16 (u32 (n + 2 + 3)) mid in
    rw
      (
        store-ok 1 25 n t (omega arith),
        store-ok 4 16 (u32 (n + 2 + 3)) mid (omega (arith, byte.same_length)),
      )
      (returns (record {
        packet = Frame-IsPacket word (Frame-IsPacket byte v);
        route = SameRoute-trans r (
            SameRoute-trans (Frame-SameRoute byte (omega arith))
              (Frame-SameRoute word (omega arith)));
        ret_range = fits;
        length_field =
            omega (arith, byte.same_length, peek-poke_self 4 mid.mem 16 (u32 (n + 2 + 3)));
        length_byte =
            peek-poke_disjoint 1 4 mid.mem 16 25 (u32 (n + 2 + 3)) (omega arith)
            ∙ peek-poke_self 1 t.mem 25 n (omega arith) (omega arith);
      }))

pub rewrite-Sent :
    (s t : Machine) (n : ℕ)
    → IsPacket t
    → SameRoute s t
    → Fits n
    → Returns (λ ret u. Sent s u ret) (rewrite n t)
unfolding rewrite
rewrite-Sent s t n v r fits =
    Returns-and_then ((mutate_random_byte-Touches 24 1 (omega arith)).run t (omega (arith, v.size)))
      λ a t₁ p.
        let v₁ = Frame-IsPacket p.1 v in
        Returns-and_then ((mutate_payload-Touches n (omega arith)).run t₁ (omega (arith, v₁.size)))
          λ b t₂ q.
            finish-Sent s t₂ n (Frame-IsPacket q.1 v₁)
              (SameRoute-trans r (
                SameRoute-trans (Frame-SameRoute p.1 (omega arith))
                  (Frame-SameRoute q.1 (omega arith))))
              fits
