-- ===== src/FieldMutator/Region.antt =====
-- Which bytes of the structure the layer mutators write, on a packet whose length fits `pkt`.
use blueman_artifact.Prelude.{
  ℕ, ◌+◌, ◌^◌, ◌≤◌, ◌<◌, ◌≢◌, refl, leb, ltb, ◌==◌, arith, u32, sub_u32, Bool, true, false,
  if◌then◌else◌,
}
use blueman_artifact.Machine.{Machine, Run, Cmd, pure, ◌>>=◌, load}
use blueman_artifact.Machine.Total.{Returns, returns, Returns-mono}
use blueman_artifact.Machine.Touches.{
  Frame, Frame-refl, Frame-widen, Touches-mono, Touches, Touches-pure, Touches-bind, Touches-widen,
  Touches-if, Touches-rand_mod, Touches-store, Touches-load,
}
use blueman_artifact.Packet.{
  ll, l2cap, sm, att, Layer, IsPacket, len, len_at, pkt_at, ble_pkt_max_len,
}
use blueman_artifact.Packet.Layout.{load-ok}
use blueman_artifact.Strategy.{mutate_havoc}
use blueman_artifact.Strategy.Region.{Touches-entry, mutate_rand_bits-Touches, mutate_havoc-Touches}
use blueman_artifact.FieldMutator.{
  mutate_layer, att_op_maps, cid_maps, le_zero, payload_len_of, maybe, att_mutator, sm_mutator,
  l2cap_mutator, advertising_mutator, data_mutator, params_at, opcode_at, l2cap_header_at,
  l2cap_payload_at, l2cap_header_len,
}

-- The results of the mutators: 0 for nothing done, 1 otherwise.
abbrev pub Flag : ℕ → Type 0
Flag r = r ≤ 1

zero-Flag : Flag 0
zero-Flag = omega arith

one-Flag : Flag 1
one-Flag = omega arith

Touches-maybe :
    {lo hi : ℕ} {body : Cmd (Unit {0})} (percent : ℕ)
    → Touches lo hi (λ _. Unit) body
    → Touches lo hi (λ _. Unit) (maybe percent body)
unfolding maybe
Touches-maybe percent t =
    Touches-bind (Touches-rand_mod (omega arith))
      λ r u. Touches-if (ltb r percent) (λ e. t) (λ e. Touches-pure tt)

-- The havoc rounds, and the result 1.
Touches-havoc :
    {lo hi : ℕ} (p n : ℕ)
    → n < 2 ^ 28
    → lo ≤ p
    → p + n ≤ hi
    → Touches lo hi Flag (mutate_havoc p n ble_pkt_max_len >>= λ _. pure 1)
Touches-havoc p n small from to =
    Touches-bind (Touches-widen from to (mutate_havoc-Touches p n ble_pkt_max_len small))
      λ a u. Touches-pure one-Flag

-- A mutator reads the length and goes on from there.
after_len :
    {lo hi : ℕ} (s : Machine) (k : ℕ → Cmd ℕ)
    → IsPacket s
    → hi ≤ 279
    → Touches lo hi Flag (k (len s))
    → Returns (λ r t. Flag r × Frame lo hi s t) ((load 4 len_at >>= k) s)
after_len s k v to t =
    rw (load-ok 4 len_at s (omega (arith, v.size))) (t.run s (omega (arith, v.size)))

-- Writes to `pkt` are writes from offset 6 on.
pub widen :
    {s : Machine} {r : Run ℕ}
    → Returns (λ f t. Flag f × Frame 24 279 s t) r
    → Returns (λ f t. Flag f × Frame 6 279 s t) r
widen p = Returns-mono p λ f t q. (q.0, Frame-widen (omega arith) (omega arith) q.1)

module _ (s : Machine) (v : IsPacket s) where
  pub att_mutator-Frame :
      len s ≤ 258
      → (hi : ℕ) → len s ≤ hi + 3
      → 10 ≤ hi
      → hi ≤ 279
      → Returns (λ r t. Flag r × Frame 6 hi s t) (att_mutator s)
  unfolding att_mutator
  att_mutator-Frame short hi h low top =
      let n : ℕ = sub_u32 (sub_u32 (payload_len_of (len s)) l2cap_header_len) 1 in
      after_len s _ v top (
        Touches-if (le_zero n) (λ e. Touches-pure one-Flag)
          λ e.
            let long : 11 ≤ len s = ground arith in
            Touches-bind (Touches-rand_mod (omega arith)) λ r u.
              Touches-bind
                (Touches-if (leb 30 r)
                  (λ e'.
                    Touches-bind
                      (Touches-bind (Touches-rand_mod (omega arith))
                        λ i below. Touches-entry att_op_maps i (omega arith))
                      λ op u. Touches-store 1 opcode_at op (omega arith) (omega arith))
                  (λ e'. Touches-pure tt))
                λ a u. Touches-havoc params_at n (omega arith) (omega arith) (omega arith))

  pub sm_mutator-Frame :
      len s ≤ 258
      → (hi : ℕ) → len s ≤ hi + 3
      → 10 ≤ hi
      → hi ≤ 279
      → Returns (λ r t. Flag r × Frame 6 hi s t) (sm_mutator s)
  unfolding sm_mutator
  sm_mutator-Frame short hi h low top =
      let n : ℕ = sub_u32 (sub_u32 (payload_len_of (len s)) l2cap_header_len) 1 in
      after_len s _ v top (
        Touches-if (le_zero n) (λ e. Touches-pure one-Flag)
          λ e.
            let long : 11 ≤ len s = ground arith in
            Touches-bind
              (Touches-maybe 70 (
                Touches-bind (Touches-rand_mod (omega arith))
                  λ code u. Touches-store 1 opcode_at code (omega arith) (omega arith)))
              λ a u. Touches-havoc params_at n (omega arith) (omega arith) (omega arith))

  pub l2cap_mutator-Frame :
      len s ≤ 258 → Returns (λ r t. Flag r × Frame 24 279 s t) (l2cap_mutator s)
  unfolding l2cap_mutator
  l2cap_mutator-Frame short =
      let n : ℕ = sub_u32 (payload_len_of (len s)) l2cap_header_len in
      after_len s _ v (omega arith) (
        Touches-bind (Touches-load 2 (l2cap_header_at + 2) (omega arith)) λ cid u.
          Touches-if (le_zero n) (λ e. Touches-pure zero-Flag)
            λ e.
              let long : 10 ≤ len s = ground arith in
              Touches-bind (Touches-rand_mod (omega arith)) λ r u.
                Touches-bind
                  (Touches-if {P = λ new. new ≤ 249} (ltb r 20)
                    (λ e'.
                      Touches-mono (Touches-rand_mod {n = u32 (n + 1)} (omega arith))
                        λ new below. omega arith)
                    (λ e'. let le : n ≤ 249 = omega arith in Touches-pure le))
                  λ new le.
                    Touches-if (new == 0) (λ e'. Touches-pure one-Flag)
                      λ e'.
                        Touches-bind
                          (Touches-maybe 20 (
                            Touches-bind
                              (Touches-bind (Touches-rand_mod (omega arith))
                                λ i below. Touches-entry cid_maps i (omega arith))
                              λ c u.
                                Touches-store 2 (l2cap_header_at + 2) c (omega arith)
                                  (omega arith)))
                          λ a u.
                            Touches-havoc l2cap_payload_at new (omega arith) (omega arith)
                              (omega arith))

  pub advertising_mutator-Frame :
      len s ≤ 258 → Returns (λ r t. Flag r × Frame 24 279 s t) (advertising_mutator s)
  unfolding advertising_mutator
  advertising_mutator-Frame short =
      let n : ℕ = payload_len_of (len s) in
      after_len s _ v (omega arith) (
        Touches-if (le_zero n) (λ e. Touches-pure zero-Flag)
          λ e.
            let long : 6 ≤ len s = ground arith in
            Touches-bind
              (Touches-maybe 10 (
                Touches-widen (omega arith) (omega arith) (
                  mutate_rand_bits-Touches 24 2 4 4 (omega arith) (omega arith) (omega arith)
                    (omega arith))))
              λ a u. Touches-havoc (pkt_at + 2) n (omega arith) (omega arith) (omega arith))

  pub data_mutator-Frame : len s ≤ 258 → Returns (λ r t. Flag r × Frame 24 279 s t) (data_mutator s)
  unfolding data_mutator
  data_mutator-Frame short =
      let n : ℕ = payload_len_of (len s) in
      after_len s _ v (omega arith) (
        Touches-if (le_zero n) (λ e. Touches-pure zero-Flag)
          λ e.
            let long : 6 ≤ len s = ground arith in
            Touches-bind
              (Touches-maybe 30 (
                Touches-bind
                  (Touches-widen (omega arith) (omega arith) (
                    mutate_rand_bits-Touches 24 2 6 2 (omega arith) (omega arith) (omega arith)
                      (omega arith)))
                  λ a u. Touches-widen (omega arith) (omega arith) (
                    mutate_rand_bits-Touches 24 2 0 4 (omega arith) (omega arith) (omega arith)
                      (omega arith))))
              λ a u. Touches-havoc (pkt_at + 2) n (omega arith) (omega arith) (omega arith))

  idle-Frame : {lo hi : ℕ} → Returns (λ r t. Flag r × Frame lo hi s t) (pure 0 s)
  idle-Frame {lo} {hi} = returns (zero-Flag, Frame-refl lo hi s)

  either :
      {lo hi : ℕ} (b : Bool) (c d : Cmd ℕ)
      → Returns (λ r t. Flag r × Frame lo hi s t) (c s)
      → Returns (λ r t. Flag r × Frame lo hi s t) (d s)
      → Returns (λ r t. Flag r × Frame lo hi s t) ((if b then c else d) s)
  either true c d p q = p
  either false c d p q = q

  -- On the control and L2CAP layers only `pkt` is written.
  pub mutate_layer-Frame :
      len s ≤ 258
      → (l : Layer) (r : ℕ) → l ≢ att
      → l ≢ sm
      → Returns (λ f t. Flag f × Frame 24 279 s t) (mutate_layer l r s)
  unfolding mutate_layer
  mutate_layer-Frame short ll r a b =
      either (ltb r 25) data_mutator (pure 0) (data_mutator-Frame short) idle-Frame
  mutate_layer-Frame short l2cap r a b =
      either (ltb r 25) data_mutator _ (data_mutator-Frame short)
        (either (ltb r 50) l2cap_mutator (pure 0) (l2cap_mutator-Frame short) idle-Frame)
  mutate_layer-Frame short sm r a b = absurd (b refl)
  mutate_layer-Frame short att r a b = absurd (a refl)

  -- On the ATT and SM layers the structure is written from offset 6 on.
  pub mutate_layer-Frame_any :
      len s ≤ 258
      → (l : Layer) (r : ℕ) → Returns (λ f t. Flag f × Frame 6 279 s t) (mutate_layer l r s)
  unfolding mutate_layer
  mutate_layer-Frame_any short ll r =
      either (ltb r 25) data_mutator (pure 0) (widen (data_mutator-Frame short)) idle-Frame
  mutate_layer-Frame_any short l2cap r =
      either (ltb r 25) data_mutator _ (widen (data_mutator-Frame short))
        (either (ltb r 50) l2cap_mutator (pure 0) (widen (l2cap_mutator-Frame short)) idle-Frame)
  mutate_layer-Frame_any short att r =
      either (ltb r 25) data_mutator _ (widen (data_mutator-Frame short)) (
        either (ltb r 50) l2cap_mutator _ (widen (l2cap_mutator-Frame short)) (
          either (ltb r 75) att_mutator (pure 0)
            (att_mutator-Frame short 279 (omega arith) (omega arith) (omega arith)) idle-Frame))
  mutate_layer-Frame_any short sm r =
      either (ltb r 25) data_mutator _ (widen (data_mutator-Frame short)) (
        either (ltb r 50) l2cap_mutator _ (widen (l2cap_mutator-Frame short)) (
          either (ltb r 75) sm_mutator (pure 0)
            (sm_mutator-Frame short 279 (omega arith) (omega arith) (omega arith)) idle-Frame))
