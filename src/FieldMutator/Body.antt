-- ===== src/FieldMutator/Body.antt =====
-- The steps of `mutate_strategy` of the field mutator before `mark`.
use blueman_artifact.Prelude.{
  ℕ, ◌+◌, ◌-◌, ◌%◌, ◌≤◌, ◌≡◌, ◌≢◌, inl, inr, refl, ◌∙◌, ltb, arith, u32, Bool-cases, peek, poke,
  peek-poke_self,
}
use blueman_artifact.Machine.{Machine, drawn, pure, ◌>>◌}
use blueman_artifact.Machine.Total.{Returns, returns, Returns-and_then}
use blueman_artifact.Machine.Touches.{Frame, Frame-trans, Frame-widen, rand_mod-ok}
use blueman_artifact.Packet.{IsPacket, len, max_payload_len, len_at, att, sm}
use blueman_artifact.Packet.Layout.{Frame-IsPacket, peek-Frame, load-ok, store-ok, poke-Frame}
use blueman_artifact.Packet.Kind.{load_max_payload_len-ok, layer_of, layer_of-load}
use blueman_artifact.FieldMutator.{
  payload_len_of, maybe, mutate_len, write_length_byte, mutate_data, mutate_advertising,
}
use blueman_artifact.FieldMutator.Region.{
  Flag, widen, advertising_mutator-Frame, mutate_layer-Frame, mutate_layer-Frame_any,
}

-- The state after `mutate_len`: at most the `len` field has changed.
pub record Resized (s t : Machine) : Type 0 where
  pub packet : IsPacket t
  pub frame : Frame 16 20 s t
  pub short : len t ≤ 258
  pub long : 5 ≤ len s → 5 ≤ len t

pub mutate_len-Resized :
    (s : Machine)
    → IsPacket s
    → max_payload_len s ≤ 253
    → len s ≤ 258
    → Returns (λ _ t. Resized s t) (mutate_len s)
unfolding mutate_len maybe
mutate_len-Resized s v limit short =
    rw (rand_mod-ok 100 s (omega arith)) (elim (Bool-cases (ltb (s.draws 0 % 100) 50)) [
      | inr no_change ↦ rw no_change (
          returns (record {
            packet = record { size = v.size; bytes = v.bytes };
            frame = record { same_length = refl; outside = λ j h. refl; bytes = λ h. h };
            short = short;
            long = λ h. h;
          }))
      | inl change ↦
          let t : Machine = drawn s in
          let w : IsPacket t = record { size = v.size; bytes = v.bytes } in
          let n : ℕ = max_payload_len s in
          let new : ℕ = u32 (u32 (s.draws 1 % u32 (n + 1) + 2) + 3) in
          let stored = poke-Frame 4 16 new (drawn t) in
          let value : peek (poke s.mem 16 4 new) 16 4 ≡ new =
            peek-poke_self 4 s.mem 16 new (omega (arith, v.size)) (omega arith) in
          rw
            (
              change,
              load_max_payload_len-ok t w (omega arith),
              rand_mod-ok (u32 (n + 1)) t (omega arith),
              store-ok 4 16 new (drawn t) (omega (arith, v.size)),
            )
            (returns (record {
              packet = record { size = stored.same_length ∙ v.size; bytes = stored.bytes v.bytes };
              frame = record {
                same_length = stored.same_length;
                outside = stored.outside;
                bytes = stored.bytes;
              };
              short = omega (arith, value);
              long = λ h. omega (arith, value);
            }))
    ])

-- Both bodies end in `write_length_byte`.
after_body :
    (s t : Machine) (ret : ℕ)
    → IsPacket t
    → (Q : ℕ → Machine → Type 0)
    → Q ret (record t { mem = poke t.mem 25 1 (payload_len_of (len t)) })
    → Returns Q ((write_length_byte >> pure ret) t)
unfolding write_length_byte
after_body s t ret v Q q =
    rw
      (
        load-ok 4 len_at t (omega (arith, v.size)),
        store-ok 1 25 (payload_len_of (len t)) t (omega (arith, v.size)),
      )
      (returns q)

-- The state after the body for an LL, L2CAP or advertising packet: only `pkt` has changed, and the
-- length byte of its header agrees with the `len` field.
pub record Rewritten (s t : Machine) (ret : ℕ) : Type 0 where
  pub flag : ret ≤ 1
  pub packet : IsPacket t
  pub frame : Frame 24 279 s t
  pub length_byte : peek t.mem 25 1 ≡ len t - 5

after_body-Rewritten :
    (s t : Machine) (ret : ℕ)
    → IsPacket s
    → 5 ≤ len s
    → len s ≤ 258
    → Flag ret × Frame 24 279 s t
    → Returns (λ r u. Rewritten s u r) ((write_length_byte >> pure ret) t)
after_body-Rewritten s t ret v long short (flag, f) =
    let w : IsPacket t = Frame-IsPacket f v in
    let same : len t ≡ len s = peek-Frame 16 4 f (omega arith) in
    let n : ℕ = payload_len_of (len t) in
    let byte = poke-Frame 1 25 n t in
    after_body s t ret w (λ r u. Rewritten s u r)
      (record {
        flag = flag;
        packet = Frame-IsPacket byte w;
        frame = Frame-trans f (Frame-widen (omega arith) (omega arith) byte);
        length_byte = omega (
          arith,
          same,
          peek-Frame 16 4 byte (inl (omega arith)),
          peek-poke_self 1 t.mem 25 n (omega (arith, w.size)) (omega (arith, same)),
        );
      })

module _ (s : Machine) (v : IsPacket s) (short : len s ≤ 258) where
  pub mutate_advertising-Rewritten :
      5 ≤ len s → Returns (λ ret t. Rewritten s t ret) (mutate_advertising s)
  unfolding mutate_advertising
  mutate_advertising-Rewritten long =
      Returns-and_then (advertising_mutator-Frame s v short)
        λ ret t p. after_body-Rewritten s t ret v long short p

  pub mutate_data-Rewritten :
      5 ≤ len s
      → layer_of (peek s.mem 24 1) (peek s.mem 25 1) (peek s.mem 28 2) ≢ att
      → layer_of (peek s.mem 24 1) (peek s.mem 25 1) (peek s.mem 28 2) ≢ sm
      → Returns (λ ret t. Rewritten s t ret) (mutate_data s)
  unfolding mutate_data
  mutate_data-Rewritten long not_att not_sm =
      rw (layer_of-load s v, rand_mod-ok 100 s (omega arith))
        (Returns-and_then
          (mutate_layer-Frame (drawn s) (record { size = v.size; bytes = v.bytes }) short _ _
            not_att not_sm)
          λ ret t p. after_body-Rewritten s t ret v long short (
            p.0,
            record { same_length = p.1.same_length; outside = p.1.outside; bytes = p.1.bytes },
          ))

  -- Whatever the layer, the body writes from offset 6 on.
  pub mutate_advertising-Frame :
      Returns (λ ret t. Flag ret × Frame 6 279 s t) (mutate_advertising s)
  unfolding mutate_advertising
  mutate_advertising-Frame =
      Returns-and_then (widen (advertising_mutator-Frame s v short)) λ ret t p.
        after_body s t ret (Frame-IsPacket p.1 v) (λ r u. Flag r × Frame 6 279 s u)
          (
            p.0,
            Frame-trans p.1 (
                Frame-widen (omega arith) (omega arith)
                  (poke-Frame 1 25 (payload_len_of (len t)) t)),
          )

  pub mutate_data-Frame : Returns (λ ret t. Flag ret × Frame 6 279 s t) (mutate_data s)
  unfolding mutate_data
  mutate_data-Frame =
      rw (layer_of-load s v, rand_mod-ok 100 s (omega arith))
        (Returns-and_then
          (mutate_layer-Frame_any (drawn s) (record { size = v.size; bytes = v.bytes }) short
            (layer_of (peek s.mem 24 1) (peek s.mem 25 1) (peek s.mem 28 2)) (s.draws 0 % 100))
          λ ret t p.
            let f : Frame 6 279 s t = record {
              same_length = p.1.same_length;
              outside = p.1.outside;
              bytes = p.1.bytes;
            } in
            after_body s t ret (Frame-IsPacket f v) (λ r u. Flag r × Frame 6 279 s u)
              (
                p.0,
                Frame-trans f (
                    Frame-widen (omega arith) (omega arith)
                      (poke-Frame 1 25 (payload_len_of (len t)) t)),
              ))
