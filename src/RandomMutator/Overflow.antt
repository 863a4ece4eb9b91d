-- ===== src/RandomMutator/Overflow.antt =====
-- A payload limit of 255 lets the random mutator write past the packet: the payload stands behind
-- a header of two bytes, so `pkt` holds 253 bytes of it.
use blueman_artifact.Prelude.{
  ℕ, suc, ◌+◌, ◌%◌, ◌≤◌, ◌<◌, ◌≡◌, ◌∙◌, leb, arith, length, poke, length-poke, false,
}
use blueman_artifact.Machine.{Machine, drawn, ok, fault, times}
use blueman_artifact.Machine.Touches.{rand_mod-ok}
use blueman_artifact.Packet.{
  IsPacket, len, max_payload_len, max_payload_len_at, len_at, load_max_payload_len, Layer,
}
use blueman_artifact.Packet.Layout.{load-ok}
use blueman_artifact.Strategy.Effect.{mutate_random_byte-ok, mutate_random_byte-fault}
use blueman_artifact.RandomMutator.{data_mutator, rewrite, mutate_payload}

pub load_max_payload_len-cap :
    (s : Machine) → IsPacket s → 255 ≤ max_payload_len s → load_max_payload_len s ≡ ok 255 s
unfolding load_max_payload_len
load_max_payload_len-cap s v h =
    rw (load-ok 4 max_payload_len_at s (omega (arith, v.size))) (ground arith)

mutate_payload-fault :
    (s : Machine)
    → length s.mem ≡ 279
    → s.draws 0 ≡ 254
    → s.draws 1 ≡ 254
    → mutate_payload 255 s ≡ fault
unfolding mutate_payload times
mutate_payload-fault s size h₀ h₁ = rw (
  rand_mod-ok 255 s (omega arith),
  h₀,
  mutate_random_byte-fault 26 255 (drawn s) (omega arith) (omega arith) (omega arith),
)

rewrite-fault :
    (s : Machine) → length s.mem ≡ 279 → ((i : ℕ) → s.draws i ≡ 254) → rewrite 255 s ≡ fault
unfolding rewrite
rewrite-fault s size h = rw (
  mutate_random_byte-ok 24 1 s (omega arith) (omega arith) (omega arith),
  mutate_payload-fault
      (record (drawn (drawn s)) { mem = poke s.mem (24 + s.draws 0 % 1) 1 (s.draws 1) })
      (length-poke 1 s.mem (24 + s.draws 0 % 1) (s.draws 1) ∙ size) (h 2) (h 3),
)

-- On every packet longer than 5 whose payload limit is 255 or more, `LL_data_mutator` of the
-- random mutator writes outside the packet when each `rand()` returns 254.
pub data_mutator-fault :
    (s : Machine) (l : Layer)
    → IsPacket s
    → 5 < len s
    → 255 ≤ max_payload_len s
    → ((i : ℕ) → s.draws i ≡ 254)
    → data_mutator l s ≡ fault
unfolding data_mutator
data_mutator-fault s l v long limit h =
    let more : leb (len s) 5 ≡ false = ground arith in
    rw (
      load-ok 4 len_at s (omega (arith, v.size)),
      more,
      load_max_payload_len-cap s v limit,
      rand_mod-ok 255 s (omega arith),
      h 0,
      rewrite-fault (drawn s) v.size (λ i. h (suc i)),
    )
