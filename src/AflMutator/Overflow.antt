-- ===== src/AflMutator/Overflow.antt =====
-- A payload limit of 255 lets the AFL-style mutator write past the packet: it hands `afl_mutate_havoc`
-- up to 260 bytes of a 255-byte array.
use blueman_artifact.Prelude.{
  ℕ, suc, ◌≤◌, ◌≡◌, refl, ◌∙◌, arith, length, poke, length-poke, peek-poke_self,
}
use blueman_artifact.Machine.{Machine, drawn, fault, load, times}
use blueman_artifact.Machine.Touches.{rand_mod-ok}
use blueman_artifact.Packet.{IsPacket, max_payload_len}
use blueman_artifact.Packet.Layout.{load-ok, store-ok}
use blueman_artifact.RandomMutator.Overflow.{load_max_payload_len-cap}
use blueman_artifact.AflMutator.{
  arith_word, plus, afl_case, afl_round, afl_mutate_havoc, mutate_strategy,
}

arith_word-fault :
    (s : Machine) → length s.mem ≡ 279 → s.draws 0 ≡ 255 → arith_word 2 plus 24 260 s ≡ fault
unfolding arith_word load
arith_word-fault s size h =
    rw (rand_mod-ok 259 s (omega arith), h, rand_mod-ok 50 (drawn s) (omega arith), size) refl

afl_mutate_havoc-fault :
    (s : Machine)
    → length s.mem ≡ 279
    → ((i : ℕ) → s.draws i ≡ 255)
    → afl_mutate_havoc 24 260 255 s ≡ fault
unfolding afl_mutate_havoc times afl_round afl_case
afl_mutate_havoc-fault s size h =
    rw
      (
        rand_mod-ok 131 s (omega arith),
        h 0,
        rand_mod-ok 8 (drawn s) (omega arith),
        h 1,
        arith_word-fault (drawn (drawn s)) size (h 2),
      )
      refl

-- On every packet whose payload limit is 255 or more, the AFL-style mutator reads outside the
-- packet when each `rand()` returns 255.
pub mutate_strategy-fault :
    (s : Machine)
    → IsPacket s
    → 255 ≤ max_payload_len s
    → ((i : ℕ) → s.draws i ≡ 255)
    → mutate_strategy s ≡ fault
unfolding mutate_strategy
mutate_strategy-fault s v limit h =
    let t : Machine = record (drawn s) { mem = poke s.mem 16 4 260 } in
    rw
      (
        load_max_payload_len-cap s v limit,
        rand_mod-ok 256 s (omega arith),
        h 0,
        store-ok 4 16 260 (drawn s) (omega (arith, v.size)),
        load-ok 4 16 t (omega (arith, v.size, length-poke 4 s.mem 16 260)),
        peek-poke_self 4 s.mem 16 260 (omega (arith, v.size)) (omega arith),
        afl_mutate_havoc-fault t (length-poke 4 s.mem 16 260 ∙ v.size) (λ i. h (suc i)),
      )
      refl
