-- ===== src/Strategy/Effect.antt =====
-- What single mutations of mutate_strategy.c do to the bytes, exactly.
use blueman_artifact.Prelude.{
  ℕ, ◌+◌, ◌%◌, ◌≤◌, ◌<◌, ◌≡◌, arith, leb, List, length, get_or, get_elem?-eq-get_or, u8, poke,
  false,
}
use blueman_artifact.Machine.{Machine, ok, fault, drawn, rand, store}
use blueman_artifact.Machine.Touches.{rand_mod-ok}
use blueman_artifact.Packet.Layout.{store-ok}
use blueman_artifact.Strategy.{entry, mutate_random_byte}

pub entry-ok :
    (table : List ℕ) (i : ℕ) (s : Machine)
    → i < length table
    → entry table i s ≡ ok (get_or table i 0) s
unfolding entry
entry-ok table i s h = rw (get_elem?-eq-get_or table i 0 h, entry)

module _ (p n : ℕ) (s : Machine) (pos : 0 < n) (small : n ≤ 256) where
  pub mutate_random_byte-ok :
      p + s.draws 0 % n < length s.mem
      → mutate_random_byte p n s
        ≡ ok tt (record (drawn (drawn s)) { mem = poke s.mem (p + s.draws 0 % n) 1 (s.draws 1) })
  unfolding mutate_random_byte rand
  mutate_random_byte-ok room =
      let byte : u8 (s.draws 0 % n) ≡ s.draws 0 % n = omega arith in
      rw (
        rand_mod-ok n s pos,
        byte,
        store-ok 1 (p + s.draws 0 % n) (s.draws 1) (drawn (drawn s)) (omega arith),
      )

  pub mutate_random_byte-fault : length s.mem ≤ p + s.draws 0 % n → mutate_random_byte p n s ≡ fault
  unfolding mutate_random_byte rand store
  mutate_random_byte-fault past =
      let byte : u8 (s.draws 0 % n) ≡ s.draws 0 % n = omega arith in
      let test : leb (p + s.draws 0 % n + 1) (length s.mem) ≡ false = ground arith in
      rw (rand_mod-ok n s pos, byte, test)
