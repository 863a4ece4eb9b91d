-- ===== src/Strategy/Region.antt =====
-- Every mutation of mutate_strategy.c stays inside the buffer that it is handed.
use blueman_artifact.Prelude.{
  ℕ, zero, suc, ◌+◌, ◌*◌, ◌/◌, ◌^◌, ◌≤◌, ◌<◌, ◌≡◌, bit_and, arith, false, ltb→ge, ◌==◌, List,
  length, get_elem?-eq-get_or, u8, u32, ◌<<<◌, ◌>>>◌, ltb,
}
use blueman_artifact.Machine.{times}
use blueman_artifact.Machine.Touches.{
  Touches, Touches-pure, Touches-bind, Touches-if, Touches-rand, Touches-rand_mod, Touches-load,
  Touches-store, Touches-times, Touches-for_from,
}
use blueman_artifact.Bits.{bit_and_seven}
use blueman_artifact.Strategy.{
  bits_arr, interesting_8, interesting_16, entry, outside, mutate_random_byte, mutate_rand_bits,
  mutate_random_bytes_insert, mutate_arithmetic, mutate_bits_flip, mutate_interest, havoc_case,
  havoc_round, mutate_havoc,
}

pub Touches-entry :
    {lo hi : ℕ} (table : List ℕ) (i : ℕ)
    → i < length table
    → Touches lo hi (λ _. Unit) (entry table i)
unfolding entry
Touches-entry table i h = rw (get_elem?-eq-get_or table i 0 h, entry) (Touches-pure tt)

-- With no wrap in `bytes_len << 3` and `N + S`, the test says what it means to.
inside : (n s k : ℕ) → n < 2 ^ 28 → s + k < 2 ^ 32 → outside n s k ≡ false → s + k ≤ 8 * n
unfolding outside
inside n s k small fits e = omega (arith, ltb→ge (u32 (n <<< 3)) (u32 (k + s)) e)

module _ (p n : ℕ) where
  pub mutate_random_byte-Touches : 0 < n → Touches p (p + n) (λ _. Unit) (mutate_random_byte p n)
  unfolding mutate_random_byte
  mutate_random_byte-Touches pos = Touches-bind (Touches-rand_mod pos) λ r below.
      Touches-bind Touches-rand
        λ byte u. Touches-store 1 (p + u8 r) byte (omega arith) (omega arith)

  module _ (s k : ℕ) (small : n < 2 ^ 28) (fits : s + k < 2 ^ 32) where
    pub mutate_rand_bits-Touches :
        1 ≤ k → k ≤ 8 → Touches p (p + n) (λ _. Unit) (mutate_rand_bits p n s k)
    unfolding mutate_rand_bits
    mutate_rand_bits-Touches pos le =
        Touches-if (outside n s k) (λ e. Touches-pure tt)
          λ e.
            let room : s + k ≤ 8 * n = inside n s k small fits e in
            Touches-bind Touches-rand λ r u.
              Touches-bind (Touches-entry bits_arr k (omega arith)) λ mask u.
                Touches-bind (Touches-load 1 (p + s >>> 3) (omega arith)) λ old u.
                  Touches-bind (Touches-store 1 (p + s >>> 3) _ (omega arith) (omega arith)) λ _ u.
                    Touches-bind (Touches-load 1 (p + s >>> 3) (omega arith))
                      λ kept u. Touches-store 1 (p + s >>> 3) _ (omega arith) (omega arith)

    pub mutate_random_bytes_insert-Touches :
        Touches p (p + n) (λ _. Unit) (mutate_random_bytes_insert p n s k)
    unfolding mutate_random_bytes_insert
    mutate_random_bytes_insert-Touches =
        Touches-if (outside n s k) (λ e. Touches-pure tt)
          λ e.
            let room : s + k ≤ 8 * n = inside n s k small fits e in
            Touches-for_from (k >>> 3) 0 λ i from below.
              Touches-bind Touches-rand
                λ r u. Touches-store 1 (p + (i + s >>> 3)) r (omega arith) (omega arith)

    pub mutate_arithmetic-Touches :
        1 ≤ k → Touches p (p + n) (λ _. Unit) (mutate_arithmetic p n s k)
    unfolding mutate_arithmetic
    mutate_arithmetic-Touches pos =
        Touches-if (outside n s k) (λ e. Touches-pure tt)
          λ e.
            let room : s + k ≤ 8 * n = inside n s k small fits e in
            Touches-bind (Touches-rand_mod (omega arith)) λ r u. Touches-bind Touches-rand λ coin u.
              Touches-if ((k >>> 3) == 2)
                (λ two.
                  let word : k / 8 ≡ 2 = ground arith in
                  Touches-bind (Touches-load 2 (p + s >>> 3) (omega arith))
                    λ w u. Touches-store 2 (p + s >>> 3) _ (omega arith) (omega arith))
                (λ other.
                  Touches-bind (Touches-load 1 (p + s >>> 3) (omega arith))
                    λ w u. Touches-store 1 (p + s >>> 3) _ (omega arith) (omega arith))

    pub mutate_bits_flip-Touches :
        1 ≤ k → k ≤ 8 → Touches p (p + n) (λ _. Unit) (mutate_bits_flip p n s k)
    unfolding mutate_bits_flip
    mutate_bits_flip-Touches pos le =
        Touches-if (outside n s k) (λ e. Touches-pure tt)
          λ e.
            let room : s + k ≤ 8 * n = inside n s k small fits e in
            Touches-bind (Touches-entry bits_arr k (omega arith)) λ mask u.
              Touches-bind (Touches-load 1 (p + s >>> 3) (omega arith))
                λ old u. Touches-store 1 (p + s >>> 3) _ (omega arith) (omega arith)

    pub mutate_interest-Touches : 1 ≤ k → Touches p (p + n) (λ _. Unit) (mutate_interest p n s k)
    unfolding mutate_interest
    mutate_interest-Touches pos =
        Touches-if (outside n s k) (λ e. Touches-pure tt)
          λ e.
            let room : s + k ≤ 8 * n = inside n s k small fits e in
            Touches-if ((k >>> 3) == 2)
              (λ two.
                let word : k / 8 ≡ 2 = ground arith in
                Touches-bind
                  (Touches-bind (Touches-rand_mod (omega arith))
                    λ i below. Touches-entry interesting_16 i (omega arith))
                  λ v u. Touches-store 2 (p + s >>> 3) v (omega arith) (omega arith))
              (λ other.
                Touches-bind
                  (Touches-bind (Touches-rand_mod (omega arith))
                    λ i below. Touches-entry interesting_8 i (omega arith))
                  λ v u. Touches-store 1 (p + s >>> 3) v (omega arith) (omega arith))

  module _ (pos : 0 < n) (small : n < 2 ^ 28) where
    havoc_case-Touches : (c : ℕ) → Touches p (p + n) (λ _. Unit) (havoc_case p n c)
    unfolding havoc_case
    havoc_case-Touches zero = mutate_random_byte-Touches pos
    havoc_case-Touches (suc zero) = Touches-bind (Touches-rand_mod (omega arith)) λ s below.
        Touches-bind Touches-rand λ r u.
          mutate_rand_bits-Touches s (bit_and r 7 + 1) small (omega (arith, bit_and_seven r))
            (omega arith) (omega (arith, bit_and_seven r))
    havoc_case-Touches (suc (suc zero)) = Touches-bind (Touches-rand_mod pos) λ i below.
        Touches-bind (Touches-rand_mod (omega arith)) λ r below'.
          mutate_random_bytes_insert-Touches (u32 (i <<< 3)) (u8 (u8 (r + 1) <<< 3)) small
            (omega arith)
    havoc_case-Touches (suc (suc (suc zero))) = Touches-bind (Touches-rand_mod pos) λ i below.
        Touches-bind (Touches-rand_mod (omega arith)) λ r below'.
          mutate_arithmetic-Touches (u32 (i <<< 3)) (u8 ((r + 1) <<< 3)) small (omega arith)
            (omega arith)
    havoc_case-Touches (suc (suc (suc (suc zero)))) =
        Touches-bind (Touches-rand_mod (omega arith)) λ s below. Touches-bind Touches-rand λ r u.
          mutate_bits_flip-Touches s (bit_and r 7 + 1) small (omega (arith, bit_and_seven r))
            (omega arith) (omega (arith, bit_and_seven r))
    havoc_case-Touches (suc (suc (suc (suc (suc zero))))) =
        Touches-bind (Touches-rand_mod pos) λ i below.
          Touches-bind (Touches-rand_mod (omega arith)) λ r below'.
            mutate_interest-Touches (u32 (i <<< 3)) (u8 ((r + 1) <<< 3)) small (omega arith)
              (omega arith)
    havoc_case-Touches _ = Touches-pure tt

    havoc_round-Touches : Touches p (p + n) (λ _. Unit) (havoc_round p n)
    unfolding havoc_round
    havoc_round-Touches = Touches-bind (Touches-rand_mod (omega arith)) λ c u. havoc_case-Touches c

-- An empty buffer gets no round.
rounds-Touches :
    (p n round : ℕ)
    → round < n >>> 1 + 1
    → n < 2 ^ 28
    → Touches p (p + n) (λ _. Unit) (times round (havoc_round p n))
unfolding times
rounds-Touches p n zero h small = Touches-pure tt
rounds-Touches p n (suc round) h small =
    Touches-bind (havoc_round-Touches p n (omega arith) small)
      λ a u. Touches-times round (havoc_round-Touches p n (omega arith) small)

-- For every buffer below 2 ^ 28 bytes, every limit and every run of the random numbers,
-- `mutate_havoc` returns with no access outside the buffer, and changes no byte outside it.
pub mutate_havoc-Touches :
    (p n max_bytes_len : ℕ)
    → n < 2 ^ 28
    → Touches p (p + n) (λ _. Unit) (mutate_havoc p n max_bytes_len)
unfolding mutate_havoc
mutate_havoc-Touches p n max_bytes_len small =
    Touches-if (ltb max_bytes_len n) (λ e. Touches-pure tt)
      λ e.
        Touches-bind (Touches-rand_mod (omega arith))
          λ round below. rounds-Touches p n round below small
