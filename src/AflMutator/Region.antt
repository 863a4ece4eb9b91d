-- ===== src/AflMutator/Region.antt =====
-- The AFL-style havoc stays inside the buffer that it is handed.
use blueman_artifact.Prelude.{
  ℕ, zero, suc, ◌+◌, ◌^◌, ◌≤◌, ◌<◌, ◌≡◌, refl, arith, ltb, ltb→ge, ◌==◌, bit_and, bit_xor, u8, u16,
  u32, ◌<<<◌, ◌>>>◌,
}
use blueman_artifact.Machine.Touches.{
  Touches, Touches-pure, Touches-bind, Touches-if, Touches-rand_mod, Touches-load, Touches-store,
  Touches-times, Touches-widen,
}
use blueman_artifact.Strategy.{interesting_8, interesting_16}
use blueman_artifact.Strategy.Region.{Touches-entry}
use blueman_artifact.AflMutator.{
  interesting_32, flip_bit, set_byte, set_word, store_big_endian, set_dword, arith_word, minus,
  plus, afl_case, afl_round, afl_mutate_havoc,
}

module _ (p n : ℕ) where
  flip_bit-Touches : n < 2 ^ 28 → Touches p (p + n) (λ _. Unit) (flip_bit p n)
  unfolding flip_bit
  flip_bit-Touches small =
      Touches-if (n == 0) (λ e. Touches-pure tt)
        λ e.
          let pos : 0 < n = ground arith in
          Touches-bind (Touches-rand_mod (omega arith)) λ b below.
            Touches-bind (Touches-load 1 (p + b >>> 3) (omega arith)) λ old u.
              Touches-store 1 (p + b >>> 3) (bit_xor old (u8 (1 <<< bit_and b 7))) (omega arith)
                (omega arith)

  set_byte-Touches : Touches p (p + n) (λ _. Unit) (set_byte p n)
  unfolding set_byte
  set_byte-Touches =
      Touches-if (n == 0) (λ e. Touches-pure tt)
        λ e.
          let pos : 0 < n = ground arith in
          Touches-bind (Touches-rand_mod pos) λ b below.
            Touches-bind (Touches-rand_mod (omega arith)) λ i small.
              Touches-bind (Touches-entry interesting_8 i (omega arith))
                λ v u. Touches-store 1 (p + b) v (omega arith) (omega arith)

  module _ (word : n < 2 ^ 32) where
    set_word-Touches : Touches p (p + n) (λ _. Unit) (set_word p n)
    unfolding set_word
    set_word-Touches =
        Touches-if (ltb n 2) (λ e. Touches-pure tt)
          λ e.
            let room = ltb→ge n 2 e in
            Touches-bind (Touches-rand_mod (omega arith)) λ b below.
              Touches-bind (Touches-rand_mod (omega arith)) λ i small.
                Touches-bind (Touches-entry interesting_16 i (omega arith))
                  λ v u. Touches-store 2 (p + b) v (omega arith) (omega arith)

    arith_word-Touches :
        (k : ℕ) (change : ℕ → ℕ → ℕ)
        → 1 ≤ k
        → k ≤ 2
        → Touches p (p + n) (λ _. Unit) (arith_word k change p n)
    unfolding arith_word
    arith_word-Touches k change pos le =
        Touches-if (ltb n k) (λ e. Touches-pure tt)
          λ e.
            let room = ltb→ge n k e in
            Touches-bind (Touches-rand_mod (omega arith)) λ b below.
              Touches-bind (Touches-rand_mod (omega arith)) λ r u.
                Touches-bind (Touches-load k (p + b) (omega arith)) λ old u.
                  Touches-store k (p + b) (change old (u16 (r + 1))) (omega arith) (omega arith)

pub store_big_endian-Touches : (i v : ℕ) → Touches i (i + 4) (λ _. Unit) (store_big_endian i v)
unfolding store_big_endian
store_big_endian-Touches i v =
    Touches-bind (Touches-store 1 i (bit_and (v >>> 24) 0xff) (omega arith) (omega arith)) λ a u.
      Touches-bind (Touches-store 1 (i + 1) (bit_and (v >>> 16) 0xff) (omega arith) (omega arith))
        λ a u.
          Touches-bind
            (Touches-store 1 (i + 2) (bit_and (v >>> 8) 0xff) (omega arith) (omega arith))
            λ a u. Touches-store 1 (i + 3) (bit_and v 0xff) (omega arith) (omega arith)

set_dword-Touches : (p n : ℕ) → n < 2 ^ 32 → Touches p (p + n) (λ _. Unit) (set_dword p n)
unfolding set_dword
set_dword-Touches p n word =
    Touches-if (ltb n 4) (λ e. Touches-pure tt)
      λ e.
        let room = ltb→ge n 4 e in
        Touches-bind (Touches-rand_mod (omega arith)) λ b below.
          Touches-bind (Touches-rand_mod (omega arith)) λ little two.
            Touches-bind (Touches-rand_mod (omega arith)) λ i small.
              Touches-bind (Touches-entry interesting_32 i (omega arith)) λ v u.
                Touches-if (little == 0)
                  (λ z.
                    Touches-widen (omega arith) (omega arith) (store_big_endian-Touches (p + b) v))
                  (λ z. Touches-store 4 (p + b) v (omega arith) (omega arith))

module _ (p n : ℕ) (small : n < 2 ^ 28) where
  pub afl_case-Touches : (c : ℕ) → Touches p (p + n) (λ _. Unit) (afl_case p n c)
  unfolding afl_case
  afl_case-Touches zero = flip_bit-Touches p n small
  afl_case-Touches (suc zero) = set_byte-Touches p n
  afl_case-Touches (suc (suc zero)) = set_word-Touches p n (omega arith)
  afl_case-Touches (suc (suc (suc zero))) = set_dword-Touches p n (omega arith)
  afl_case-Touches (suc (suc (suc (suc zero)))) =
      arith_word-Touches p n (omega arith) 1 minus (omega arith) (omega arith)
  afl_case-Touches (suc (suc (suc (suc (suc zero))))) =
      arith_word-Touches p n (omega arith) 2 minus (omega arith) (omega arith)
  afl_case-Touches (suc (suc (suc (suc (suc (suc zero)))))) =
      arith_word-Touches p n (omega arith) 1 plus (omega arith) (omega arith)
  afl_case-Touches (suc (suc (suc (suc (suc (suc (suc _))))))) =
      arith_word-Touches p n (omega arith) 2 plus (omega arith) (omega arith)

  afl_round-Touches : Touches p (p + n) (λ _. Unit) (afl_round p n)
  unfolding afl_round
  afl_round-Touches = Touches-bind (Touches-rand_mod (omega arith)) λ c u. afl_case-Touches c

  -- For every buffer below 2 ^ 28 bytes, empty or not, and every run of the random numbers,
  -- `afl_mutate_havoc` returns with no access outside the buffer, changes no byte outside it, and
  -- leaves the length as it is.
  pub afl_mutate_havoc-Touches :
      (max_bytes_len : ℕ) → Touches p (p + n) (λ len. len ≡ n) (afl_mutate_havoc p n max_bytes_len)
  unfolding afl_mutate_havoc
  afl_mutate_havoc-Touches max_bytes_len = Touches-bind (Touches-rand_mod (omega arith)) λ r below.
      Touches-bind (Touches-times (u32 (r + 1)) afl_round-Touches) λ a u. Touches-pure refl
