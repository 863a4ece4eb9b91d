-- ===== src/AflMutator.antt =====
-- blueman-main/mutator/mutator_afl4.c: the AFL-style mutator. `switch(rand() % 8)` reaches the
-- cases 0 to 7; the code of the cases 8 to 14, which is dead, is in Blocks.
pub mod Region
pub mod Safety
pub mod Overflow
pub mod Blocks
mod Tests
use blueman_artifact.Prelude.{
  ℕ, zero, suc, ◌+◌, ◌-◌, ◌*◌, ◌/◌, ◌%◌, ◌^◌, ltb, ◌==◌, if◌then◌else◌, List, [], ◌∷◌, Bool, true,
  false, bit_and, bit_xor, u8, u16, u32, sub_u32, ◌<<<◌, ◌>>>◌,
}
use blueman_artifact.Machine.{Cmd, pure, ◌>>=◌, ◌>>◌, rand, rand_mod, load, store, times}
use blueman_artifact.Packet.{
  pkt_at, len_at, mutated_at, max_payload_len_at, ble_pkt_max_len, load_max_payload_len,
}
use blueman_artifact.Strategy.{arith_max, interesting_8, interesting_16, entry}

-- The `int32_t` table, the shorter tables first, as the words that are stored.
abbrev pub interesting_32 : List ℕ
interesting_32 =
    4294967168 ∷ 4294967295 ∷ 0 ∷ 1 ∷ 16 ∷ 32 ∷ 64 ∷ 100 ∷ 127 ∷ 4294934528 ∷ 4294967167 ∷ 128 ∷ 255
    ∷ 256 ∷ 512 ∷ 1000 ∷ 1024 ∷ 4096 ∷ 32767 ∷ 2147483648 ∷ 4194304250 ∷ 4294934527 ∷ 32768 ∷ 65535
    ∷ 65536 ∷ 100663045 ∷ 2147483647 ∷ []

-- Case 0: flip a single bit.
unfoldable pub flip_bit : ℕ → ℕ → Cmd (Unit {0})
flip_bit p n = if n == 0 then pure tt else do
  bit_pos ← rand_mod (u32 (n <<< 3))
  old ← load 1 (p + bit_pos >>> 3)
  store 1 (p + bit_pos >>> 3) (bit_xor old (u8 (1 <<< bit_and bit_pos 7)))

-- Case 1: an interesting byte.
unfoldable pub set_byte : ℕ → ℕ → Cmd (Unit {0})
set_byte p n =
    if n == 0
    then pure tt
    else do pos ← rand_mod n; i ← rand_mod 9; v ← entry interesting_8 i; store 1 (p + pos) v

-- Case 2: an interesting word.
unfoldable pub set_word : ℕ → ℕ → Cmd (Unit {0})
set_word p n = if ltb n 2 then pure tt else do
  pos ← rand_mod (sub_u32 n 1)
  i ← rand_mod 19
  v ← entry interesting_16 i
  store 2 (p + pos) v

-- The four stores, the highest byte first.
unfoldable pub store_big_endian : ℕ → ℕ → Cmd (Unit {0})
store_big_endian i val = do
  store 1 i (bit_and (val >>> 24) 0xff)
  store 1 (i + 1) (bit_and (val >>> 16) 0xff)
  store 1 (i + 2) (bit_and (val >>> 8) 0xff)
  store 1 (i + 3) (bit_and val 0xff)

-- Case 3: an interesting double word, in a random byte order.
unfoldable pub set_dword : ℕ → ℕ → Cmd (Unit {0})
unfolding store_big_endian
set_dword p n = if ltb n 4 then pure tt else do
  pos ← rand_mod (sub_u32 n 3)
  little ← rand_mod 2
  i ← rand_mod 27
  v ← entry interesting_32 i
  if little == 0 then store_big_endian (p + pos) v else store 4 (p + pos) v

-- Cases 4 to 7: `change old value` is stored over the `k`-byte word at a random place. The guard
-- `bytes_len == 0` of a byte is `bytes_len < 1`.
unfoldable pub arith_word : ℕ → (ℕ → ℕ → ℕ) → ℕ → ℕ → Cmd (Unit {0})
arith_word k change p n = if ltb n k then pure tt else do
  pos ← rand_mod (sub_u32 n (k - 1))
  r ← rand_mod arith_max
  old ← load k (p + pos)
  store k (p + pos) (change old (u16 (r + 1)))

-- Computed in `int` or wider and cut down to the width of the store.
abbrev pub minus : ℕ → ℕ → ℕ
minus old value = old + 2 ^ 32 - value

abbrev pub plus : ℕ → ℕ → ℕ
plus old value = old + value

unfoldable pub afl_case : ℕ → ℕ → ℕ → Cmd (Unit {0})
unfolding flip_bit set_byte set_word set_dword arith_word
afl_case p n zero = flip_bit p n
afl_case p n (suc zero) = set_byte p n
afl_case p n (suc (suc zero)) = set_word p n
afl_case p n (suc (suc (suc zero))) = set_dword p n
afl_case p n (suc (suc (suc (suc zero)))) = arith_word 1 minus p n
afl_case p n (suc (suc (suc (suc (suc zero))))) = arith_word 2 minus p n
afl_case p n (suc (suc (suc (suc (suc (suc zero)))))) = arith_word 1 plus p n
afl_case p n (suc (suc (suc (suc (suc (suc (suc _))))))) = arith_word 2 plus p n

unfoldable pub afl_round : ℕ → ℕ → Cmd (Unit {0})
unfolding afl_case
afl_round p n = rand_mod 8 >>= afl_case p n

-- The result is the length that stands behind `bytes_len_ptr` at the end; the cases that are
-- reached leave it, and `max_bytes_len`, alone.
unfoldable pub afl_mutate_havoc : ℕ → ℕ → ℕ → Cmd ℕ
unfolding afl_round
afl_mutate_havoc p n max_bytes_len = do
  r ← rand_mod (u32 (n >>> 1 + 1))
  times (u32 (r + 1)) (afl_round p n)
  pure n

unfoldable pub mutate_strategy : Cmd ℕ
unfolding afl_mutate_havoc
mutate_strategy = do
  payload_len ← load_max_payload_len
  r ← rand_mod (u32 (payload_len + 1))
  store 4 len_at (u32 (r + 2 + 3))
  bytes_len ← load 4 len_at
  len_tmp ← afl_mutate_havoc pkt_at bytes_len ble_pkt_max_len
  store 4 len_at len_tmp
  store 4 mutated_at 1
  pure 1

unfoldable pub should_mutate_packet : ℕ → ℕ
should_mutate_packet idx = 1

-- The last test of `mutate_pkt`.
unfoldable pub truncate : Cmd (Unit {0})
truncate = do
  len ← load 4 len_at
  max_payload_len ← load 4 max_payload_len_at
  if ltb max_payload_len len then store 4 len_at max_payload_len else pure tt

unfoldable pub mutate_pkt : ℕ → Cmd ℕ
unfolding mutate_strategy should_mutate_packet truncate
mutate_pkt idx =
    if should_mutate_packet idx == 0
    then pure 0
    else do original_len ← load 4 len_at; result ← mutate_strategy; truncate; pure result
