-- ===== src/Strategy.antt =====
-- blueman-main/mutator/mutate_strategy.c: the byte and bit mutations that the mutators share.
-- `p` is the index of `bytes[0]` in the machine's block, `n` is `bytes_len`, and the bit position
-- `s` and the bit count `k` are the C parameters `S` and `N`.
pub mod Region
pub mod Effect
mod Tests
use blueman_artifact.Prelude.{
  ℕ, zero, suc, ◌+◌, ◌-◌, ◌*◌, ◌/◌, ◌%◌, ◌^◌, bit_and, bit_or, bit_xor, ltb, ◌==◌, if◌then◌else◌,
  List, [], ◌∷◌, Bool, Option, none, some, get_elem?, u8, u16, u32, sub_u32, ◌<<<◌, ◌>>>◌,
}
use blueman_artifact.Machine.{
  Cmd, pure, failed, ◌>>=◌, ◌>>◌, rand, rand_mod, load, store, times, for_from,
}

abbrev pub arith_max : ℕ
arith_max = 50

abbrev pub bits_arr : List ℕ
bits_arr =
    0b0 ∷ 0b10000000 ∷ 0b11000000 ∷ 0b11100000 ∷ 0b11110000 ∷ 0b11111000 ∷ 0b11111100 ∷ 0b11111110
    ∷ 0b11111111 ∷ []

-- The `int8_t` table, as the bytes that are stored: -128 is 128 and -1 is 255.
abbrev pub interesting_8 : List ℕ
interesting_8 = 128 ∷ 255 ∷ 0 ∷ 1 ∷ 16 ∷ 32 ∷ 64 ∷ 100 ∷ 127 ∷ []

-- The `int16_t` table, `INTERESTING_8` first, as the words that are stored.
abbrev pub interesting_16 : List ℕ
interesting_16 =
    65408 ∷ 65535 ∷ 0 ∷ 1 ∷ 16 ∷ 32 ∷ 64 ∷ 100 ∷ 127 ∷ 32768 ∷ 65407 ∷ 128 ∷ 255 ∷ 256 ∷ 512 ∷ 1000
    ∷ 1024 ∷ 4096 ∷ 32767 ∷ []

-- `table[i]` of a constant array.
unfoldable pub entry : List ℕ → ℕ → Cmd ℕ
entry table i = elim (get_elem? table i) [ none ↦ failed | some v ↦ pure v ]

-- The test that opens every bit mutation: the bits `s` to `s + k` leave the buffer.
unfoldable pub outside : ℕ → ℕ → ℕ → Bool
outside n s k = ltb (u32 (n <<< 3)) (u32 (k + s))

unfoldable pub mutate_random_byte : ℕ → ℕ → Cmd (Unit {0})
mutate_random_byte p n = do rnd ← rand_mod n; byte ← rand; store 1 (p + u8 rnd) byte

unfoldable pub mutate_rand_bits : ℕ → ℕ → ℕ → ℕ → Cmd (Unit {0})
unfolding outside
mutate_rand_bits p n s k = if outside n s k then pure tt else do
  r ← rand
  mask ← entry bits_arr k
  let rnd_bits = u8 (bit_and r mask)
  old ← load 1 (p + s >>> 3)
  store 1 (p + s >>> 3) (bit_and old (2 ^ 32 - 1 - mask >>> bit_and s 7))
  kept ← load 1 (p + s >>> 3)
  store 1 (p + s >>> 3) (bit_or kept (rnd_bits >>> bit_and s 7))

unfoldable pub mutate_random_bytes_insert : ℕ → ℕ → ℕ → ℕ → Cmd (Unit {0})
unfolding outside
mutate_random_bytes_insert p n s k =
    if outside n s k
    then pure tt
    else for_from (k >>> 3) 0 λ i. rand >>= λ r. store 1 (p + (i + s >>> 3)) r

unfoldable pub mutate_arithmetic : ℕ → ℕ → ℕ → ℕ → Cmd (Unit {0})
unfolding outside
mutate_arithmetic p n s k = if outside n s k then pure tt else do
  r ← rand_mod arith_max
  let rnd = u16 (r + 1)
  coin ← rand
  let is_add = bit_and coin 1
  let change = λ (x : ℕ). if is_add == 0 then x + 2 ^ 16 - rnd else x + rnd
  if (k >>> 3) == 2
      then load 2 (p + s >>> 3) >>= (λ word. store 2 (p + s >>> 3) (change word))
      else load 1 (p + s >>> 3) >>= (λ byte. store 1 (p + s >>> 3) (change byte))

unfoldable pub mutate_bits_flip : ℕ → ℕ → ℕ → ℕ → Cmd (Unit {0})
unfolding outside
mutate_bits_flip p n s k = if outside n s k then pure tt else do
  mask ← entry bits_arr k
  old ← load 1 (p + s >>> 3)
  store 1 (p + s >>> 3) (bit_xor old (mask >>> bit_and s 7))

unfoldable pub mutate_interest : ℕ → ℕ → ℕ → ℕ → Cmd (Unit {0})
unfolding outside
mutate_interest p n s k =
    if outside n s k
    then pure tt
    else if (k >>> 3) == 2
    then rand_mod 19 >>= entry interesting_16 >>= store 2 (p + s >>> 3)
    else rand_mod 9 >>= entry interesting_8 >>= store 1 (p + s >>> 3)

-- The body of the `switch` of `mutate_havoc`, by its case.
unfoldable pub havoc_case : ℕ → ℕ → ℕ → Cmd (Unit {0})
havoc_case p n zero = mutate_random_byte p n
havoc_case p n (suc zero) = do
  s ← rand_mod (u32 (n <<< 3))
  r ← rand
  mutate_rand_bits p n s (bit_and r 7 + 1)
havoc_case p n (suc (suc zero)) = do
  i ← rand_mod n
  let s = u32 (i <<< 3)
  r ← rand_mod (sub_u32 n (s >>> 3))
  mutate_random_bytes_insert p n s (u8 (u8 (r + 1) <<< 3))
havoc_case p n (suc (suc (suc zero))) = do
  i ← rand_mod n
  r ← rand_mod 2
  mutate_arithmetic p n (u32 (i <<< 3)) (u8 ((r + 1) <<< 3))
havoc_case p n (suc (suc (suc (suc zero)))) = do
  s ← rand_mod (u32 (n <<< 3))
  r ← rand
  mutate_bits_flip p n s (bit_and r 7 + 1)
havoc_case p n (suc (suc (suc (suc (suc zero))))) = do
  i ← rand_mod n
  r ← rand_mod 2
  mutate_interest p n (u32 (i <<< 3)) (u8 ((r + 1) <<< 3))
havoc_case p n _ = pure tt

-- One round of the loop of `mutate_havoc`.
unfoldable pub havoc_round : ℕ → ℕ → Cmd (Unit {0})
havoc_round p n = rand_mod 6 >>= havoc_case p n

unfoldable pub mutate_havoc : ℕ → ℕ → ℕ → Cmd (Unit {0})
mutate_havoc p n max_bytes_len =
    if ltb max_bytes_len n
    then pure tt
    else rand_mod (n >>> 1 + 1) >>= λ round. times round (havoc_round p n)
