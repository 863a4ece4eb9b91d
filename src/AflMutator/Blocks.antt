-- ===== src/AflMutator/Blocks.antt =====
-- blueman-main/mutator/mutator_afl4.c: `choose_block_len` and the cases 8 to 14 of the switch, which
-- `rand() % 8` does not reach. They change the length, so a case returns the new one: the local
-- `bytes_len` and the length behind `bytes_len_ptr` agree throughout. A `memcpy` whose parts overlap
-- copies as `memmove` does; C leaves that undefined. `malloc` is taken to succeed.
pub mod Region
use blueman_artifact.Prelude.{
  ℕ, zero, suc, ◌+◌, ◌/◌, ◌-◌, min, ltb, leb, ◌==◌, if◌then◌else◌, Bool, true, false, ◌&&◌, not,
  bit_or, bit_xor, u8, u32, sub_u32, ◌<<<◌,
}
use blueman_artifact.Machine.{Cmd, pure, ◌>>=◌, ◌>>◌, rand_mod, load, store}
use blueman_artifact.Strategy.{arith_max}
use blueman_artifact.AflMutator.{store_big_endian, minus, plus, afl_case}

-- The calls of the C library.
unfoldable pub memmove : (dst src k : ℕ) → Cmd (Unit {0})
memmove dst src k = do bytes ← load k src; store k dst bytes

unfoldable pub memset : ℕ → ℕ → ℕ → Cmd (Unit {0})
memset i c zero = pure tt
memset i c (suc k) = store 1 i c >> memset (i + 1) c k

-- `min_value` and `max_value`.
unfoldable pub block_range : ℕ → Cmd (ℕ × ℕ)
block_range zero = pure (1, 16)
block_range (suc zero) = pure (16, 32)
block_range (suc (suc _)) = do r ← rand_mod 10; if r == 0 then pure (128, 1500) else pure (32, 128)

unfoldable pub choose_block_len : ℕ → Cmd ℕ
unfolding block_range
choose_block_len limit = if leb limit 1 then pure 1 else do
  rlim ← rand_mod 3
  (low, max_value) ← block_range rlim
  let min_value = if leb limit low then 1 else low
  r ← rand_mod (u32 (sub_u32 (min max_value limit) min_value + 1))
  pure (u32 (min_value + r))

-- The four loads, the highest byte first.
unfoldable pub load_big_endian : ℕ → Cmd ℕ
load_big_endian i = do
  b₀ ← load 1 i
  b₁ ← load 1 (i + 1)
  b₂ ← load 1 (i + 2)
  b₃ ← load 1 (i + 3)
  pure (bit_or (bit_or (bit_or (b₀ <<< 24) (b₁ <<< 16)) (b₂ <<< 8)) b₃)

-- Cases 8 and 9: `change old value` over a double word, in a random byte order.
unfoldable pub arith_dword : (ℕ → ℕ → ℕ) → ℕ → ℕ → Cmd (Unit {0})
unfolding load_big_endian store_big_endian
arith_dword change p n = if ltb n 4 then pure tt else do
  pos ← rand_mod (sub_u32 n 3)
  r ← rand_mod arith_max
  little ← rand_mod 2
  if little == 0
      then (do
        original ← load_big_endian (p + pos)
        store_big_endian (p + pos) (u32 (change original (r + 1))))
      else (do old ← load 4 (p + pos); store 4 (p + pos) (change old (r + 1)))

-- Case 10: a byte is changed for certain.
unfoldable pub xor_byte : ℕ → ℕ → Cmd (Unit {0})
xor_byte p n = if n == 0 then pure tt else do
  pos ← rand_mod n
  r ← rand_mod 255
  old ← load 1 (p + pos)
  store 1 (p + pos) (bit_xor old (u8 (r + 1)))

-- Cases 11 and 12: a block is deleted.
unfoldable pub delete_block : ℕ → ℕ → Cmd ℕ
unfolding memmove choose_block_len
delete_block p n = if ltb n 2 then pure n else do
  chosen ← choose_block_len (n / 2)
  let del_len = if leb n chosen then 1 else chosen
  del_from ← rand_mod (u32 (sub_u32 n del_len + 1))
  memmove (p + del_from) (p + del_from + del_len) (sub_u32 (sub_u32 n del_from) del_len)
  pure (sub_u32 n del_len)

-- Case 13: the bytes of the new block, copied from elsewhere and padded, or all the same.
unfoldable pub fill_block : ℕ → ℕ → (insert_at insert_len : ℕ) → Cmd (Unit {0})
unfolding memmove memset
fill_block p n insert_at insert_len = do
  q ← rand_mod 4
  if ltb q 3 && not (n == 0)
      then (do
        clone_from ← rand_mod n
        let clone_len = min insert_len (sub_u32 n clone_from)
        memmove (p + insert_at) (p + clone_from) clone_len
        if ltb clone_len insert_len
            then (do
              c ← rand_mod 256
              memset (p + insert_at + clone_len) c (insert_len - clone_len))
            else pure tt)
      else (do c ← rand_mod 256; memset (p + insert_at) c insert_len)

unfoldable pub insert_block : (p max_bytes_len n : ℕ) → Cmd ℕ
unfolding memmove choose_block_len fill_block
insert_block p max_bytes_len n = if sub_u32 max_bytes_len n == 0 then pure n else do
  chosen ← choose_block_len (min 64 (sub_u32 max_bytes_len n))
  let insert_len = if chosen == 0 then 1 else chosen
  insert_at ← rand_mod (u32 (n + 1))
  memmove (p + insert_at + insert_len) (p + insert_at) (sub_u32 n insert_at)
  fill_block p n insert_at insert_len
  pure (u32 (n + insert_len))

-- Case 14: a block is written over, with another or with a constant.
unfoldable pub overwrite_block : ℕ → ℕ → Cmd (Unit {0})
unfolding memmove memset choose_block_len
overwrite_block p n = if ltb n 2 then pure tt else do
  copy_len ← choose_block_len (sub_u32 n 1)
  copy_to ← rand_mod (u32 (sub_u32 n copy_len + 1))
  q ← rand_mod 4
  if ltb q 3
      then (do
        copy_from ← rand_mod (u32 (sub_u32 n copy_len + 1))
        if copy_from == copy_to then pure tt else memmove (p + copy_to) (p + copy_from) copy_len)
      else (do c ← rand_mod 256; memset (p + copy_to) c copy_len)

-- The cases from 8 on.
unfoldable pub block_case : (p max_bytes_len n : ℕ) → ℕ → Cmd ℕ
unfolding arith_dword xor_byte delete_block insert_block overwrite_block
block_case p max_bytes_len n zero = arith_dword minus p n >> pure n
block_case p max_bytes_len n (suc zero) = arith_dword plus p n >> pure n
block_case p max_bytes_len n (suc (suc zero)) = xor_byte p n >> pure n
block_case p max_bytes_len n (suc (suc (suc zero))) = delete_block p n
block_case p max_bytes_len n (suc (suc (suc (suc zero)))) = delete_block p n
block_case p max_bytes_len n (suc (suc (suc (suc (suc zero))))) = insert_block p max_bytes_len n
block_case p max_bytes_len n (suc (suc (suc (suc (suc (suc zero)))))) =
    overwrite_block p n >> pure n
block_case p max_bytes_len n (suc (suc (suc (suc (suc (suc (suc _))))))) = pure n

-- The whole switch.
unfoldable pub afl_switch : (p max_bytes_len n : ℕ) → ℕ → Cmd ℕ
unfolding afl_case block_case
afl_switch p max_bytes_len n c =
    if ltb c 8 then afl_case p n c >> pure n else block_case p max_bytes_len n (c - 8)
