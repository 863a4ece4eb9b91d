-- ===== src/RandomMutator.antt =====
-- blueman-main/mutator/mutator_random.c: random bytes over the link-layer payload.
-- The functions run on a machine whose block is the `BLE_pkt` (`Packet`).
-- `get_upper_layer_type_for_zephyr` is called and its answer is not used, as in the source.
pub mod Rewrite
pub mod Safety
pub mod Overflow
mod Tests
use blueman_artifact.Prelude.{
  ℕ, zero, suc, ◌+◌, ◌/◌, ◌≡◌, leb, ltb, ◌==◌, if◌then◌else◌, u32, sub_u32, Bool, true, false,
}
use blueman_artifact.Machine.{Cmd, pure, ◌>>=◌, ◌>>◌, rand_mod, load, store, times}
use blueman_artifact.Packet.{
  pkt_at, len_at, mutated_at, get_upper_layer_type, is_data_packet, load_max_payload_len, Layer,
}
use blueman_artifact.Strategy.{mutate_random_byte}

-- `max_mutation_round` rounds over the payload, unless it is empty.
unfoldable pub mutate_payload : ℕ → Cmd (Unit {0})
mutate_payload new_payload_len = if new_payload_len == 0 then pure tt else do
  r ← rand_mod new_payload_len
  times (u32 (r + 3) / 3) (mutate_random_byte (pkt_at + 2) new_payload_len)

-- What follows the label `end`.
unfoldable pub finish : ℕ → Cmd ℕ
finish new_payload_len = do
  store 1 (pkt_at + 1) new_payload_len
  store 4 len_at (u32 (new_payload_len + 2 + 3))
  pure new_payload_len

-- From the random header byte to the `return` of both mutators.
unfoldable pub rewrite : ℕ → Cmd ℕ
unfolding mutate_payload finish
rewrite new_payload_len = do
  mutate_random_byte pkt_at 1
  mutate_payload new_payload_len
  finish new_payload_len

unfoldable pub choose_len : ℕ → ℕ → Cmd ℕ
choose_len payload_len max_payload_len = do
  coin ← rand_mod 100
  if leb 50 coin then (rand_mod max_payload_len >>= λ r. pure (u32 (r + 1))) else pure payload_len

unfoldable pub advertising_mutator : Cmd ℕ
unfolding rewrite choose_len
advertising_mutator = do
  len ← load 4 len_at
  if leb len 5 then pure 0 else do
    max_payload_len ← load_max_payload_len
    new_payload_len ← choose_len (sub_u32 (sub_u32 len 2) 3) max_payload_len
    rewrite new_payload_len

unfoldable pub data_mutator : Layer → Cmd ℕ
unfolding rewrite
data_mutator top_layer_type = do
  len ← load 4 len_at
  if leb len 5 then pure 0 else do
    max_payload_len ← load_max_payload_len
    r ← rand_mod max_payload_len
    rewrite (u32 (r + 1))

unfoldable pub mark_mutated : ℕ → Cmd ℕ
mark_mutated ret = if ret == 0 then pure ret else store 4 mutated_at 1 >> pure ret

unfoldable pub mutate_strategy : Cmd ℕ
unfolding mark_mutated
mutate_strategy = do
  skip ← rand_mod 100
  if leb 98 skip then pure 0 else do
    data_pkt ← is_data_packet
    ret ← if data_pkt then get_upper_layer_type >>= data_mutator else advertising_mutator
    mark_mutated ret

unfoldable pub mutate_pkt : ℕ → Cmd ℕ
unfolding mutate_strategy
mutate_pkt idx = mutate_strategy
