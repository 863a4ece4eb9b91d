-- ===== src/FieldMutator.antt =====
-- blueman-main/mutator/mutator_full_stack2.c: the mutator that knows the protocol's fields.
-- The functions run on a machine whose block is the `BLE_pkt` (`Packet`), so an index is an offset
-- into the structure. An `int32_t` is its bit pattern below 2 ^ 32; `-fwrapv` arithmetic is assumed
-- where a length near INT_MIN would overflow.
pub mod Selection
pub mod Region
pub mod Body
pub mod Safety
pub mod Attribute
mod Tests
use blueman_artifact.Prelude.{
  ℕ, zero, suc, ◌+◌, ◌-◌, ◌^◌, ◌≡◌, leb, ltb, ◌==◌, if◌then◌else◌, List, [], ◌∷◌, u8, u32, sub_u32,
  Bool, true, false, ◌||◌, not,
}
use blueman_artifact.Machine.{Cmd, pure, ◌>>=◌, ◌>>◌, rand_mod, load, store}
use blueman_artifact.Packet.{
  pkt_at, len_at, mutated_at, ble_pkt_max_len, get_upper_layer_type, is_data_packet,
  load_max_payload_len, Layer, ll, l2cap, sm, att,
}
use blueman_artifact.Strategy.{entry, mutate_rand_bits, mutate_havoc}

abbrev pub ll_header_len : ℕ
ll_header_len = 2

abbrev pub l2cap_header_len : ℕ
l2cap_header_len = 4

-- GET_ATT_OPCODE and GET_SM_CODE, applied to `pkt` and not to `pkt->pkt`: an offset from the
-- start of the structure.
abbrev pub opcode_at : ℕ
opcode_at = ll_header_len + l2cap_header_len

abbrev pub params_at : ℕ
params_at = opcode_at + 1

-- GET_L2CAP_HEADER and GET_L2CAP_PAYLOAD of `pkt->pkt`.
abbrev pub l2cap_header_at : ℕ
l2cap_header_at = pkt_at + ll_header_len

abbrev pub l2cap_payload_at : ℕ
l2cap_payload_at = l2cap_header_at + l2cap_header_len

abbrev pub att_op_maps : List ℕ
att_op_maps =
    0x01 ∷ 0x02 ∷ 0x03 ∷ 0x04 ∷ 0x05 ∷ 0x06 ∷ 0x07 ∷ 0x08 ∷ 0x09 ∷ 0x0a ∷ 0x0b ∷ 0x0c ∷ 0x0d ∷ 0x0e
    ∷ 0x0f ∷ 0x10 ∷ 0x11 ∷ 0x12 ∷ 0x13 ∷ 0x05 ∷ 0x16 ∷ 0x17 ∷ 0x18 ∷ 0x19 ∷ 0x20 ∷ 0x21 ∷ 0x22
    ∷ 0x23 ∷ 0x24 ∷ 0x1b ∷ 0x1d ∷ 0x1e ∷ 0xd2 ∷ 0xd3 ∷ 0x1a ∷ []

abbrev pub cid_maps : List ℕ
cid_maps = 0x4 ∷ 0x5 ∷ 0x6 ∷ 0x25 ∷ 0x27 ∷ 0x40 ∷ 0x41 ∷ []

-- `w <= 0` for the `int32_t` with bit pattern `w`.
abbrev pub le_zero : ℕ → Bool
le_zero w = w == 0 || leb (2 ^ 31) w

-- `pkt->len - 2 - 3`
abbrev pub payload_len_of : ℕ → ℕ
payload_len_of len = sub_u32 (sub_u32 len 2) 3

-- `if(rand() % 100 < percent) { body }`
unfoldable pub maybe : ℕ → Cmd (Unit {0}) → Cmd (Unit {0})
maybe percent body = rand_mod 100 >>= λ r. if ltb r percent then body else pure tt

unfoldable pub att_mutator : Cmd ℕ
att_mutator = do
  len ← load 4 len_at
  let att_params_len = sub_u32 (sub_u32 (payload_len_of len) l2cap_header_len) 1
  if le_zero att_params_len then pure 1 else do
    r ← rand_mod 100
    (if leb 30 r then rand_mod 35 >>= entry att_op_maps >>= store 1 opcode_at else pure tt)
    mutate_havoc params_at att_params_len ble_pkt_max_len
    pure 1

unfoldable pub sm_mutator : Cmd ℕ
unfolding maybe
sm_mutator = do
  len ← load 4 len_at
  let sm_data_len = sub_u32 (sub_u32 (payload_len_of len) l2cap_header_len) 1
  if le_zero sm_data_len then pure 1 else do
    maybe 70 (rand_mod 0xf >>= store 1 opcode_at)
    mutate_havoc params_at sm_data_len ble_pkt_max_len
    pure 1

unfoldable pub l2cap_mutator : Cmd ℕ
unfolding maybe
l2cap_mutator = do
  len ← load 4 len_at
  let payload_len = sub_u32 (payload_len_of len) l2cap_header_len
  cid ← load 2 (l2cap_header_at + 2)
  if le_zero payload_len then pure 0 else do
    r ← rand_mod 100
    new_payload_len ← if ltb r 20 then rand_mod (u32 (payload_len + 1)) else pure payload_len
    if new_payload_len == 0 then pure 1 else do
      maybe 20 (rand_mod 7 >>= entry cid_maps >>= store 2 (l2cap_header_at + 2))
      mutate_havoc l2cap_payload_at new_payload_len ble_pkt_max_len
      pure 1

unfoldable pub advertising_mutator : Cmd ℕ
unfolding maybe
advertising_mutator = do
  len ← load 4 len_at
  if le_zero (payload_len_of len) then pure 0 else do
    maybe 10 (mutate_rand_bits pkt_at 2 4 4)
    mutate_havoc (pkt_at + 2) (payload_len_of len) ble_pkt_max_len
    pure 1

unfoldable pub data_mutator : Cmd ℕ
unfolding maybe
data_mutator = do
  len ← load 4 len_at
  if le_zero (payload_len_of len) then pure 0 else do
    maybe 30 (mutate_rand_bits pkt_at 2 6 2 >> mutate_rand_bits pkt_at 2 0 4)
    mutate_havoc (pkt_at + 2) (payload_len_of len) ble_pkt_max_len
    pure 1

-- The `switch` over the layer, with `r = rand() % 100`.
unfoldable pub mutate_layer : Layer → ℕ → Cmd ℕ
mutate_layer ll r = if ltb r 25 then data_mutator else pure 0
mutate_layer l2cap r = if ltb r 25 then data_mutator else if ltb r 50 then l2cap_mutator else pure 0
mutate_layer att r =
    if ltb r 25
    then data_mutator
    else if ltb r 50
    then l2cap_mutator
    else if ltb r 75
    then att_mutator
    else pure 0
mutate_layer sm r =
    if ltb r 25
    then data_mutator
    else if ltb r 50
    then l2cap_mutator
    else if ltb r 75
    then sm_mutator
    else pure 0

-- The first step of `mutate_strategy`: a new length, in half of the calls.
unfoldable pub mutate_len : Cmd (Unit {0})
unfolding maybe
mutate_len = maybe 50 do
  max_payload_len ← load_max_payload_len
  r ← rand_mod (u32 (max_payload_len + 1))
  store 4 len_at (u32 (u32 (r + 2) + 3))

-- `header[1] = pkt->len - 2 - 3`
unfoldable pub write_length_byte : Cmd (Unit {0})
write_length_byte = load 4 len_at >>= λ len. store 1 (pkt_at + 1) (payload_len_of len)

unfoldable pub mutate_data : Cmd ℕ
unfolding mutate_layer write_length_byte
mutate_data = do
  top_layer_type ← get_upper_layer_type
  r ← rand_mod 100
  ret ← mutate_layer top_layer_type r
  write_length_byte
  pure ret

unfoldable pub mutate_advertising : Cmd ℕ
unfolding advertising_mutator write_length_byte
mutate_advertising = do ret ← advertising_mutator; write_length_byte; pure ret

-- The last step: `old_payload_len` is a `uint8_t`.
unfoldable pub mark : ℕ → ℕ → Cmd ℕ
mark old_payload_len ret = do
  len ← load 4 len_at
  (if not (ret == 0) || not (old_payload_len == len) then store 4 mutated_at 1 else pure tt)
  pure ret

unfoldable pub mutate_strategy : Cmd ℕ
unfolding mutate_len mutate_data mutate_advertising mark
mutate_strategy = do
  mutate_len
  len ← load 4 len_at
  data_pkt ← is_data_packet
  ret ← if data_pkt then mutate_data else mutate_advertising
  mark (u8 len) ret
