-- ===== src/Packet/Layout.antt =====
-- What a frame says of the fields outside it, and loads and stores of fields by their values.
use blueman_artifact.Prelude.{
  ℕ, ◌+◌, ◌≤◌, ◌≡◌, refl, ◌∙◌, ◌⊎◌, arith, length, peek, poke, peek-congr, length-poke, le→leb,
  AllBytes-poke, get_or-poke_outside,
}
use blueman_artifact.Machine.{Machine, drawn, ok, load, store}
use blueman_artifact.Machine.Touches.{Frame}
use blueman_artifact.Packet.{
  IsPacket, sid, device_id, address, max_payload_len, sid_at, device_id_at, address_at,
  max_payload_len_at,
}

pub peek-Frame :
    {lo hi : ℕ} {s t : Machine} (i k : ℕ)
    → Frame lo hi s t
    → (i + k ≤ lo) ⊎ (hi ≤ i)
    → peek t.mem i k ≡ peek s.mem i k
peek-Frame {s = s} {t = t} i k f h = peek-congr k t.mem s.mem i (λ j p q. f.outside j (omega arith))

pub Frame-IsPacket : {lo hi : ℕ} {s t : Machine} → Frame lo hi s t → IsPacket s → IsPacket t
Frame-IsPacket f v = record { size = f.same_length ∙ v.size; bytes = f.bytes v.bytes }

-- The fields that a mutation must leave alone.
pub record SameRoute (s t : Machine) : Type 0 where
  pub same_sid : sid t ≡ sid s
  pub same_device : device_id t ≡ device_id s
  pub same_address : address t ≡ address s
  pub same_limit : max_payload_len t ≡ max_payload_len s

pub SameRoute-refl : (s : Machine) → SameRoute s s
SameRoute-refl s = record {
  same_sid = refl;
  same_device = refl;
  same_address = refl;
  same_limit = refl;
}

pub SameRoute-drawn : (s : Machine) → SameRoute s (drawn s)
SameRoute-drawn s = record {
  same_sid = refl;
  same_device = refl;
  same_address = refl;
  same_limit = refl;
}

pub SameRoute-trans : {s t u : Machine} → SameRoute s t → SameRoute t u → SameRoute s u
SameRoute-trans f g = omega arith

-- Bytes from `pkt` on, and the fields `mutated` and `len`, lie outside the route.
pub Frame-SameRoute :
    {lo hi : ℕ} {s t : Machine}
    → Frame lo hi s t
    → ((24 ≤ lo) ⊎ ((16 ≤ lo) × (hi ≤ 20))) ⊎ ((8 ≤ lo) × (hi ≤ 12))
    → SameRoute s t
Frame-SameRoute f h = record {
  same_sid = peek-Frame sid_at 4 f (omega arith);
  same_device = peek-Frame device_id_at 4 f (omega arith);
  same_address = peek-Frame address_at 4 f (omega arith);
  same_limit = peek-Frame max_payload_len_at 4 f (omega arith);
}

pub load-ok : (k i : ℕ) (s : Machine) → i + k ≤ length s.mem → load k i s ≡ ok (peek s.mem i k) s
unfolding load
load-ok k i s h = rw (le→leb (i + k) (length s.mem) h)

pub store-ok :
    (k i v : ℕ) (s : Machine)
    → i + k ≤ length s.mem
    → store k i v s ≡ ok tt (record s { mem = poke s.mem i k v })
unfolding store
store-ok k i v s h = rw (le→leb (i + k) (length s.mem) h)

pub poke-Frame : (k i v : ℕ) (s : Machine) → Frame i (i + k) s (record s { mem = poke s.mem i k v })
poke-Frame k i v s = record {
  same_length = length-poke k s.mem i v;
  outside = λ j h. get_or-poke_outside k s.mem i v j h;
  bytes = AllBytes-poke k s.mem i v;
}
