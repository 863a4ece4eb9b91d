-- ===== src/FieldMutator/Attribute.antt =====
-- `ATT_mutator` and `SM_mutator` hand the address of the structure, not of its `pkt` array, to the
-- macros that find the opcode and the parameters.
use blueman_artifact.Prelude.{ℕ, ◌≤◌, ◌≡◌, inr, arith, get_or}
use blueman_artifact.Machine.{Machine}
use blueman_artifact.Machine.Total.{Returns, Returns-mono}
use blueman_artifact.Packet.{IsPacket, len}
use blueman_artifact.FieldMutator.{att_mutator, sm_mutator}
use blueman_artifact.FieldMutator.Region.{att_mutator-Frame, sm_mutator-Frame}

module _ (s : Machine) (v : IsPacket s) where
  -- On a packet of at most 27 bytes neither `ATT_mutator` nor `SM_mutator` changes any byte of
  -- `pkt->pkt`, whatever the random numbers are: what they write lies in the fields before it.
  pub upper_mutators_spare_pkt :
      len s ≤ 27
      → Returns (λ r t. (j : ℕ) → 24 ≤ j → get_or t.mem j 0 ≡ get_or s.mem j 0) (att_mutator s)
        × Returns (λ r t. (j : ℕ) → 24 ≤ j → get_or t.mem j 0 ≡ get_or s.mem j 0) (sm_mutator s)
  upper_mutators_spare_pkt short = (
    Returns-mono (att_mutator-Frame s v (omega arith) 24 (omega arith) (omega arith) (omega arith))
        λ r t p j h. p.1.outside j (inr h),
    Returns-mono (sm_mutator-Frame s v (omega arith) 24 (omega arith) (omega arith) (omega arith))
        λ r t p j h. p.1.outside j (inr h),
  )
