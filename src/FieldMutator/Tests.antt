-- ===== src/FieldMutator/Tests.antt =====
-- Runs of the field mutator on sample packets.
use blueman_artifact.Prelude.{ℕ, ◌*◌, ◌≤◌, ◌≡◌, inl, refl, arith, get_or, ltb}
use blueman_artifact.Machine.{Machine}
use blueman_artifact.Machine.Total.{Returns}
use blueman_artifact.Machine.Touches.{Frame}
use blueman_artifact.Packet.Samples.{sample, sample-IsPacket, always}
use blueman_artifact.FieldMutator.{mutate_strategy, att_mutator, sm_mutator}
use blueman_artifact.FieldMutator.Safety.{Result, mutate_strategy-Frame, mutate_strategy-Result}
use blueman_artifact.FieldMutator.Attribute.{upper_mutators_spare_pkt}
use blueman_artifact.FieldMutator.Selection.{Floats, Config, fixed_prob_50, random_prob}

-- An advertising packet of 20 bytes, and an ATT packet of 20 bytes.
abbrev advertisement : Machine
advertisement = sample 0x8e89bed6 20 37 0 0 (always 3)

abbrev attribute : Machine
attribute = sample 0x12345678 20 37 0x0f02 4 (always 90)

mutate_strategy-Frame_example :
    Returns (λ ret t. (ret ≤ 1) × Frame 6 279 attribute t) (mutate_strategy attribute)
mutate_strategy-Frame_example =
    mutate_strategy-Frame attribute (sample-IsPacket 0x12345678 20 37 0x0f02 4 (always 90))
      (omega arith) (omega arith)

mutate_strategy-Result_example :
    Returns (λ ret t. Result advertisement t ret) (mutate_strategy advertisement)
mutate_strategy-Result_example =
    mutate_strategy-Result advertisement (sample-IsPacket 0x8e89bed6 20 37 0 0 (always 3))
      (omega arith) (omega arith) (omega arith) (inl refl)

upper_mutators_spare_pkt_example :
    Returns
      (λ r t. (j : ℕ) → 24 ≤ j → get_or t.mem j 0 ≡ get_or attribute.mem j 0)
      (att_mutator attribute)
    × Returns
        (λ r t. (j : ℕ) → 24 ≤ j → get_or t.mem j 0 ≡ get_or attribute.mem j 0)
        (sm_mutator attribute)
upper_mutators_spare_pkt_example =
    upper_mutators_spare_pkt attribute (sample-IsPacket 0x12345678 20 37 0x0f02 4 (always 90))
      (omega arith)

-- Fractions in place of `float`, with `RAND_MAX` at 2147483647.
abbrev fractions : Floats
fractions = record { Prob = ℕ; percent = λ n. n; below = λ r n. ltb (100 * r) (n * 2147483647) }

abbrev half : Config fractions
half = record {
  mode = fixed_prob_50;
  fixed_prob = 50;
  first_prob = 0;
  second_prob = 0;
  entry_index = 0;
}

abbrev other : Config fractions
other = record {
  mode = random_prob;
  fixed_prob = 7;
  first_prob = 8;
  second_prob = 9;
  entry_index = 10;
}
