-- ===== src/RandomMutator/Tests.antt =====
-- Runs of the random mutator on sample packets.
use blueman_artifact.Prelude.{◌≡◌, refl, arith}
use blueman_artifact.Machine.{Machine, fault}
use blueman_artifact.Machine.Total.{Returns}
use blueman_artifact.Packet.{ll}
use blueman_artifact.Packet.Samples.{sample, sample-IsPacket, always}
use blueman_artifact.RandomMutator.{data_mutator, mutate_pkt}
use blueman_artifact.RandomMutator.Safety.{Result, mutate_pkt-Result}
use blueman_artifact.RandomMutator.Overflow.{data_mutator-fault}

-- An advertising packet of 20 bytes, and a data packet whose payload limit is 255.
abbrev advertisement : Machine
advertisement = sample 0x8e89bed6 20 37 0 0 (always 3)

abbrev wide : Machine
wide = sample 0x12345678 20 255 0 0 (always 254)

mutate_pkt-Result_example :
    Returns (λ ret t. Result advertisement t ret) (mutate_pkt 0 advertisement)
mutate_pkt-Result_example =
    mutate_pkt-Result advertisement 0 (sample-IsPacket 0x8e89bed6 20 37 0 0 (always 3))
      (omega arith) (omega arith) (omega arith)

data_mutator-fault_example : data_mutator ll wide ≡ fault
data_mutator-fault_example =
    data_mutator-fault wide ll (sample-IsPacket 0x12345678 20 255 0 0 (always 254)) (omega arith)
      (omega arith) (λ i. refl)
