-- ===== src/AflMutator/Tests.antt =====
-- Runs of the AFL-style mutator on sample packets.
use blueman_artifact.Prelude.{◌≤◌, ◌+◌, ◌≡◌, refl, arith}
use blueman_artifact.Machine.{Machine, fault}
use blueman_artifact.Machine.Total.{Returns}
use blueman_artifact.Machine.Touches.{Touches}
use blueman_artifact.Packet.Samples.{sample, sample-IsPacket, always}
use blueman_artifact.AflMutator.{mutate_strategy, mutate_pkt}
use blueman_artifact.AflMutator.Blocks.{afl_switch}
use blueman_artifact.AflMutator.Blocks.Region.{afl_switch-Touches}
use blueman_artifact.AflMutator.Safety.{Truncated, mutate_pkt-Truncated}
use blueman_artifact.AflMutator.Overflow.{mutate_strategy-fault}

-- A data packet with a payload limit of 37, and one whose limit is 255.
abbrev narrow : Machine
narrow = sample 0x12345678 20 37 0 0 (always 3)

abbrev wide : Machine
wide = sample 0x12345678 20 255 0 0 (always 255)

mutate_pkt-Truncated_example : Returns (λ ret t. Truncated narrow t ret) (mutate_pkt 0 narrow)
mutate_pkt-Truncated_example =
    mutate_pkt-Truncated narrow (sample-IsPacket 0x12345678 20 37 0 0 (always 3)) (omega arith) 0

mutate_strategy-fault_example : mutate_strategy wide ≡ fault
mutate_strategy-fault_example =
    mutate_strategy-fault wide (sample-IsPacket 0x12345678 20 255 0 0 (always 255)) (omega arith)
      (λ i. refl)

-- The insertion of a block.
afl_switch-Touches_example :
    Touches 24 (24 + 255) (λ k. (k ≤ 255) × (1 ≤ 20 → 1 ≤ k)) (afl_switch 24 255 20 13)
afl_switch-Touches_example = afl_switch-Touches 24 20 255 (omega arith) (omega arith) 13
