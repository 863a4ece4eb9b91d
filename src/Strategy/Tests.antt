-- ===== src/Strategy/Tests.antt =====
-- The shared mutations on small buffers.
use blueman_artifact.Prelude.{◌+◌, arith}
use blueman_artifact.Machine.Touches.{Touches}
use blueman_artifact.Strategy.{mutate_havoc}
use blueman_artifact.Strategy.Region.{mutate_havoc-Touches}

mutate_havoc-Touches_example : Touches 26 (26 + 13) (λ _. Unit) (mutate_havoc 26 13 200)
mutate_havoc-Touches_example = mutate_havoc-Touches 26 13 200 (omega arith)
