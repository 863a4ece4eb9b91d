-- ===== src/FieldMutator/Selection/Laws.antt =====
-- What a setup of the packet selection decides.
use blueman_artifact.Prelude.{ℕ, ◌≡◌, refl, leb, if◌then◌else◌, u32}
use blueman_artifact.Machine.{Machine, drawn, ok, rand}
use blueman_artifact.FieldMutator.Selection.{
  Floats, Mode, fixed_prob_10, selective_25_75, selective_75_25, invalid, Config,
  selection_strategy_setup, should_mutate_packet,
}

module _ (fl : Floats) where
  open fl use {percent, below}

  -- After a setup, for valid and invalid modes alike, `should_mutate_packet` does the same for every
  -- index and state, whatever the configuration held before.
  pub should_mutate_packet-selection_strategy_setup :
      (mode : Mode) (entry_index idx : ℕ) (c c' : Config fl) (s : Machine)
      → should_mutate_packet fl (selection_strategy_setup fl mode entry_index c) idx s
        ≡ should_mutate_packet fl (selection_strategy_setup fl mode entry_index c') idx s
  unfolding should_mutate_packet selection_strategy_setup
  should_mutate_packet-selection_strategy_setup fixed_prob_10 n i c c' s = refl
  should_mutate_packet-selection_strategy_setup (invalid m) n i c c' s = refl
  should_mutate_packet-selection_strategy_setup _ n i c c' s = refl

  -- After a setup to a SELECTIVE mode, `should_mutate_packet` returns, draws one number, and tests it
  -- against the first percentage of the mode's name for an index from `entry_index` on, and against
  -- the second for an index before it.
  pub selective_order :
      (entry_index idx : ℕ) (c : Config fl) (s : Machine)
      → (should_mutate_packet fl (selection_strategy_setup fl selective_25_75 entry_index c) idx s
          ≡ ok
              (below (s.draws 0) (if leb (u32 entry_index) idx then percent 25 else percent 75))
              (drawn s))
        × (should_mutate_packet fl (selection_strategy_setup fl selective_75_25 entry_index c) idx s
            ≡ ok
                (below (s.draws 0) (if leb (u32 entry_index) idx then percent 75 else percent 25))
                (drawn s))
  unfolding should_mutate_packet selection_strategy_setup rand
  selective_order n i c s = (refl, refl)
