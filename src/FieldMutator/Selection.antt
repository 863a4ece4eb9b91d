-- ===== src/FieldMutator/Selection.antt =====
-- The packet selection of mutator_full_stack2.c: `selection_strategy_setup`,
-- `should_mutate_packet`, and `mutate_pkt`, which asks it.
pub mod Laws
use blueman_artifact.Prelude.{ℕ, ◌+◌, ◌≡◌, refl, leb, ◌==◌, if◌then◌else◌, u32, Bool}
use blueman_artifact.Machine.{Machine, drawn, ok, Cmd, pure, ◌>>=◌, rand, rand_mod, load}
use blueman_artifact.Packet.{len_at}
use blueman_artifact.FieldMutator.{mutate_strategy}

-- The `float` arithmetic is the compiler's: a type of values, `n / 100.0f`, and the test
-- `(float)r / RAND_MAX < prob`.
pub record Floats : Type 1 where
  pub Prob : Type 0
  pub percent : ℕ → Prob
  pub below : ℕ → Prob → Bool

-- `PktselMode`; any other value of the enumeration's type is `invalid`.
pub data Mode : Type 0 where
  fixed_prob_10 fixed_prob_25 fixed_prob_50 fixed_prob_75 fixed_prob_100 : Mode
  selective_25_75 selective_75_25 random_prob mixed_prob : Mode
  invalid : ℕ → Mode

module _ (fl : Floats) where
  open fl use {Prob, percent, below}

  -- `PktselConfig`
  pub record Config : Type 0 where
    pub mode : Mode
    pub fixed_prob : Prob
    pub first_prob : Prob
    pub second_prob : Prob
    pub entry_index : ℕ

  -- The `switch` of `selection_strategy_setup`, once the mode and the index are stored.
  unfoldable pub set_probs : Mode → Config → Config
  set_probs fixed_prob_10 c = record c { fixed_prob = percent 10 }
  set_probs fixed_prob_25 c = record c { fixed_prob = percent 25 }
  set_probs fixed_prob_50 c = record c { fixed_prob = percent 50 }
  set_probs fixed_prob_75 c = record c { fixed_prob = percent 75 }
  set_probs fixed_prob_100 c = record c { fixed_prob = percent 100 }
  set_probs selective_25_75 c = record c { first_prob = percent 25; second_prob = percent 75 }
  set_probs selective_75_25 c = record c { first_prob = percent 75; second_prob = percent 25 }
  set_probs _ c = c

  -- Out of range, the mode falls back to FIXED_PROB_50.
  abbrev pub valid_mode : Mode → Mode
  valid_mode (invalid n) = fixed_prob_50
  valid_mode m = m

  unfoldable pub selection_strategy_setup : Mode → ℕ → Config → Config
  unfolding set_probs
  selection_strategy_setup mode entry_index c =
      set_probs (valid_mode mode)
        (record c { mode = valid_mode mode; entry_index = u32 entry_index })

  -- The probability of `should_mutate_packet`; RANDOM_PROB draws one.
  unfoldable pub packet_prob : Mode → Config → ℕ → Cmd Prob
  packet_prob random_prob c idx = rand_mod 91 >>= λ r. pure (percent (r + 10))
  packet_prob selective_25_75 c idx =
      pure (if leb c.entry_index idx then c.first_prob else c.second_prob)
  packet_prob selective_75_25 c idx =
      pure (if leb c.entry_index idx then c.first_prob else c.second_prob)
  packet_prob mixed_prob c idx = pure (percent 50)
  packet_prob (invalid n) c idx = pure (percent 50)
  packet_prob _ c idx = pure c.fixed_prob

  unfoldable pub should_mutate_packet : Config → ℕ → Cmd Bool
  unfolding packet_prob
  should_mutate_packet c idx = do prob ← packet_prob c.mode c idx; r ← rand; pure (below r prob)

  unfoldable pub mutate_pkt : Config → ℕ → Cmd ℕ
  unfolding should_mutate_packet
  mutate_pkt c idx = do
    len ← load 4 len_at
    if len == 2 + 3
        then pure 0
        else do chosen ← should_mutate_packet c idx; if chosen then mutate_strategy else pure 0
