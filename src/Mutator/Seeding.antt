-- ===== src/Mutator/Seeding.antt =====
-- `pre_mutate` and `mutator_init` of the three mutators (blueman-main/mutator/): where the random
-- numbers come from. What `rand()` returns after `srand(seed)` is a parameter, and so is what a `read`
-- of four bytes from a descriptor leaves in `init_seed`.
use blueman_artifact.Prelude.{ℕ, Bool, if◌then◌else◌, Option, u32}
use blueman_artifact.FieldMutator.Selection.{Floats, Config, fixed_prob_50}

pub record Generator : Type 0 where
  pub urandom_dev_fd : Option ℕ
  pub draws : ℕ → ℕ

module _ (stream : ℕ → ℕ → ℕ) (read : Option ℕ → ℕ) where
  unfoldable pub pre_mutate : Generator → Generator
  pre_mutate g = record g { draws = stream (u32 (read g.urandom_dev_fd)) }

  -- The random mutator does not call `pre_mutate`.
  unfoldable pub random_mutator_init : Option ℕ → Generator → Generator
  random_mutator_init fd g = record g { urandom_dev_fd = fd }

  unfoldable pub afl_mutator_init : Option ℕ → Generator → Generator
  unfolding pre_mutate
  afl_mutator_init fd g = pre_mutate (record g { urandom_dev_fd = fd })

  -- The field mutator also sets the packet selection, in the build without PKTSEL.
  unfoldable pub field_mutator_init :
      (fl : Floats) → (pktsel : Bool) → Option ℕ → Generator → Config fl → Generator × Config fl
  unfolding pre_mutate
  field_mutator_init fl pktsel fd g c =
      let seeded = pre_mutate (record g { urandom_dev_fd = fd }) in
      if pktsel
      then (seeded, c)
      else (seeded, record c { mode = fixed_prob_50; fixed_prob = fl.percent 50 })
